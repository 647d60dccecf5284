-- ===== src/Privileges/Dates.antt =====
-- Dates, quarters and penalties (pallets/privileges/src/contribution_info.rs, and `check_correct_date` of
-- src/lib.rs).
use power_plant.Prelude.{
  ℕ, suc, ◌*◌, ◌≤◌, ◌≡◌, ◌≢◌, ◌⊎◌, inl, inr, Bool, ◌&&◌, ◌||◌, Option, none, some, arith, ltb, leb,
  ◌==◌, if◌then◌else◌, Option-cases, sub32, Result, ok, err,
}
use power_plant.Slashing.Entity.{Perbill}
use power_plant.Privileges.{
  Calendar, IsCalendar, CurrentDateInfo, PenaltyType, Error, declining, flat, not_correct_date,
}

unfoldable pub check_quarter : ℕ → Option ℕ
check_quarter month =
    if leb 1 month && leb month 3
    then some 1
    else if leb 4 month && leb month 6
    then some 2
    else if leb 7 month && leb month 9
    then some 3
    else if leb 10 month && leb month 12
    then some 4
    else none

abbrev pub or_error : {A : Type 0} → Option A → Error → Result Error A
or_error none e = err e
or_error (some a) e = ok a

abbrev pub and_then : {A B : Type 0} → Result Error A → (A → Result Error B) → Result Error B
and_then (ok a) f = f a
and_then (err e) f = err e

-- Whether the second date is later.
unfoldable pub check_correct_date : CurrentDateInfo → CurrentDateInfo → Bool
check_correct_date last_date new_date =
    ltb last_date.current_year new_date.current_year
    || (new_date.current_year == last_date.current_year
        && ltb last_date.days_since_new_year new_date.days_since_new_year)

-- In parts per billion.
unfoldable pub penalty_percent : Perbill → (ℕ → ℕ) → PenaltyType → ℕ → ℕ
penalty_percent perbill from_percent flat current_quarter = perbill.from_rational 7 40
penalty_percent perbill from_percent declining current_quarter =
    from_percent (sub32 30 (5 * current_quarter))

module _ (K : Calendar) where
  unfoldable pub check_days_since_new_year : ℕ → ℕ → ℕ → Result Error ℕ
  check_days_since_new_year year month day =
      and_then (or_error (K.from_ymd_opt year 1 1) not_correct_date) λ year_first_day.
        and_then (or_error (K.from_ymd_opt year month day) not_correct_date)
          λ new_date. ok (K.num_days new_date year_first_day)

  -- `CurrentDateInfo::new`
  unfoldable pub new : ℕ → ℕ → ℕ → Result Error CurrentDateInfo
  new year month day = and_then (or_error (check_quarter month) not_correct_date) λ quarter.
      and_then (check_days_since_new_year year month day) λ days. ok (record {
        current_year = year;
        current_month = month;
        current_day = day;
        current_quarter = quarter;
        days_since_new_year = days;
      })

  unfoldable pub add_days : ℕ → CurrentDateInfo → Result Error CurrentDateInfo
  add_days days_num date =
      and_then
        (or_error (K.from_ymd_opt date.current_year date.current_month date.current_day)
          not_correct_date)
        λ naive. and_then (or_error (K.checked_add_days days_num naive) not_correct_date) λ later.
          and_then (or_error (check_quarter (K.month later)) not_correct_date) λ quarter.
            and_then (check_days_since_new_year (K.year later) (K.month later) (K.day later))
              λ days. ok (record {
                current_year = K.year later;
                current_month = K.month later;
                current_day = K.day later;
                current_quarter = quarter;
                days_since_new_year = days;
              })

  pub new-current_year :
      (year month day : ℕ) {date : CurrentDateInfo}
      → new year month day ≡ ok date
      → date.current_year ≡ year
  unfolding new
  new-current_year year month day e = ground arith

  -- The date of the next day is in the same year and not its first day, or the first day of the next year.
  pub add_days_next :
      (date : CurrentDateInfo) {date' : CurrentDateInfo}
      → IsCalendar K
      → add_days 1 date ≡ ok date'
      → (date'.current_year ≤ 262_142)
        × (((date'.current_year ≡ date.current_year)
              × ((date'.current_month ≢ 1) ⊎ (date'.current_day ≢ 1)))
            ⊎ (date'.current_year ≡ suc date.current_year))
  unfolding add_days
  add_days_next date laws e =
      elim (Option-cases (K.from_ymd_opt date.current_year date.current_month date.current_day)) [
        | inl no_date ↦ ground arith
        | inr (a, is_a) ↦ elim (Option-cases (K.checked_add_days 1 a)) [
          | inl no_later ↦ ground arith
          | inr (b, is_b) ↦
              let facts = laws.next_day is_a is_b in let bound = laws.year_le b in ground arith
        ]
      ]
