-- ===== src/Examples/Calendar.antt =====
-- The calendar of the common era, and dates in it.
use power_plant.Prelude.{
  ℕ, zero, suc, ◌+◌, ◌-◌, ◌/◌, ◌%◌, ◌≡◌, ◌≢◌, ◌⊎◌, min, Bool, not, ◌&&◌, ◌||◌, Option, none, some,
  arith, ltb, leb, ◌==◌, if◌then◌else◌,
}
use power_plant.Privileges.{Calendar, IsCalendar}

abbrev is_leap : ℕ → Bool
is_leap y = (y % 4 == 0 && not (y % 100 == 0)) || y % 400 == 0

abbrev days_in : ℕ → ℕ → ℕ
days_in y m =
    if m == 2
    then (if is_leap y then 29 else 28)
    else (if m == 4 || m == 6 || m == 9 || m == 11 then 30 else 31)

abbrev days_before : ℕ → ℕ → ℕ
days_before y zero = 0
days_before y (suc m) = days_before y m + (if m == 0 then 0 else days_in y m)

abbrev Date : Type 0
Date = ℕ × ℕ × ℕ

abbrev of_ymd : ℕ → ℕ → ℕ → Option Date
of_ymd y m d =
    if leb y 262_142 && leb 1 m && leb m 12 && leb 1 d && leb d (days_in y m)
    then some (y, m, d)
    else none

abbrev next : Date → Option Date
next (y, m, d) =
    if ltb d (days_in y m)
    then some (y, m, d + 1)
    else if ltb m 12
    then some (y, m + 1, 1)
    else if ltb y 262_142
    then some (y + 1, 1, 1)
    else none

abbrev add : ℕ → Date → Option Date
add zero a = some a
add (suc n) a = elim (next a) [ none ↦ none | some b ↦ add n b ]

abbrev ordinal : Date → ℕ
ordinal (y, m, d) = days_before y m + d

abbrev bounded_year : Date → ℕ
bounded_year a = min a.0 262_142

abbrev pub gregorian : Calendar
gregorian = record {
  NaiveDate = Date;
  from_ymd_opt = of_ymd;
  checked_add_days = add;
  num_days = λ a b. ordinal a - ordinal b;
  year = bounded_year;
  month = λ a. a.1;
  day = λ a. a.2;
  from_timestamp = λ seconds. add (seconds / 86_400) (1970, 1, 1);
}

next_cases :
    (y m d : ℕ) (a b : Date)
    → of_ymd y m d ≡ some a
    → next a ≡ some b
    → ((bounded_year b ≡ y) × ((b.1 ≢ 1) ⊎ (b.2 ≢ 1)))
      ⊎ ((bounded_year b ≡ suc y) × (b.1 ≡ 1) × (b.2 ≡ 1))
next_cases y m d a b e f = ground arith

pub gregorian-IsCalendar : IsCalendar gregorian
gregorian-IsCalendar = record {
  next_day = λ {y} {m} {d} {a} {b} e f. next_cases y m d a b e (ground arith);
  year_le = λ a. ground arith;
}
