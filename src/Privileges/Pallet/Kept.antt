-- ===== src/Privileges/Pallet/Kept.antt =====
-- What each call of the pallet does to the points of a year whose rewards are set
-- (pallets/privileges/src/lib.rs).
use power_plant.Prelude.{
  ℕ, zero, suc, ◌≤◌, ◌<◌, ◌≡◌, ◌≢◌, ◌⊎◌, refl, ◌∙◌, inl, inr, true, none, arith, Bool-cases, set,
  sub32-exact, with_storage_layer, Assoc, lookup, delete, lookup-delete, Result-cases,
}
use power_plant.Privileges.{
  IsCalendar, CurrentDateInfo, PenaltyType, Config, Storage, Call, Origin, root, signed, unsigned,
  set_year,
}
use power_plant.Privileges.Dates.{new, add_days, check_correct_date, add_days_next}
use power_plant.Privileges.Points.{
  update_points_for_time, update_vipp_points_for_time, save_year_info,
}
use power_plant.Privileges.Membership.{
  do_set_user_privilege, do_set_vipp_status, do_exit_vip, slash_member, leave_vipp,
  do_change_penalty_type,
}
use power_plant.Privileges.Rewards.{
  force_set_vip_points, force_set_vipp_points, set_rewards, claim_rewards, are_rewards_not_set,
  set_member_points, set_vipp_member_points, pay,
}
use power_plant.Privileges.Pallet.{
  become_vip_status, pass_day, update_days, update_time, Extrinsic, call, dispatch, becomes_vip,
  time_updates, exits, changes_penalty, forces_vip_points, forces_vipp_points, sets_rewards, claims,
  max_update_days,
}

pub check_correct_date_le :
    (last_date new_date : CurrentDateInfo)
    → check_correct_date last_date new_date ≡ true
    → last_date.current_year ≤ new_date.current_year
unfolding check_correct_date
check_correct_date_le last_date new_date h = ground arith

module _ (C : Config) (year who : ℕ) where
  -- The rewards of the year are the same, and the account has the same points of it, or no more any.
  abbrev pub Kept : Storage C → Storage C → Type 0
  Kept s s' =
      (s'.rewards year ≡ s.rewards year)
      × ((lookup who (s'.vip_points year) ≡ lookup who (s.vip_points year))
          ⊎ (lookup who (s'.vip_points year) ≡ none))
      × ((lookup who (s'.vipp_points year) ≡ lookup who (s.vipp_points year))
          ⊎ (lookup who (s'.vipp_points year) ≡ none))

  abbrev pub Same : Storage C → Storage C → Type 0
  Same s s' =
      (s'.rewards year ≡ s.rewards year)
      × (s'.vip_points year ≡ s.vip_points year)
      × (s'.vipp_points year ≡ s.vipp_points year)
      × (s'.current_date ≡ s.current_date)

  abbrev pub YearIsOver : Storage C → Type 0
  YearIsOver s = year < s.current_date.current_year

  pub Kept-trans : (s₀ s₁ s₂ : Storage C) → Kept s₀ s₁ → Kept s₁ s₂ → Kept s₀ s₂
  Kept-trans s₀ s₁ s₂ h k = ground arith

  pass_day-Same :
      (date : CurrentDateInfo) (s : Storage C)
      → ((date.current_month ≢ 1) ⊎ (date.current_day ≢ 1)) ⊎ (suc year < date.current_year)
      → date.current_year ≤ 262_142
      → Same s (pass_day C date s)
  unfolding pass_day update_points_for_time update_vipp_points_for_time save_year_info
  pass_day-Same date s h le = ground (arith, sub32-exact date.current_year 1)

  update_days-Same :
      (days : ℕ) (current_date new_date : CurrentDateInfo) (s : Storage C)
      → IsCalendar C.calendar
      → year < current_date.current_year
      → Same s (update_days C days current_date new_date s).1
  unfolding update_days
  update_days-Same zero current_date new_date s laws h = (refl, refl, refl, refl)
  update_days-Same (suc days) current_date new_date s laws h =
      elim (Bool-cases (check_correct_date current_date new_date)) [
        | inr f ↦ rw f (refl, refl, refl, refl)
        | inl t ↦ elim (Result-cases (add_days C.calendar 1 current_date)) [
          | inl (e, is_e) ↦ rw (t, is_e) (refl, refl, refl, refl)
          | inr (next, is_ok) ↦
              let facts = add_days_next C.calendar current_date laws is_ok in
              let day = pass_day-Same next s (ground arith) (ground arith) in
              let rest =
                update_days-Same days next new_date (pass_day C next s) laws (ground arith) in
              rw (t, is_ok) (rest.0 ∙ day.0, rest.1 ∙ day.1, rest.2 ∙ day.2, rest.3 ∙ day.3)
        ]
      ]

  update_time-Kept :
      (origin : Origin) (y m d : ℕ) (s : Storage C)
      → IsCalendar C.calendar
      → YearIsOver s
      → let (_, s') = dispatch C origin (time_updates y m d) s in Kept s s' × YearIsOver s'
  unfolding dispatch call update_time
  update_time-Kept root y m d s laws h = elim (Result-cases (new C.calendar y m d)) [
    | inl (e, is_e) ↦ ground arith
    | inr (date, is_ok) ↦ elim (Bool-cases (check_correct_date s.current_date date)) [
      | inr f ↦ ground arith
      | inl t ↦
          let days = update_days-Same max_update_days s.current_date date s laws h in
          let later = check_correct_date_le s.current_date date t in
          elim (Result-cases (update_days C max_update_days s.current_date date s).0) [
            | inl (e, failed) ↦ ground arith
            | inr (u, done) ↦ ground arith
          ]
    ]
  ]
  update_time-Kept (signed a) y m d s laws h = ground arith
  update_time-Kept unsigned y m d s laws h = ground arith

  pub become_vip_status-Same :
      (origin : Origin) (tax_type : PenaltyType) (s : Storage C)
      → Same s (become_vip_status C origin tax_type s).1
  unfolding become_vip_status do_set_user_privilege do_set_vipp_status
  become_vip_status-Same root tax_type s = ground arith
  become_vip_status-Same (signed a) tax_type s = ground arith
  become_vip_status-Same unsigned tax_type s = ground arith

  pub do_exit_vip-Same : (who : ℕ) (s : Storage C) → Same s (do_exit_vip C who s).1
  unfolding do_exit_vip slash_member leave_vipp
  do_exit_vip-Same who s = ground arith

  pub do_change_penalty_type-Same :
      (who : ℕ) (penalty : PenaltyType) (s : Storage C)
      → Same s (do_change_penalty_type C who penalty s).1
  unfolding do_change_penalty_type
  do_change_penalty_type-Same who penalty s = ground arith

  force_set_vip_points-Same :
      (origin : Origin) (y account points : ℕ) (s : Storage C)
      → s.rewards year ≢ none
      → Same s (force_set_vip_points C origin y account points s).1
  unfolding force_set_vip_points set_member_points are_rewards_not_set
  force_set_vip_points-Same root y account points s set = ground arith
  force_set_vip_points-Same (signed a) y account points s set = ground arith
  force_set_vip_points-Same unsigned y account points s set = ground arith

  force_set_vipp_points-Same :
      (origin : Origin) (y account points : ℕ) (s : Storage C)
      → s.rewards year ≢ none
      → Same s (force_set_vipp_points C origin y account points s).1
  unfolding force_set_vipp_points set_vipp_member_points are_rewards_not_set
  force_set_vipp_points-Same root y account points s set = ground arith
  force_set_vipp_points-Same (signed a) y account points s set = ground arith
  force_set_vipp_points-Same unsigned y account points s set = ground arith

  set_rewards-Same :
      (origin : Origin) (y vip vipp : ℕ) (s : Storage C)
      → s.rewards year ≢ none
      → Same s (set_rewards C origin y vip vipp s).1
  unfolding set_rewards are_rewards_not_set
  set_rewards-Same root y vip vipp s set = ground arith
  set_rewards-Same (signed a) y vip vipp s set = ground arith
  set_rewards-Same unsigned y vip vipp s set = ground arith

  delete-Kept :
      (y account : ℕ) (m : ℕ → Assoc ℕ)
      → let m' = set_year y (delete account (m y)) m in
        (lookup who (m' year) ≡ lookup who (m year)) ⊎ (lookup who (m' year) ≡ none)
  delete-Kept y account m = ground (arith, lookup-delete who account (m year))

  pub claim_rewards-Kept :
      (origin : Origin) (y : ℕ) (s : Storage C)
      → Kept s (claim_rewards C origin y s).1
        × ((claim_rewards C origin y s).1.current_date ≡ s.current_date)
  unfolding claim_rewards pay
  claim_rewards-Kept root y s = ground arith
  claim_rewards-Kept (signed a) y s =
      let vip = delete-Kept y a s.vip_points in
      let vipp = delete-Kept y a s.vipp_points in ground arith
  claim_rewards-Kept unsigned y s = ground arith

  Same-layer :
      (m : Call C (Unit {0})) (s : Storage C)
      → YearIsOver s
      → Same s (m s).1
      → Kept s (with_storage_layer m s).1 × YearIsOver (with_storage_layer m s).1
  Same-layer m s h k = ground arith

  -- What a roll-back leaves is kept too.
  Kept-layer :
      (m : Call C (Unit {0})) (s : Storage C)
      → YearIsOver s
      → Kept s (m s).1 × ((m s).1.current_date ≡ s.current_date)
      → Kept s (with_storage_layer m s).1 × YearIsOver (with_storage_layer m s).1
  Kept-layer m s h k = ground arith

  -- If the calendar is one, the rewards of a year are set and the year is over: every call of the pallet keeps
  -- the rewards of the year, and leaves each account its VIP and VIPP points of that year or takes them
  -- away whole; the year is still over.
  pub dispatch-Kept :
      (origin : Origin) (e : Extrinsic) (s : Storage C)
      → IsCalendar C.calendar
      → s.rewards year ≢ none
      → YearIsOver s
      → Kept s (dispatch C origin e s).1 × YearIsOver (dispatch C origin e s).1
  unfolding dispatch call
  dispatch-Kept origin (time_updates y m d) s laws set h = update_time-Kept origin y m d s laws h
  dispatch-Kept origin (becomes_vip tax_type) s laws set h =
      Same-layer (call C origin (becomes_vip tax_type)) s h
        (become_vip_status-Same origin tax_type s)
  dispatch-Kept (signed a) exits s laws set h =
      Same-layer (do_exit_vip C a) s h (do_exit_vip-Same a s)
  dispatch-Kept root exits s laws set h = ground arith
  dispatch-Kept unsigned exits s laws set h = ground arith
  dispatch-Kept (signed a) (changes_penalty penalty) s laws set h =
      Same-layer (do_change_penalty_type C a penalty) s h (do_change_penalty_type-Same a penalty s)
  dispatch-Kept root (changes_penalty penalty) s laws set h = ground arith
  dispatch-Kept unsigned (changes_penalty penalty) s laws set h = ground arith
  dispatch-Kept origin (forces_vip_points y account points) s laws set h =
      Same-layer (call C origin (forces_vip_points y account points)) s h
        (force_set_vip_points-Same origin y account points s set)
  dispatch-Kept origin (forces_vipp_points y account points) s laws set h =
      Same-layer (call C origin (forces_vipp_points y account points)) s h
        (force_set_vipp_points-Same origin y account points s set)
  dispatch-Kept origin (sets_rewards y vip vipp) s laws set h =
      Same-layer (call C origin (sets_rewards y vip vipp)) s h
        (set_rewards-Same origin y vip vipp s set)
  dispatch-Kept origin (claims y) s laws set h =
      Kept-layer (call C origin (claims y)) s h (claim_rewards-Kept origin y s)
