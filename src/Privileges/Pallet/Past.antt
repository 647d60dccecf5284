-- ===== src/Privileges/Pallet/Past.antt =====
-- Rewards are set for years that are over (pallets/privileges/src/lib.rs).
use power_plant.Prelude.{
  ℕ, zero, suc, ◌<◌, ◌≡◌, ◌⊎◌, refl, ◌∙◌, inl, inr, none, arith, Bool-cases, with_storage_layer,
  Result-cases,
}
use power_plant.Privileges.{CurrentDateInfo, Config, Storage, Call, Origin, root, signed, unsigned}
use power_plant.Privileges.Dates.{new, add_days, check_correct_date}
use power_plant.Privileges.Points.{
  update_points_for_time, update_vipp_points_for_time, save_year_info,
}
use power_plant.Privileges.Rewards.{
  force_set_vip_points, force_set_vipp_points, set_rewards, set_member_points,
  set_vipp_member_points,
}
use power_plant.Privileges.Pallet.{
  pass_day, update_days, update_time, max_update_days, Extrinsic, call, dispatch, becomes_vip,
  time_updates, exits, changes_penalty, forces_vip_points, forces_vipp_points, sets_rewards, claims,
}
use power_plant.Privileges.Pallet.Kept.{
  check_correct_date_le, become_vip_status-Same, do_exit_vip-Same, do_change_penalty_type-Same,
  claim_rewards-Kept,
}

module _ (C : Config) (year : ℕ) where
  -- The year has no rewards yet, or is over.
  abbrev pub IsPast : Storage C → Type 0
  IsPast s = (s.rewards year ≡ none) ⊎ (year < s.current_date.current_year)

  -- The rewards of the year are the same, and the date.
  abbrev SameRewards : Storage C → Storage C → Type 0
  SameRewards s s' = (s'.rewards year ≡ s.rewards year) × (s'.current_date ≡ s.current_date)

  pass_day-SameRewards :
      (date : CurrentDateInfo) (s : Storage C) → SameRewards s (pass_day C date s)
  unfolding pass_day update_points_for_time update_vipp_points_for_time save_year_info
  pass_day-SameRewards date s = ground arith

  update_days-SameRewards :
      (days : ℕ) (current_date new_date : CurrentDateInfo) (s : Storage C)
      → SameRewards s (update_days C days current_date new_date s).1
  unfolding update_days
  update_days-SameRewards zero current_date new_date s = (refl, refl)
  update_days-SameRewards (suc days) current_date new_date s =
      elim (Bool-cases (check_correct_date current_date new_date)) [
        | inr f ↦ rw f (refl, refl)
        | inl t ↦ elim (Result-cases (add_days C.calendar 1 current_date)) [
          | inl (e, is_e) ↦ rw (t, is_e) (refl, refl)
          | inr (next, is_ok) ↦
              let day = pass_day-SameRewards next s in
              let rest = update_days-SameRewards days next new_date (pass_day C next s) in
              rw (t, is_ok) (rest.0 ∙ day.0, rest.1 ∙ day.1)
        ]
      ]

  update_time-IsPast :
      (origin : Origin) (y m d : ℕ) (s : Storage C)
      → IsPast s
      → IsPast (dispatch C origin (time_updates y m d) s).1
  unfolding dispatch call update_time
  update_time-IsPast root y m d s h = elim (Result-cases (new C.calendar y m d)) [
    | inl (e, is_e) ↦ ground arith
    | inr (date, is_ok) ↦ elim (Bool-cases (check_correct_date s.current_date date)) [
      | inr f ↦ ground arith
      | inl t ↦
          let days = update_days-SameRewards max_update_days s.current_date date s in
          let later = check_correct_date_le s.current_date date t in
          elim (Result-cases (update_days C max_update_days s.current_date date s).0) [
            | inl (e, failed) ↦ ground arith
            | inr (u, done) ↦ ground arith
          ]
    ]
  ]
  update_time-IsPast (signed a) y m d s h = ground arith
  update_time-IsPast unsigned y m d s h = ground arith

  SameRewards-layer :
      (m : Call C (Unit {0})) (s : Storage C)
      → IsPast s
      → SameRewards s (m s).1
      → IsPast (with_storage_layer m s).1
  SameRewards-layer m s h same = ground arith

  forced-SameRewards :
      (origin : Origin) (y account points : ℕ) (s : Storage C)
      → SameRewards s (force_set_vip_points C origin y account points s).1
        × SameRewards s (force_set_vipp_points C origin y account points s).1
  unfolding force_set_vip_points force_set_vipp_points set_member_points set_vipp_member_points
  forced-SameRewards root y account points s = (ground arith, ground arith)
  forced-SameRewards (signed a) y account points s = (ground arith, ground arith)
  forced-SameRewards unsigned y account points s = (ground arith, ground arith)

  set_rewards-IsPast :
      (origin : Origin) (y vip vipp : ℕ) (s : Storage C)
      → IsPast s
      → IsPast (dispatch C origin (sets_rewards y vip vipp) s).1
  unfolding dispatch call set_rewards
  set_rewards-IsPast root y vip vipp s h = ground arith
  set_rewards-IsPast (signed a) y vip vipp s h = ground arith
  set_rewards-IsPast unsigned y vip vipp s h = ground arith

  -- Whatever call of the pallet runs and however it ends: if a year had no rewards or was over, so it is
  -- afterwards.
  pub dispatch-IsPast :
      (origin : Origin) (e : Extrinsic) (s : Storage C)
      → IsPast s
      → IsPast (dispatch C origin e s).1
  unfolding dispatch call
  dispatch-IsPast origin (time_updates y m d) s h = update_time-IsPast origin y m d s h
  dispatch-IsPast origin (sets_rewards y vip vipp) s h = set_rewards-IsPast origin y vip vipp s h
  dispatch-IsPast origin (becomes_vip tax_type) s h =
      let same = become_vip_status-Same C year 0 origin tax_type s in
      SameRewards-layer (call C origin (becomes_vip tax_type)) s h (same.0, same.3)
  dispatch-IsPast (signed a) exits s h =
      let same = do_exit_vip-Same C year 0 a s in
      SameRewards-layer (call C (signed a) exits) s h (same.0, same.3)
  dispatch-IsPast root exits s h = ground arith
  dispatch-IsPast unsigned exits s h = ground arith
  dispatch-IsPast (signed a) (changes_penalty penalty) s h =
      let same = do_change_penalty_type-Same C year 0 a penalty s in
      SameRewards-layer (call C (signed a) (changes_penalty penalty)) s h (same.0, same.3)
  dispatch-IsPast root (changes_penalty penalty) s h = ground arith
  dispatch-IsPast unsigned (changes_penalty penalty) s h = ground arith
  dispatch-IsPast origin (forces_vip_points y account points) s h =
      SameRewards-layer (call C origin (forces_vip_points y account points)) s h
        (forced-SameRewards origin y account points s).0
  dispatch-IsPast origin (forces_vipp_points y account points) s h =
      SameRewards-layer (call C origin (forces_vipp_points y account points)) s h
        (forced-SameRewards origin y account points s).1
  dispatch-IsPast origin (claims y) s h =
      let kept = claim_rewards-Kept C year 0 origin y s in
      SameRewards-layer (call C origin (claims y)) s h (kept.0.0, kept.1)
