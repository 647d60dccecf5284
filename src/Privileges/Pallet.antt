-- ===== src/Privileges/Pallet.antt =====
-- The calls of the pallet and the passing of time (pallets/privileges/src/lib.rs).
pub mod Kept
pub mod Past
pub mod Frozen
pub mod Laws
use power_plant.Prelude.{
  ℕ, zero, suc, ◌/◌, Bool, not, ◌&&◌, Option, none, some, ◌==◌, if◌then◌else◌, sub32, Result, ok,
  err, pure, gets, modify, ensure, lift, with_storage_layer, is_some, lookup, ◌>>=◌, ◌>>◌,
}
use power_plant.Privileges.{
  Error, CurrentDateInfo, PenaltyType, Config, Storage, Call, Origin, deposit_event, ensure_root,
  ensure_signed, new_vip_member, already_vip_member, account_not_legit_for_vip, not_correct_date,
  panicked,
}
use power_plant.Privileges.Dates.{new, add_days, check_correct_date, or_error, and_then}
use power_plant.Privileges.Points.{
  update_points_for_time, update_vipp_points_for_time, save_year_info,
}
use power_plant.Privileges.Membership.{
  is_legit_for_vip, do_set_user_privilege, do_exit_vip, do_change_penalty_type,
}
use power_plant.Privileges.Rewards.{
  force_set_vip_points, force_set_vipp_points, set_rewards, claim_rewards,
}

abbrev pub max_update_days : ℕ
max_update_days = 366

abbrev pub is_new_year : CurrentDateInfo → Bool
is_new_year date = date.current_month == 1 && date.current_day == 1

module _ (C : Config) where
  unfoldable pub become_vip_status : Origin → PenaltyType → Call C (Unit {0})
  become_vip_status origin tax_type = do
    who ← ensure_signed C origin
    found ← gets (λ s. lookup who s.vip_members)
    ensure (not (is_some found)) already_vip_member
    legit ← gets (is_legit_for_vip C who)
    ensure legit account_not_legit_for_vip
    modify (do_set_user_privilege C who tax_type)
    deposit_event C (new_vip_member who)

  -- The points of a day, and the end of a year.
  unfoldable pub pass_day : CurrentDateInfo → Storage C → Storage C
  pass_day date s =
      let s₁ = update_points_for_time C date.days_since_new_year s in
      let s₂ = update_vipp_points_for_time C date.days_since_new_year s₁ in
      if is_new_year date then save_year_info C (sub32 date.current_year 1) s₂ else s₂

  -- The loop of `update_time`, with the days that it may still do.
  unfoldable pub update_days : ℕ → CurrentDateInfo → CurrentDateInfo → Call C (Unit {0})
  update_days zero current_date new_date s = (ok tt, s)
  update_days (suc days) current_date new_date s =
      if check_correct_date current_date new_date
      then elim (add_days C.calendar 1 current_date) [
        | err e ↦ (err e, s)
        | ok next_date ↦ update_days days next_date new_date (pass_day next_date s)
      ]
      else (ok tt, s)

  unfoldable pub update_time : Origin → ℕ → ℕ → ℕ → Call C (Unit {0})
  update_time origin new_date_year new_date_month new_date_day = do
    ensure_root C origin
    current_date ← gets (λ s. s.current_date)
    new_date ← lift (new C.calendar new_date_year new_date_month new_date_day)
    ensure (check_correct_date current_date new_date) not_correct_date
    update_days max_update_days current_date new_date
    modify (λ s. record s { current_date = new_date })

  -- The date of the clock.
  unfoldable pub date_now : Storage C → Result Error CurrentDateInfo
  date_now s =
      and_then (or_error (C.calendar.from_timestamp (C.now_millis s.others / 1000)) panicked)
        λ now. new C.calendar (C.calendar.year now) (C.calendar.month now) (C.calendar.day now)

  -- `BuildGenesisConfig::build`, with the date if one is given; it panics where this fails.
  unfoldable pub genesis_build : Option (ℕ × ℕ × ℕ) → Call C (Unit {0})
  genesis_build given = do
    first ← gets (λ s. elim given [
      | none ↦ date_now s
      | some (year, month, day) ↦ new C.calendar year month day
    ])
    date ← lift first
    modify (λ s. record s { current_date = date })

  -- `update_quarter_info`, whose `unwrap`s panic where this fails.
  unfoldable pub update_quarter_info : Call C (Unit {0})
  update_quarter_info = do
    now ← gets date_now
    new_date ← lift now
    current_date ← gets (λ s. s.current_date)
    if current_date.days_since_new_year == new_date.days_since_new_year
        then pure tt
        else modify (λ s. record (pass_day new_date s) { current_date = new_date })

-- The calls of the pallet, each with its arguments.
pub data Extrinsic : Type 0 where
  becomes_vip : PenaltyType → Extrinsic
  time_updates : ℕ → ℕ → ℕ → Extrinsic
  exits : Extrinsic
  changes_penalty : PenaltyType → Extrinsic
  forces_vip_points forces_vipp_points : ℕ → ℕ → ℕ → Extrinsic
  sets_rewards : ℕ → ℕ → ℕ → Extrinsic
  claims : ℕ → Extrinsic

module _ (C : Config) where
  unfoldable pub call : Origin → Extrinsic → Call C (Unit {0})
  call origin (becomes_vip tax_type) = become_vip_status C origin tax_type
  call origin (time_updates year month day) = update_time C origin year month day
  call origin exits = do who ← ensure_signed C origin; do_exit_vip C who
  call origin (changes_penalty tax_type) = do
    who ← ensure_signed C origin
    do_change_penalty_type C who tax_type
  call origin (forces_vip_points year account points) =
      force_set_vip_points C origin year account points
  call origin (forces_vipp_points year account points) =
      force_set_vipp_points C origin year account points
  call origin (sets_rewards year vip vipp) = set_rewards C origin year vip vipp
  call origin (claims year) = claim_rewards C origin year

  unfoldable pub dispatch : Origin → Extrinsic → Call C (Unit {0})
  dispatch origin e = with_storage_layer (call origin e)
