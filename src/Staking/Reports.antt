-- ===== src/Staking/Reports.antt =====
-- Reports of offences before they reach the pallet, and two conversions of its storage
-- (pallets/energy-generation/src/lib.rs). What the reports are passed on to is a parameter.
pub mod Chilled
use power_plant.Prelude.{
  ℕ, Bool, false, not, Option, none, some, List, [], ◌∷◌, leb, if◌then◌else◌, gets, modify,
  unwrap_or, member, fold_state, filter, ◌>>=◌, ◌>>◌,
}
use power_plant.Slashing.Compute.{Exposure}
use power_plant.Staking.{Config, Storage, Call, deposit_event, old_slashing_report_discarded}
use power_plant.Staking.Roles.{chill_stash}
use power_plant.Staking.Payout.{no_exposure}

-- An offence: its session and the accounts of its offenders.
pub record Offence : Type 0 where
  pub session_index : ℕ
  pub offenders : List ℕ

abbrev pub starts_by : ℕ → List (ℕ × ℕ) → Bool
starts_by session [] = false
starts_by session ((_, start) ∷ eras) = leb start session

module _ (C : Config) (report : List ℕ → Offence → Call C (Unit {0})) where
  -- `FilterHistoricalOffences::report_offence`
  unfoldable pub report_recent_offence : List ℕ → Offence → Call C (Unit {0})
  report_recent_offence reporters offence = do
    recent ← gets (λ s. starts_by offence.session_index s.eras.bonded_eras)
    if recent
        then report reporters offence
        else deposit_event C (old_slashing_report_discarded offence.session_index)

  -- Whether the offence was in the active era.
  unfoldable pub in_active_era : ℕ → Storage C → Bool
  in_active_era session s = elim s.eras.active_era [
    | none ↦ false
    | some era ↦ elim (s.eras.eras_start_session_index era.index) [
      | none ↦ false
      | some start_session ↦ leb start_session session
    ]
  ]

  unfoldable pub chill_offenders : ℕ → List ℕ → Storage C → Storage C
  chill_offenders session offenders s =
      if in_active_era session s then fold_state (chill_stash C) offenders s else s

  -- `ChillOnOffence::report_offence`
  unfoldable pub report_and_chill : List ℕ → Offence → Call C (Unit {0})
  report_and_chill reporters offence = do
    offenders ←
        gets (λ s. filter (λ stash. not (member stash s.settings.invulnerables)) offence.offenders)
    report reporters offence
    modify (chill_offenders offence.session_index offenders)

module _ (C : Config) where
  -- `StashOf::convert` and `ExposureOf::convert`
  unfoldable pub stash_of : ℕ → Storage C → Option ℕ
  stash_of controller s = elim (s.ledger controller) [ none ↦ none | some l ↦ some l.stash ]

  unfoldable pub exposure_of : ℕ → Storage C → Option Exposure
  exposure_of validator s = elim s.eras.active_era [
    | none ↦ none
    | some era ↦ some (unwrap_or (s.eras.eras_stakers era.index validator) no_exposure)
  ]
