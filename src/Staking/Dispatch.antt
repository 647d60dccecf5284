-- ===== src/Staking/Dispatch.antt =====
-- The extrinsics of pallets/energy-generation/src/pallet/mod.rs, in the storage layer of the runtime.
pub mod Exclusive
pub mod Paired
use power_plant.Prelude.{ℕ, List, with_storage_layer}
use power_plant.Staking.{Config, Call, Origin, RewardDestination, ValidatorPrefs}
use power_plant.Staking.Bonding.{
  bond, bond_extra, unbond, withdraw_unbonded, rebond, set_controller, set_payee, force_unstake,
  reap_stash,
}
use power_plant.Staking.Candidacy.{
  validate, cooperate, chill, kick, chill_other, force_chill, force_apply_min_commission,
  make_collaborative,
}
use power_plant.Staking.Admin.{
  ConfigOp, set_validator_count, increase_validator_count, scale_validator_count,
  set_core_nodes_count, force_no_eras, force_new_era, force_new_era_always, set_invulnerables,
  cancel_deferred_slash, set_staking_configs, set_min_commission, set_energy_per_stake_currency,
  set_block_authoring_reward,
}
use power_plant.Staking.Payout.{payout_stakers}

-- The calls of stashes and controllers.
pub data StakerCall : Type 0 where
  calls_bond : ℕ → ℕ → RewardDestination → StakerCall
  calls_bond_extra calls_unbond calls_withdraw_unbonded calls_rebond : ℕ → StakerCall
  calls_set_controller : ℕ → StakerCall
  calls_set_payee : RewardDestination → StakerCall
  calls_validate : ValidatorPrefs → StakerCall
  calls_cooperate : List (ℕ × ℕ) → StakerCall
  calls_chill calls_make_collaborative : StakerCall
  calls_kick : List ℕ → StakerCall
  calls_reap_stash calls_payout_stakers : ℕ → ℕ → StakerCall
  calls_chill_other calls_force_apply_min_commission : ℕ → StakerCall

-- The calls of root and of the administrators.
pub data AdminCall : Type 0 where
  calls_set_validator_count calls_increase_validator_count calls_scale_validator_count :
      ℕ → AdminCall
  calls_set_core_nodes_count : ℕ → AdminCall
  calls_force_no_eras calls_force_new_era calls_force_new_era_always : AdminCall
  calls_set_invulnerables : List ℕ → AdminCall
  calls_force_unstake : ℕ → ℕ → AdminCall
  calls_cancel_deferred_slash : ℕ → List ℕ → AdminCall
  calls_set_staking_configs :
      ConfigOp ℕ
      → ConfigOp ℕ
      → ConfigOp ℕ
      → ConfigOp ℕ
      → ConfigOp ℕ
      → ConfigOp ℕ
      → ConfigOp ℕ
      → AdminCall
  calls_set_min_commission calls_set_energy_per_stake_currency : ℕ → AdminCall
  calls_set_block_authoring_reward calls_force_chill : ℕ → AdminCall

module _ (C : Config) where
  unfoldable pub run_staker : Origin → StakerCall → Call C (Unit {0})
  run_staker origin (calls_bond controller value payee) = bond C origin controller value payee
  run_staker origin (calls_bond_extra max_additional) = bond_extra C origin max_additional
  run_staker origin (calls_unbond value) = unbond C origin value
  run_staker origin (calls_withdraw_unbonded spans) = withdraw_unbonded C origin spans
  run_staker origin (calls_rebond value) = rebond C origin value
  run_staker origin (calls_set_controller controller) = set_controller C origin controller
  run_staker origin (calls_set_payee payee) = set_payee C origin payee
  run_staker origin (calls_validate prefs) = validate C origin prefs
  run_staker origin (calls_cooperate targets) = cooperate C origin targets
  run_staker origin calls_chill = chill C origin
  run_staker origin calls_make_collaborative = make_collaborative C origin
  run_staker origin (calls_kick who) = kick C origin who
  run_staker origin (calls_reap_stash stash spans) = reap_stash C origin stash spans
  run_staker origin (calls_payout_stakers stash era) = payout_stakers C origin stash era
  run_staker origin (calls_chill_other controller) = chill_other C origin controller
  run_staker origin (calls_force_apply_min_commission stash) =
      force_apply_min_commission C origin stash

  unfoldable pub run_admin : Origin → AdminCall → Call C (Unit {0})
  run_admin origin (calls_set_validator_count new) = set_validator_count C origin new
  run_admin origin (calls_increase_validator_count n) = increase_validator_count C origin n
  run_admin origin (calls_scale_validator_count factor) = scale_validator_count C origin factor
  run_admin origin (calls_set_core_nodes_count num) = set_core_nodes_count C origin num
  run_admin origin calls_force_no_eras = force_no_eras C origin
  run_admin origin calls_force_new_era = force_new_era C origin
  run_admin origin calls_force_new_era_always = force_new_era_always C origin
  run_admin origin (calls_set_invulnerables accounts) = set_invulnerables C origin accounts
  run_admin origin (calls_force_unstake stash spans) = force_unstake C origin stash spans
  run_admin origin (calls_cancel_deferred_slash era indices) =
      cancel_deferred_slash C origin era indices
  run_admin origin (calls_set_staking_configs a b c d e f g) =
      set_staking_configs C origin a b c d e f g
  run_admin origin (calls_set_min_commission new) = set_min_commission C origin new
  run_admin origin (calls_set_energy_per_stake_currency energy) =
      set_energy_per_stake_currency C origin energy
  run_admin origin (calls_set_block_authoring_reward reward) =
      set_block_authoring_reward C origin reward
  run_admin origin (calls_force_chill controller) = force_chill C origin controller

  pub data Extrinsic : Type 0 where
    of_staker : StakerCall → Extrinsic
    of_admin : AdminCall → Extrinsic

  unfoldable pub dispatch : Origin → Extrinsic → Call C (Unit {0})
  dispatch origin (of_staker call) = with_storage_layer (run_staker origin call)
  dispatch origin (of_admin call) = with_storage_layer (run_admin origin call)
