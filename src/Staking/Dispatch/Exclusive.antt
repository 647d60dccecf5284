-- ===== src/Staking/Dispatch/Exclusive.antt =====
-- Every extrinsic keeps an account from being a validator and a cooperator at once
-- (pallets/energy-generation/src/pallet/mod.rs).
use power_plant.Prelude.{ℕ, inl, inr, arith, with_storage_layer, insert, unwrap_or, Result-cases}
use power_plant.Staking.{Config, Storage, Call, Origin, root, signed, unsigned}
use power_plant.Staking.Roles.Exclusive.{IsExclusive, Shrinks}
use power_plant.Staking.Admin
use power_plant.Staking.Payout
use power_plant.Staking.Payout.Frame.{pay_stakers_lem}
use power_plant.Staking.Bonding.Exclusive as OfBonding
use power_plant.Staking.Candidacy.Exclusive as OfCandidacy
use power_plant.Staking.Dispatch

module _ (C : Config) (who : ℕ) where
  layer_lem :
      (m : Call C (Unit {0})) (s : Storage C)
      → IsExclusive C who s
      → IsExclusive C who (m s).1
      → IsExclusive C who (with_storage_layer m s).1
  layer_lem m s h h' = ground arith

  payout-Shrinks :
      (origin : Origin) (stash era : ℕ) (s : Storage C)
      → Shrinks C who s (Payout.payout_stakers C origin stash era s).1
  unfolding Payout.payout_stakers Payout.do_payout_stakers
  payout-Shrinks root stash era s = ground arith
  payout-Shrinks unsigned stash era s = ground arith
  payout-Shrinks (signed caller) stash era s =
      elim (Result-cases (Payout.check_payout C stash era s)) [
        | inl f ↦ ground arith
        | inr ((controller, l, rate), f) ↦
            let exposure = unwrap_or (s.eras.eras_stakers_clipped era l.stash) Payout.no_exposure in
            let s' : Storage C = record s { ledger = insert controller l s.ledger } in
            let paid = pay_stakers_lem C era stash l.stash rate exposure s' in ground arith
      ]

  admin-Shrinks :
      (origin : Origin) (call : Dispatch.AdminCall) (s : Storage C)
      → Shrinks C who s (Dispatch.run_admin C origin call s).1
  unfolding Dispatch.run_admin Admin.set_validator_count Admin.increase_validator_count
      Admin.scale_validator_count Admin.set_core_nodes_count Admin.set_invulnerables
      Admin.cancel_deferred_slash Admin.set_staking_configs Admin.set_min_commission
      Admin.set_energy_per_stake_currency Admin.set_block_authoring_reward Admin.set_force_era
  admin-Shrinks origin (Dispatch.calls_set_validator_count new) s = ground arith
  admin-Shrinks origin (Dispatch.calls_increase_validator_count n) s = ground arith
  admin-Shrinks origin (Dispatch.calls_scale_validator_count factor) s = ground arith
  admin-Shrinks origin (Dispatch.calls_set_core_nodes_count num) s = ground arith
  admin-Shrinks origin Dispatch.calls_force_no_eras s = ground arith
  admin-Shrinks origin Dispatch.calls_force_new_era s = ground arith
  admin-Shrinks origin Dispatch.calls_force_new_era_always s = ground arith
  admin-Shrinks origin (Dispatch.calls_set_invulnerables accounts) s = ground arith
  admin-Shrinks origin (Dispatch.calls_force_unstake stash spans) s =
      OfBonding.force_unstake-Shrinks C who origin stash spans s
  admin-Shrinks origin (Dispatch.calls_cancel_deferred_slash era indices) s = ground arith
  admin-Shrinks origin (Dispatch.calls_set_staking_configs a b c d e f g) s = ground arith
  admin-Shrinks origin (Dispatch.calls_set_min_commission new) s = ground arith
  admin-Shrinks origin (Dispatch.calls_set_energy_per_stake_currency energy) s = ground arith
  admin-Shrinks origin (Dispatch.calls_set_block_authoring_reward reward) s = ground arith
  admin-Shrinks origin (Dispatch.calls_force_chill controller) s =
      OfCandidacy.force_chill-Shrinks C who origin controller s

  pub staker_lem :
      (origin : Origin) (call : Dispatch.StakerCall) (s : Storage C)
      → IsExclusive C who s
      → IsExclusive C who (Dispatch.run_staker C origin call s).1
  unfolding Dispatch.run_staker
  staker_lem o (Dispatch.calls_bond controller value payee) s h =
      ground (arith, OfBonding.bond-Shrinks C who o controller value payee s)
  staker_lem o (Dispatch.calls_bond_extra n) s h =
      ground (arith, OfBonding.bond_extra-Shrinks C who o n s)
  staker_lem o (Dispatch.calls_unbond n) s h = ground (arith, OfBonding.unbond-Shrinks C who o n s)
  staker_lem o (Dispatch.calls_withdraw_unbonded n) s h =
      ground (arith, OfBonding.withdraw_unbonded-Shrinks C who o n s)
  staker_lem o (Dispatch.calls_rebond n) s h = ground (arith, OfBonding.rebond-Shrinks C who o n s)
  staker_lem o (Dispatch.calls_set_controller n) s h =
      ground (arith, OfBonding.set_controller-Shrinks C who o n s)
  staker_lem o (Dispatch.calls_set_payee payee) s h =
      ground (arith, OfBonding.set_payee-Shrinks C who o payee s)
  staker_lem o (Dispatch.calls_validate prefs) s h =
      OfCandidacy.validate-IsExclusive C who o prefs s h
  staker_lem o (Dispatch.calls_cooperate targets) s h =
      OfCandidacy.cooperate-IsExclusive C who o targets s h
  staker_lem o Dispatch.calls_chill s h = ground (arith, OfCandidacy.chill-Shrinks C who o s)
  staker_lem o Dispatch.calls_make_collaborative s h =
      ground (arith, OfCandidacy.make_collaborative-Shrinks C who o s)
  staker_lem o (Dispatch.calls_kick accounts) s h =
      ground (arith, OfCandidacy.kick-Shrinks C who o accounts s)
  staker_lem o (Dispatch.calls_reap_stash stash spans) s h =
      ground (arith, OfBonding.reap_stash-Shrinks C who o stash spans s)
  staker_lem o (Dispatch.calls_payout_stakers stash era) s h =
      ground (arith, payout-Shrinks o stash era s)
  staker_lem o (Dispatch.calls_chill_other controller) s h =
      ground (arith, OfCandidacy.chill_other-Shrinks C who o controller s)
  staker_lem o (Dispatch.calls_force_apply_min_commission stash) s h =
      ground (arith, OfCandidacy.force_apply-Shrinks C who o stash s)

  admin_lem :
      (origin : Origin) (call : Dispatch.AdminCall) (s : Storage C)
      → IsExclusive C who s
      → IsExclusive C who (Dispatch.run_admin C origin call s).1
  admin_lem origin call s h = ground (arith, admin-Shrinks origin call s)

  -- Whatever extrinsic runs and however it ends: an account that was not both a validator and a
  -- cooperator before is not both afterwards.
  pub dispatch-IsExclusive :
      (origin : Origin) (extrinsic : Dispatch.Extrinsic C) (s : Storage C)
      → IsExclusive C who s
      → IsExclusive C who (Dispatch.dispatch C origin extrinsic s).1
  unfolding Dispatch.dispatch
  dispatch-IsExclusive origin (Dispatch.of_staker call) s h =
      layer_lem (Dispatch.run_staker C origin call) s h (staker_lem origin call s h)
  dispatch-IsExclusive origin (Dispatch.of_admin call) s h =
      layer_lem (Dispatch.run_admin C origin call) s h (admin_lem origin call s h)
