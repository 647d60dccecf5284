-- ===== src/Staking/Dispatch/Paired.antt =====
-- Every extrinsic keeps stashes and ledgers paired (pallets/energy-generation/src/pallet/mod.rs).
use power_plant.Prelude.{
  ℕ, ◌-◌, ◌≡◌, inl, inr, Option, none, some, arith, Option-cases, ok, with_storage_layer, insert,
  unwrap_or, Result-cases,
}
use power_plant.Ledger.{StakingLedger}
use power_plant.Staking.{Config, Storage, Call, Origin, root, signed, unsigned}
use power_plant.Staking.Stashes.Paired.{IsPaired, changed-IsPaired, owner}
use power_plant.Staking.Admin
use power_plant.Staking.Payout
use power_plant.Staking.Payout.Frame.{pay_stakers_lem}
use power_plant.Staking.Bonding.Paired as OfBonding
use power_plant.Staking.Bonding.Withdrawn as OfUnbonding
use power_plant.Staking.Bonding.Paired.{HasPairs}
use power_plant.Staking.Candidacy.Paired as OfCandidacy
use power_plant.Staking.Candidacy.Paired.{HasSameLedgers}
use power_plant.Staking.Dispatch

module _ (C : Config) where
  layer_lem :
      (m : Call C (Unit {0})) (s : Storage C)
      → HasPairs C s
      → HasPairs C (m s).1
      → HasPairs C (with_storage_layer m s).1
  layer_lem m s h h' = ground arith

  same : (s s' : Storage C) → HasSameLedgers C s s' → HasPairs C s → HasPairs C s'
  same s s' e h = ground arith

  claim_in_lem :
      (first era : ℕ) (l l' : StakingLedger)
      → Payout.claim_in C first era l ≡ ok l'
      → l'.stash ≡ l.stash
  unfolding Payout.claim_in
  claim_in_lem first era l l' e = ground arith

  claimed_by_lem :
      (first era rate rate' c : ℕ) (b : Option ℕ) (l' : StakingLedger) (s : Storage C)
      → Payout.claimed_by C first era b rate s ≡ ok (c, l', rate')
      → owner (s.ledger c) ≡ some l'.stash
  claimed_by_lem first era rate rate' c none l' s e = ground arith
  claimed_by_lem first era rate rate' c (some controller) l' s e =
      elim (Option-cases (s.ledger controller)) [
        | inl n ↦ ground arith
        | inr (l, f) ↦ elim (Result-cases (Payout.claim_in C first era l)) [
          | inl g ↦ ground arith
          | inr (l'', g) ↦ ground (arith, claim_in_lem first era l l'' g)
        ]
      ]

  check_payout_lem :
      (stash era c rate : ℕ) (l' : StakingLedger) (s : Storage C)
      → Payout.check_payout C stash era s ≡ ok (c, l', rate)
      → owner (s.ledger c) ≡ some l'.stash
  unfolding Payout.check_payout
  check_payout_lem stash era c rate l' s e = elim (Option-cases s.eras.current_era) [
    | inl n ↦ absurd (ground arith)
    | inr (current, g) ↦ elim (Option-cases (s.eras.eras_energy_per_stake_currency era)) [
      | inl n ↦ absurd (ground arith)
      | inr (r, k) ↦
          let first = current - C.history_depth in
          let claimed : Payout.claimed_by C first era (s.bonded stash) r s ≡ ok (c, l', rate) =
            ground arith in
          claimed_by_lem first era r rate c (s.bonded stash) l' s claimed
    ]
  ]

  claim_lem :
      (c : ℕ) (l' : StakingLedger) (s : Storage C)
      → HasPairs C s
      → owner (s.ledger c) ≡ some l'.stash
      → IsPaired s.bonded (insert c l' s.ledger)
  claim_lem c l' s h e = elim (Option-cases (s.ledger c)) [
    | inl n ↦ absurd (ground arith)
    | inr (l, f) ↦
        let same : l'.stash ≡ l.stash = ground arith in
        changed-IsPaired s.bonded s.ledger h c l l' f same
  ]

  payout-HasPairs :
      (origin : Origin) (stash era : ℕ) (s : Storage C)
      → HasPairs C s
      → HasPairs C (Payout.payout_stakers C origin stash era s).1
  unfolding Payout.payout_stakers Payout.do_payout_stakers
  payout-HasPairs root stash era s h = h
  payout-HasPairs unsigned stash era s h = h
  payout-HasPairs (signed caller) stash era s h =
      elim (Result-cases (Payout.check_payout C stash era s)) [
        | inl f ↦ ground arith
        | inr ((c, l, rate), f) ↦
            let exposure = unwrap_or (s.eras.eras_stakers_clipped era l.stash) Payout.no_exposure in
            let s' : Storage C = record s { ledger = insert c l s.ledger } in
            let claimed = claim_lem c l s h (check_payout_lem stash era c rate l s f) in
            let paid = pay_stakers_lem C era stash l.stash rate exposure s' in ground arith
      ]

  admin_lem :
      (o : Origin) (call : Dispatch.AdminCall) (s : Storage C)
      → HasPairs C s
      → HasPairs C (Dispatch.run_admin C o call s).1
  unfolding Dispatch.run_admin Admin.set_validator_count Admin.increase_validator_count
      Admin.scale_validator_count Admin.set_core_nodes_count Admin.set_invulnerables
      Admin.cancel_deferred_slash Admin.set_staking_configs Admin.set_min_commission
      Admin.set_energy_per_stake_currency Admin.set_block_authoring_reward Admin.set_force_era
  admin_lem o (Dispatch.calls_set_validator_count new) s h =
      let kept : HasSameLedgers C s
          (Dispatch.run_admin C o (Dispatch.calls_set_validator_count new) s).1 =
        ground arith in
      same s (Dispatch.run_admin C o (Dispatch.calls_set_validator_count new) s).1 kept h
  admin_lem o (Dispatch.calls_increase_validator_count n) s h =
      let kept : HasSameLedgers C s
          (Dispatch.run_admin C o (Dispatch.calls_increase_validator_count n) s).1 =
        ground arith in
      same s (Dispatch.run_admin C o (Dispatch.calls_increase_validator_count n) s).1 kept h
  admin_lem o (Dispatch.calls_scale_validator_count factor) s h =
      let kept : HasSameLedgers C s
          (Dispatch.run_admin C o (Dispatch.calls_scale_validator_count factor) s).1 =
        ground arith in
      same s (Dispatch.run_admin C o (Dispatch.calls_scale_validator_count factor) s).1 kept h
  admin_lem o (Dispatch.calls_set_core_nodes_count num) s h =
      let kept : HasSameLedgers C s
          (Dispatch.run_admin C o (Dispatch.calls_set_core_nodes_count num) s).1 =
        ground arith in
      same s (Dispatch.run_admin C o (Dispatch.calls_set_core_nodes_count num) s).1 kept h
  admin_lem o Dispatch.calls_force_no_eras s h =
      let kept : HasSameLedgers C s (Dispatch.run_admin C o Dispatch.calls_force_no_eras s).1 =
        ground arith in
      same s (Dispatch.run_admin C o Dispatch.calls_force_no_eras s).1 kept h
  admin_lem o Dispatch.calls_force_new_era s h =
      let kept : HasSameLedgers C s (Dispatch.run_admin C o Dispatch.calls_force_new_era s).1 =
        ground arith in
      same s (Dispatch.run_admin C o Dispatch.calls_force_new_era s).1 kept h
  admin_lem o Dispatch.calls_force_new_era_always s h =
      let kept : HasSameLedgers C s
          (Dispatch.run_admin C o Dispatch.calls_force_new_era_always s).1 =
        ground arith in
      same s (Dispatch.run_admin C o Dispatch.calls_force_new_era_always s).1 kept h
  admin_lem o (Dispatch.calls_set_invulnerables accounts) s h =
      let kept : HasSameLedgers C s
          (Dispatch.run_admin C o (Dispatch.calls_set_invulnerables accounts) s).1 =
        ground arith in
      same s (Dispatch.run_admin C o (Dispatch.calls_set_invulnerables accounts) s).1 kept h
  admin_lem o (Dispatch.calls_cancel_deferred_slash era indices) s h =
      let kept : HasSameLedgers C s
          (Dispatch.run_admin C o (Dispatch.calls_cancel_deferred_slash era indices) s).1 =
        ground arith in
      same s (Dispatch.run_admin C o (Dispatch.calls_cancel_deferred_slash era indices) s).1 kept h
  admin_lem o (Dispatch.calls_set_staking_configs a b c d e f g) s h =
      let kept : HasSameLedgers C s
          (Dispatch.run_admin C o (Dispatch.calls_set_staking_configs a b c d e f g) s).1 =
        ground arith in
      same s (Dispatch.run_admin C o (Dispatch.calls_set_staking_configs a b c d e f g) s).1 kept h
  admin_lem o (Dispatch.calls_set_min_commission new) s h =
      let kept : HasSameLedgers C s
          (Dispatch.run_admin C o (Dispatch.calls_set_min_commission new) s).1 =
        ground arith in
      same s (Dispatch.run_admin C o (Dispatch.calls_set_min_commission new) s).1 kept h
  admin_lem o (Dispatch.calls_set_energy_per_stake_currency energy) s h =
      let kept : HasSameLedgers C s
          (Dispatch.run_admin C o (Dispatch.calls_set_energy_per_stake_currency energy) s).1 =
        ground arith in
      same s (Dispatch.run_admin C o (Dispatch.calls_set_energy_per_stake_currency energy) s).1 kept
        h
  admin_lem o (Dispatch.calls_set_block_authoring_reward reward) s h =
      let kept : HasSameLedgers C s
          (Dispatch.run_admin C o (Dispatch.calls_set_block_authoring_reward reward) s).1 =
        ground arith in
      same s (Dispatch.run_admin C o (Dispatch.calls_set_block_authoring_reward reward) s).1 kept h
  admin_lem o (Dispatch.calls_force_chill controller) s h =
      same s (Dispatch.run_admin C o (Dispatch.calls_force_chill controller) s).1
        (OfCandidacy.force_chill_lem C o controller s) h
  admin_lem o (Dispatch.calls_force_unstake stash spans) s h =
      OfUnbonding.force_unstake-HasPairs C o stash spans s h

  pub staker_lem :
      (o : Origin) (call : Dispatch.StakerCall) (s : Storage C)
      → HasPairs C s
      → HasPairs C (Dispatch.run_staker C o call s).1
  unfolding Dispatch.run_staker
  staker_lem o (Dispatch.calls_bond controller value payee) s h =
      OfBonding.bond-HasPairs C o controller value payee s h
  staker_lem o (Dispatch.calls_bond_extra n) s h = OfBonding.bond_extra-HasPairs C o n s h
  staker_lem o (Dispatch.calls_unbond n) s h = OfUnbonding.unbond-HasPairs C o n s h
  staker_lem o (Dispatch.calls_withdraw_unbonded n) s h =
      OfUnbonding.withdraw_unbonded-HasPairs C o n s h
  staker_lem o (Dispatch.calls_rebond n) s h = OfBonding.rebond-HasPairs C o n s h
  staker_lem o (Dispatch.calls_set_controller n) s h = OfBonding.set_controller-HasPairs C o n s h
  staker_lem o (Dispatch.calls_set_payee payee) s h = OfBonding.set_payee-HasPairs C o payee s h
  staker_lem o (Dispatch.calls_validate prefs) s h =
      same s (Dispatch.run_staker C o (Dispatch.calls_validate prefs) s).1
        (OfCandidacy.validate_lem C o prefs s) h
  staker_lem o (Dispatch.calls_cooperate targets) s h =
      same s (Dispatch.run_staker C o (Dispatch.calls_cooperate targets) s).1
        (OfCandidacy.cooperate_lem C o targets s) h
  staker_lem o Dispatch.calls_chill s h =
      same s (Dispatch.run_staker C o Dispatch.calls_chill s).1 (OfCandidacy.chill_lem C o s) h
  staker_lem o Dispatch.calls_make_collaborative s h =
      same s (Dispatch.run_staker C o Dispatch.calls_make_collaborative s).1
        (OfCandidacy.make_collaborative_lem C o s) h
  staker_lem o (Dispatch.calls_kick accounts) s h =
      same s (Dispatch.run_staker C o (Dispatch.calls_kick accounts) s).1
        (OfCandidacy.kick_lem C o accounts s) h
  staker_lem o (Dispatch.calls_reap_stash stash spans) s h =
      OfUnbonding.reap_stash-HasPairs C o stash spans s h
  staker_lem o (Dispatch.calls_payout_stakers stash era) s h = payout-HasPairs o stash era s h
  staker_lem o (Dispatch.calls_chill_other controller) s h =
      same s (Dispatch.run_staker C o (Dispatch.calls_chill_other controller) s).1
        (OfCandidacy.chill_other_lem C o controller s) h
  staker_lem o (Dispatch.calls_force_apply_min_commission stash) s h =
      same s (Dispatch.run_staker C o (Dispatch.calls_force_apply_min_commission stash) s).1
        (OfCandidacy.force_apply_lem C o stash s) h

  -- Whatever extrinsic runs and however it ends: if every stash names a controller that has the ledger
  -- of this stash, and every ledger is that of a stash that names its controller, so it is afterwards.
  pub dispatch-IsPaired :
      (origin : Origin) (extrinsic : Dispatch.Extrinsic C) (s : Storage C)
      → HasPairs C s
      → HasPairs C (Dispatch.dispatch C origin extrinsic s).1
  unfolding Dispatch.dispatch
  dispatch-IsPaired origin (Dispatch.of_staker call) s h =
      layer_lem (Dispatch.run_staker C origin call) s h (staker_lem origin call s h)
  dispatch-IsPaired origin (Dispatch.of_admin call) s h =
      layer_lem (Dispatch.run_admin C origin call) s h (admin_lem origin call s h)
