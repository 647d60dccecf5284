-- ===== src/Staking/Bonding/Exclusive.antt =====
-- The calls that change ledgers make nobody a validator or a cooperator
-- (pallets/energy-generation/src/pallet/mod.rs).
use power_plant.Prelude.{ℕ, inl, inr, arith, Option-cases, add32, remove, unwrap_or, Result-cases}
use power_plant.Slashing.Inspect.{clear_stash_metadata}
use power_plant.Ledger.{StakingLedger}
use power_plant.Staking.{
  RewardDestination, Origin, Config, Storage, RewardDestination, root, signed, unsigned,
}
use power_plant.Staking.Roles
use power_plant.Staking.Roles.Exclusive.{
  Shrinks-refl, adjust-Shrinks, Shrinks, Shrinks-trans, do_remove_validator-Shrinks,
  do_remove_cooperator-Shrinks,
}
use power_plant.Staking.Stashes
use power_plant.Staking.Bonding

module _ (C : Config) (who : ℕ) where
  forget_stash-Shrinks :
      (stash controller : ℕ) (s : Storage C)
      → Shrinks C who s (Stashes.forget_stash C stash controller s)
  unfolding Stashes.forget_stash
  forget_stash-Shrinks stash controller s =
      let s₁ : Storage C = record s {
        bonded = remove stash s.bonded;
        ledger = remove controller s.ledger;
        payee = remove stash s.payee;
      } in
      let s₂ = (Roles.do_remove_validator C stash s₁).1 in
      Shrinks-trans C who s s₂ (Roles.do_remove_cooperator C stash s₂).1
        (do_remove_validator-Shrinks C who stash s₁) (do_remove_cooperator-Shrinks C who stash s₂)

  pub kill_stash-Shrinks :
      (stash spans : ℕ) (s : Storage C) → Shrinks C who s (Stashes.kill_stash C stash spans s).1
  unfolding Stashes.kill_stash
  kill_stash-Shrinks stash spans s = elim (Option-cases (s.bonded stash)) [
    | inl n ↦ ground arith
    | inr (c, e) ↦
        let cleared = clear_stash_metadata stash spans s.slashing.spans in
        let s' = record s { slashing = record s.slashing { spans = cleared.1 } } in
        let forgotten = forget_stash-Shrinks stash c s' in
        elim (Result-cases cleared.0) [ inl f ↦ ground arith | inr f ↦ ground arith ]
  ]

  pub withdraw_to-Shrinks :
      (controller spans : ℕ) (l : StakingLedger) (s : Storage C)
      → Shrinks C who s (Stashes.withdraw_to C controller spans l s).1
  unfolding Stashes.withdraw_to Stashes.update_ledger
  withdraw_to-Shrinks controller spans l s =
      let killed = kill_stash-Shrinks l.stash spans s in
      elim (Result-cases (Stashes.kill_stash C l.stash spans s).0) [
        | inl f ↦ ground arith
        | inr f ↦ ground arith
      ]

  pub do_withdraw_unbonded-Shrinks :
      (controller spans : ℕ) (s : Storage C)
      → Shrinks C who s (Stashes.do_withdraw_unbonded C controller spans s).1
  unfolding Stashes.do_withdraw_unbonded
  do_withdraw_unbonded-Shrinks controller spans s = elim (Option-cases (s.ledger controller)) [
    | inl n ↦ ground arith
    | inr (l, e) ↦
        let l' = Stashes.consolidate_at s.eras.current_era l in
        let done = withdraw_to-Shrinks controller spans l' s in
        elim (Result-cases (Stashes.withdraw_to C controller spans l' s).0) [
          | inl f ↦ ground arith
          | inr f ↦ ground arith
        ]
  ]

  unbond_value-Shrinks :
      (controller : ℕ) (u : Bonding.Unbonding) (l : StakingLedger) (s : Storage C)
      → Shrinks C who s (Bonding.unbond_value C controller u l s).1
  unfolding Bonding.unbond_value Bonding.slash_tax Stashes.update_ledger
  unbond_value-Shrinks controller u l s =
      let era = add32 (unwrap_or s.eras.current_era 0) C.bonding_duration in
      let s' =
        Stashes.update_ledger C controller (Bonding.unbonded_ledger u era l)
          (Bonding.slash_tax C l.stash u.slashed_stake s) in
      let adjusted = adjust-Shrinks C who l.stash u.active s' in ground arith

  make_room-Shrinks :
      (controller : ℕ) (l : StakingLedger) (s : Storage C)
      → Shrinks C who s (Bonding.make_room C controller l s).1
  unfolding Bonding.make_room
  make_room-Shrinks controller l s =
      let spans = Bonding.span_count (s.slashing.spans.slashing_spans controller) in
      let withdrawn = do_withdraw_unbonded-Shrinks controller spans s in ground arith

  unbond_rest-Shrinks :
      (controller value : ℕ) (s : Storage C)
      → Shrinks C who s (Bonding.unbond_rest C controller value s).1
  unfolding Bonding.unbond_rest
  unbond_rest-Shrinks controller value s = elim (Option-cases (s.ledger controller)) [
    | inl n ↦ ground arith
    | inr (l, e) ↦
        let u = Bonding.unbonding C (C.vip_tax_percent l.stash s.others) value l.active in
        let done = unbond_value-Shrinks controller u l s in ground arith
  ]

  pub unbond-Shrinks :
      (origin : Origin) (value : ℕ) (s : Storage C)
      → Shrinks C who s (Bonding.unbond C origin value s).1
  unfolding Bonding.unbond
  unbond-Shrinks root value s = Shrinks-refl C who s
  unbond-Shrinks unsigned value s = Shrinks-refl C who s
  unbond-Shrinks (signed controller) value s = elim (Option-cases (s.ledger controller)) [
    | inl n ↦ ground arith
    | inr (l, e) ↦
        let s' = (Bonding.make_room C controller l s).1 in
        let room = make_room-Shrinks controller l s in
        let rest = unbond_rest-Shrinks controller value s' in
        let both =
          Shrinks-trans C who s s' (Bonding.unbond_rest C controller value s').1 room rest in
        elim (Result-cases (Bonding.make_room C controller l s).0) [
          | inl f ↦ ground arith
          | inr f ↦ ground arith
        ]
  ]

  pub withdraw_unbonded-Shrinks :
      (origin : Origin) (spans : ℕ) (s : Storage C)
      → Shrinks C who s (Bonding.withdraw_unbonded C origin spans s).1
  unfolding Bonding.withdraw_unbonded
  withdraw_unbonded-Shrinks root spans s = Shrinks-refl C who s
  withdraw_unbonded-Shrinks unsigned spans s = Shrinks-refl C who s
  withdraw_unbonded-Shrinks (signed controller) spans s =
      do_withdraw_unbonded-Shrinks controller spans s

  pub force_unstake-Shrinks :
      (origin : Origin) (stash spans : ℕ) (s : Storage C)
      → Shrinks C who s (Bonding.force_unstake C origin stash spans s).1
  unfolding Bonding.force_unstake
  force_unstake-Shrinks root stash spans s =
      let killed = kill_stash-Shrinks stash spans s in
      elim (Result-cases (Stashes.kill_stash C stash spans s).0) [
        | inl f ↦ ground arith
        | inr f ↦ ground arith
      ]
  force_unstake-Shrinks unsigned stash spans s = Shrinks-refl C who s
  force_unstake-Shrinks (signed caller) stash spans s = Shrinks-refl C who s

  pub reap_stash-Shrinks :
      (origin : Origin) (stash spans : ℕ) (s : Storage C)
      → Shrinks C who s (Bonding.reap_stash C origin stash spans s).1
  unfolding Bonding.reap_stash
  reap_stash-Shrinks root stash spans s = Shrinks-refl C who s
  reap_stash-Shrinks unsigned stash spans s = Shrinks-refl C who s
  reap_stash-Shrinks (signed caller) stash spans s =
      let killed = kill_stash-Shrinks stash spans s in
      elim (Result-cases (Bonding.is_reapable C stash s)) [
        | inl f ↦ ground arith
        | inr g ↦ elim (Result-cases (Stashes.kill_stash C stash spans s).0) [
          | inl f ↦ ground arith
          | inr f ↦ ground arith
        ]
      ]

  pub bond-Shrinks :
      (origin : Origin) (controller value : ℕ) (payee : RewardDestination) (s : Storage C)
      → Shrinks C who s (Bonding.bond C origin controller value payee s).1
  unfolding Bonding.bond Bonding.open_ledger Stashes.update_ledger
  bond-Shrinks root source value payee s = Shrinks-refl C who s
  bond-Shrinks unsigned source value payee s = Shrinks-refl C who s
  bond-Shrinks (signed stash) source value payee s =
      elim (Result-cases (Bonding.check_bond C stash source value s)) [
        | inl f ↦ ground arith
        | inr f ↦ ground arith
      ]

  pub bond_extra-Shrinks :
      (origin : Origin) (max_additional : ℕ) (s : Storage C)
      → Shrinks C who s (Bonding.bond_extra C origin max_additional s).1
  unfolding Bonding.bond_extra Stashes.update_ledger
  bond_extra-Shrinks origin max_additional s = ground arith

  pub rebond-Shrinks :
      (origin : Origin) (value : ℕ) (s : Storage C)
      → Shrinks C who s (Bonding.rebond C origin value s).1
  unfolding Bonding.rebond Stashes.update_ledger
  rebond-Shrinks origin value s = ground arith

  pub set_controller-Shrinks :
      (origin : Origin) (controller : ℕ) (s : Storage C)
      → Shrinks C who s (Bonding.set_controller C origin controller s).1
  unfolding Bonding.set_controller
  set_controller-Shrinks origin controller s = ground arith

  pub set_payee-Shrinks :
      (origin : Origin) (payee : RewardDestination) (s : Storage C)
      → Shrinks C who s (Bonding.set_payee C origin payee s).1
  unfolding Bonding.set_payee
  set_payee-Shrinks origin payee s = ground arith
