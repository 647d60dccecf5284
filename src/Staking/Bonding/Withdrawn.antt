-- ===== src/Staking/Bonding/Withdrawn.antt =====
-- Unbonding, withdrawing and reaping keep stashes and controllers paired
-- (pallets/energy-generation/src/pallet/mod.rs and impls.rs).
use power_plant.Prelude.{
  ℕ, ◌≡◌, refl, inl, inr, Option, none, some, arith, Option-cases, add32, unwrap_or, Result-cases,
}
use power_plant.Ledger.{StakingLedger, consolidate_unlocked}
use power_plant.Staking.{Config, Storage, Origin, root, signed, unsigned}
use power_plant.Staking.Roles
use power_plant.Staking.Stashes
use power_plant.Staking.Bonding
use power_plant.Staking.Bonding.Paired.{
  HasPairs, kill_stash-HasPairs, update_ledger-HasPairs, withdraw_to-HasPairs,
}

module _ (C : Config) where
  consolidate_lem :
      (era : Option ℕ) (l : StakingLedger) → (Stashes.consolidate_at era l).stash ≡ l.stash
  unfolding consolidate_unlocked
  consolidate_lem none l = refl
  consolidate_lem (some era) l = refl

  pub do_withdraw_unbonded-HasPairs :
      (controller spans : ℕ) (s : Storage C)
      → HasPairs C s
      → HasPairs C (Stashes.do_withdraw_unbonded C controller spans s).1
  unfolding Stashes.do_withdraw_unbonded
  do_withdraw_unbonded-HasPairs controller spans s h = elim (Option-cases (s.ledger controller)) [
    | inl n ↦ ground arith
    | inr (l, e) ↦
        let l' = Stashes.consolidate_at s.eras.current_era l in
        let same = consolidate_lem s.eras.current_era l in
        let done = withdraw_to-HasPairs C controller spans l l' s h e same in
        elim (Result-cases (Stashes.withdraw_to C controller spans l' s).0) [
          | inl f ↦ ground arith
          | inr f ↦ ground arith
        ]
  ]

  adjust_lem :
      (stash active : ℕ) (s : Storage C)
      → let s' = Roles.adjust_cooperator_targets C stash active s in
        (s'.bonded ≡ s.bonded) × (s'.ledger ≡ s.ledger)
  unfolding Roles.adjust_cooperator_targets
  adjust_lem stash active s = ground arith

  slash_tax_lem :
      (stash slashed : ℕ) (s : Storage C)
      → let s' = Bonding.slash_tax C stash slashed s in
        (s'.bonded ≡ s.bonded) × (s'.ledger ≡ s.ledger)
  unfolding Bonding.slash_tax
  slash_tax_lem stash slashed s = ground arith

  pub unbond_value-HasPairs :
      (controller : ℕ) (u : Bonding.Unbonding) (l : StakingLedger) (s : Storage C)
      → HasPairs C s
      → s.ledger controller ≡ some l
      → HasPairs C (Bonding.unbond_value C controller u l s).1
  unfolding Bonding.unbond_value Bonding.unbonded_ledger
  unbond_value-HasPairs controller u l s h e =
      let era = add32 (unwrap_or s.eras.current_era 0) C.bonding_duration in
      let l' = Bonding.unbonded_ledger u era l in
      let s₁ = Bonding.slash_tax C l.stash u.slashed_stake s in
      let taxed = slash_tax_lem l.stash u.slashed_stake s in
      let h₁ : HasPairs C s₁ = ground arith in
      let e₁ : s₁.ledger controller ≡ some l = ground arith in
      let s₂ = Stashes.update_ledger C controller l' s₁ in
      let adjusted = adjust_lem l.stash u.active s₂ in
      let updated = update_ledger-HasPairs C controller l l' s₁ h₁ e₁ refl in ground arith

  pub make_room-HasPairs :
      (controller : ℕ) (l : StakingLedger) (s : Storage C)
      → HasPairs C s
      → HasPairs C (Bonding.make_room C controller l s).1
  unfolding Bonding.make_room
  make_room-HasPairs controller l s h =
      let spans = Bonding.span_count (s.slashing.spans.slashing_spans controller) in
      let withdrawn = do_withdraw_unbonded-HasPairs controller spans s h in ground arith

  pub unbond_rest-HasPairs :
      (controller value : ℕ) (s : Storage C)
      → HasPairs C s
      → HasPairs C (Bonding.unbond_rest C controller value s).1
  unfolding Bonding.unbond_rest
  unbond_rest-HasPairs controller value s h = elim (Option-cases (s.ledger controller)) [
    | inl n ↦ ground arith
    | inr (l, e) ↦
        let u = Bonding.unbonding C (C.vip_tax_percent l.stash s.others) value l.active in
        let done = unbond_value-HasPairs controller u l s h e in ground arith
  ]

  pub unbond-HasPairs :
      (origin : Origin) (value : ℕ) (s : Storage C)
      → HasPairs C s
      → HasPairs C (Bonding.unbond C origin value s).1
  unfolding Bonding.unbond
  unbond-HasPairs root value s h = h
  unbond-HasPairs unsigned value s h = h
  unbond-HasPairs (signed controller) value s h = elim (Option-cases (s.ledger controller)) [
    | inl n ↦ ground arith
    | inr (l, e) ↦
        let s' = (Bonding.make_room C controller l s).1 in
        let room = make_room-HasPairs controller l s h in
        let rest = unbond_rest-HasPairs controller value s' room in
        elim (Result-cases (Bonding.make_room C controller l s).0) [
          | inl f ↦ ground arith
          | inr f ↦ ground arith
        ]
  ]

  pub withdraw_unbonded-HasPairs :
      (origin : Origin) (spans : ℕ) (s : Storage C)
      → HasPairs C s
      → HasPairs C (Bonding.withdraw_unbonded C origin spans s).1
  unfolding Bonding.withdraw_unbonded
  withdraw_unbonded-HasPairs root spans s h = h
  withdraw_unbonded-HasPairs unsigned spans s h = h
  withdraw_unbonded-HasPairs (signed controller) spans s h =
      do_withdraw_unbonded-HasPairs controller spans s h

  pub force_unstake-HasPairs :
      (origin : Origin) (stash spans : ℕ) (s : Storage C)
      → HasPairs C s
      → HasPairs C (Bonding.force_unstake C origin stash spans s).1
  unfolding Bonding.force_unstake
  force_unstake-HasPairs root stash spans s h =
      let killed = kill_stash-HasPairs C stash spans s h in
      elim (Result-cases (Stashes.kill_stash C stash spans s).0) [
        | inl f ↦ ground arith
        | inr f ↦ ground arith
      ]
  force_unstake-HasPairs unsigned stash spans s h = h
  force_unstake-HasPairs (signed caller) stash spans s h = h

  pub reap_stash-HasPairs :
      (origin : Origin) (stash spans : ℕ) (s : Storage C)
      → HasPairs C s
      → HasPairs C (Bonding.reap_stash C origin stash spans s).1
  unfolding Bonding.reap_stash
  reap_stash-HasPairs root stash spans s h = h
  reap_stash-HasPairs unsigned stash spans s h = h
  reap_stash-HasPairs (signed caller) stash spans s h =
      let killed = kill_stash-HasPairs C stash spans s h in
      elim (Result-cases (Bonding.is_reapable C stash s)) [
        | inl f ↦ ground arith
        | inr g ↦ elim (Result-cases (Stashes.kill_stash C stash spans s).0) [
          | inl f ↦ ground arith
          | inr f ↦ ground arith
        ]
      ]
