-- ===== src/Staking/Bonding/Paired.antt =====
-- The calls that change ledgers keep stashes and ledgers paired
-- (pallets/energy-generation/src/pallet/mod.rs).
use power_plant.Prelude.{
  ℕ, zero, suc, ◌-◌, ◌≤◌, ◌≡◌, refl, ap, inl, inr, min, none, some, arith, le→leb, Option-cases,
  length, ok, remove, unwrap_or, Result-cases,
}
use power_plant.Slashing.Inspect.{clear_stash_metadata}
use power_plant.Ledger
use power_plant.Ledger.{StakingLedger, from}
use power_plant.Staking.{Config, Storage, Origin, RewardDestination, root, signed, unsigned}
use power_plant.Staking.Roles
use power_plant.Staking.Stashes
use power_plant.Staking.Stashes.Paired.{
  IsPaired, changed-IsPaired, bonded-IsPaired, killed-IsPaired, moved-IsPaired,
}
use power_plant.Staking.Bonding

length-from : (start n : ℕ) → length (from start n) ≡ n
length-from start zero = refl
length-from start (suc n) = ap suc (length-from (suc start) n)

module _ (C : Config) where
  abbrev pub HasPairs : Storage C → Type 0
  HasPairs s = IsPaired s.bonded s.ledger

  forget_stash_lem :
      (stash c : ℕ) (s : Storage C)
      → let s' = Stashes.forget_stash C stash c s in
        (s'.bonded ≡ remove stash s.bonded) × (s'.ledger ≡ remove c s.ledger)
  unfolding Stashes.forget_stash Roles.do_remove_validator Roles.do_remove_cooperator
  forget_stash_lem stash c s = ground arith

  pub kill_stash-HasPairs :
      (stash spans : ℕ) (s : Storage C)
      → HasPairs s
      → HasPairs (Stashes.kill_stash C stash spans s).1
  unfolding Stashes.kill_stash
  kill_stash-HasPairs stash spans s h = elim (Option-cases (s.bonded stash)) [
    | inl n ↦ ground arith
    | inr (c, e) ↦
        let cleared = clear_stash_metadata stash spans s.slashing.spans in
        let s' : Storage C = record s { slashing = record s.slashing { spans = cleared.1 } } in
        let forgotten = forget_stash_lem stash c s' in
        let killed = killed-IsPaired s.bonded s.ledger h stash c e in
        elim (Result-cases cleared.0) [ inl f ↦ ground arith | inr f ↦ ground arith ]
  ]

  pub update_ledger-HasPairs :
      (controller : ℕ) (l l' : StakingLedger) (s : Storage C)
      → HasPairs s
      → s.ledger controller ≡ some l
      → l'.stash ≡ l.stash
      → HasPairs (Stashes.update_ledger C controller l' s)
  unfolding Stashes.update_ledger
  update_ledger-HasPairs controller l l' s h e same =
      changed-IsPaired s.bonded s.ledger h controller l l' e same

  claimed_lem : (era : ℕ) → length (Bonding.claimed_from C.history_depth era) ≤ C.history_depth
  claimed_lem era =
      ground (arith, length-from (era - C.history_depth) (era - (era - C.history_depth)))

  pub open_ledger-HasPairs :
      (stash c value : ℕ) (payee : RewardDestination) (s : Storage C)
      → HasPairs s
      → s.bonded stash ≡ none
      → s.ledger c ≡ none
      → HasPairs (Bonding.open_ledger C stash c value payee s).1
  unfolding Bonding.open_ledger Stashes.update_ledger
  open_ledger-HasPairs stash c value payee s h unbonded unpaired =
      let era = unwrap_or s.eras.current_era 0 in
      let claimed = Bonding.claimed_from C.history_depth era in
      let l = Bonding.new_ledger stash (min value (C.free_balance stash s.others)) claimed in
      let opened = bonded-IsPaired s.bonded s.ledger h c l unbonded unpaired in
      let fits = le→leb (length claimed) C.history_depth (claimed_lem era) in ground arith

  check_bond_lem :
      (stash source value c : ℕ) (s : Storage C)
      → Bonding.check_bond C stash source value s ≡ ok c
      → (s.bonded stash ≡ none) × (s.ledger c ≡ none)
  unfolding Bonding.check_bond
  check_bond_lem stash source value c s e = ground arith

  pub bond-HasPairs :
      (origin : Origin) (controller value : ℕ) (payee : RewardDestination) (s : Storage C)
      → HasPairs s
      → HasPairs (Bonding.bond C origin controller value payee s).1
  unfolding Bonding.bond
  bond-HasPairs root source value payee s h = h
  bond-HasPairs unsigned source value payee s h = h
  bond-HasPairs (signed stash) source value payee s h =
      elim (Result-cases (Bonding.check_bond C stash source value s)) [
        | inl f ↦ ground arith
        | inr (c, f) ↦
            let free = check_bond_lem stash source value c s f in
            elim (Option-cases (C.inc_consumers stash s.others)) [
              | inl n ↦ ground arith
              | inr (o, g) ↦
                  let s' : Storage C = record s { others = o } in
                  let opened = open_ledger-HasPairs stash c value payee s' h free.0 free.1 in
                  ground arith
            ]
      ]

  pub bond_extra-HasPairs :
      (origin : Origin) (max_additional : ℕ) (s : Storage C)
      → HasPairs s
      → HasPairs (Bonding.bond_extra C origin max_additional s).1
  unfolding Bonding.bond_extra Stashes.update_ledger
  bond_extra-HasPairs root max_additional s h = h
  bond_extra-HasPairs unsigned max_additional s h = h
  bond_extra-HasPairs (signed stash) max_additional s h = elim (Option-cases (s.bonded stash)) [
    | inl n ↦ ground arith
    | inr (c, e) ↦ elim (Option-cases (s.ledger c)) [
      | inl n ↦ ground arith
      | inr (l, f) ↦
          let extra = min (C.free_balance stash s.others - l.total) max_additional in
          let l' = Bonding.extended C extra l in
          let changed = changed-IsPaired s.bonded s.ledger h c l l' f refl in ground arith
    ]
  ]

  pub rebond-HasPairs :
      (origin : Origin) (value : ℕ) (s : Storage C)
      → HasPairs s
      → HasPairs (Bonding.rebond C origin value s).1
  unfolding Bonding.rebond Stashes.update_ledger Ledger.rebond
  rebond-HasPairs root value s h = h
  rebond-HasPairs unsigned value s h = h
  rebond-HasPairs (signed controller) value s h = elim (Option-cases (s.ledger controller)) [
    | inl n ↦ ground arith
    | inr (l, f) ↦
        let l' = (Ledger.rebond value l).0 in
        let changed = changed-IsPaired s.bonded s.ledger h controller l l' f refl in ground arith
  ]

  pub set_controller-HasPairs :
      (origin : Origin) (controller : ℕ) (s : Storage C)
      → HasPairs s
      → HasPairs (Bonding.set_controller C origin controller s).1
  unfolding Bonding.set_controller
  set_controller-HasPairs root controller s h = h
  set_controller-HasPairs unsigned controller s h = h
  set_controller-HasPairs (signed stash) controller s h = elim (Option-cases (s.bonded stash)) [
    | inl n ↦ ground arith
    | inr (c, e) ↦ elim (Option-cases (C.find_account controller)) [
      | inl n ↦ ground arith
      | inr (c', g) ↦ elim (Option-cases (s.ledger c')) [
        | inr paired ↦ ground arith
        | inl free ↦ elim (Option-cases (s.ledger c)) [
          | inl n ↦ absurd (ground (arith, h.stash_at stash))
          | inr (l, f) ↦
              let moved = moved-IsPaired s.bonded s.ledger h stash c c' l e f free in ground arith
        ]
      ]
    ]
  ]

  pub set_payee-HasPairs :
      (origin : Origin) (payee : RewardDestination) (s : Storage C)
      → HasPairs s
      → HasPairs (Bonding.set_payee C origin payee s).1
  unfolding Bonding.set_payee
  set_payee-HasPairs origin payee s h = ground arith

  pub withdraw_to-HasPairs :
      (controller spans : ℕ) (l l' : StakingLedger) (s : Storage C)
      → HasPairs s
      → s.ledger controller ≡ some l
      → l'.stash ≡ l.stash
      → HasPairs (Stashes.withdraw_to C controller spans l' s).1
  unfolding Stashes.withdraw_to
  withdraw_to-HasPairs controller spans l l' s h e same =
      let killed = kill_stash-HasPairs l'.stash spans s h in
      let updated = update_ledger-HasPairs controller l l' s h e same in
      elim (Result-cases (Stashes.kill_stash C l'.stash spans s).0) [
        | inl f ↦ ground arith
        | inr f ↦ ground arith
      ]
