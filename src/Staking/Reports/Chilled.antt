-- ===== src/Staking/Reports/Chilled.antt =====
-- Offenders of the active era are chilled (pallets/energy-generation/src/lib.rs).
use power_plant.Prelude.{
  ℕ, ◌≡◌, inl, inr, Bool, true, false, not, none, List, [], ◌∷◌, arith, ◌==◌, Bool-cases, ok,
  lookup, member, fold_state, filter,
}
use power_plant.Staking.{Config, Storage, Call}
use power_plant.Staking.Roles
use power_plant.Staking.Roles.Exclusive.{
  Shrinks, chill_stash-Shrinks, fold_state-Shrinks, do_remove_cooperator-Shrinks,
  cooperator_removed, validator_removed,
}
use power_plant.Staking.Reports.{Offence, in_active_era, chill_offenders, report_and_chill}

-- A list keeps what its test lets through.
member-filter :
    (k : ℕ) (p : ℕ → Bool) (ks : List ℕ)
    → member k ks ≡ true
    → p k ≡ true
    → member k (filter p ks) ≡ true
unfolding member filter
member-filter k p [] m h = m
member-filter k p (j ∷ ks) m h = elim (Bool-cases (k == j)) [
  | inl t ↦
      let same : k ≡ j = ground arith in let passes : p j ≡ true = rw (← same) h in ground arith
  | inr f ↦ ground (arith, member-filter k p ks)
]

module _ (C : Config) (who : ℕ) where
  -- Neither a validator nor a cooperator.
  abbrev pub IsIdle : Storage C → Type 0
  IsIdle s = (lookup who s.validators ≡ none) × (lookup who s.cooperators ≡ none)

  Shrinks-IsIdle : (s s' : Storage C) → Shrinks C who s s' → IsIdle s → IsIdle s'
  Shrinks-IsIdle s s' h idle = (ground arith, ground arith)

  chill_stash-IsIdle : (s : Storage C) → IsIdle (Roles.chill_stash C who s)
  unfolding Roles.chill_stash
  chill_stash-IsIdle s =
      let s₁ = (Roles.do_remove_validator C who s).1 in
      let a = validator_removed C who who s in
      let b = do_remove_cooperator-Shrinks C who who s₁ in
      let c = cooperator_removed C who who s₁ in ground arith

  chill_each-IsIdle :
      (offenders : List ℕ) (s : Storage C)
      → member who offenders ≡ true
      → IsIdle (fold_state (Roles.chill_stash C) offenders s)
  unfolding fold_state member
  chill_each-IsIdle [] s m = absurd (ground arith)
  chill_each-IsIdle (stash ∷ offenders) s m = elim (Bool-cases (who == stash)) [
    | inl t ↦
        let same : who ≡ stash = ground arith in
        let first : IsIdle (Roles.chill_stash C stash s) = rw (← same) (chill_stash-IsIdle s) in
        Shrinks-IsIdle (Roles.chill_stash C stash s)
          (fold_state (Roles.chill_stash C) offenders (Roles.chill_stash C stash s))
          (fold_state-Shrinks C who (Roles.chill_stash C) (chill_stash-Shrinks C who) offenders
            (Roles.chill_stash C stash s))
          first
    | inr f ↦ chill_each-IsIdle offenders (Roles.chill_stash C stash s) (ground arith)
  ]

  -- If an offence is reported that behind the report is in the active era, then each of its offenders that was
  -- not invulnerable before it is neither a validator nor a cooperator afterwards, whatever the report
  -- itself does.
  pub report_and_chill_lem :
      (report : List ℕ → Offence → Call C (Unit {0})) (reporters : List ℕ) (offence : Offence)
      → (s : Storage C) → member who offence.offenders ≡ true
      → member who s.settings.invulnerables ≡ false
      → (report reporters offence s).0 ≡ ok tt
      → in_active_era C report offence.session_index (report reporters offence s).1 ≡ true
      → IsIdle (report_and_chill C report reporters offence s).1
  unfolding report_and_chill chill_offenders
  report_and_chill_lem report reporters offence s listed vulnerable done active =
      let s₁ = (report reporters offence s).1 in
      let offenders =
        filter (λ stash. not (member stash s.settings.invulnerables)) offence.offenders in
      let kept =
        member-filter who (λ stash. not (member stash s.settings.invulnerables)) offence.offenders
          listed (ground arith) in
      let idle = chill_each-IsIdle offenders s₁ kept in ground arith
