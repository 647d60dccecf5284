-- ===== src/Staking/Roles/Exclusive.antt =====
-- An account is never a validator and a cooperator at once: what the helpers of
-- pallets/energy-generation/src/pallet/impls.rs do to the two maps.
use power_plant.Prelude.{
  ℕ, ◌≡◌, ◌⊎◌, refl, inl, inr, true, none, some, List, [], ◌∷◌, map, arith, Option-cases, is_some,
  Assoc, lookup, put_in, delete, lookup-put_in, lookup-delete, for_each, fold_state,
}
use power_plant.Staking.{ValidatorPrefs, Cooperations, Config, Storage}
use power_plant.Staking.Roles

module _ (C : Config) (who : ℕ) where
  abbrev pub IsExclusive : Storage C → Type 0
  IsExclusive s = (lookup who s.validators ≡ none) ⊎ (lookup who s.cooperators ≡ none)

  -- The second storage makes no account a validator or a cooperator that was none.
  abbrev pub Shrinks : Storage C → Storage C → Type 0
  Shrinks s s' =
      ((lookup who s'.validators ≡ none) ⊎ (is_some (lookup who s.validators) ≡ true))
      × ((lookup who s'.cooperators ≡ none) ⊎ (is_some (lookup who s.cooperators) ≡ true))

  pub Shrinks-refl : (s : Storage C) → Shrinks s s
  Shrinks-refl s = ground arith

  pub Shrinks-trans : (s s' s'' : Storage C) → Shrinks s s' → Shrinks s' s'' → Shrinks s s''
  Shrinks-trans s s' s'' h h' = ground arith

  pub Shrinks-IsExclusive : (s s' : Storage C) → Shrinks s s' → IsExclusive s → IsExclusive s'
  Shrinks-IsExclusive s s' h e = ground arith

  pub do_remove_validator-Shrinks :
      (stash : ℕ) (s : Storage C) → Shrinks s (Roles.do_remove_validator C stash s).1
  unfolding Roles.do_remove_validator
  do_remove_validator-Shrinks stash s = ground (arith, lookup-delete who stash s.validators)

  pub do_remove_cooperator-Shrinks :
      (stash : ℕ) (s : Storage C) → Shrinks s (Roles.do_remove_cooperator C stash s).1
  unfolding Roles.do_remove_cooperator
  do_remove_cooperator-Shrinks stash s = ground (arith, lookup-delete who stash s.cooperators)

  pub chill_stash-Shrinks : (stash : ℕ) (s : Storage C) → Shrinks s (Roles.chill_stash C stash s)
  unfolding Roles.chill_stash
  chill_stash-Shrinks stash s =
      let s' = (Roles.do_remove_validator C stash s).1 in
      ground (arith, do_remove_validator-Shrinks stash s, do_remove_cooperator-Shrinks stash s')

  pub fold_state-Shrinks :
      {A : Type 0} (f : A → Storage C → Storage C)
      → ((x : A) (s : Storage C) → Shrinks s (f x s))
      → (xs : List A) (s : Storage C) → Shrinks s (fold_state f xs s)
  unfolding fold_state
  fold_state-Shrinks f h [] s = Shrinks-refl s
  fold_state-Shrinks f h (x ∷ xs) s =
      Shrinks-trans s (f x s) (fold_state f xs (f x s)) (h x s) (fold_state-Shrinks f h xs (f x s))

  drop_target_lem :
      (target coop : ℕ) (m : Assoc Cooperations)
      → (lookup who (Roles.drop_target C target coop m) ≡ none) ⊎ (is_some (lookup who m) ≡ true)
  unfolding Roles.drop_target
  drop_target_lem target coop m = elim (Option-cases (lookup coop m)) [
    | inl n ↦ ground arith
    | inr (c, e) ↦
        ground (arith, lookup-put_in who coop (record c { targets = delete target c.targets }) m)
  ]

  drop_targets_lem :
      (target : ℕ) (coops : List ℕ) (m : Assoc Cooperations)
      → (lookup who (fold_state (Roles.drop_target C target) coops m) ≡ none)
        ⊎ (is_some (lookup who m) ≡ true)
  unfolding fold_state
  drop_targets_lem target [] m = ground arith
  drop_targets_lem target (coop ∷ coops) m = ground (
    arith,
    drop_target_lem target coop m,
    drop_targets_lem target coops (Roles.drop_target C target coop m),
  )

  pub remove_targets-Shrinks :
      (stash : ℕ) (s : Storage C)
      → Shrinks s (Roles.do_remove_validator_from_cooperators_target C stash s)
  unfolding Roles.do_remove_validator_from_cooperators_target
  remove_targets-Shrinks stash s = elim (Option-cases (s.collaborations stash)) [
    | inl n ↦ ground arith
    | inr (coops, e) ↦ ground (arith, drop_targets_lem stash coops s.cooperators)
  ]

  -- Cooperations that replace those of a cooperator.
  pub replaced-Shrinks :
      (coop : ℕ) (c c' : Cooperations) (m : Assoc Cooperations)
      → lookup coop m ≡ some c
      → (lookup who (put_in coop c' m) ≡ none) ⊎ (is_some (lookup who m) ≡ true)
  replaced-Shrinks coop c c' m e = ground (arith, lookup-put_in who coop c' m)

  pub adjust-Shrinks :
      (stash active : ℕ) (s : Storage C)
      → Shrinks s (Roles.adjust_cooperator_targets C stash active s)
  unfolding Roles.adjust_cooperator_targets
  adjust-Shrinks stash active s = elim (Option-cases (lookup stash s.cooperators)) [
    | inl n ↦ ground arith
    | inr (c, e) ↦
        let p = C.perbill.from_rational active (Roles.total_from 0 c.targets) in
        let c' = record c { targets = map (λ t. (t.0, C.mul_floor p t.1)) c.targets } in
        ground (arith, replaced-Shrinks stash c c' s.cooperators e)
  ]

  pub check_validator-Shrinks :
      (acc : ℕ) (s : Storage C) → Shrinks s (Roles.check_reputation_validator C acc s)
  unfolding Roles.check_reputation_validator
  check_validator-Shrinks acc s = ground (arith, chill_stash-Shrinks acc s)

  pub check_collab-Shrinks :
      (acc : ℕ) (s : Storage C) → Shrinks s (Roles.try_check_reputation_collab C acc s)
  unfolding Roles.try_check_reputation_collab
  check_collab-Shrinks acc s = ground (arith, chill_stash-Shrinks acc s)

  pub check_cooperator-Shrinks :
      (validator coop : ℕ) (s : Storage C)
      → Shrinks s (Roles.check_reputation_cooperator C validator coop s)
  unfolding Roles.check_reputation_cooperator
  check_cooperator-Shrinks validator coop s = ground (arith, chill_stash-Shrinks coop s)

module _ (C : Config) (who : ℕ) where
  pub cooperator_removed :
      (stash : ℕ) (s : Storage C)
      → lookup stash (Roles.do_remove_cooperator C stash s).1.cooperators ≡ none
  unfolding Roles.do_remove_cooperator
  cooperator_removed stash s = ground (arith, lookup-delete stash stash s.cooperators)

  pub validator_removed :
      (stash : ℕ) (s : Storage C)
      → lookup stash (Roles.do_remove_validator C stash s).1.validators ≡ none
  unfolding Roles.do_remove_validator
  validator_removed stash s = ground (arith, lookup-delete stash stash s.validators)

  -- A validator that was taken from the cooperators first.
  pub add_validator-IsExclusive :
      (stash : ℕ) (prefs : ValidatorPrefs) (s : Storage C)
      → IsExclusive C who s
      → IsExclusive C who
          (Roles.do_add_validator C stash prefs (Roles.do_remove_cooperator C stash s).1)
  unfolding Roles.do_add_validator
  add_validator-IsExclusive stash prefs s h =
      let s' = (Roles.do_remove_cooperator C stash s).1 in
      let gone = cooperator_removed stash s in
      let shrunk = do_remove_cooperator-Shrinks C who stash s in
      ground (arith, lookup-put_in who stash prefs s'.validators)

  join_lem :
      (stash : ℕ) (target : ℕ × ℕ) (s : Storage C)
      → let s' = (Roles.join C stash target s).1 in
        (s'.validators ≡ s.validators) × (s'.cooperators ≡ s.cooperators)
  unfolding Roles.join
  join_lem stash target s = ground arith

  joins_lem :
      (stash : ℕ) (targets : Assoc ℕ) (s : Storage C)
      → let s' = (for_each (Roles.join C stash) targets s).1 in
        (s'.validators ≡ s.validators) × (s'.cooperators ≡ s.cooperators)
  unfolding for_each
  joins_lem stash [] s = (refl, refl)
  joins_lem stash (t ∷ targets) s =
      let s' = (Roles.join C stash t s).1 in
      ground (arith, join_lem stash t s, joins_lem stash targets s')

  -- A cooperator that was taken from the validators first.
  pub add_cooperator-IsExclusive :
      (stash : ℕ) (c : Cooperations) (s : Storage C)
      → IsExclusive C who s
      → IsExclusive C who
          (Roles.do_add_cooperator C stash c (Roles.do_remove_validator C stash s).1).1
  unfolding Roles.do_add_cooperator
  add_cooperator-IsExclusive stash c s h =
      let s₁ = (Roles.do_remove_validator C stash s).1 in
      let s₂ = (for_each (Roles.join C stash) c.targets s₁).1 in
      let gone = validator_removed stash s in
      let shrunk = do_remove_validator-Shrinks C who stash s in
      let joined = joins_lem stash c.targets s₁ in
      ground (arith, lookup-put_in who stash c s₂.cooperators)
