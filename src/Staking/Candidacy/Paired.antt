-- ===== src/Staking/Candidacy/Paired.antt =====
-- The calls of candidates leave the stashes and their ledgers as they are
-- (pallets/energy-generation/src/pallet/mod.rs).
use power_plant.Prelude.{
  ℕ, ◌≡◌, refl, inl, inr, List, [], ◌∷◌, arith, Option-cases, Assoc, for_each, fold_state,
  Result-cases,
}
use power_plant.Ledger.{StakingLedger}
use power_plant.Staking.{
  Config, Storage, Origin, ValidatorPrefs, Cooperations, root, signed, unsigned,
}
use power_plant.Staking.Roles
use power_plant.Staking.Candidacy

module _ (C : Config) where
  abbrev pub HasSameLedgers : Storage C → Storage C → Type 0
  HasSameLedgers s s' = (s'.bonded ≡ s.bonded) × (s'.ledger ≡ s.ledger)

  pub chill_stash_lem : (stash : ℕ) (s : Storage C) → HasSameLedgers s (Roles.chill_stash C stash s)
  unfolding Roles.chill_stash Roles.do_remove_validator Roles.do_remove_cooperator
  chill_stash_lem stash s = ground arith

  retire_lem : (stash : ℕ) (s : Storage C) → HasSameLedgers s (Candidacy.retire C stash s)
  unfolding Roles.do_remove_validator_from_cooperators_target
  retire_lem stash s =
      let s' = Roles.do_remove_validator_from_cooperators_target C stash s in
      let chilled = chill_stash_lem stash s' in ground arith

  pub chill_lem :
      (origin : Origin) (s : Storage C) → HasSameLedgers s (Candidacy.chill C origin s).1
  unfolding Candidacy.chill
  chill_lem root s = (refl, refl)
  chill_lem unsigned s = (refl, refl)
  chill_lem (signed controller) s = elim (Option-cases (s.ledger controller)) [
    | inl n ↦ ground arith
    | inr (l, e) ↦ ground (arith, retire_lem l.stash s)
  ]

  pub force_chill_lem :
      (origin : Origin) (controller : ℕ) (s : Storage C)
      → HasSameLedgers s (Candidacy.force_chill C origin controller s).1
  unfolding Candidacy.force_chill
  force_chill_lem root controller s = elim (Option-cases (s.ledger controller)) [
    | inl n ↦ ground arith
    | inr (l, e) ↦ ground (arith, retire_lem l.stash s)
  ]
  force_chill_lem unsigned controller s = (refl, refl)
  force_chill_lem (signed caller) controller s = (refl, refl)

  ensure_chillable_lem :
      (l : StakingLedger) (s : Storage C) → (Candidacy.ensure_chillable C l s).1 ≡ s
  unfolding Candidacy.ensure_chillable
  ensure_chillable_lem l s = ground arith

  pub chill_other_lem :
      (origin : Origin) (controller : ℕ) (s : Storage C)
      → HasSameLedgers s (Candidacy.chill_other C origin controller s).1
  unfolding Candidacy.chill_other
  chill_other_lem root controller s = (refl, refl)
  chill_other_lem unsigned controller s = (refl, refl)
  chill_other_lem (signed caller) controller s = elim (Option-cases (s.ledger controller)) [
    | inl n ↦ ground arith
    | inr (l, e) ↦
        let retired = retire_lem l.stash s in
        let checked = ensure_chillable_lem l s in
        elim (Result-cases (Candidacy.ensure_chillable C l s).0) [
          | inl f ↦ ground arith
          | inr f ↦ ground arith
        ]
  ]

  kick_all_lem :
      (stash : ℕ) (accounts : List ℕ) (s : Storage C)
      → HasSameLedgers s (fold_state (Candidacy.kick_one C stash) accounts s)
  unfolding fold_state Candidacy.kick_one Candidacy.kick_from
  kick_all_lem stash [] s = (refl, refl)
  kick_all_lem stash (who ∷ accounts) s =
      let rest = kick_all_lem stash accounts (Candidacy.kick_one C stash who s) in ground arith

  pub kick_lem :
      (origin : Origin) (accounts : List ℕ) (s : Storage C)
      → HasSameLedgers s (Candidacy.kick C origin accounts s).1
  unfolding Candidacy.kick
  kick_lem root accounts s = (refl, refl)
  kick_lem unsigned accounts s = (refl, refl)
  kick_lem (signed controller) accounts s = elim (Option-cases (s.ledger controller)) [
    | inl n ↦ ground arith
    | inr (l, e) ↦ elim (Result-cases (Candidacy.look_up_all C accounts)) [
      | inl (_, f) ↦ ground arith
      | inr (found, f) ↦ let kicked = kick_all_lem l.stash found s in ground arith
    ]
  ]

  pub force_apply_lem :
      (origin : Origin) (stash : ℕ) (s : Storage C)
      → HasSameLedgers s (Candidacy.force_apply_min_commission C origin stash s).1
  unfolding Candidacy.force_apply_min_commission
  force_apply_lem origin stash s = ground arith

  pub make_collaborative_lem :
      (origin : Origin) (s : Storage C)
      → HasSameLedgers s (Candidacy.make_collaborative C origin s).1
  unfolding Candidacy.make_collaborative
  make_collaborative_lem origin s = ground arith

  pub validate_lem :
      (origin : Origin) (prefs : ValidatorPrefs) (s : Storage C)
      → HasSameLedgers s (Candidacy.validate C origin prefs s).1
  unfolding Candidacy.validate Roles.do_add_validator Roles.do_remove_cooperator
  validate_lem root prefs s = (refl, refl)
  validate_lem unsigned prefs s = (refl, refl)
  validate_lem (signed controller) prefs s = elim (Option-cases (s.ledger controller)) [
    | inl n ↦ ground arith
    | inr (l, e) ↦
        elim (Result-cases (Candidacy.check_validator C l (Candidacy.updated_prefs C prefs) s)) [
          | inl f ↦ ground arith
          | inr f ↦ ground arith
        ]
  ]

  joins_lem :
      (stash : ℕ) (targets : Assoc ℕ) (s : Storage C)
      → HasSameLedgers s (for_each (Roles.join C stash) targets s).1
  unfolding for_each Roles.join
  joins_lem stash [] s = (refl, refl)
  joins_lem stash (t ∷ targets) s =
      let rest = joins_lem stash targets (Roles.join C stash t s).1 in ground arith

  become_lem :
      (stash controller : ℕ) (sources : List (ℕ × ℕ)) (c : Cooperations) (s : Storage C)
      → HasSameLedgers s (Candidacy.become_cooperator C stash controller sources c s).1
  unfolding Candidacy.become_cooperator Roles.do_add_cooperator Roles.do_remove_validator
  become_lem stash controller sources c s =
      let s' = (Roles.do_remove_validator C stash s).1 in
      let joined = joins_lem stash c.targets s' in
      elim (Result-cases (for_each (Roles.join C stash) c.targets s').0) [
        | inl f ↦ ground arith
        | inr f ↦ ground arith
      ]

  pub cooperate_lem :
      (origin : Origin) (targets : List (ℕ × ℕ)) (s : Storage C)
      → HasSameLedgers s (Candidacy.cooperate C origin targets s).1
  unfolding Candidacy.cooperate
  cooperate_lem root targets s = (refl, refl)
  cooperate_lem unsigned targets s = (refl, refl)
  cooperate_lem (signed controller) targets s = elim (Option-cases (s.ledger controller)) [
    | inl n ↦ ground arith
    | inr (l, e) ↦ elim (Result-cases (Candidacy.check_cooperator C l targets s)) [
      | inl f ↦ ground arith
      | inr (ts, f) ↦
          let sources = Candidacy.nonzero_targets targets in
          let done = become_lem l.stash controller sources (Candidacy.cooperations_of C ts s) s in
          ground arith
    ]
  ]
