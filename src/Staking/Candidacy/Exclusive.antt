-- ===== src/Staking/Candidacy/Exclusive.antt =====
-- The calls of candidates and the maps of validators and cooperators
-- (pallets/energy-generation/src/pallet/mod.rs).
use power_plant.Prelude.{
  ℕ, ◌≡◌, inl, inr, true, List, arith, Option-cases, lookup, delete, lookup-put_in, Result-cases,
}
use power_plant.Staking.{
  Cooperations, ValidatorPrefs, Config, Storage, Origin, root, signed, unsigned,
}
use power_plant.Staking.Roles
use power_plant.Ledger.{StakingLedger}
use power_plant.Staking.Roles.Exclusive.{
  IsExclusive, Shrinks, Shrinks-refl, Shrinks-trans, chill_stash-Shrinks, remove_targets-Shrinks,
  fold_state-Shrinks, add_validator-IsExclusive, add_cooperator-IsExclusive, replaced-Shrinks,
}
use power_plant.Staking.Candidacy

module _ (C : Config) (who : ℕ) where
  retire-Shrinks : (stash : ℕ) (s : Storage C) → Shrinks C who s (Candidacy.retire C stash s)
  retire-Shrinks stash s =
      let s' = Roles.do_remove_validator_from_cooperators_target C stash s in
      Shrinks-trans C who s s' (Roles.chill_stash C stash s') (remove_targets-Shrinks C who stash s)
        (chill_stash-Shrinks C who stash s')

  pub chill-Shrinks :
      (origin : Origin) (s : Storage C) → Shrinks C who s (Candidacy.chill C origin s).1
  unfolding Candidacy.chill
  chill-Shrinks root s = Shrinks-refl C who s
  chill-Shrinks unsigned s = Shrinks-refl C who s
  chill-Shrinks (signed controller) s = elim (Option-cases (s.ledger controller)) [
    | inl n ↦ ground arith
    | inr (l, e) ↦ ground (arith, retire-Shrinks l.stash s)
  ]

  pub force_chill-Shrinks :
      (origin : Origin) (controller : ℕ) (s : Storage C)
      → Shrinks C who s (Candidacy.force_chill C origin controller s).1
  unfolding Candidacy.force_chill
  force_chill-Shrinks root controller s = elim (Option-cases (s.ledger controller)) [
    | inl n ↦ ground arith
    | inr (l, e) ↦ ground (arith, retire-Shrinks l.stash s)
  ]
  force_chill-Shrinks unsigned controller s = Shrinks-refl C who s
  force_chill-Shrinks (signed caller) controller s = Shrinks-refl C who s

  ensure_chillable_lem :
      (l : StakingLedger) (s : Storage C) → (Candidacy.ensure_chillable C l s).1 ≡ s
  unfolding Candidacy.ensure_chillable
  ensure_chillable_lem l s = ground arith

  pub chill_other-Shrinks :
      (origin : Origin) (controller : ℕ) (s : Storage C)
      → Shrinks C who s (Candidacy.chill_other C origin controller s).1
  unfolding Candidacy.chill_other
  chill_other-Shrinks root controller s = Shrinks-refl C who s
  chill_other-Shrinks unsigned controller s = Shrinks-refl C who s
  chill_other-Shrinks (signed caller) controller s = elim (Option-cases (s.ledger controller)) [
    | inl n ↦ ground arith
    | inr (l, e) ↦
        let retired = retire-Shrinks l.stash s in
        let checked = ensure_chillable_lem l s in
        elim (Result-cases (Candidacy.ensure_chillable C l s).0) [
          | inl f ↦ ground arith
          | inr f ↦ ground arith
        ]
  ]

  kick_from-Shrinks :
      (stash coop : ℕ) (s : Storage C) → Shrinks C who s (Candidacy.kick_from C stash coop s)
  unfolding Candidacy.kick_from
  kick_from-Shrinks stash coop s = elim (Option-cases (lookup coop s.cooperators)) [
    | inl n ↦ ground arith
    | inr (c, e) ↦
        let c' = record c { targets = delete stash c.targets } in
        ground (arith, replaced-Shrinks C who coop c c' s.cooperators e)
  ]

  kick_one-Shrinks :
      (stash coop : ℕ) (s : Storage C) → Shrinks C who s (Candidacy.kick_one C stash coop s)
  unfolding Candidacy.kick_one
  kick_one-Shrinks stash coop s =
      kick_from-Shrinks stash coop
        (record s { collaborations = Roles.leave coop stash s.collaborations })

  pub kick-Shrinks :
      (origin : Origin) (accounts : List ℕ) (s : Storage C)
      → Shrinks C who s (Candidacy.kick C origin accounts s).1
  unfolding Candidacy.kick
  kick-Shrinks root accounts s = Shrinks-refl C who s
  kick-Shrinks unsigned accounts s = Shrinks-refl C who s
  kick-Shrinks (signed controller) accounts s = elim (Option-cases (s.ledger controller)) [
    | inl n ↦ ground arith
    | inr (l, e) ↦ elim (Result-cases (Candidacy.look_up_all C accounts)) [
      | inl (_, f) ↦ ground arith
      | inr (found, f) ↦
          let kicked =
            fold_state-Shrinks C who (Candidacy.kick_one C l.stash) (kick_one-Shrinks l.stash) found
              s in
          ground arith
    ]
  ]

  pub force_apply-Shrinks :
      (origin : Origin) (stash : ℕ) (s : Storage C)
      → Shrinks C who s (Candidacy.force_apply_min_commission C origin stash s).1
  unfolding Candidacy.force_apply_min_commission
  force_apply-Shrinks root stash s = Shrinks-refl C who s
  force_apply-Shrinks unsigned stash s = Shrinks-refl C who s
  force_apply-Shrinks (signed caller) stash s = elim (Option-cases (lookup stash s.validators)) [
    | inl n ↦ ground arith
    | inr (p, e) ↦
        let p' = Candidacy.with_commission s.settings.min_commission p in
        ground (arith, lookup-put_in who stash p' s.validators)
  ]

  pub make_collaborative-Shrinks :
      (origin : Origin) (s : Storage C)
      → Shrinks C who s (Candidacy.make_collaborative C origin s).1
  unfolding Candidacy.make_collaborative
  make_collaborative-Shrinks root s = Shrinks-refl C who s
  make_collaborative-Shrinks unsigned s = Shrinks-refl C who s
  make_collaborative-Shrinks (signed stash) s = elim (Option-cases (lookup stash s.validators)) [
    | inl n ↦ ground arith
    | inr (p, e) ↦
        ground (arith, lookup-put_in who stash (record p { collaborative = true }) s.validators)
  ]

  pub validate-IsExclusive :
      (origin : Origin) (prefs : ValidatorPrefs) (s : Storage C)
      → IsExclusive C who s
      → IsExclusive C who (Candidacy.validate C origin prefs s).1
  unfolding Candidacy.validate
  validate-IsExclusive root prefs s h = h
  validate-IsExclusive unsigned prefs s h = h
  validate-IsExclusive (signed controller) prefs s h = elim (Option-cases (s.ledger controller)) [
    | inl n ↦ ground arith
    | inr (l, e) ↦
        let prefs' = Candidacy.updated_prefs C prefs in
        let added = add_validator-IsExclusive C who l.stash prefs' s h in
        elim (Result-cases (Candidacy.check_validator C l prefs' s)) [
          | inl f ↦ ground arith
          | inr f ↦ ground arith
        ]
  ]

  cooperated-IsExclusive :
      (stash controller : ℕ) (sources : List (ℕ × ℕ)) (c : Cooperations) (s : Storage C)
      → IsExclusive C who s
      → IsExclusive C who (Candidacy.become_cooperator C stash controller sources c s).1
  unfolding Candidacy.become_cooperator
  cooperated-IsExclusive stash controller sources c s h =
      let s' = (Roles.do_remove_validator C stash s).1 in
      let added = add_cooperator-IsExclusive C who stash c s h in
      elim (Result-cases (Roles.do_add_cooperator C stash c s').0) [
        | inl f ↦ ground arith
        | inr f ↦ ground arith
      ]

  pub cooperate-IsExclusive :
      (origin : Origin) (targets : List (ℕ × ℕ)) (s : Storage C)
      → IsExclusive C who s
      → IsExclusive C who (Candidacy.cooperate C origin targets s).1
  unfolding Candidacy.cooperate
  cooperate-IsExclusive root targets s h = h
  cooperate-IsExclusive unsigned targets s h = h
  cooperate-IsExclusive (signed controller) targets s h =
      elim (Option-cases (s.ledger controller)) [
        | inl n ↦ ground arith
        | inr (l, e) ↦
            let sources = Candidacy.nonzero_targets targets in
            elim (Result-cases (Candidacy.check_cooperator C l targets s)) [
              | inl f ↦ ground arith
              | inr (ts, f) ↦
                  let c = Candidacy.cooperations_of C ts s in
                  let done = cooperated-IsExclusive l.stash controller sources c s h in ground arith
            ]
      ]
