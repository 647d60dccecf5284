-- ===== src/Staking/Candidacy.antt =====
-- The calls by which a stash becomes or ceases to be a validator or a cooperator: `validate`,
-- `cooperate`, `chill`, `kick`, `chill_other`, `force_chill`, `force_apply_min_commission` and
-- `make_collaborative` (pallets/energy-generation/src/pallet/mod.rs). Stored values decode here, so
-- the branch of `chill_other` for a cooperator that does not decode is not there.
pub mod Exclusive
pub mod Paired
use power_plant.Prelude.{
  ℕ, Bool, true, false, not, ◌&&◌, ◌||◌, Option, none, some, List, [], ◌∷◌, ltb, leb, ◌==◌,
  if◌then◌else◌, length, u128_max, saturating_add, Result, ok, err, pure, gets, modify, ensure,
  ok_or, lift, is_some, unwrap_or, Assoc, lookup, put_in, delete, fold_state, is_empty, ◌>>=◌, ◌>>◌,
}
use power_plant.Reputation.Points.{from_rank}
use power_plant.Reputation.Tier.{vanguard, tier_rank}
use power_plant.Reputation.Record.{Reputation}
use power_plant.Reputation.Order.{reputation_ltb}
use power_plant.Ledger.{StakingLedger}
use power_plant.Staking.{
  Config, Storage, Call, Origin, Error, ValidatorPrefs, Cooperations, emit, kicked, cooperated,
  validator_prefs_set, lookup_error, ensure_root, ensure_signed, deposit_event, not_controller,
  not_stash, insufficient_bond, reputation_too_low, commission_too_low, too_many_validators,
  too_many_cooperators, empty_targets, too_many_targets, bad_target, cannot_chill_other,
}
use power_plant.Staking.Roles.{
  leave, update_active_stake, is_user_validator, min_bond_for_validator, is_legit_for_validator,
  is_legit_for_collab, prefs_of, record_of, do_add_validator, do_remove_validator,
  do_add_cooperator, do_remove_cooperator, chill_stash, do_remove_validator_from_cooperators_target,
}

-- Whether one more fits under an optional limit.
abbrev below_limit : ℕ → Option ℕ → Bool
below_limit n none = true
below_limit n (some most) = ltb n most

abbrev total_of : ℕ → List (ℕ × ℕ) → ℕ
total_of acc [] = acc
total_of acc ((_, n) ∷ targets) = total_of (saturating_add u128_max acc n) targets

unfoldable pub nonzero_targets : List (ℕ × ℕ) → List (ℕ × ℕ)
nonzero_targets [] = []
nonzero_targets ((t, stake) ∷ targets) =
    if ltb 0 stake then (t, stake) ∷ nonzero_targets targets else nonzero_targets targets

abbrev old_targets : Option Cooperations → Assoc ℕ
old_targets none = []
old_targets (some c) = c.targets

abbrev pub with_commission : ℕ → ValidatorPrefs → ValidatorPrefs
with_commission least p = record p {
  commission = if ltb p.commission least then least else p.commission;
}

module _ (C : Config) where
  -- `update_prefs`, `ReputationTier::Vanguard(1).into()`
  abbrev pub updated_prefs : ValidatorPrefs → ValidatorPrefs
  updated_prefs prefs = record prefs {
    min_coop_reputation = record {
      tier = some (vanguard 1);
      points = from_rank C.float (tier_rank (vanguard 1));
    };
  }

  abbrev ledger_at : ℕ → Call C StakingLedger
  ledger_at controller = do found ← gets (λ s. s.ledger controller); ok_or found not_controller

  -- The checks of `validate`, in their order.
  unfoldable pub check_validator :
      StakingLedger → ValidatorPrefs → Storage C → Result Error (Unit {0})
  check_validator l prefs s =
      if ltb l.active (min_bond_for_validator C l.stash s)
      then err insufficient_bond
      else if not (is_legit_for_validator C l.stash s)
      then err reputation_too_low
      else if ltb prefs.commission s.settings.min_commission
      then err commission_too_low
      else if prefs.collaborative && not (is_legit_for_collab C l.stash s)
      then err reputation_too_low
      else if is_user_validator C l.stash s
          || below_limit (length s.validators) s.settings.max_validators_count
      then ok tt
      else err too_many_validators

  unfoldable pub validate : Origin → ValidatorPrefs → Call C (Unit {0})
  validate origin given_prefs = do
    controller ← ensure_signed C origin
    let prefs = updated_prefs given_prefs
    l ← ledger_at controller
    checked ← gets (check_validator l prefs)
    lift checked
    modify (λ s. do_add_validator C l.stash prefs (do_remove_cooperator C l.stash s).1)
    deposit_event C (validator_prefs_set l.stash prefs)
    modify (update_active_stake C l.stash)

  -- One target of `cooperate`: the account, if it may be cooperated with.
  unfoldable pub check_target : Assoc ℕ → Reputation → ℕ → Storage C → Result Error ℕ
  check_target old reputation source s = elim (C.find_account source) [
    | none ↦ err lookup_error
    | some n ↦
        let target = prefs_of C n s in
        if not (is_legit_for_collab C n s) || reputation_ltb reputation target.min_coop_reputation
        then err reputation_too_low
        else if is_some (lookup n old) || target.collaborative
        then ok n
        else err bad_target
  ]

  -- The map of all targets, where a later entry replaces an earlier one; the first error is answered.
  unfoldable pub collect_targets :
      Assoc ℕ → Reputation → List (ℕ × ℕ) → Assoc ℕ → Storage C → Result Error (Assoc ℕ)
  collect_targets old reputation [] acc s = ok acc
  collect_targets old reputation ((source, stake) ∷ targets) acc s =
      elim (check_target old reputation source s) [
        | err e ↦ err e
        | ok n ↦ collect_targets old reputation targets (put_in n stake acc) s
      ]

  -- The targets of `cooperate`, where the old ones and the reputation of the stash are those of now.
  abbrev pub collected_for : ℕ → List (ℕ × ℕ) → Storage C → Result Error (Assoc ℕ)
  collected_for stash sources s =
      collect_targets (old_targets (lookup stash s.cooperators)) (record_of C stash s).reputation
        sources [] s

  abbrev pub cooperations_of : Assoc ℕ → Storage C → Cooperations
  cooperations_of targets s = record {
    targets = targets;
    submitted_in = unwrap_or s.eras.current_era 0;
    suppressed = false;
  }

  -- The end of `cooperate`.
  unfoldable pub become_cooperator : ℕ → ℕ → List (ℕ × ℕ) → Cooperations → Call C (Unit {0})
  become_cooperator stash controller sources cooperations = do
    modify (λ s. (do_remove_validator C stash s).1)
    do_add_cooperator C stash cooperations
    modify (update_active_stake C stash)
    deposit_event C (cooperated controller sources)

  abbrev bounded : Result Error (Assoc ℕ) → Result Error (Assoc ℕ)
  bounded (err e) = err e
  bounded (ok targets) =
      if leb (length targets) C.max_cooperations then ok targets else err too_many_cooperators

  -- The checks of `cooperate`, in their order, and the targets.
  unfoldable pub check_cooperator :
      StakingLedger → List (ℕ × ℕ) → Storage C → Result Error (Assoc ℕ)
  check_cooperator l given_targets s =
      let sources = nonzero_targets given_targets in
      if ltb l.active s.settings.min_cooperator_bond || ltb l.active (total_of 0 given_targets)
      then err insufficient_bond
      else if not (is_some (lookup l.stash s.cooperators))
          && not (below_limit (length s.cooperators) s.settings.max_cooperators_count)
      then err too_many_cooperators
      else if is_empty sources
      then err empty_targets
      else if ltb C.max_cooperations (length sources)
      then err too_many_targets
      else bounded (collected_for l.stash sources s)

  unfoldable pub cooperate : Origin → List (ℕ × ℕ) → Call C (Unit {0})
  cooperate origin given_targets = do
    controller ← ensure_signed C origin
    l ← ledger_at controller
    checked ← gets (check_cooperator l given_targets)
    targets ← lift checked
    cooperations ← gets (cooperations_of targets)
    become_cooperator l.stash controller (nonzero_targets given_targets) cooperations

  -- The end of `chill`, `chill_other` and `force_chill`.
  abbrev pub retire : ℕ → Storage C → Storage C
  retire stash s = chill_stash C stash (do_remove_validator_from_cooperators_target C stash s)

  unfoldable pub chill : Origin → Call C (Unit {0})
  chill origin = do
    controller ← ensure_signed C origin
    l ← ledger_at controller
    modify (retire l.stash)

  unfoldable pub force_chill : Origin → ℕ → Call C (Unit {0})
  force_chill origin controller = do
    ensure_root C origin
    l ← ledger_at controller
    modify (retire l.stash)

  -- A limit that is set and exceeded by the threshold.
  abbrev ensure_crowded : ℕ → Option ℕ → ℕ → Call C (Unit {0})
  ensure_crowded threshold limit current = do
    most ← ok_or limit cannot_chill_other
    ensure (ltb (C.percent_mul threshold most) current) cannot_chill_other

  abbrev least_bond_of_other : ℕ → ℕ → Call C ℕ
  least_bond_of_other threshold stash s =
      if is_some (lookup stash s.cooperators)
      then (do
        ensure_crowded threshold s.settings.max_cooperators_count (length s.cooperators)
        pure s.settings.min_cooperator_bond)
          s
      else if is_user_validator C stash s
      then (do
        ensure_crowded threshold s.settings.max_validators_count (length s.validators)
        pure (min_bond_for_validator C stash s))
          s
      else (ok 0, s)

  unfoldable pub ensure_chillable : StakingLedger → Call C (Unit {0})
  ensure_chillable l = do
    found ← gets (λ s. s.settings.chill_threshold)
    threshold ← ok_or found cannot_chill_other
    least ← least_bond_of_other threshold l.stash
    ensure (ltb l.active least) cannot_chill_other

  -- The checks on who may chill another's stash.
  abbrev ensure_may_chill : ℕ → ℕ → StakingLedger → Call C (Unit {0})
  ensure_may_chill caller controller l =
      if caller == controller then pure tt else ensure_chillable l

  unfoldable pub chill_other : Origin → ℕ → Call C (Unit {0})
  chill_other origin controller = do
    caller ← ensure_signed C origin
    l ← ledger_at controller
    ensure_may_chill caller controller l
    modify (retire l.stash)

  -- The targets of a cooperator lose a validator, with an event if it was among them.
  unfoldable pub kick_from : ℕ → ℕ → Storage C → Storage C
  kick_from stash coop s = elim (lookup coop s.cooperators) [
    | none ↦ s
    | some c ↦
        let s' = record s {
          cooperators = put_in coop (record c { targets = delete stash c.targets }) s.cooperators;
        } in
        if is_some (lookup stash c.targets) then emit C (kicked coop stash) s' else s'
  ]

  unfoldable pub kick_one : ℕ → ℕ → Storage C → Storage C
  kick_one stash coop s =
      update_active_stake C coop
        (kick_from stash coop (record s { collaborations = leave coop stash s.collaborations }))

  unfoldable pub look_up_all : List ℕ → Result Error (List ℕ)
  look_up_all [] = ok []
  look_up_all (source ∷ sources) = elim (C.find_account source) [
    | none ↦ err lookup_error
    | some who ↦ elim (look_up_all sources) [ err e ↦ err e | ok accounts ↦ ok (who ∷ accounts) ]
  ]

  unfoldable pub kick : Origin → List ℕ → Call C (Unit {0})
  kick origin who = do
    controller ← ensure_signed C origin
    l ← ledger_at controller
    accounts ← lift (look_up_all who)
    modify (fold_state (kick_one l.stash) accounts)
    modify (update_active_stake C l.stash)

  abbrev change_prefs : ℕ → (ValidatorPrefs → ValidatorPrefs) → Call C (Unit {0})
  change_prefs stash f = do
    found ← gets (λ s. lookup stash s.validators)
    prefs ← ok_or found not_stash
    modify (λ s. record s { validators = put_in stash (f prefs) s.validators })

  unfoldable pub force_apply_min_commission : Origin → ℕ → Call C (Unit {0})
  force_apply_min_commission origin validator_stash = do
    caller ← ensure_signed C origin
    min_commission ← gets (λ s. s.settings.min_commission)
    change_prefs validator_stash (λ p. record p {
      commission = if ltb p.commission min_commission then min_commission else p.commission;
    })

  unfoldable pub make_collaborative : Origin → Call C (Unit {0})
  make_collaborative origin = do
    stash ← ensure_signed C origin
    legit ← gets (is_legit_for_collab C stash)
    ensure legit reputation_too_low
    change_prefs stash (λ p. record p { collaborative = true })
