-- ===== src/Staking/Roles.antt =====
-- Validators and cooperators: who may be one, and how the two maps and `Collaborations` change
-- (pallets/energy-generation/src/pallet/impls.rs).
pub mod Exclusive
use power_plant.Prelude.{
  ℕ, Bool, true, false, not, ◌&&◌, ◌||◌, Option, none, some, List, [], ◌∷◌, map, ltb, ◌==◌,
  if◌then◌else◌, length, set, u128_max, add128, saturating_add, ok, err, ◌>>◌, modify, StorageMap,
  insert, remove, is_some, unwrap_or, Assoc, lookup, put_in, delete, member, set_insert, set_remove,
  for_each, fold_state,
}
use power_plant.Slashing.Entity.{billion}
use power_plant.Reputation.Tier.{ReputationTier}
use power_plant.Reputation.Record.{ReputationRecord, no_reputation, with_blocknumber}
use power_plant.Reputation.Order.{tier_leb, reputation_ltb}
use power_plant.Ledger.{StakingLedger}
use power_plant.Staking.{
  Config, Storage, Call, Cooperations, ValidatorPrefs, emit, chilled, too_many_cooperators,
}

abbrev pub u32_max : ℕ
u32_max = 4_294_967_295

abbrev pub no_prefs : ValidatorPrefs
no_prefs = record { commission = 0; collaborative = false; min_coop_reputation = no_reputation }

abbrev active_or_zero : Option StakingLedger → ℕ
active_or_zero none = 0
active_or_zero (some l) = l.active

-- `Cooperations::total`
unfoldable pub total_from : ℕ → Assoc ℕ → ℕ
total_from acc [] = acc
total_from acc ((_, stake) ∷ targets) = total_from (saturating_add u128_max acc stake) targets

unfoldable pub contains_account : ℕ → Option (List ℕ) → Bool
contains_account who none = false
contains_account who (some set) = member who set

-- Collaborations with an account taken out of those of a validator.
unfoldable pub leave : ℕ → ℕ → StorageMap (List ℕ) → StorageMap (List ℕ)
leave who target m j = elim (m j) [
  | none ↦ none
  | some set ↦ some (if j == target then set_remove who set else set)
]

unfoldable pub leave_all : ℕ → Assoc ℕ → StorageMap (List ℕ) → StorageMap (List ℕ)
leave_all who [] m = m
leave_all who ((target, _) ∷ targets) m = leave_all who targets (leave who target m)

-- The stakes of the targets whose collaborations have the account.
unfoldable pub stake_in : ℕ → StorageMap (List ℕ) → ℕ → Assoc ℕ → ℕ
stake_in account m acc [] = acc
stake_in account m acc ((target, stake) ∷ targets) =
    stake_in account m (if contains_account account (m target) then add128 acc stake else acc)
      targets

module _ (C : Config) where
  abbrev pub is_user_validator : ℕ → Storage C → Bool
  is_user_validator stash s = is_some (lookup stash s.validators)

  unfoldable pub get_active_stake : ℕ → Storage C → ℕ
  get_active_stake account s =
      if is_user_validator account s
      then active_or_zero (s.ledger account)
      else elim (lookup account s.cooperators) [
        | none ↦ 0
        | some c ↦ stake_in account s.collaborations 0 c.targets
      ]

  -- `T::OnVipMembershipHandler::update_active_stake`
  abbrev pub update_active_stake : ℕ → Storage C → Storage C
  update_active_stake who s = record s {
    others = C.vip_active_stake who (get_active_stake who s) s.others;
  }

  abbrev has_tier : ReputationTier → Option ReputationRecord → Bool
  has_tier least none = false
  has_tier least (some r) = elim r.reputation.tier [ none ↦ false | some t ↦ tier_leb least t ]

  unfoldable pub is_legit_for_validator : ℕ → Storage C → Bool
  is_legit_for_validator stash s =
      has_tier C.validator_reputation_tier (s.reputation.account_reputation stash)

  unfoldable pub is_legit_for_collab : ℕ → Storage C → Bool
  is_legit_for_collab stash s =
      has_tier C.collaborative_reputation_tier (s.reputation.account_reputation stash)

  unfoldable pub min_bond_for_validator : ℕ → Storage C → ℕ
  min_bond_for_validator stash s = elim (C.validator_nac_level stash s.others) [
    | none ↦ s.settings.min_common_validator_bond
    | some level ↦
        if ltb 1 level
        then s.settings.min_trust_validator_bond
        else s.settings.min_common_validator_bond
  ]

  -- `Self::validators`, a `ValueQuery`
  abbrev pub prefs_of : ℕ → Storage C → ValidatorPrefs
  prefs_of who s = unwrap_or (lookup who s.validators) no_prefs

  -- The record of an account, or a new one.
  abbrev pub record_of : ℕ → Storage C → ReputationRecord
  record_of who s =
      unwrap_or (s.reputation.account_reputation who) (with_blocknumber s.reputation.block_number)

  unfoldable pub do_add_validator : ℕ → ValidatorPrefs → Storage C → Storage C
  do_add_validator who prefs s = record s { validators = put_in who prefs s.validators }

  unfoldable pub do_remove_validator : ℕ → Storage C → Bool × Storage C
  do_remove_validator who s =
      if is_user_validator who s
      then (
        true,
        update_active_stake who (record s {
          validators = delete who s.validators;
          collaborations = remove who s.collaborations;
        }),
      )
      else (false, s)

  -- A set of collaborators holds `u32::MAX` accounts.
  unfoldable pub join : ℕ → ℕ × ℕ → Call C (Unit {0})
  join who (target, _) s = elim (s.collaborations target) [
    | none ↦ (ok tt, record s { collaborations = insert target (who ∷ []) s.collaborations })
    | some set ↦
        if ltb (length set) u32_max || member who set
        then (
          ok tt,
          record s { collaborations = insert target (set_insert who set) s.collaborations },
        )
        else (err too_many_cooperators, s)
  ]

  unfoldable pub do_add_cooperator : ℕ → Cooperations → Call C (Unit {0})
  do_add_cooperator who cooperations = do
    for_each (join who) cooperations.targets
    modify (λ s. record s { cooperators = put_in who cooperations s.cooperators })

  unfoldable pub do_remove_cooperator : ℕ → Storage C → Bool × Storage C
  do_remove_cooperator who s = elim (lookup who s.cooperators) [
    | none ↦ (false, s)
    | some cooperations ↦
        let s' =
          update_active_stake who
            (record s { collaborations = leave_all who cooperations.targets s.collaborations }) in
        (true, record s' { cooperators = delete who s'.cooperators })
  ]

  unfoldable pub chill_stash : ℕ → Storage C → Storage C
  chill_stash stash s =
      let (as_validator, s₁) = do_remove_validator stash s in
      let (as_cooperator, s₂) = do_remove_cooperator stash s₁ in
      if as_validator || as_cooperator then emit C (chilled stash) s₂ else s₂

  -- A validator taken out of the targets of one cooperator.
  unfoldable pub drop_target : ℕ → ℕ → Assoc Cooperations → Assoc Cooperations
  drop_target target cooperator m = elim (lookup cooperator m) [
    | none ↦ m
    | some c ↦ put_in cooperator (record c { targets = delete target c.targets }) m
  ]

  unfoldable pub do_remove_validator_from_cooperators_target : ℕ → Storage C → Storage C
  do_remove_validator_from_cooperators_target who s = elim (s.collaborations who) [
    | none ↦ s
    | some cooperators ↦ record s {
      cooperators = fold_state (drop_target who) cooperators s.cooperators;
    }
  ]

  unfoldable pub adjust_cooperator_targets : ℕ → ℕ → Storage C → Storage C
  adjust_cooperator_targets stash active_stake s = elim (lookup stash s.cooperators) [
    | none ↦ s
    | some c ↦
        let proportion = C.perbill.from_rational active_stake (total_from 0 c.targets) in
        let targets = map (λ t. (t.0, C.mul_floor proportion t.1)) c.targets in
        if ltb proportion billion
        then record s { cooperators = put_in stash (record c { targets = targets }) s.cooperators }
        else s
  ]

  unfoldable pub check_reputation_validator : ℕ → Storage C → Storage C
  check_reputation_validator acc s = if is_legit_for_validator acc s then s else chill_stash acc s

  unfoldable pub try_check_reputation_collab : ℕ → Storage C → Storage C
  try_check_reputation_collab acc s =
      if (prefs_of acc s).collaborative && not (is_legit_for_collab acc s)
      then chill_stash acc s
      else s

  unfoldable pub check_reputation_cooperator : ℕ → ℕ → Storage C → Storage C
  check_reputation_cooperator validator cooperator s =
      if reputation_ltb (record_of cooperator s).reputation
        (prefs_of validator s).min_coop_reputation
      then chill_stash cooperator s
      else s
