-- ===== src/Staking.antt =====
-- The storage of pallets/energy-generation/src/pallet/mod.rs, and what the pallet asks of others.
-- The bookkeeping of slashes (Slashing/Compute) and the reputation pallet are parts of the storage.
pub mod Roles
pub mod Stashes
pub mod Bonding
pub mod Candidacy
pub mod Admin
pub mod Payout
pub mod Offences
pub mod Elections
pub mod Sessions
pub mod Dispatch
pub mod Genesis
pub mod Reports
use power_plant.Prelude.{
  ℕ, Bool, Option, none, some, List, ◌∷◌, ok, err, Action, pure, raise, modify, ensure, ok_or,
  StorageMap, Assoc,
}
use power_plant.Slashing.Entity.{SlashEntity, Perbill}
use power_plant.Slashing.Inspect.{SpanError, SpanStorage, incorrect_slashing_spans}
use power_plant.Slashing.Compute.{Exposure, UnappliedSlash, SlashStorage}
use power_plant.Reputation.Points.{Float}
use power_plant.Reputation.Tier.{ReputationTier}
use power_plant.Reputation.Record.{Reputation}
use power_plant.Reputation.Pallet
use power_plant.Ledger.{StakingLedger, Perquintill}

pub data Error : Type 0 where
  not_controller not_stash already_bonded already_paired empty_targets : Error
  invalid_slash_index insufficient_bond no_more_chunks no_unlock_chunk funded_target : Error
  invalid_era_to_reward invalid_era_to_slash not_sorted_and_unique already_claimed : Error
  bad_slashing_spans bad_state too_many_targets bad_target cannot_chill_other : Error
  too_many_cooperators too_many_validators commission_too_low bound_not_met : Error
  reputation_too_low incorrect_validator_count : Error
  bad_origin lookup_error arithmetic_overflow : Error
  reputation_error : Pallet.Error → Error

pub data Origin : Type 0 where
  root : Origin
  signed : ℕ → Origin
  unsigned : Origin

pub data RewardDestination : Type 0 where
  to_stash to_controller to_none : RewardDestination
  to_account : ℕ → RewardDestination

pub record ValidatorPrefs : Type 0 where
  pub commission : ℕ  -- a Perbill
  pub collaborative : Bool
  pub min_coop_reputation : Reputation

pub record Cooperations : Type 0 where
  pub targets : Assoc ℕ
  pub submitted_in : ℕ
  pub suppressed : Bool

pub data Forcing : Type 0 where
  not_forcing force_new force_none force_always : Forcing

pub record ActiveEraInfo : Type 0 where
  pub index : ℕ
  pub start : Option ℕ

pub data Event : Type 0 where
  era_energy_set rewarded amount_bonded amount_unbonded amount_withdrawn : ℕ → ℕ → Event
  stakers_elected election_failed : Event
  kicked payout_started : ℕ → ℕ → Event
  old_slashing_report_discarded : ℕ → Event
  chilled : ℕ → Event
  staker_slashed : ℕ → SlashEntity → Event
  slash_reported : ℕ → ℕ → ℕ → Event
  cooperated : ℕ → List (ℕ × ℕ) → Event
  validator_prefs_set : ℕ → ValidatorPrefs → Event
  era_forced : Forcing → Event

-- The values that root and the administrators set.
pub record Settings : Type 0 where
  pub validator_count : ℕ
  pub core_nodes_count : ℕ
  pub minimum_validator_count : ℕ
  pub invulnerables : List ℕ
  pub min_cooperator_bond : ℕ
  pub min_common_validator_bond : ℕ
  pub min_trust_validator_bond : ℕ
  pub min_commission : ℕ
  pub max_validators_count : Option ℕ
  pub max_cooperators_count : Option ℕ
  pub chill_threshold : Option ℕ
  pub slash_reward_fraction : ℕ
  pub canceled_payout : ℕ
  pub current_energy_per_stake_currency : Option ℕ
  pub block_authoring_reward : ℕ

-- The planned era (`current_era`), the active one, and what is kept for each era.
pub record Eras : Type 0 where
  pub current_era : Option ℕ
  pub active_era : Option ActiveEraInfo
  pub eras_start_session_index : StorageMap ℕ
  pub eras_stakers : ℕ → ℕ → Option Exposure
  pub eras_stakers_clipped : ℕ → ℕ → Option Exposure
  pub eras_validator_prefs : ℕ → ℕ → Option ValidatorPrefs
  pub eras_energy_per_stake_currency : StorageMap ℕ
  pub eras_total_stake : StorageMap ℕ
  pub force_era : Forcing
  pub bonded_eras : List (ℕ × ℕ)
  pub current_planned_session : ℕ

-- The currency of the stake with its locks, the energy asset, the references and the lookup of
-- frame_system, the sessions, the VIP members of pallets/privileges, the levels of
-- pallets/nac-managing, and the constants of the runtime. The VIP handler reads the active stake
-- of the account from this pallet, so it is handed over here. `slash` answers the imbalance, what
-- could not be slashed, and the state; `deposit_energy` the debt and the state. `split` and `subsume`
-- are those of the imbalances of the stake, `subsume_debt` that of the debts.
pub record Config : Type 1 where
  pub State : Type 0
  pub perbill : Perbill
  pub perquintill : Perquintill
  pub float : Float
  pub mul_floor : ℕ → ℕ → ℕ
  pub percent_mul : ℕ → ℕ → ℕ
  pub percent_mul_floor : ℕ → ℕ → ℕ
  pub checked_rate : ℕ → ℕ → Option ℕ
  pub rate_mul_int : ℕ → ℕ → ℕ
  pub minimum_balance : ℕ
  pub free_balance : ℕ → State → ℕ
  pub total_balance : ℕ → State → ℕ
  pub set_lock : ℕ → ℕ → State → State
  pub remove_lock : ℕ → State → State
  pub slash : ℕ → ℕ → State → ℕ × ℕ × State
  pub resolve_creating : ℕ → ℕ → State → State
  pub subsume : ℕ → ℕ → ℕ
  pub split : ℕ → ℕ → ℕ × ℕ
  pub on_slash : ℕ → State → State
  pub deposit_energy : ℕ → ℕ → State → Option (ℕ × State)
  pub subsume_debt : ℕ → ℕ → ℕ
  pub on_reward : ℕ → State → State
  pub inc_consumers : ℕ → State → Option State
  pub dec_consumers : ℕ → State → State
  pub find_account : ℕ → Option ℕ
  pub is_admin : Origin → Bool
  pub session_validators : State → List ℕ
  pub prune_historical_up_to : ℕ → State → State
  pub select_nth_unstable_by :
      ℕ → (ℕ × Exposure → ℕ × Exposure → Bool) → List (ℕ × Exposure) → List (ℕ × Exposure)
  pub on_new_session : ℕ → State → State
  pub now_millis : State → ℕ
  pub era_energy : ℕ → State → Option ℕ
  pub validator_exposure : ℕ → ℕ → State → ℕ
  pub cooperator_exposure : ℕ → ℕ → State → ℕ
  pub vip_active_stake : ℕ → ℕ → State → State
  pub vip_tax_percent : ℕ → State → ℕ
  pub vip_change_quarter : State → State
  pub validator_nac_level : ℕ → State → Option ℕ
  pub validator_reputation_tier : ReputationTier
  pub collaborative_reputation_tier : ReputationTier
  pub disabling_limit_factor : ℕ
  pub max_unlocking_chunks : ℕ
  pub max_cooperations : ℕ
  pub max_cooperator_rewarded : ℕ
  pub bonding_duration : ℕ
  pub history_depth : ℕ
  pub sessions_per_era : ℕ
  pub slash_defer_duration : ℕ

module _ (C : Config) where
  pub record Storage : Type 0 where
    pub bonded : StorageMap ℕ
    pub ledger : StorageMap StakingLedger
    pub payee : StorageMap RewardDestination
    pub validators : Assoc ValidatorPrefs
    pub cooperators : Assoc Cooperations
    pub collaborations : StorageMap (List ℕ)
    pub settings : Settings
    pub eras : Eras
    pub unapplied_slashes : StorageMap (List UnappliedSlash)
    pub slashing : SlashStorage
    pub reputation : Pallet.Storage
    pub events : List Event
    pub others : C.State

  abbrev pub Call : Type 0 → Type 0
  Call A = Action Error Storage A

  abbrev pub emit : Event → Storage → Storage
  emit e s = record s { events = e ∷ s.events }

  abbrev pub deposit_event : Event → Call (Unit {0})
  deposit_event e = modify (emit e)

  abbrev pub ensure_root : Origin → Call (Unit {0})
  ensure_root root = pure tt
  ensure_root (signed who) = raise bad_origin
  ensure_root unsigned = raise bad_origin

  abbrev pub ensure_signed : Origin → Call ℕ
  ensure_signed root = raise bad_origin
  ensure_signed (signed who) = pure who
  ensure_signed unsigned = raise bad_origin

  abbrev pub ensure_admin : Origin → Call (Unit {0})
  ensure_admin origin = ensure (C.is_admin origin) bad_origin

  abbrev pub look_up : ℕ → Call ℕ
  look_up who = ok_or (C.find_account who) lookup_error

  abbrev pub on_others : (C.State → C.State) → Call (Unit {0})
  on_others f = modify (λ s. record s { others = f s.others })

  abbrev pub try_others : (C.State → Option C.State) → Error → Call (Unit {0})
  try_others f e s = elim (f s.others) [
    | none ↦ (err e, s)
    | some a ↦ (ok tt, record s { others = a })
  ]

  abbrev pub set_settings : (Settings → Settings) → Call (Unit {0})
  set_settings f = modify (λ s. record s { settings = f s.settings })

  abbrev of_span_error : SpanError → Error
  of_span_error incorrect_slashing_spans = bad_slashing_spans

  -- A call on the slashing spans, and one of the reputation pallet.
  abbrev pub in_spans : Action SpanError SpanStorage (Unit {0}) → Call (Unit {0})
  in_spans m s =
      let (r, spans) = m s.slashing.spans in
      let s' = record s { slashing = record s.slashing { spans = spans } } in
      elim r [ ok t ↦ (ok t, s') | err e ↦ (err (of_span_error e), s') ]

  abbrev pub in_reputation : Pallet.Call (Unit {0}) → Call (Unit {0})
  in_reputation m s =
      let (r, reputation) = m s.reputation in
      let s' = record s { reputation = reputation } in
      elim r [ ok t ↦ (ok t, s') | err e ↦ (err (reputation_error e), s') ]
