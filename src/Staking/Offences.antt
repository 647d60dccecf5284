-- ===== src/Staking/Offences.antt =====
-- Applying slashes and paying their reporters (pallets/energy-generation/src/slashing.rs), and the
-- reports of offences, deferred slashes and the tax of leaving VIP members
-- (pallets/energy-generation/src/pallet/impls.rs).
pub mod Reporters
pub mod Abort
use power_plant.Prelude.{
  ℕ, ◌-◌, min, ◌||◌, Option, none, some, List, [], ◌∷◌, ◌++◌, ltb, leb, ◌==◌, if◌then◌else◌, length,
  add128, saturating_add, ok, ◌>>=◌, ◌>>◌, pure, gets, modify, ok_or, insert, remove, unwrap_or,
  Assoc, lookup, member, for_each, is_empty,
}
use power_plant.Slashing.Entity.{SlashEntity, is_zero}
use power_plant.Slashing.Compute.{
  Exposure, UnappliedSlash, SlashParams, SlashContext, compute_slash,
}
use power_plant.Reputation.Pallet
use power_plant.Ledger.{StakingLedger, slash_stake}
use power_plant.Staking.{
  Config, Storage, Call, emit, staker_slashed, slash_reported, deposit_event, in_reputation,
  not_controller, invalid_era_to_slash,
}
use power_plant.Staking.Roles.{
  is_user_validator, min_bond_for_validator, do_add_cooperator, chill_stash,
  adjust_cooperator_targets, check_reputation_validator, try_check_reputation_collab,
  check_reputation_cooperator, contains_account,
}
use power_plant.Staking.Stashes.{update_ledger}
use power_plant.Staking.Payout.{index_or_zero}

-- The variables that `apply_slash` lends: the reward for the reporters, and what was slashed.
pub record Slashed : Type 0 where
  pub reward_payout : ℕ
  pub slashed_imbalance : ℕ

-- An offender, with its exposure and the accounts that reported it.
pub record OffenceDetails : Type 0 where
  pub stash : ℕ
  pub exposure : Exposure
  pub reporters : List ℕ

-- `eras.iter().rev().find(…)`
unfoldable pub last_era_before : ℕ → List (ℕ × ℕ) → Option ℕ
last_era_before session [] = none
last_era_before session ((era, first) ∷ eras) = elim (last_era_before session eras) [
  | some later ↦ some later
  | none ↦ if leb first session then some era else none
]

module _ (C : Config) where
  abbrev take_stake : ℕ → ℕ → StakingLedger → ℕ → Slashed → Call C Slashed
  take_stake stash controller l value v s =
      let (imbalance, missing, others) = C.slash stash value s.others in
      let s' = update_ledger C controller l (record s { others = others }) in
      (
        ok (record {
          reward_payout = if missing == 0 then v.reward_payout else v.reward_payout - missing;
          slashed_imbalance = C.subsume v.slashed_imbalance imbalance;
        }),
        adjust_cooperator_targets C stash l.active s',
      )

  unfoldable pub do_slash : ℕ → SlashEntity → Slashed → ℕ → Call C Slashed
  do_slash stash value v slash_era = do
    bonded ← gets (λ s. s.bonded stash)
    controller ← ok_or bonded not_controller
    found ← gets (λ s. s.ledger controller)
    l ← ok_or found not_controller
    let (l', stake_value, _) =
        slash_stake C.perquintill C.bonding_duration value.stake C.minimum_balance slash_era l
    v' ← (if stake_value == 0 then pure v else take_stake stash controller l' stake_value v)
    in_reputation C (Pallet.do_slash C.float stash value.reputation)
    deposit_event C (staker_slashed stash (record value { stake = stake_value }))
    pure v'

  -- Each reporter gets an equal part; the answer is what remains.
  unfoldable pub pay_each : ℕ → ℕ → List ℕ → ℕ → Call C ℕ
  pay_each reputation stake [] left = pure left
  pay_each reputation stake (reporter ∷ reporters) left = do
    in_reputation C (Pallet.increase_creating C.float reporter reputation)
    let (reporter_reward, rest) = C.split left stake
    modify (λ s. record s { others = C.resolve_creating reporter reporter_reward s.others })
    pay_each reputation stake reporters rest

  abbrev settle : ℕ → Call C (Unit {0})
  settle imbalance = modify (λ s. record s { others = C.on_slash imbalance s.others })

  unfoldable pub pay_reporters : SlashEntity → ℕ → List ℕ → Call C (Unit {0})
  pay_reporters reward_payout slashed_imbalance reporters =
      if is_zero reward_payout || is_empty reporters then settle slashed_imbalance else (do
        let (stake_reward, value_slashed) =
            C.split slashed_imbalance (min reward_payout.stake slashed_imbalance)
        let prop = C.perbill.from_rational 1 (length reporters)
        let reputation_per_reporter = C.perbill.scale prop reward_payout.reputation
        let stake_per_reporter = C.perbill.scale prop stake_reward
        left ← pay_each reputation_per_reporter stake_per_reporter reporters stake_reward
        settle (C.subsume value_slashed left))

  unfoldable pub slash_others : ℕ → List (ℕ × SlashEntity) → Slashed → ℕ → Call C Slashed
  slash_others validator [] v slash_era = pure v
  slash_others validator ((cooperator, value) ∷ others) v slash_era = do
    v' ← do_slash cooperator value v slash_era
    modify (check_reputation_cooperator C validator cooperator)
    slash_others validator others v' slash_era

  unfoldable pub apply_slash : UnappliedSlash → ℕ → Call C (Unit {0})
  apply_slash unapplied slash_era = do
    let none_yet : Slashed = record {
      reward_payout = unapplied.payout.stake;
      slashed_imbalance = 0;
    }
    v ← do_slash unapplied.validator unapplied.own none_yet slash_era
    modify (λ s.
        try_check_reputation_collab C unapplied.validator
          (check_reputation_validator C unapplied.validator s))
    v' ← slash_others unapplied.validator unapplied.others v slash_era
    pay_reporters (record { reputation = unapplied.payout.reputation; stake = v'.reward_payout })
        v'.slashed_imbalance unapplied.reporters

  -- The slashes are taken from storage before any is applied, and a failure ends the loop.
  unfoldable pub apply_unapplied_slashes : ℕ → Call C (Unit {0})
  apply_unapplied_slashes active_era = do
    era_slashes ← gets (λ s. unwrap_or (s.unapplied_slashes active_era) [])
    modify (λ s. record s { unapplied_slashes = remove active_era s.unapplied_slashes })
    for_each (λ slash. apply_slash slash (active_era - C.slash_defer_duration)) era_slashes

  abbrev slash_context : Storage C → SlashContext
  slash_context s = record {
    account_reputation = s.reputation.account_reputation;
    block_number = s.reputation.block_number;
    active_set = record {
      validators = C.session_validators s.others;
      active_era = index_or_zero s.eras.active_era;
      limit_factor = C.disabling_limit_factor;
    };
  }

  -- A slash is applied right away, where what it wrote before a failure stays, or deferred.
  unfoldable pub enact : ℕ → UnappliedSlash → Storage C → Storage C
  enact slash_era unapplied s =
      let at =
        saturating_add 4_294_967_295 (saturating_add 4_294_967_295 slash_era C.slash_defer_duration)
          1 in
      if C.slash_defer_duration == 0 then (apply_slash unapplied slash_era s).1 else record s {
        unapplied_slashes =
            insert at (unwrap_or (s.unapplied_slashes at) [] ++ unapplied ∷ []) s.unapplied_slashes;
      }

  unfoldable pub report : ℕ → ℕ → OffenceDetails → ℕ → Storage C → Storage C
  report slash_era active_era details slash_fraction s =
      let params : SlashParams = record {
        stash = details.stash;
        slash = slash_fraction;
        exposure = details.exposure;
        slash_era = slash_era;
        window_start = active_era - C.bonding_duration;
        now = active_era;
        reward_proportion = s.settings.slash_reward_fraction;
      } in
      let (unapplied, slashing) =
        compute_slash C.perbill C.float (slash_context s) params s.slashing in
      let s' =
        emit C (slash_reported details.stash slash_fraction slash_era)
          (record s { slashing = slashing }) in
      elim unapplied [
        | none ↦ s'
        | some u ↦ enact slash_era (record u { reporters = details.reporters }) s'
      ]

  -- `offenders.iter().zip(slash_fraction)`, without those that are invulnerable.
  unfoldable pub report_all : ℕ → ℕ → List OffenceDetails → List ℕ → Storage C → Storage C
  report_all slash_era active_era [] fractions s = s
  report_all slash_era active_era (d ∷ ds) [] s = s
  report_all slash_era active_era (d ∷ ds) (fraction ∷ fractions) s =
      report_all slash_era active_era ds fractions (
        if member d.stash s.settings.invulnerables
        then s
        else report slash_era active_era d fraction s)

  -- The era in which the offence is slashed, if it is not too old.
  unfoldable pub era_of_offence : ℕ → ℕ → Storage C → Option ℕ
  era_of_offence active_era slash_session s =
      if leb (unwrap_or (s.eras.eras_start_session_index active_era) 0) slash_session
      then some active_era
      else last_era_before slash_session s.eras.bonded_eras

  abbrev report_in : ℕ → Option ℕ → List OffenceDetails → List ℕ → Storage C → Storage C
  report_in active_era none offenders slash_fraction s = s
  report_in active_era (some slash_era) offenders slash_fraction s =
      report_all slash_era active_era offenders slash_fraction s

  unfoldable pub on_offence : List OffenceDetails → List ℕ → ℕ → Storage C → Storage C
  on_offence offenders slash_fraction slash_session s = elim s.eras.active_era [
    | none ↦ s
    | some info ↦
        report_in info.index (era_of_offence info.index slash_session s) offenders slash_fraction s
  ]

  -- The targets that keep enough after the tax, and the tax.
  unfoldable pub vip_targets : ℕ → ℕ → Assoc ℕ → Storage C → Assoc ℕ × ℕ
  vip_targets account tax_percent [] s = ([], 0)
  vip_targets account tax_percent ((target, stake) ∷ targets) s =
      let (rest, tax_value) = vip_targets account tax_percent targets s in
      let tax = C.perbill.scale tax_percent stake in
      if contains_account account (s.collaborations target)
      then (
        if leb s.settings.min_cooperator_bond (stake - tax)
            then (target, stake - tax) ∷ rest
            else rest,
        add128 tax tax_value,
      )
      else (rest, tax_value)

  abbrev vip_tax : ℕ → ℕ → StakingLedger → Call C ℕ
  vip_tax account tax_percent l s =
      let tax = C.perbill.scale tax_percent l.active in
      if is_user_validator C account s
      then (
        ok tax,
        if ltb (l.active - tax) (min_bond_for_validator C account s)
            then chill_stash C account s
            else s,
      )
      else elim (lookup account s.cooperators) [
        | none ↦ (ok tax, s)
        | some c ↦
            let (targets, tax_value) = vip_targets account tax_percent c.targets s in
            (do_add_cooperator C account (record c { targets = targets }) >> pure tax_value) s
      ]

  abbrev take_tax : ℕ → ℕ → StakingLedger → Storage C → Storage C
  take_tax account stake_value l s =
      let (imbalance, _, others) = C.slash account stake_value s.others in
      if stake_value == 0
      then s
      else update_ledger C account l (record s { others = C.on_slash imbalance others })

  unfoldable pub slash_vip_account : ℕ → ℕ → Call C (Unit {0})
  slash_vip_account account tax_percent = do
    found ← gets (λ s. s.ledger account)
    l ← ok_or found not_controller
    current_era ← gets (λ s. s.eras.current_era)
    slash_era ← ok_or current_era invalid_era_to_slash
    tax ← vip_tax account tax_percent l
    let (l', stake_value, _) =
        slash_stake C.perquintill C.bonding_duration tax C.minimum_balance slash_era l
    modify (take_tax account stake_value l')
