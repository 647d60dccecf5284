-- ===== src/Staking/Bonding.antt =====
-- The calls that change ledgers: `bond`, `bond_extra`, `unbond`, `withdraw_unbonded`, `rebond`,
-- `set_controller`, `set_payee`, `force_unstake` and `reap_stash`
-- (pallets/energy-generation/src/pallet/mod.rs). The weights they answer are left out.
pub mod Exclusive
pub mod Tax
pub mod Paired
pub mod Withdrawn
use power_plant.Prelude.{
  ℕ, ◌-◌, min, Bool, true, not, Option, none, some, List, [], ◌∷◌, ltb, leb, ◌==◌, if◌then◌else◌,
  length, u128_max, add32, add128, saturating_add, Result, ok, err, pure, gets, modify, ensure,
  ok_or, lift, insert, remove, is_some, unwrap_or, lookup, is_empty, sub128, ◌>>=◌, ◌>>◌,
}
use power_plant.Slashing.Spans.{SlashingSpans, iter}
use power_plant.Ledger
use power_plant.Ledger.{UnlockChunk, StakingLedger, from}
use power_plant.Staking.{
  Error, Config, Storage, Call, Origin, RewardDestination, amount_bonded, amount_unbonded,
  lookup_error, ensure_root, ensure_signed, look_up, on_others, try_others, deposit_event,
  not_controller, not_stash, already_bonded, already_paired, insufficient_bond, no_more_chunks,
  no_unlock_chunk, funded_target, bad_state, bound_not_met,
}
use power_plant.Staking.Roles.{
  update_active_stake, is_user_validator, min_bond_for_validator, adjust_cooperator_targets,
}
use power_plant.Staking.Stashes.{update_ledger, kill_stash, do_withdraw_unbonded}

-- `last_reward_era..current_era`
abbrev pub claimed_from : ℕ → ℕ → List ℕ
claimed_from history_depth current_era =
    from (current_era - history_depth) (current_era - (current_era - history_depth))

abbrev pub new_ledger : ℕ → ℕ → List ℕ → StakingLedger
new_ledger stash amount claimed = record {
  stash = stash;
  total = amount;
  active = amount;
  unlocking = [];
  claimed_rewards = claimed;
}

-- What `unbond` takes from the active stake, with the dust left, and the tax on it.
pub record Unbonding : Type 0 where
  pub value : ℕ
  pub slashed_stake : ℕ
  pub active : ℕ

-- The last chunk grows if it is of the same era; else a chunk is added.
unfoldable pub push_chunk : ℕ → ℕ → List UnlockChunk → List UnlockChunk
push_chunk value era [] = record { value = value; era = era } ∷ []
push_chunk value era (c ∷ []) =
    if c.era == era
    then record c { value = saturating_add u128_max c.value value } ∷ []
    else c ∷ record { value = value; era = era } ∷ []
push_chunk value era (c ∷ d ∷ cs) = c ∷ push_chunk value era (d ∷ cs)

unfoldable pub unbonded_ledger : Unbonding → ℕ → StakingLedger → StakingLedger
unbonded_ledger u era l = record l {
  active = u.active;
  unlocking = push_chunk (sub128 u.value u.slashed_stake) era l.unlocking;
  total = if u.slashed_stake == 0 then l.total else sub128 l.total u.slashed_stake;
}

abbrev pub span_count : Option SlashingSpans → ℕ
span_count none = 0
span_count (some spans) = length (iter spans)

abbrev total_or_zero : Option StakingLedger → ℕ
total_or_zero none = 0
total_or_zero (some l) = l.total

module _ (C : Config) where
  -- The checks of `bond`, in their order, and the controller.
  unfoldable pub check_bond : ℕ → ℕ → ℕ → Storage C → Result Error ℕ
  check_bond stash controller_source value s =
      if is_some (s.bonded stash)
      then err already_bonded
      else elim (C.find_account controller_source) [
        | none ↦ err lookup_error
        | some controller ↦
            if is_some (s.ledger controller)
            then err already_paired
            else if ltb value C.minimum_balance
            then err insufficient_bond
            else ok controller
      ]

  -- The end of `bond`.
  unfoldable pub open_ledger : ℕ → ℕ → ℕ → RewardDestination → Call C (Unit {0})
  open_ledger stash controller value payee = do
    modify (λ s. record s {
      bonded = insert stash controller s.bonded;
      payee = insert stash payee s.payee;
    })
    current_era ← gets (λ s. unwrap_or s.eras.current_era 0)
    amount ← gets (λ s. min value (C.free_balance stash s.others))
    deposit_event C (amount_bonded stash amount)
    let claimed = claimed_from C.history_depth current_era
    ensure (leb (length claimed) C.history_depth) bound_not_met
    modify (update_ledger C controller (new_ledger stash amount claimed))

  unfoldable pub bond : Origin → ℕ → ℕ → RewardDestination → Call C (Unit {0})
  bond origin controller_source value payee = do
    stash ← ensure_signed C origin
    checked ← gets (check_bond stash controller_source value)
    controller ← lift checked
    try_others C (C.inc_consumers stash) bad_state
    open_ledger stash controller value payee

  abbrev pub extended : ℕ → StakingLedger → StakingLedger
  extended extra l = record l { total = add128 l.total extra; active = add128 l.active extra }

  abbrev extend : ℕ → ℕ → ℕ → StakingLedger → Call C (Unit {0})
  extend stash controller extra l = do
    ensure (leb C.minimum_balance (extended extra l).active) insufficient_bond
    modify (λ s. update_active_stake C stash (update_ledger C controller (extended extra l) s))
    deposit_event C (amount_bonded stash extra)

  unfoldable pub bond_extra : Origin → ℕ → Call C (Unit {0})
  bond_extra origin max_additional = do
    stash ← ensure_signed C origin
    bonded ← gets (λ s. s.bonded stash)
    controller ← ok_or bonded not_stash
    found ← gets (λ s. s.ledger controller)
    l ← ok_or found not_controller
    balance ← gets (λ s. C.free_balance stash s.others)
    (if leb l.total balance
        then extend stash controller (min (balance - l.total) max_additional) l
        else pure tt)

  unfoldable pub min_active_bond : ℕ → Storage C → ℕ
  min_active_bond stash s =
      if is_some (lookup stash s.cooperators)
      then s.settings.min_cooperator_bond
      else if is_user_validator C stash s
      then min_bond_for_validator C stash s
      else 0

  unfoldable pub unbonding : ℕ → ℕ → ℕ → Unbonding
  unbonding tax_percent value active =
      let taken = min value active in
      let left = active - taken in
      let tax = C.perbill.scale tax_percent taken in
      if ltb left C.minimum_balance
      then record {
        value = add128 taken left;
        slashed_stake = add128 tax (C.perbill.scale tax_percent left);
        active = 0;
      }
      else record { value = taken; slashed_stake = tax; active = left }

  unfoldable pub slash_tax : ℕ → ℕ → Storage C → Storage C
  slash_tax stash slashed_stake s =
      let (imbalance, _, others) = C.slash stash slashed_stake s.others in
      if slashed_stake == 0 then s else record s { others = C.on_slash imbalance others }

  -- The part of `unbond` for a value above zero.
  unfoldable pub unbond_value : ℕ → Unbonding → StakingLedger → Call C (Unit {0})
  unbond_value controller u l = do
    least ← gets (min_active_bond l.stash)
    ensure (leb least u.active) insufficient_bond
    era ← gets (λ s. add32 (unwrap_or s.eras.current_era 0) C.bonding_duration)
    modify (slash_tax l.stash u.slashed_stake)
    modify (update_ledger C controller (unbonded_ledger u era l))
    modify (adjust_cooperator_targets C l.stash u.active)
    deposit_event C (amount_unbonded l.stash (sub128 u.value u.slashed_stake))

  -- Without a free place, old chunks are withdrawn; the spans counted are those of the controller.
  unfoldable pub make_room : ℕ → StakingLedger → Call C (Unit {0})
  make_room controller l = do
    spans ← gets (λ s. s.slashing.spans.slashing_spans controller)
    (if length l.unlocking == C.max_unlocking_chunks
        then do_withdraw_unbonded C controller (span_count spans)
        else pure tt)

  -- The part of `unbond` behind the withdrawal, where the ledger is read again.
  unfoldable pub unbond_rest : ℕ → ℕ → Call C (Unit {0})
  unbond_rest controller value = do
    found ← gets (λ s. s.ledger controller)
    l ← ok_or found not_controller
    tax_percent ← gets (λ s. C.vip_tax_percent l.stash s.others)
    ensure (ltb (length l.unlocking) C.max_unlocking_chunks) no_more_chunks
    (if min value l.active == 0
        then pure tt
        else unbond_value controller (unbonding tax_percent value l.active) l)

  unfoldable pub unbond : Origin → ℕ → Call C (Unit {0})
  unbond origin value = do
    controller ← ensure_signed C origin
    found ← gets (λ s. s.ledger controller)
    l ← ok_or found not_controller
    make_room controller l
    unbond_rest controller value

  unfoldable pub withdraw_unbonded : Origin → ℕ → Call C (Unit {0})
  withdraw_unbonded origin num_slashing_spans = do
    controller ← ensure_signed C origin
    do_withdraw_unbonded C controller num_slashing_spans

  unfoldable pub rebond : Origin → ℕ → Call C (Unit {0})
  rebond origin value = do
    controller ← ensure_signed C origin
    found ← gets (λ s. s.ledger controller)
    l ← ok_or found not_controller
    ensure (not (is_empty l.unlocking)) no_unlock_chunk
    let (l', rebonded_value) = Ledger.rebond value l
    ensure (leb C.minimum_balance l'.active) insufficient_bond
    deposit_event C (amount_bonded l'.stash rebonded_value)
    modify (update_ledger C controller l')

  abbrev move_ledger : ℕ → ℕ → ℕ → Storage C → Storage C
  move_ledger stash old_controller controller s =
      if controller == old_controller then s else record s {
        bonded = insert stash controller s.bonded;
        ledger = elim (s.ledger old_controller) [
          | none ↦ s.ledger
          | some l ↦ insert controller l (remove old_controller s.ledger)
        ];
      }

  unfoldable pub set_controller : Origin → ℕ → Call C (Unit {0})
  set_controller origin controller_source = do
    stash ← ensure_signed C origin
    bonded ← gets (λ s. s.bonded stash)
    old_controller ← ok_or bonded not_stash
    controller ← look_up C controller_source
    paired ← gets (λ s. s.ledger controller)
    ensure (not (is_some paired)) already_paired
    modify (move_ledger stash old_controller controller)

  unfoldable pub set_payee : Origin → RewardDestination → Call C (Unit {0})
  set_payee origin payee = do
    controller ← ensure_signed C origin
    found ← gets (λ s. s.ledger controller)
    l ← ok_or found not_controller
    modify (λ s. record s { payee = insert l.stash payee s.payee })

  unfoldable pub force_unstake : Origin → ℕ → ℕ → Call C (Unit {0})
  force_unstake origin stash num_slashing_spans = do
    ensure_root C origin
    kill_stash C stash num_slashing_spans
    on_others C (C.remove_lock stash)

  -- Whether the stash is dust, where it fails for an account that is no stash.
  unfoldable pub is_reapable : ℕ → Storage C → Result Error Bool
  is_reapable stash s =
      if ltb (C.total_balance stash s.others) C.minimum_balance
      then ok true
      else elim (s.bonded stash) [
        | none ↦ err not_stash
        | some c ↦ ok (ltb (total_or_zero (s.ledger c)) C.minimum_balance)
      ]

  unfoldable pub reap_stash : Origin → ℕ → ℕ → Call C (Unit {0})
  reap_stash origin stash num_slashing_spans = do
    caller ← ensure_signed C origin
    checked ← gets (is_reapable stash)
    reapable ← lift checked
    ensure reapable funded_target
    kill_stash C stash num_slashing_spans
    on_others C (C.remove_lock stash)
