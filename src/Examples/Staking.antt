-- ===== src/Examples/Staking.antt =====
-- Stash 1 with controller 2 and 100 bonded, a cooperator, in era 5; account 4 is not bonded.
use power_plant.Prelude.{
  ℕ, ◌+◌, ◌-◌, ◌*◌, ◌/◌, ◌≤◌, ◌<◌, ◌≡◌, refl, inl, min, true, false, none, some, [], ◌∷◌, arith,
  leb, ok, err, empty, insert, remove, is_some, lookup, put_in, fold_state, filter, filter_map,
}
use power_plant.Slashing.Entity.{zero_entity}
use power_plant.Slashing.Inspect.{no_record}
use power_plant.Slashing.Compute.{UnappliedSlash}
use power_plant.Slashing.Disabling.{insert_missing}
use power_plant.Reputation.Tier.{vanguard, trailblazer}
use power_plant.Reputation.Record.{no_reputation}
use power_plant.Ledger.{StakingLedger}
use power_plant.Staking.{
  ValidatorPrefs, Config, Storage, root, signed, not_forcing, not_controller, already_claimed,
}
use power_plant.Staking.Bonding.Paired.{HasPairs}
use power_plant.Staking.Roles.Exclusive.{IsExclusive}
use power_plant.Staking.Admin.{cancel_deferred_slash, is_sorted_and_unique}
use power_plant.Staking.Admin.Cancel.{keep_from, AllBelow, cancel_deferred_slash_lem}
use power_plant.Staking.Payout.{
  payout_stakers, do_payout_stakers, check_payout, claim_in, retain_from,
}
use power_plant.Staking.Payout.Once.{payout_once}
use power_plant.Staking.Offences.{pay_reporters, apply_unapplied_slashes}
use power_plant.Staking.Offences.Reporters.{Imbalances, pay_reporters_lem}
use power_plant.Staking.Offences.Abort.{apply_unapplied_slashes_lem}
use power_plant.Staking.Sessions.Planning.{has_candidates, before_election, new_session_plans}
use power_plant.Staking.Elections.{
  ellect_and_collect_exposures, ellect_validators, demote, exposure_of, total_value,
}
use power_plant.Staking.Stashes.{ledger_of}
use power_plant.Staking.Roles.{chill_stash, is_legit_for_validator, is_legit_for_collab}
use power_plant.Reputation.Order.{tier_leb}
use power_plant.Reputation.Record.{update_with_block_number, increase, calculate, update}
use power_plant.Reputation.Pallet.{update_points_for_time}
use power_plant.Reputation.Tier.{
  with_rank_relative_to, move_from, zero_threshold, first_rank_points, try_from_rank, tier_rank,
  middle_rank,
}
use power_plant.Reputation.Points.{rank, resulting_rank, from_rank, ultramodern_3_points}
use power_plant.Staking.Sessions.{
  new_session, is_due, era_length, update_reputations, era_for_session, session_range_for_era,
  era_down,
}
use power_plant.Staking.Sessions.Lookup.{era_for_session_lem}
use power_plant.Staking.Dispatch.{dispatch, of_staker, calls_unbond, calls_validate}
use power_plant.Staking.Dispatch.Paired.{dispatch-IsPaired}
use power_plant.Staking.Dispatch.Exclusive.{dispatch-IsExclusive}
use power_plant.Examples.Toolbox.{floor_perbill, fractions, linear_float}

-- The state is what reporters and the handler of slashes were given.
abbrev pub config : Config
config = record {
  State = ℕ;
  perbill = floor_perbill;
  perquintill = fractions;
  float = linear_float;
  mul_floor = floor_perbill.scale;
  percent_mul = λ p x. p * x / 100;
  percent_mul_floor = λ p x. p * x / 100;
  checked_rate = λ n d. some n;
  rate_mul_int = λ r x. r * x;
  minimum_balance = 10;
  free_balance = λ who o. 1_000;
  total_balance = λ who o. 1_000;
  set_lock = λ who total o. o;
  remove_lock = λ who o. o;
  slash = λ who value o. (value, 0, o);
  resolve_creating = λ who value o. o + value;
  subsume = λ a b. a + b;
  split = λ i a. (min i a, i - min i a);
  on_slash = λ value o. o + value;
  deposit_energy = λ who amount o. some (amount, o);
  subsume_debt = λ a b. a + b;
  on_reward = λ debt o. o;
  inc_consumers = λ who o. some o;
  dec_consumers = λ who o. o;
  find_account = λ source. some source;
  is_admin = λ origin. true;
  session_validators = λ o. 1 ∷ [];
  prune_historical_up_to = λ session o. o;
  select_nth_unstable_by = λ n before xs. xs;
  on_new_session = λ session o. o;
  now_millis = λ o. 0;
  era_energy = λ era o. some 7;
  validator_exposure = λ who stake o. stake;
  cooperator_exposure = λ who stake o. stake;
  vip_active_stake = λ who stake o. o;
  vip_tax_percent = λ who o. 100_000_000;
  vip_change_quarter = λ o. o;
  validator_nac_level = λ who o. some 1;
  validator_reputation_tier = vanguard 1;
  collaborative_reputation_tier = trailblazer 0;
  disabling_limit_factor = 3;
  max_unlocking_chunks = 4;
  max_cooperations = 8;
  max_cooperator_rewarded = 8;
  bonding_duration = 3;
  history_depth = 10;
  sessions_per_era = 2;
  slash_defer_duration = 2;
}

abbrev ledger : StakingLedger
ledger = record { stash = 1; total = 100; active = 100; unlocking = []; claimed_rewards = 2 ∷ [] }

abbrev unapplied : ℕ → UnappliedSlash
unapplied who = record {
  validator = who;
  own = record { reputation = 1; stake = 5 };
  others = [];
  reporters = [];
  payout = zero_entity;
}

abbrev pub storage : Storage config
storage = record {
  bonded = insert 1 2 empty;
  ledger = insert 2 ledger empty;
  payee = empty;
  validators = [];
  cooperators = (1, record { targets = (9, 40) ∷ []; submitted_in = 3; suppressed = false }) ∷ [];
  collaborations = empty;
  settings = record {
    validator_count = 3;
    core_nodes_count = 1;
    minimum_validator_count = 1;
    invulnerables = [];
    min_cooperator_bond = 10;
    min_common_validator_bond = 50;
    min_trust_validator_bond = 20;
    min_commission = 0;
    max_validators_count = none;
    max_cooperators_count = none;
    chill_threshold = none;
    slash_reward_fraction = 0;
    current_energy_per_stake_currency = none;
    block_authoring_reward = 1;
    canceled_payout = 0;
  };
  eras = record {
    current_era = some 5;
    active_era = some (record { index = 5; start = none });
    eras_start_session_index = insert 5 10 (insert 4 8 empty);
    eras_stakers = λ era who. none;
    eras_stakers_clipped = λ era who. none;
    eras_validator_prefs = λ era who. none;
    eras_energy_per_stake_currency = insert 4 2 empty;
    eras_total_stake = empty;
    force_era = not_forcing;
    bonded_eras = [];
    current_planned_session = 11;
  };
  unapplied_slashes = insert 5 (unapplied 4 ∷ unapplied 1 ∷ unapplied 2 ∷ []) empty;
  slashing = record {
    spans = record { span_slash = λ stash index. no_record; slashing_spans = empty };
    validator_slash_in_era = λ era stash. none;
    cooperator_slash_in_era = λ era stash. none;
    disabled = record { disabled_validators = []; session_disabled = [] };
  };
  reputation = record {
    account_reputation =
        insert 1
          (record {
            reputation = record { tier = some (vanguard 2); points = 1_000_000_000 };
            updated = 0;
          })
          empty;
    block_number = 0;
    events = [];
  };
  events = [];
  others = 0;
}

pub paired : HasPairs config storage
paired = record { stash_at = λ k. ground arith; ledger_at = λ k. ground arith }

dispatch-IsPaired_example :
    HasPairs config (dispatch config (signed 2) (of_staker (calls_unbond 30)) storage).1
dispatch-IsPaired_example =
    dispatch-IsPaired config (signed 2) (of_staker (calls_unbond 30)) storage paired

pub exclusive : IsExclusive config 1 storage
unfolding lookup
exclusive = inl refl

abbrev pub prefs : ValidatorPrefs
prefs = record { commission = 5; collaborative = false; min_coop_reputation = no_reputation }

dispatch-IsExclusive_example :
    IsExclusive config 1 (dispatch config (signed 2) (of_staker (calls_validate prefs)) storage).1
dispatch-IsExclusive_example =
    dispatch-IsExclusive config 1 (signed 2) (of_staker (calls_validate prefs)) storage exclusive

payout_succeeds : (payout_stakers config (signed 9) 1 4 storage).0 ≡ ok tt
unfolding payout_stakers do_payout_stakers check_payout claim_in retain_from insert_missing
payout_succeeds = refl

payout_once_example :
    let s' = (payout_stakers config (signed 9) 1 4 storage).1 in
    payout_stakers config (signed 8) 1 4 s' ≡ (err already_claimed, s')
payout_once_example = payout_once config 9 8 1 4 storage payout_succeeds

abbrev imbalances : Imbalances config
imbalances = record {
  given = λ o. o;
  split_at_most = λ i a. omega arith;
  split_sum = λ i a. omega arith;
  subsume_sum = λ a b le. refl;
  resolve_given = λ who a o. refl;
  on_slash_given = λ a o. refl;
}

pay_reporters_lem_example :
    let (r, s') =
      pay_reporters config (record { reputation = 2; stake = 9 }) 30 (6 ∷ 7 ∷ []) storage in
    (r ≡ ok tt) × (s'.others ≡ 30)
pay_reporters_lem_example =
    pay_reporters_lem config imbalances (record { reputation = 2; stake = 9 }) 30 (6 ∷ 7 ∷ [])
      storage (omega arith)

cancel_succeeds : (cancel_deferred_slash config root 5 (0 ∷ 2 ∷ []) storage).0 ≡ ok tt
unfolding cancel_deferred_slash is_sorted_and_unique
cancel_succeeds = refl

cancel_deferred_slash_lem_example :
    let s' = (cancel_deferred_slash config root 5 (0 ∷ 2 ∷ []) storage).1 in
    (is_sorted_and_unique (0 ∷ 2 ∷ []) ≡ true)
    × AllBelow 3 (0 ∷ 2 ∷ [])
    × (s'.unapplied_slashes 5
        ≡ some (keep_from 0 (0 ∷ 2 ∷ []) (unapplied 4 ∷ unapplied 1 ∷ unapplied 2 ∷ [])))
    × (s'.unapplied_slashes 6 ≡ none)
cancel_deferred_slash_lem_example =
    cancel_deferred_slash_lem config root 5 6 (0 ∷ 2 ∷ []) storage cancel_succeeds
      (λ e. omega arith)

era_found : era_for_session 9 storage.eras ≡ some 4
unfolding era_for_session era_down
era_found = refl

era_for_session_lem_example :
    (range : ℕ × ℕ) × (session_range_for_era 4 storage.eras ≡ some range)
    × (range.0 ≤ 9)
    × (9 < range.1)
era_for_session_lem_example =
    era_for_session_lem 9 4 5 storage.eras refl refl (omega arith) (omega arith) era_found

apply_unapplied_slashes_lem_example : apply_unapplied_slashes config 5 storage ≡ (
  err not_controller,
  record storage { unapplied_slashes = remove 5 storage.unapplied_slashes },
)
apply_unapplied_slashes_lem_example =
    apply_unapplied_slashes_lem config 5 (unapplied 4) (unapplied 1 ∷ unapplied 2 ∷ []) storage refl
      refl

-- Stash 1 as the only validator, when session 12 is planned.
abbrev pub with_validator : Storage config
with_validator = record storage { validators = (1, prefs) ∷ []; cooperators = [] }

due : is_due not_forcing (leb 2 (era_length config 12 5 with_validator)) ≡ true
unfolding is_due
due = refl

candidates : has_candidates config (before_election config with_validator) ≡ true
unfolding update_reputations update_points_for_time update_with_block_number increase calculate
    update with_rank_relative_to move_from zero_threshold first_rank_points try_from_rank rank
    resulting_rank from_rank tier_rank middle_rank ellect_and_collect_exposures ellect_validators
    filter filter_map fold_state demote exposure_of ledger_of chill_stash is_legit_for_validator
    is_legit_for_collab tier_leb lookup put_in total_value ultramodern_3_points
candidates = refl

new_session_plans_example :
    let (elected, s') = new_session config 12 with_validator in
    (is_some elected ≡ true)
    × (s'.eras.current_era ≡ some 6)
    × (s'.eras.eras_start_session_index 6 ≡ some 12)
    × (s'.eras.force_era ≡ not_forcing)
new_session_plans_example =
    new_session_plans config 12 5 with_validator refl (omega arith) due candidates
