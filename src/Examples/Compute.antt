-- ===== src/Examples/Compute.antt =====
-- Offences of validator 7, with cooperator 8, in an active set of five.
use power_plant.Prelude.{◌≡◌, refl, none, some, List, [], ◌∷◌, arith, add32, sub32}
use power_plant.Examples.Toolbox.{floor_perbill, linear_float}
use power_plant.Examples.Inspect.{clean_storage}
use power_plant.Reputation.Points.{from_rank, ultramodern_3_points}
use power_plant.Slashing.Spans.{
  contains_era, iter, iter_prior, era_index, era_span, end_span, prune, is_obsolete,
}
use power_plant.Slashing.Entity.{SlashEntityPerbill}
use power_plant.Slashing.Inspect.{
  slash_in_spans, fetch_spans, end_inspected, add_slash, arm, reward_of, settle, update_span,
  compare_and_update_span_slash, remove_spans, remove_pruned, close,
}
use power_plant.Slashing.Disabling.{ActiveSet, Disabled, disable_limit}
use power_plant.Slashing.Disabling.Laws.{IsValid}
use power_plant.Slashing.Compute.{
  IndividualExposure, UnappliedSlash, SlashParams, SlashStorage, SlashContext, compute_slash,
  own_slash, prior_slash, slash_validator, slash_cooperators, slash_cooperator,
  cooperator_era_slash, max_slash_amount,
}

abbrev active_set : ActiveSet
active_set = record { validators = 5 ∷ 6 ∷ 7 ∷ 8 ∷ 9 ∷ []; active_era = 20; limit_factor = 3 }

abbrev nobody_disabled : Disabled
nobody_disabled = record { disabled_validators = []; session_disabled = [] }

nobody-IsValid : IsValid active_set nobody_disabled
unfolding disable_limit
nobody-IsValid = record { sorted = tt; limited = ground arith }

abbrev context : SlashContext
context = record {
  account_reputation =
      λ k. some (record { reputation = record { tier = none; points = 1000 }; updated = 0 });
  block_number = 100;
  active_set = active_set;
}

abbrev cooperators : List IndividualExposure
cooperators = record { who = 8; value = 500 } ∷ []

abbrev params : SlashParams
params = record {
  stash = 7;
  slash = 100_000_000;
  exposure = record { total = 1500; own = 1000; others = cooperators };
  slash_era = 21;
  window_start = 12;
  now = 25;
  reward_proportion = 100_000_000;
}

abbrev fresh : SlashStorage
fresh = record {
  spans = clean_storage;
  validator_slash_in_era = λ e k. none;
  cooperator_slash_in_era = λ e k. none;
  disabled = nobody_disabled;
}

abbrev half : SlashEntityPerbill
half = record { reputation = 500_000_000; stake = 500_000_000 }

abbrev tenth_slash : UnappliedSlash
tenth_slash = record {
  validator = 7;
  own = record { reputation = 100; stake = 100 };
  others = (8, record { reputation = 100; stake = 50 }) ∷ [];
  reporters = [];
  payout = record { reputation = 10; stake = 7 };
}

compute_slash-fresh :
    (compute_slash floor_perbill linear_float context params fresh).0 ≡ some tenth_slash
unfolding compute_slash own_slash prior_slash slash_validator slash_cooperators slash_cooperator
    cooperator_era_slash max_slash_amount slash_in_spans fetch_spans end_inspected add_slash arm
    reward_of settle update_span compare_and_update_span_slash remove_spans remove_pruned close
    contains_era iter iter_prior era_index era_span end_span prune is_obsolete add32 sub32 from_rank
    ultramodern_3_points
compute_slash-fresh = refl
