-- ===== src/Examples/Spans.antt =====
-- Three slashing spans: eras 5 to 9, 10 to 19, and from 20 on.
use power_plant.Prelude.{◌≤◌, ◌<◌, ◌≡◌, ◌⊎◌, refl, some, [], ◌∷◌, arith, add32, sub32}
use power_plant.Slashing.Spans.{
  SlashingSpans, contains_era, iter, iter_prior, era_index, era_span, prune, is_obsolete,
}
use power_plant.Slashing.Spans.Tiling.{IsValid}
use power_plant.Slashing.Spans.Prune.{era_index-prune}
use power_plant.Slashing.Spans.Obsolete.{prune-IsValid, prune_range}

abbrev pub three_spans : SlashingSpans
three_spans = record {
  span_index = 2;
  last_start = 20;
  last_nonzero_slash = 12;
  prior = 10 ∷ 5 ∷ [];
}

pub three_spans-IsValid : IsValid three_spans
three_spans-IsValid = record {
  start_fits = ground arith;
  index_fits = ground arith;
  before =
      (ground arith, ground arith, ground arith, (ground arith, ground arith, ground arith, tt));
}

prune_three : (prune 12 three_spans).1 ≡ some (0, 1)
unfolding prune iter iter_prior is_obsolete add32 sub32
prune_three = refl

era_index_three : era_index 12 three_spans ≡ some 1
unfolding era_index era_span iter iter_prior contains_era add32 sub32
era_index_three = refl

era_index-prune_example : era_index 15 (prune 12 three_spans).0 ≡ era_index 15 three_spans
era_index-prune_example = era_index-prune 12 15 three_spans three_spans-IsValid (ground arith)

prune-IsValid_example : IsValid (prune 12 three_spans).0
prune-IsValid_example = prune-IsValid 12 three_spans three_spans-IsValid (ground arith)

prune_range_example : (0 ≤ 1) × ((1 ≤ 1) ⊎ (12 < 12))
prune_range_example =
    prune_range 12 12 1 three_spans three_spans-IsValid (ground arith) prune_three era_index_three
