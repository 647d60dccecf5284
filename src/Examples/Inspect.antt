-- ===== src/Examples/Inspect.antt =====
-- A stash with three spans and no slash so far.
use power_plant.Prelude.{ℕ, refl, false, some, List, [], ◌∷◌, arith, add32, sub32}
use power_plant.Examples.Toolbox.{floor_perbill}
use power_plant.Examples.Spans.{three_spans, three_spans-IsValid}
use power_plant.Slashing.Spans.{contains_era, iter, iter_prior, era_index, era_span}
use power_plant.Slashing.Entity.{SlashEntity, IsAtMost, zero_entity}
use power_plant.Slashing.Inspect.{SpanStorage, InspectingSpans, no_record, slash_in_spans}
use power_plant.Slashing.Inspect.Maximum.{
  IsBalanced, slashed_in, slash_each, slash_each_within, AreWithin,
}
use power_plant.Slashing.Inspect.Orphans.{IsClean}
use power_plant.Slashing.Inspect.Drop.{HasSmallEras, slash_in_spans-IsClean}

abbrev pub clean_storage : SpanStorage
clean_storage = record { span_slash = λ k j. no_record; slashing_spans = λ k. some three_spans }

abbrev inspected : InspectingSpans
inspected = record {
  dirty = false;
  window_start = 5;
  stash = 7;
  spans = three_spans;
  paid_out = zero_entity;
  slash_of = zero_entity;
  reward_proportion = 100_000_000;
}

abbrev entity : ℕ → ℕ → SlashEntity
entity points stake = record { reputation = points; stake = stake }

abbrev two_slashes : List (ℕ × SlashEntity)
two_slashes = (12, entity 30 500) ∷ (15, entity 50 400) ∷ []

two_slashes-AreWithin : AreWithin three_spans 1 (entity 50 500) two_slashes
unfolding era_index era_span iter iter_prior contains_era add32 sub32
two_slashes-AreWithin = (
  refl,
  record { reputation_le = ground arith; stake_le = ground arith },
  (refl, record { reputation_le = ground arith; stake_le = ground arith }, tt),
)

slash_each_within_example :
    let (i', st') = slash_each floor_perbill two_slashes inspected clean_storage in
    let new = slashed_in st' 7 1 in
    IsAtMost zero_entity new
    × IsAtMost new (entity 50 500)
    × IsBalanced zero_entity zero_entity i'.slash_of new
slash_each_within_example =
    slash_each_within floor_perbill (entity 50 500) 1 two_slashes inspected clean_storage
      two_slashes-AreWithin (ground arith) (ground arith)
      (record { reputation_le = ground arith; stake_le = ground arith })
      (record { reputation_room = ground arith; stake_room = ground arith })

pub clean_storage-IsClean : IsClean clean_storage 7
clean_storage-IsClean = record {
  valid = three_spans-IsValid;
  older = λ j h. refl;
  newer = λ j h. refl;
}

small_eras : HasSmallEras 12 25 three_spans
small_eras = record {
  window_fits = ground arith;
  now_fits = ground arith;
  index_fits = ground arith;
}

slash_in_spans-IsClean_example :
    IsClean
      (slash_in_spans floor_perbill 7 12 100_000_000 21 25
        (entity 300 5000)
        zero_entity
        clean_storage).2
      7
slash_in_spans-IsClean_example =
    slash_in_spans-IsClean floor_perbill 7 12 100_000_000 21 25 (entity 300 5000) zero_entity
      clean_storage clean_storage-IsClean small_eras
