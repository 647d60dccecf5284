-- ===== src/Slashing/Spans.antt =====
-- The slashing spans of a stash, `SlashingSpan` and `SlashingSpans` of
-- pallets/energy-generation/src/slashing.rs. Eras and span indices are `u32`, and their plain sums
-- and differences wrap.
pub mod Tiling
pub mod End
pub mod Prune
pub mod Obsolete
use power_plant.Prelude.{
  ℕ, ◌-◌, max, Bool, true, false, ◌&&◌, Option, none, some, List, [], ◌∷◌, leb, ltb, add32, sub32,
  length, take, position, find, if◌then◌else◌,
}

pub record SlashingSpan : Type 0 where
  pub index : ℕ
  pub start : ℕ
  pub length : Option ℕ  -- the ongoing span has none

-- `self.length.map_or(true, |l| self.start + l > era)`
abbrev ends_after : Option ℕ → ℕ → ℕ → Bool
ends_after none start era = true
ends_after (some l) start era = ltb era (add32 start l)

unfoldable pub contains_era : ℕ → SlashingSpan → Bool
contains_era era span = leb span.start era && ends_after span.length span.start era

pub record SlashingSpans : Type 0 where
  pub span_index : ℕ
  pub last_start : ℕ
  pub last_nonzero_slash : ℕ
  pub prior : List ℕ  -- most recent first

abbrev pub new : ℕ → SlashingSpans
new window_start = record {
  span_index = 0;
  last_start = window_start;
  last_nonzero_slash = 0;
  prior = [];
}

-- `true` if a new span was started.
unfoldable pub end_span : ℕ → SlashingSpans → SlashingSpans × Bool
end_span now s =
    let next_start = add32 now 1 in
    if leb next_start s.last_start then (s, false) else (
      record s {
        prior = (next_start - s.last_start) ∷ s.prior;
        last_start = next_start;
        span_index = add32 s.span_index 1;
      },
      true,
    )

-- The closure of `iter` over the prior lengths: both variables that it captures move.
unfoldable pub iter_prior : ℕ → ℕ → List ℕ → List SlashingSpan
iter_prior last_start index [] = []
iter_prior last_start index (l ∷ ls) =
    let start = sub32 last_start l in
    let index' = sub32 index 1 in
    record { index = index'; start = start; length = some l } ∷ iter_prior start index' ls

unfoldable pub iter : SlashingSpans → List SlashingSpan
iter s =
    record { index = s.span_index; start = s.last_start; length = none }
    ∷ iter_prior s.last_start s.span_index s.prior

-- `InspectingSpans::era_span`: the span of the given era, if covered.
unfoldable pub era_span : ℕ → SlashingSpans → Option SlashingSpan
era_span era s = find (contains_era era) (iter s)

abbrev pub index_of : Option SlashingSpan → Option ℕ
index_of none = none
index_of (some span) = some span.index

-- `self.era_span(era).map(|s| s.index)`
unfoldable pub era_index : ℕ → SlashingSpans → Option ℕ
era_index era s = index_of (era_span era s)

-- The test of `prune`: a span that ended before the window.
unfoldable pub is_obsolete : ℕ → SlashingSpan → Bool
is_obsolete window_start span = ended span.length
  where
    ended : Option ℕ → Bool
    ended none = false
    ended (some l) = leb (add32 span.start l) window_start

abbrev truncate : Option ℕ → List ℕ → List ℕ
truncate none prior = prior
truncate (some o) prior = take o prior

abbrev pruned_range : Option ℕ → ℕ → List ℕ → Option (ℕ × ℕ)
pruned_range none span_index prior = none
pruned_range (some o) span_index prior =
    some (sub32 span_index (length prior), sub32 span_index (length (take o prior)))

-- The spans that are left, and the range of the span indices that are gone.
unfoldable pub prune : ℕ → SlashingSpans → SlashingSpans × Option (ℕ × ℕ)
prune window_start s =
    let old_idx =
      position (is_obsolete window_start) (iter_prior s.last_start s.span_index s.prior) in
    (
      record s { prior = truncate old_idx s.prior; last_start = max s.last_start window_start },
      pruned_range old_idx s.span_index s.prior,
    )
