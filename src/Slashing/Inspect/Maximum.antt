-- ===== src/Slashing/Inspect/Maximum.antt =====
-- A stash is slashed for the maximum in a span, not for the sum: the totals of
-- `compare_and_update_span_slash` (pallets/energy-generation/src/slashing.rs).
use power_plant.Prelude.{
  ℕ, ◌+◌, ◌≤◌, ◌<◌, ◌≡◌, refl, ap, ◌∙◌, ◌⊎◌, inl, inr, none, some, List, [], ◌∷◌, arith, u64_max,
  u128_max, Option-cases,
}
use power_plant.Slashing.Spans.{SlashingSpans, era_span, era_index, iter}
use power_plant.Slashing.Entity.{Perbill, SlashEntity, IsAtMost}
use power_plant.Slashing.Inspect.{
  SpanStorage, InspectingSpans, compare_and_update_span_slash, update_span, settle, arm, add_slash,
}

abbrev pub slashed_in : SpanStorage → ℕ → ℕ → SlashEntity
slashed_in st stash index = (st.span_slash stash index).slashed

-- The amount may still be added to the running total.
pub record HasRoom (slash_of slashed slash : SlashEntity) : Type 0 where
  pub reputation_room : slash_of.reputation + slash.reputation ≤ slashed.reputation + u64_max
  pub stake_room : slash_of.stake + slash.stake ≤ slashed.stake + u128_max

-- The total and the record have grown by the same amount.
pub record IsBalanced (slash_of slashed slash_of' slashed' : SlashEntity) : Type 0 where
  pub reputation_eq :
      slash_of'.reputation + slashed.reputation ≡ slash_of.reputation + slashed'.reputation
  pub stake_eq : slash_of'.stake + slashed.stake ≡ slash_of.stake + slashed'.stake

-- All that the iteration over the spans depends on.
pub record HasShapeOf (s t : SlashingSpans) : Type 0 where
  pub span_index_eq : t.span_index ≡ s.span_index
  pub last_start_eq : t.last_start ≡ s.last_start
  pub prior_eq : t.prior ≡ s.prior

pub era_index-HasShapeOf :
    (era : ℕ) (s t : SlashingSpans) → HasShapeOf s t → era_index era t ≡ era_index era s
unfolding era_index era_span iter
era_index-HasShapeOf era s t h = rw (h.span_index_eq, h.last_start_eq, h.prior_eq)

-- Slashes for eras of one span, none above the limit.
abbrev pub AreWithin : SlashingSpans → ℕ → SlashEntity → List (ℕ × SlashEntity) → Type 0
AreWithin s index limit [] = Unit
AreWithin s index limit ((era, slash) ∷ rest) =
    (era_index era s ≡ some index) × IsAtMost slash limit × AreWithin s index limit rest

AreWithin-HasShapeOf :
    (s t : SlashingSpans) (index : ℕ) (limit : SlashEntity) (slashes : List (ℕ × SlashEntity))
    → HasShapeOf s t
    → AreWithin s index limit slashes
    → AreWithin t index limit slashes
AreWithin-HasShapeOf s t index limit [] h w = tt
AreWithin-HasShapeOf s t index limit ((era, slash) ∷ rest) h (e, le, w) =
    (era_index-HasShapeOf era s t h ∙ e, le, AreWithin-HasShapeOf s t index limit rest h w)

module _ (P : Perbill) where
  update_span_maximum :
      (era : ℕ) (slash : SlashEntity) (index : ℕ) (i : InspectingSpans) (st : SpanStorage)
      → slash.reputation < u64_max
      → slash.stake < u128_max
      → HasRoom i.slash_of (slashed_in st i.stash index) slash
      → let old = slashed_in st i.stash index in
        let (i', st') = update_span P era slash index i st in
        let new = slashed_in st' i.stash index in
        IsAtMost old new × IsBalanced i.slash_of old i'.slash_of new
  unfolding update_span settle arm add_slash
  update_span_maximum era slash index i st rf sf room = ground arith

  update_span_choice :
      (era : ℕ) (slash : SlashEntity) (index : ℕ) (i : InspectingSpans) (st : SpanStorage)
      → let old = slashed_in st i.stash index in
        let new = slashed_in (update_span P era slash index i st).1 i.stash index in
        (new ≡ old) ⊎ ((new ≡ slash) × (IsAtMost old slash))
  unfolding update_span settle arm
  update_span_choice era slash index i st = ground arith

  pub update_span_frame :
      (era : ℕ) (slash : SlashEntity) (index : ℕ) (i : InspectingSpans) (st : SpanStorage)
      → let i' = (update_span P era slash index i st).0 in
        (i'.stash ≡ i.stash) × HasShapeOf i.spans i'.spans × (i'.window_start ≡ i.window_start)
  unfolding update_span settle arm add_slash
  update_span_frame era slash index i st = ground arith

  pub compare_and_update_uncovered :
      (era : ℕ) (slash : SlashEntity) (i : InspectingSpans) (st : SpanStorage)
      → era_index era i.spans ≡ none
      → compare_and_update_span_slash P era slash i st ≡ (none, i, st)
  unfolding compare_and_update_span_slash era_index
  compare_and_update_uncovered era slash i st e = elim (Option-cases (era_span era i.spans)) [
    | inl uncovered ↦ ground arith
    | inr (target, found) ↦ ground arith
  ]

  pub compare_and_update_known :
      (era : ℕ) (slash : SlashEntity) (index : ℕ) (i : InspectingSpans) (st : SpanStorage)
      → era_index era i.spans ≡ some index
      → compare_and_update_span_slash P era slash i st ≡ (
        some index,
        (update_span P era slash index i st).0,
        (update_span P era slash index i st).1,
      )
  unfolding compare_and_update_span_slash era_index
  compare_and_update_known era slash index i st e = elim (Option-cases (era_span era i.spans)) [
    | inl uncovered ↦ ground arith
    | inr (target, found) ↦ ground arith
  ]

  -- One slash of the stash after the other, the record in storage.
  pub slash_each :
      List (ℕ × SlashEntity) → InspectingSpans → SpanStorage → InspectingSpans × SpanStorage
  slash_each [] i st = (i, st)
  slash_each ((era, slash) ∷ rest) i st =
      let (found, i', st') = compare_and_update_span_slash P era slash i st in
      slash_each rest i' st'

  slash_each_none : (i : InspectingSpans) (st : SpanStorage) → slash_each [] i st ≡ (i, st)
  unfolding slash_each
  slash_each_none i st = refl

  slash_each_known :
      (era : ℕ) (slash : SlashEntity) (rest : List (ℕ × SlashEntity)) (index : ℕ)
      (i : InspectingSpans) (st : SpanStorage)
      → era_index era i.spans ≡ some index
      → slash_each ((era, slash) ∷ rest) i st
        ≡ slash_each rest
            (update_span P era slash index i st).0
            (update_span P era slash index i st).1
  unfolding slash_each
  slash_each_known era slash rest index i st e =
      ap (λ r. slash_each rest r.1 r.2) (compare_and_update_known era slash index i st e)

  -- Slashing a stash again and again for offences in one span, none above `limit`, slashes in
  -- total what the record of the span has grown by, and the record stays within the limit; the
  -- record was within the limit before, and the total has room for the limit.
  pub slash_each_within :
      (limit : SlashEntity) (index : ℕ) (slashes : List (ℕ × SlashEntity)) (i : InspectingSpans)
      (st : SpanStorage)
      → AreWithin i.spans index limit slashes
      → limit.reputation < u64_max
      → limit.stake < u128_max
      → IsAtMost (slashed_in st i.stash index) limit
      → HasRoom i.slash_of (slashed_in st i.stash index) limit
      → let old = slashed_in st i.stash index in
        let (i', st') = slash_each slashes i st in
        let new = slashed_in st' i.stash index in
        IsAtMost old new × IsAtMost new limit × IsBalanced i.slash_of old i'.slash_of new
  slash_each_within limit index [] i st w rf sf low room = rw (slash_each_none i st) (omega arith)
  slash_each_within limit index ((era, slash) ∷ rest) i st (e, le, w) rf sf low room =
      let (i', st') = update_span P era slash index i st in
      let frame = update_span_frame era slash index i st in
      let moved =
        update_span_maximum era slash index i st (omega arith) (omega arith) (omega arith) in
      let chosen = update_span_choice era slash index i st in
      rw (slash_each_known era slash rest index i st e) (
        ground (
          arith,
          slash_each_within limit index rest i' st'
              (AreWithin-HasShapeOf i.spans i'.spans index limit rest frame.1 w) rf sf,
        ))
