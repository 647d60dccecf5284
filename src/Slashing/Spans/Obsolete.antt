-- ===== src/Slashing/Spans/Obsolete.antt =====
-- The record that `prune` leaves, and the indices that it reports as gone
-- (pallets/energy-generation/src/slashing.rs).
use power_plant.Prelude.{
  position, ℕ, zero, suc, ◌-◌, ◌≤◌, ◌<◌, ◌≡◌, ◌⊎◌, refl, ◌∙◌, inl, inr, Option, none, some, List,
  [], ◌∷◌, arith, Option-cases, length, take, find, u32_mod, sub32-exact,
}
use power_plant.Slashing.Spans.{
  era_span, SlashingSpans, contains_era, iter_prior, iter, era_index, index_of, is_obsolete,
  truncate, prune,
}
use power_plant.Slashing.Spans.Tiling.{AreBefore, IsValid}
use power_plant.Slashing.Spans.Prune.{era_index-prune}

AreBefore-take :
    (o start index : ℕ) (prior : List ℕ)
    → AreBefore start index prior
    → AreBefore start index (take o prior)
AreBefore-take zero start index prior h = tt
AreBefore-take (suc o) start index [] h = tt
AreBefore-take (suc o) start index (l ∷ ls) (p, q, r, h) =
    (p, q, r, AreBefore-take o (start - l) (index - 1) ls h)

AreBefore-mono :
    (start later index : ℕ) (prior : List ℕ)
    → AreBefore start index prior
    → start ≤ later
    → AreBefore later index prior
AreBefore-mono start later index [] h le = tt
AreBefore-mono start later index (l ∷ ls) (p, q, r, h) le =
    (p, omega arith, r, AreBefore-mono (start - l) (later - l) (index - 1) ls h (omega arith))

AreBefore-truncate :
    (old_idx : Option ℕ) (start index : ℕ) (prior : List ℕ)
    → AreBefore start index prior
    → AreBefore start index (truncate old_idx prior)
AreBefore-truncate none start index prior h = h
AreBefore-truncate (some o) start index prior h = AreBefore-take o start index prior h

-- Pruning keeps a record valid.
pub prune-IsValid :
    (window : ℕ) (s : SlashingSpans) → IsValid s → window < u32_mod → IsValid (prune window s).0
unfolding prune
prune-IsValid window s v h = record {
  start_fits = omega (arith, v.start_fits);
  index_fits = v.index_fits;
  before =
      AreBefore-mono s.last_start _ s.span_index _
        (AreBefore-truncate _ s.last_start s.span_index s.prior v.before) (omega arith);
}

pub length-le :
    (start index : ℕ) (prior : List ℕ) → AreBefore start index prior → length prior ≤ index
length-le start index [] h = omega arith
length-le start index (l ∷ ls) (p, q, r, h) = omega (arith, length-le (start - l) (index - 1) ls h)

-- The index that is found lies between the earliest one and the ongoing one.
find_index_bounds :
    (era start index i : ℕ) (prior : List ℕ)
    → start < u32_mod
    → index < u32_mod
    → AreBefore start index prior
    → index_of (find (contains_era era) (iter_prior start index prior)) ≡ some i
    → (index - length prior ≤ i) × (i < index)
unfolding contains_era iter_prior
find_index_bounds era start index i [] sf xf b e = ground arith
find_index_bounds era start index i (l ∷ ls) sf xf (p, q, r, b) e = ground (
  arith,
  sub32-exact start l q sf,
  sub32-exact index 1 r xf,
  length-le (start - l) (index - 1) ls b,
  find_index_bounds era (start - l) (index - 1) i ls (omega arith) (omega arith) b,
)

pub era_index_bounds :
    (era i : ℕ) (s : SlashingSpans)
    → IsValid s
    → era_index era s ≡ some i
    → (s.span_index - length s.prior ≤ i) × (i ≤ s.span_index)
unfolding era_index era_span iter
era_index_bounds era i s v e = ground (
  arith,
  find_index_bounds era s.last_start s.span_index i s.prior v.start_fits v.index_fits v.before,
)

length-take-le : (o : ℕ) (prior : List ℕ) → length (take o prior) ≤ length prior
length-take-le zero prior = omega arith
length-take-le (suc o) [] = omega arith
length-take-le (suc o) (l ∷ ls) = omega (arith, length-take-le o ls)

pub prune_cases :
    (window : ℕ) (s : SlashingSpans)
    → IsValid s
    → let (t, pruned) = prune window s in
      ((pruned ≡ none) × (t.prior ≡ s.prior))
      ⊎ ((pruned ≡ some (s.span_index - length s.prior, s.span_index - length t.prior))
          × (length t.prior ≤ length s.prior))
unfolding prune
prune_cases window s v =
    elim (Option-cases
      (position (is_obsolete window) (iter_prior s.last_start s.span_index s.prior))) [
        | inl all ↦ ground arith
        | inr (o, found) ↦ ground (
          arith,
          length-le s.last_start s.span_index s.prior v.before,
          sub32-exact s.span_index (length s.prior),
          length-le s.last_start s.span_index (take o s.prior)
              (AreBefore-take o s.last_start s.span_index s.prior v.before),
          sub32-exact s.span_index (length (take o s.prior)),
          length-take-le o s.prior,
        )
      ]

pub span_index-prune :
    (window : ℕ) (s : SlashingSpans) → (prune window s).0.span_index ≡ s.span_index
unfolding prune
span_index-prune window s = refl

-- The range that pruning a valid record reports begins at or before the index of any era that was
-- covered, and ends at or before the index of an era of the window.
pub prune_range :
    (window era i : ℕ) (s : SlashingSpans) {a b : ℕ}
    → IsValid s
    → window < u32_mod
    → (prune window s).1 ≡ some (a, b)
    → era_index era s ≡ some i
    → (a ≤ i) × ((b ≤ i) ⊎ (era < window))
prune_range window era i s v h e found =
    let low = era_index_bounds era i s v found in
    let kept = λ (le : window ≤ era).
      era_index_bounds era i (prune window s).0 (prune-IsValid window s v h)
        (era_index-prune window era s v le ∙ found) in
    ground (arith, prune_cases window s v, kept, span_index-prune window s)
