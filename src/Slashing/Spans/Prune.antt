-- ===== src/Slashing/Spans/Prune.antt =====
-- What `prune` forgets and what it keeps (pallets/energy-generation/src/slashing.rs).
use power_plant.Prelude.{
  ℕ, ◌-◌, ◌≤◌, ◌<◌, ◌≡◌, refl, none, List, [], ◌∷◌, arith, find, position, u32_mod, sub32-exact,
  add32-exact,
}
use power_plant.Slashing.Spans.{
  era_span, SlashingSpans, contains_era, iter_prior, iter, era_index, is_obsolete, truncate, prune,
}
use power_plant.Slashing.Spans.Tiling.{AreBefore, IsValid}

-- No prior span contains an era from the start of the ongoing one on.
find_late :
    (era start index : ℕ) (prior : List ℕ)
    → start < u32_mod
    → index < u32_mod
    → AreBefore start index prior
    → start ≤ era
    → find (contains_era era) (iter_prior start index prior) ≡ none
unfolding contains_era iter_prior
find_late era start index [] sf xf b h = refl
find_late era start index (l ∷ ls) sf xf (p, q, r, b) h =
    rw (sub32-exact start l q sf, sub32-exact index 1 r xf)
      (ground (
        arith,
        add32-exact (start - l) l (omega arith),
        find_late era (start - l) (index - 1) ls (omega arith) (omega arith) b (omega arith),
      ))

find_kept :
    (window era start index : ℕ) (prior : List ℕ)
    → start < u32_mod
    → index < u32_mod
    → AreBefore start index prior
    → window ≤ era
    → let old_idx = position (is_obsolete window) (iter_prior start index prior) in
      find (contains_era era) (iter_prior start index (truncate old_idx prior))
      ≡ find (contains_era era) (iter_prior start index prior)
unfolding contains_era iter_prior is_obsolete
find_kept window era start index [] sf xf b h = refl
find_kept window era start index (l ∷ ls) sf xf (p, q, r, b) h =
    rw (sub32-exact start l q sf, sub32-exact index 1 r xf)
      (ground (
        arith,
        sub32-exact start l q sf,
        sub32-exact index 1 r xf,
        add32-exact (start - l) l (omega arith),
        find_late era (start - l) (index - 1) ls (omega arith) (omega arith) b,
        find_kept window era (start - l) (index - 1) ls (omega arith) (omega arith) b h,
      ))

obsolete_all :
    (window start index : ℕ) (prior : List ℕ)
    → start < u32_mod
    → index < u32_mod
    → AreBefore start index prior
    → start ≤ window
    → truncate (position (is_obsolete window) (iter_prior start index prior)) prior ≡ []
unfolding iter_prior is_obsolete
obsolete_all window start index [] sf xf b h = refl
obsolete_all window start index (l ∷ ls) sf xf (p, q, r, b) h =
    rw (sub32-exact start l q sf, sub32-exact index 1 r xf)
      (ground (arith, add32-exact (start - l) l (omega arith)))

-- Pruning a valid record against a window keeps the span index of every era of the window.
pub era_index-prune :
    (window era : ℕ) (s : SlashingSpans)
    → IsValid s
    → window ≤ era
    → era_index era (prune window s).0 ≡ era_index era s
unfolding prune era_index era_span iter contains_era
era_index-prune window era s v h = ground (
  arith,
  obsolete_all window s.last_start s.span_index s.prior v.start_fits v.index_fits v.before,
  find_kept window era s.last_start s.span_index s.prior v.start_fits v.index_fits v.before h,
  find_late era s.last_start s.span_index s.prior v.start_fits v.index_fits v.before,
)
