-- ===== src/Slashing/Spans/Tiling.antt =====
-- The spans of `iter` tile the eras (pallets/energy-generation/src/slashing.rs).
use power_plant.Prelude.{
  ℕ, ◌-◌, ◌≤◌, ◌<◌, ◌≡◌, ◌&&◌, List, [], ◌∷◌, arith, leb, ltb, sum, count, u32_mod, sub32-exact,
  add32-exact, if◌then◌else◌,
}
use power_plant.Slashing.Spans.{SlashingSpans, contains_era, iter_prior, iter}

abbrev pub AreBefore : ℕ → ℕ → List ℕ → Type 0
AreBefore start index [] = Unit
AreBefore start index (l ∷ ls) =
    (0 < l) × (l ≤ start) × (0 < index) × AreBefore (start - l) (index - 1) ls

pub record IsValid (s : SlashingSpans) : Type 0 where
  pub start_fits : s.last_start < u32_mod
  pub index_fits : s.span_index < u32_mod
  pub before : AreBefore s.last_start s.span_index s.prior

abbrev pub between : ℕ → ℕ → ℕ → ℕ
between a b x = if leb a x && ltb x b then 1 else 0

pub sum-le : (start index : ℕ) (prior : List ℕ) → AreBefore start index prior → sum prior ≤ start
sum-le start index [] h = omega arith
sum-le start index (l ∷ ls) (p, q, r, h) = omega (arith, sum-le (start - l) (index - 1) ls h)

count-iter_prior :
    (era start index : ℕ) (prior : List ℕ)
    → start < u32_mod
    → index < u32_mod
    → AreBefore start index prior
    → count (contains_era era) (iter_prior start index prior)
      ≡ between (start - sum prior) start era
unfolding contains_era iter_prior
count-iter_prior era start index [] sf xf h = ground arith
count-iter_prior era start index (l ∷ ls) sf xf (p, q, r, h) =
    rw (sub32-exact start l q sf, sub32-exact index 1 r xf)
      (ground (
        arith,
        add32-exact (start - l) l (omega arith),
        sum-le (start - l) (index - 1) ls h,
        count-iter_prior era (start - l) (index - 1) ls (omega arith) (omega arith) h,
      ))

-- The first era that the record covers.
abbrev pub earliest : SlashingSpans → ℕ
earliest s = s.last_start - sum s.prior

-- The spans of a valid record tile the eras: an era from the earliest start on lies in exactly one
-- of them, an older one in none.
pub count-iter :
    (era : ℕ) (s : SlashingSpans)
    → IsValid s
    → count (contains_era era) (iter s) ≡ (if leb (earliest s) era then 1 else 0)
unfolding contains_era iter
count-iter era s v = ground (
  arith,
  sum-le s.last_start s.span_index s.prior v.before,
  count-iter_prior era s.last_start s.span_index s.prior v.start_fits v.index_fits v.before,
)
