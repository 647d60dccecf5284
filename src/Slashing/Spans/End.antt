-- ===== src/Slashing/Spans/End.antt =====
-- What `end_span` does to the record (pallets/energy-generation/src/slashing.rs).
use power_plant.Prelude.{
  ℕ, ◌+◌, ◌-◌, ◌≤◌, ◌<◌, ◌≡◌, ◌∙◌, true, some, List, arith, leb, if◌then◌else◌, u32_mod, add32,
  sub32, add32-exact, sub32-exact,
}
use power_plant.Slashing.Spans.{
  era_span, SlashingSpans, contains_era, end_span, iter_prior, iter, era_index,
}
use power_plant.Slashing.Spans.Tiling.{AreBefore, IsValid}

AreBefore-cast :
    {a b c d : ℕ} (prior : List ℕ) → a ≡ c → b ≡ d → AreBefore a b prior → AreBefore c d prior
AreBefore-cast prior p q h = rw (← p, ← q) h

-- Ending the ongoing span at `now` keeps the record valid as long as eras and indices fit.
pub end_span-IsValid :
    (now : ℕ) (s : SlashingSpans)
    → IsValid s
    → now + 1 < u32_mod
    → s.span_index + 1 < u32_mod
    → IsValid (end_span now s).0
unfolding end_span
end_span-IsValid now s v nf xf = ground (
  arith,
  add32-exact now 1 nf,
  add32-exact s.span_index 1 xf,
  λ (h : s.last_start ≤ now + 1).
      AreBefore-cast s.prior
        (let e : s.last_start ≡ now + 1 - (now + 1 - s.last_start) = omega arith in e)
        (let e : s.span_index ≡ s.span_index + 1 - 1 = omega arith in e) v.before,
)

-- When `now` is not before the start of the ongoing span, and the next era and index fit, a new span
-- is started: the eras up to `now` keep their span index, and the later ones get the next index.
pub era_index-end_span :
    (now era : ℕ) (s : SlashingSpans)
    → IsValid s
    → now + 1 < u32_mod
    → s.span_index + 1 < u32_mod
    → s.last_start ≤ now
    → ((end_span now s).1 ≡ true)
      × (era_index era (end_span now s).0
          ≡ (if leb era now then era_index era s else some (s.span_index + 1)))
unfolding end_span era_index era_span iter iter_prior contains_era
era_index-end_span now era s v nf xf h =
    let back : sub32 (now + 1) (now + 1 - s.last_start) ≡ s.last_start =
      sub32-exact (now + 1) (now + 1 - s.last_start) (omega arith) nf ∙ (omega arith) in
    let back_index : sub32 (s.span_index + 1) 1 ≡ s.span_index =
      sub32-exact (s.span_index + 1) 1 (omega arith) xf ∙ (omega arith) in
    let ends : add32 s.last_start (now + 1 - s.last_start) ≡ now + 1 =
      add32-exact s.last_start (now + 1 - s.last_start) (omega arith) ∙ (omega arith) in
    ground (arith, add32-exact now 1 nf, add32-exact s.span_index 1 xf)
