-- ===== src/Slashing/Inspect/Drop.antt =====
-- The destructor of `InspectingSpans`, and whole inspections of a stash: none leaves a slashing
-- record behind (pallets/energy-generation/src/slashing.rs).
use power_plant.Prelude.{
  ==_refl, ℕ, zero, suc, ◌+◌, ◌-◌, ◌<◌, ◌≡◌, refl, Bool, true, false, Option, none, some, arith,
  u32_mod, length, Option-cases, Bool-cases, inl, inr, if◌then◌else◌, ◌==◌, leb, ltb, ◌&&◌,
}
use mathlib.Core.Path.{subst}
use power_plant.Slashing.Spans.Obsolete.{
  era_index_bounds, prune-IsValid, prune_cases, span_index-prune,
}
use power_plant.Slashing.Entity.{Perbill, SlashEntity, zero_entity}
use power_plant.Slashing.Inspect.{
  prune, era_index, SlashingSpans, stored_spans, initialised, SpanRecord, SpanStorage,
  InspectingSpans, no_record, fetch_spans, end_inspected, end_if, is_index, close, remove_spans,
  remove_pruned, compare_and_update_span_slash, put_record, slash_in_spans, kick_out_in_spans,
}
use power_plant.Slashing.Inspect.Maximum.{
  compare_and_update_known, compare_and_update_uncovered, update_span_frame,
}
use power_plant.Slashing.Inspect.Orphans.{
  HasNoOrphans, IsClean, IsCleanAt, IsInspecting, end_inspected-IsInspecting,
  update_span-IsInspecting,
}

-- The loop of the destructor clears its range of one stash, and nothing else.
pub remove_spans_lem :
    (stash start n k j : ℕ) (m : ℕ → ℕ → SpanRecord)
    → remove_spans stash start n m k j
      ≡ (if k == stash && leb start j && ltb j (start + n) then no_record else m k j)
unfolding remove_spans
remove_spans_lem stash start zero k j m = ground arith
remove_spans_lem stash start (suc n) k j m =
    ground (arith, remove_spans_lem stash (start + 1) n k j (put_record stash start no_record m))

remove_pruned_lem :
    (stash start end j : ℕ) (m : ℕ → ℕ → SpanRecord)
    → remove_pruned stash (some (start, end)) m stash j
      ≡ (if leb start j && ltb j end then no_record else m stash j)
unfolding remove_pruned
remove_pruned_lem stash start end j m =
    ground (arith, remove_spans_lem stash start (end - start) stash j m)

remove_pruned-HasNoOrphans :
    (window stash : ℕ) (s : SlashingSpans) (m : ℕ → ℕ → SpanRecord)
    → HasNoOrphans s (m stash)
    → window < u32_mod
    → HasNoOrphans (prune window s).0 (remove_pruned stash (prune window s).1 m stash)
unfolding remove_pruned
remove_pruned-HasNoOrphans window stash s m v h =
    let index = span_index-prune window s in
    let first = s.span_index - length s.prior in
    let kept = s.span_index - length (prune window s).0.prior in
    elim (prune_cases window s v.valid) [
      | inl (none_pruned, same) ↦ record {
        valid = prune-IsValid window s v.valid h;
        older = λ j lt. rw none_pruned (ground (arith, v.older j));
        newer = λ j lt. rw none_pruned (ground (arith, v.newer j));
      }
      | inr (range, shorter) ↦ record {
        valid = prune-IsValid window s v.valid h;
        older =
            λ j lt. rw range (ground (arith, remove_pruned_lem stash first kept j m, v.older j));
        newer =
            λ j lt. rw range (ground (arith, remove_pruned_lem stash first kept j m, v.newer j));
      }
    ]

pub close-IsClean :
    (i : InspectingSpans) (st : SpanStorage)
    → IsInspecting i st
    → i.window_start < u32_mod
    → IsClean (close i st) i.stash
unfolding close
close-IsClean i st v h = elim (Bool-cases i.dirty) [
  | inl written ↦ rw written (
      simp (==_refl i.stash)
        (remove_pruned-HasNoOrphans i.window_start i.stash i.spans st.span_slash v.clean h))
  | inr untouched ↦ rw (untouched, v.stored untouched) v.clean
]

stored_spans-HasNoOrphans :
    (found : Option SlashingSpans) (window : ℕ) (records : ℕ → SpanRecord)
    → IsCleanAt found records
    → window < u32_mod
    → HasNoOrphans (stored_spans found window) records
stored_spans-HasNoOrphans none window records v h = record {
  valid = record { start_fits = h; index_fits = omega arith; before = tt };
  older = λ j lt. v j;
  newer = λ j lt. v j;
}
stored_spans-HasNoOrphans (some s) window records v h = v

initialised-stored :
    (found : Option SlashingSpans) (stash window : ℕ) (m : ℕ → Option SlashingSpans)
    → m stash ≡ found
    → initialised found stash window m stash ≡ some (stored_spans found window)
initialised-stored none stash window m e = ground arith
initialised-stored (some s) stash window m e = e

fetch_spans-IsInspecting :
    (stash window rp : ℕ) (paid_out slash_of : SlashEntity) (st : SpanStorage)
    → IsClean st stash
    → window < u32_mod
    → let (i, st') = fetch_spans stash window paid_out slash_of rp st in IsInspecting i st'
unfolding fetch_spans
fetch_spans-IsInspecting stash window rp paid_out slash_of st v h = record {
  clean = stored_spans-HasNoOrphans (st.slashing_spans stash) window _ v h;
  stored = λ _. initialised-stored (st.slashing_spans stash) stash window st.slashing_spans refl;
}

end_if-IsInspecting :
    (b : Bool) (now : ℕ) (i : InspectingSpans) (st : SpanStorage)
    → IsInspecting i st
    → now + 1 < u32_mod
    → i.spans.span_index + 1 < u32_mod
    → IsInspecting (end_if b now i) st
end_if-IsInspecting true now i st v nf xf = end_inspected-IsInspecting now i st v nf xf
end_if-IsInspecting false now i st v nf xf = v

compare-IsInspecting :
    (P : Perbill) (era : ℕ) (slash : SlashEntity) (i : InspectingSpans) (st : SpanStorage)
    → IsInspecting i st
    → let (_, i', st') = compare_and_update_span_slash P era slash i st in
      IsInspecting i' st'
      × (i'.stash ≡ i.stash)
      × (i'.window_start ≡ i.window_start)
      × (i'.spans.span_index ≡ i.spans.span_index)
compare-IsInspecting P era slash i st v = elim (Option-cases (era_index era i.spans)) [
  | inl uncovered ↦
      rw (compare_and_update_uncovered P era slash i st uncovered) (v, refl, refl, refl)
  | inr (index, found) ↦
      let frame = update_span_frame P era slash index i st in
      let bounds = era_index_bounds era index i.spans v.clean.valid found in
      rw (compare_and_update_known P era slash index i st found) (
        update_span-IsInspecting P era slash index i st v bounds.0 bounds.1,
        frame.0,
        frame.2,
        frame.1.span_index_eq,
      )
]

end_if_frame :
    (b : Bool) (now : ℕ) (i : InspectingSpans)
    → ((end_if b now i).stash ≡ i.stash) × ((end_if b now i).window_start ≡ i.window_start)
unfolding end_inspected
end_if_frame b now i = ground arith

-- The hypotheses under which no machine word of an inspection wraps.
pub record HasSmallEras (window now : ℕ) (s : SlashingSpans) : Type 0 where
  pub window_fits : window < u32_mod
  pub now_fits : now + 1 < u32_mod
  pub index_fits : s.span_index + 1 < u32_mod

close_ended-IsClean :
    (b : Bool) (now : ℕ) (i : InspectingSpans) (st : SpanStorage)
    → IsInspecting i st
    → HasSmallEras i.window_start now i.spans
    → IsClean (close (end_if b now i) st) i.stash
close_ended-IsClean b now i st v h =
    let frame = end_if_frame b now i in
    subst (λ k. IsClean (close (end_if b now i) st) k) frame.0
      (close-IsClean (end_if b now i) st (end_if-IsInspecting b now i st v h.now_fits h.index_fits)
        (rw frame.1 h.window_fits))

-- If every slashing record of a stash belongs to one of its spans, this still holds after a whole
-- inspection for a slash, when eras and indices fit their types.
pub slash_in_spans-IsClean :
    (P : Perbill) (stash window rp era now : ℕ) (slash paid_out : SlashEntity) (st : SpanStorage)
    → IsClean st stash
    → HasSmallEras window now (stored_spans (st.slashing_spans stash) window)
    → IsClean (slash_in_spans P stash window rp era now slash paid_out st).2 stash
unfolding slash_in_spans fetch_spans
slash_in_spans-IsClean P stash window rp era now slash paid_out st v h =
    let (i, st₁) = fetch_spans stash window paid_out zero_entity rp st in
    let (target, i₂, st₂) = compare_and_update_span_slash P era slash i st₁ in
    let start = fetch_spans-IsInspecting stash window rp paid_out zero_entity st v h.window_fits in
    let kept = compare-IsInspecting P era slash i st₁ start in
    subst (λ k. IsClean (slash_in_spans P stash window rp era now slash paid_out st).2 k) kept.1
      (close_ended-IsClean (is_index target i₂.spans.span_index) now i₂ st₂ kept.0 (record {
        window_fits = rw kept.2 h.window_fits;
        now_fits = h.now_fits;
        index_fits = rw kept.3 h.index_fits;
      }))

-- If every slashing record of a stash belongs to one of its spans, this still holds after the
-- stash is kicked out without a slash, when eras and indices fit their types.
pub kick_out_in_spans-IsClean :
    (stash window rp era now : ℕ) (st : SpanStorage)
    → IsClean st stash
    → HasSmallEras window now (stored_spans (st.slashing_spans stash) window)
    → IsClean (kick_out_in_spans stash window rp era now st) stash
unfolding kick_out_in_spans fetch_spans
kick_out_in_spans-IsClean stash window rp era now st v h =
    let (i, st₁) = fetch_spans stash window zero_entity zero_entity rp st in
    close_ended-IsClean (is_index (era_index era i.spans) i.spans.span_index) now i st₁
      (fetch_spans-IsInspecting stash window rp zero_entity zero_entity st v h.window_fits)
      (record { window_fits = h.window_fits; now_fits = h.now_fits; index_fits = h.index_fits })
