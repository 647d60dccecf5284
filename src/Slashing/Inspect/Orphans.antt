-- ===== src/Slashing/Inspect/Orphans.antt =====
-- No slashing record is left behind: a record in `SpanSlash` belongs to a span that its stash still
-- has (pallets/energy-generation/src/slashing.rs). Here: the invariant, and each method of
-- `InspectingSpans`.
use power_plant.Prelude.{
  ℕ, ◌+◌, ◌-◌, ◌≤◌, ◌<◌, ◌≡◌, ◌≢◌, ap, sym, ◌∙◌, ◌⊎◌, true, false, Option, none, some, arith,
  u32_mod, add32-exact, length, inl, inr,
}
use power_plant.Slashing.Spans.{SlashingSpans, end_span}
use power_plant.Slashing.Spans.Tiling.{IsValid}
use power_plant.Slashing.Spans.End.{end_span-IsValid}
use power_plant.Slashing.Entity.{Perbill, SlashEntity}
use power_plant.Slashing.Inspect.{
  SpanRecord, SpanStorage, InspectingSpans, no_record, end_inspected, update_span, settle, arm,
  add_slash,
}
use power_plant.Slashing.Inspect.Maximum.{HasShapeOf, update_span_frame}

-- The records of one stash, against its spans.
pub record HasNoOrphans (s : SlashingSpans) (records : ℕ → SpanRecord) : Type 0 where
  pub valid : IsValid s
  pub older : (j : ℕ) → j < s.span_index - length s.prior → records j ≡ no_record
  pub newer : (j : ℕ) → s.span_index < j → records j ≡ no_record

abbrev pub IsCleanAt : Option SlashingSpans → (ℕ → SpanRecord) → Type 0
IsCleanAt none records = (j : ℕ) → records j ≡ no_record
IsCleanAt (some s) records = HasNoOrphans s records

-- The invariant of the storage, at one stash.
abbrev pub IsClean : SpanStorage → ℕ → Type 0
IsClean st stash = IsCleanAt (st.slashing_spans stash) (st.span_slash stash)

-- The invariant while the stash is inspected: as long as nothing is dirty, storage has the spans.
pub record IsInspecting (i : InspectingSpans) (st : SpanStorage) : Type 0 where
  pub clean : HasNoOrphans i.spans (st.span_slash i.stash)
  pub stored : i.dirty ≡ false → st.slashing_spans i.stash ≡ some i.spans

HasNoOrphans-HasShapeOf :
    (s t : SlashingSpans) (records : ℕ → SpanRecord)
    → HasShapeOf s t
    → HasNoOrphans s records
    → HasNoOrphans t records
HasNoOrphans-HasShapeOf s t records h v = record {
  valid = record {
    start_fits = omega (arith, h.last_start_eq, v.valid.start_fits);
    index_fits = omega (arith, h.span_index_eq, v.valid.index_fits);
    before = rw (h.last_start_eq, h.span_index_eq, h.prior_eq) v.valid.before;
  };
  older = λ j lt. v.older j (rw (← h.span_index_eq, ← h.prior_eq) lt);
  newer = λ j lt. v.newer j (rw (← h.span_index_eq) lt);
}

end_span_cases :
    (now : ℕ) (s : SlashingSpans)
    → s.span_index + 1 < u32_mod
    → (end_span now s ≡ (s, false))
      ⊎ (((end_span now s).1 ≡ true)
          × ((end_span now s).0.span_index ≡ s.span_index + 1)
          × (length (end_span now s).0.prior ≡ length s.prior + 1))
unfolding end_span
end_span_cases now s xf = ground (arith, add32-exact s.span_index 1 xf)

end_span-HasNoOrphans :
    (now : ℕ) (s : SlashingSpans) (records : ℕ → SpanRecord)
    → HasNoOrphans s records
    → now + 1 < u32_mod
    → s.span_index + 1 < u32_mod
    → HasNoOrphans (end_span now s).0 records
end_span-HasNoOrphans now s records v nf xf = elim (end_span_cases now s xf) [
  | inl same ↦ rw same v
  | inr (started, index, len) ↦ record {
    valid = end_span-IsValid now s v.valid nf xf;
    older = λ j h. v.older j (omega (arith, index, len));
    newer = λ j h. v.newer j (omega (arith, index));
  }
]

pub end_inspected-IsInspecting :
    (now : ℕ) (i : InspectingSpans) (st : SpanStorage)
    → IsInspecting i st
    → now + 1 < u32_mod
    → i.spans.span_index + 1 < u32_mod
    → IsInspecting (end_inspected now i) st
unfolding end_inspected
end_inspected-IsInspecting now i st v nf xf = record {
  clean = end_span-HasNoOrphans now i.spans (st.span_slash i.stash) v.clean nf xf;
  stored = elim (end_span_cases now i.spans xf) [
    | inl same ↦ rw same v.stored
    | inr (started, _, _) ↦ rw started (λ h. cc)
  ];
}

module _ (P : Perbill) where
  update_span_records :
      (era : ℕ) (slash : SlashEntity) (index j : ℕ) (i : InspectingSpans) (st : SpanStorage)
      → j ≢ index
      → (update_span P era slash index i st).1.span_slash i.stash j ≡ st.span_slash i.stash j
  unfolding update_span settle arm
  update_span_records era slash index j i st ne = ground arith

  update_span_stored :
      (era : ℕ) (slash : SlashEntity) (index : ℕ) (i : InspectingSpans) (st : SpanStorage)
      → let (i', st') = update_span P era slash index i st in
        (st'.slashing_spans i.stash ≡ st.slashing_spans i.stash)
        × (i'.dirty ≡ false → (i.dirty ≡ false) × (i'.spans ≡ i.spans))
  unfolding update_span settle arm add_slash
  update_span_stored era slash index i st = ground arith

  pub update_span-IsInspecting :
      (era : ℕ) (slash : SlashEntity) (index : ℕ) (i : InspectingSpans) (st : SpanStorage)
      → IsInspecting i st
      → i.spans.span_index - length i.spans.prior ≤ index
      → index ≤ i.spans.span_index
      → let (i', st') = update_span P era slash index i st in IsInspecting i' st'
  update_span-IsInspecting era slash index i st v lo hi =
      let (i', st') = update_span P era slash index i st in
      let frame = update_span_frame P era slash index i st in
      let stored = update_span_stored era slash index i st in
      let kept = HasNoOrphans-HasShapeOf i.spans i'.spans (st.span_slash i.stash) frame.1 v.clean in
      let shape = frame.1 in
      record {
        clean = rw frame.0 (record {
          valid = kept.valid;
          older = λ j lt.
              update_span_records era slash index j i st (ground (arith, shape)) ∙ kept.older j lt;
          newer = λ j lt.
              update_span_records era slash index j i st (ground (arith, shape)) ∙ kept.newer j lt;
        });
        stored = λ clean.
            rw frame.0 (stored.0 ∙ v.stored (stored.1 clean).0 ∙ ap some (sym (stored.1 clean).1));
      }
