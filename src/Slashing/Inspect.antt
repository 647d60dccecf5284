-- ===== src/Slashing/Inspect.antt =====
-- `InspectingSpans` of pallets/energy-generation/src/slashing.rs: the record of one stash while a
-- slash is computed, and the storage that its methods write. The two `&mut` totals of the caller are
-- the fields `paid_out` and `slash_of`; `close` is the destructor, `Drop::drop`.
pub mod Maximum
pub mod Payout
pub mod Orphans
pub mod Drop
use power_plant.Prelude.{
  ℕ, zero, suc, ◌+◌, ◌-◌, max, Bool, true, false, ◌&&◌, ◌||◌, not, Option, none, some, List, [],
  ◌∷◌, leb, ltb, ◌==◌, if◌then◌else◌, StorageMap, insert, remove, length, Action, pure, ensure,
  modify, gets, ◌>>=◌, ◌>>◌,
}
use power_plant.Slashing.Spans
use power_plant.Slashing.Spans.{
  SlashingSpan, SlashingSpans, era_span, era_index, end_span, iter, prune,
}
use power_plant.Slashing.Entity.{
  Perbill, SlashEntity, zero_entity, one_entity, is_zero, add, entity_saturating_add,
  entity_saturating_sub, mul, reward_f1,
}

pub record SpanRecord : Type 0 where
  pub slashed : SlashEntity
  pub paid_out : SlashEntity

abbrev pub no_record : SpanRecord
no_record = record { slashed = zero_entity; paid_out = zero_entity }

-- `SpanSlash` by stash and span index (a `ValueQuery`), and `SlashingSpans` by stash.
pub record SpanStorage : Type 0 where
  pub span_slash : ℕ → ℕ → SpanRecord
  pub slashing_spans : StorageMap SlashingSpans

abbrev pub put_record : ℕ → ℕ → SpanRecord → (ℕ → ℕ → SpanRecord) → ℕ → ℕ → SpanRecord
put_record stash index r m k j = if k == stash && j == index then r else m k j

pub record InspectingSpans : Type 0 where
  pub dirty : Bool
  pub window_start : ℕ
  pub stash : ℕ
  pub spans : SlashingSpans
  pub paid_out : SlashEntity
  pub slash_of : SlashEntity
  pub reward_proportion : ℕ

abbrev pub stored_spans : Option SlashingSpans → ℕ → SlashingSpans
stored_spans none window_start = Spans.new window_start
stored_spans (some spans) window_start = spans

abbrev initialised :
    Option SlashingSpans → ℕ → ℕ → StorageMap SlashingSpans → StorageMap SlashingSpans
initialised none stash window_start m = insert stash (Spans.new window_start) m
initialised (some spans) stash window_start m = m

-- Arguments: stash, window start, the totals so far, the reward proportion.
unfoldable pub fetch_spans :
    ℕ → ℕ → SlashEntity → SlashEntity → ℕ → SpanStorage → InspectingSpans × SpanStorage
fetch_spans stash window_start paid_out slash_of reward_proportion st =
    let found = st.slashing_spans stash in
    (
      record {
        dirty = false;
        window_start = window_start;
        stash = stash;
        spans = stored_spans found window_start;
        paid_out = paid_out;
        slash_of = slash_of;
        reward_proportion = reward_proportion;
      },
      record st { slashing_spans = initialised found stash window_start st.slashing_spans },
    )

-- `InspectingSpans::end_span`
unfoldable pub end_inspected : ℕ → InspectingSpans → InspectingSpans
end_inspected now i =
    let (spans, started) = end_span now i.spans in
    record i { spans = spans; dirty = started || i.dirty }

-- `target == Some(index)`
abbrev pub is_index : Option ℕ → ℕ → Bool
is_index none index = false
is_index (some target) index = target == index

abbrev pub end_if : Bool → ℕ → InspectingSpans → InspectingSpans
end_if true now i = end_inspected now i
end_if false now i = i

unfoldable pub add_slash : SlashEntity → ℕ → InspectingSpans → InspectingSpans
add_slash amount slash_era i = record i {
  slash_of = add i.slash_of amount;
  spans = record i.spans { last_nonzero_slash = max i.spans.last_nonzero_slash slash_era };
}

-- The three arms of the match on `slash_difference`.
pub data Arm : Type 0 where
  above below mixed : Arm

unfoldable pub arm : SlashEntity → Arm
arm difference =
    if ltb 1 difference.reputation && ltb 1 difference.stake
    then above
    else if difference.reputation == 0 && difference.stake == 0
    then below
    else mixed

module _ (P : Perbill) where
  -- `(slash * self.reward_proportion).saturating_sub(span_record.paid_out) * REWARD_F1`
  unfoldable pub reward_of : SlashEntity → ℕ → SpanRecord → SlashEntity
  reward_of slash reward_proportion r =
      mul P (entity_saturating_sub (mul P slash reward_proportion) r.paid_out) reward_f1

  -- The part behind the match: pay the reward, and write the record if it changed.
  unfoldable pub settle :
      ℕ
      → SpanRecord
      → SlashEntity
      → Bool
      → InspectingSpans
      → SpanStorage
      → InspectingSpans × SpanStorage
  settle index r reward changed i st =
      let paid = not (is_zero reward) in
      let r' : SpanRecord = if paid then record r { paid_out = add r.paid_out reward } else r in
      let i' : InspectingSpans =
        if paid then record i { paid_out = add i.paid_out reward } else i in
      if changed || paid
      then (
        record i' { dirty = true },
        record st { span_slash = put_record i.stash index r' st.span_slash },
      )
      else (i', st)

  unfoldable pub update_span :
      ℕ → SlashEntity → ℕ → InspectingSpans → SpanStorage → InspectingSpans × SpanStorage
  update_span slash_era slash index i st =
      let r = st.span_slash i.stash index in
      let difference = entity_saturating_sub (entity_saturating_add slash one_entity) r.slashed in
      elim (arm difference) [
        | above ↦
            settle index (record r { slashed = slash }) (reward_of slash i.reward_proportion r) true
              (add_slash (entity_saturating_sub difference one_entity) slash_era i) st
        | below ↦ settle index r zero_entity false i st
        | mixed ↦ settle index r (reward_of slash i.reward_proportion r) false i st
      ]

  unfoldable pub compare_and_update_span_slash :
      ℕ → SlashEntity → InspectingSpans → SpanStorage → Option ℕ × InspectingSpans × SpanStorage
  compare_and_update_span_slash slash_era slash i st = elim (era_span slash_era i.spans) [
    | none ↦ (none, i, st)
    | some target ↦
        let (i', st') = update_span slash_era slash target.index i st in
        (some target.index, i', st')
  ]

-- `for span_index in start..end { SpanSlash::remove(..) }`, over the number of indices left.
unfoldable pub remove_spans : ℕ → ℕ → ℕ → (ℕ → ℕ → SpanRecord) → ℕ → ℕ → SpanRecord
remove_spans stash start zero m = m
remove_spans stash start (suc n) m =
    remove_spans stash (start + 1) n (put_record stash start no_record m)

unfoldable pub remove_pruned : ℕ → Option (ℕ × ℕ) → (ℕ → ℕ → SpanRecord) → ℕ → ℕ → SpanRecord
remove_pruned stash none m = m
remove_pruned stash (some (start, end)) m = remove_spans stash start (end - start) m

unfoldable pub close : InspectingSpans → SpanStorage → SpanStorage
close i st =
    let (spans, pruned) = prune i.window_start i.spans in
    if not i.dirty then st else record {
      span_slash = remove_pruned i.stash pruned st.span_slash;
      slashing_spans = insert i.stash spans st.slashing_spans;
    }

-- The block that `compute_slash` runs for the validator and `slash_cooperators` for each cooperator:
-- fetch the spans, compare and update, end the ongoing span if the offence lies in it, and drop.
-- The two totals are read back.
unfoldable pub slash_in_spans :
    Perbill
    → ℕ
    → ℕ
    → ℕ
    → ℕ
    → ℕ
    → SlashEntity
    → SlashEntity
    → SpanStorage
    → SlashEntity × SlashEntity × SpanStorage
slash_in_spans P stash window_start reward_proportion slash_era now slash paid_out st =
    let (i, st₁) = fetch_spans stash window_start paid_out zero_entity reward_proportion st in
    let (target_span, i₂, st₂) = compare_and_update_span_slash P slash_era slash i st₁ in
    let i₃ = end_if (is_index target_span i₂.spans.span_index) now i₂ in
    (i₃.paid_out, i₃.slash_of, close i₃ st₂)

-- The spans part of `kick_out_if_recent`.
unfoldable pub kick_out_in_spans : ℕ → ℕ → ℕ → ℕ → ℕ → SpanStorage → SpanStorage
kick_out_in_spans stash window_start reward_proportion slash_era now st =
    let (i, st₁) = fetch_spans stash window_start zero_entity zero_entity reward_proportion st in
    close (end_if (is_index (era_index slash_era i.spans) i.spans.span_index) now i) st₁

-- `clear_stash_metadata`: the loop over `spans.iter()`.
unfoldable pub remove_listed : ℕ → List SlashingSpan → (ℕ → ℕ → SpanRecord) → ℕ → ℕ → SpanRecord
remove_listed stash [] m = m
remove_listed stash (span ∷ spans) m =
    remove_listed stash spans (put_record stash span.index no_record m)

pub data SpanError : Type 0 where
  incorrect_slashing_spans : SpanError

abbrev clear_found : Option SlashingSpans → ℕ → ℕ → Action SpanError SpanStorage (Unit {0})
clear_found none stash num_slashing_spans = pure tt
clear_found (some spans) stash num_slashing_spans = do
  ensure (leb (length (iter spans)) num_slashing_spans) incorrect_slashing_spans
  modify (λ st. record {
    span_slash = remove_listed stash (iter spans) st.span_slash;
    slashing_spans = remove stash st.slashing_spans;
  })

unfoldable pub clear_stash_metadata : ℕ → ℕ → Action SpanError SpanStorage (Unit {0})
clear_stash_metadata stash num_slashing_spans = do
  found ← gets (λ st. st.slashing_spans stash)
  clear_found found stash num_slashing_spans
