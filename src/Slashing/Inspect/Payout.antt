-- ===== src/Slashing/Inspect/Payout.antt =====
-- The reward that `compare_and_update_span_slash` pays out
-- (pallets/energy-generation/src/slashing.rs).
use power_plant.Prelude.{ℕ, ◌+◌, ◌≤◌, max, arith, u64_max, u128_max}
use power_plant.Slashing.Entity.{
  Perbill, SlashEntity, IsAtMost, mul, entity_saturating_sub, reward_f1,
}
use power_plant.Slashing.Inspect.{
  SpanStorage, InspectingSpans, update_span, settle, arm, add_slash, reward_of,
}
use power_plant.Slashing.Inspect.Maximum.{IsBalanced}

abbrev pub paid_in : SpanStorage → ℕ → ℕ → SlashEntity
paid_in st stash index = (st.span_slash stash index).paid_out

abbrev pub max_each : SlashEntity → SlashEntity → SlashEntity
max_each a b = record { reputation = max a.reputation b.reputation; stake = max a.stake b.stake }

-- The totals may still grow by the given amount.
pub record HasHeadroom (total amount : SlashEntity) : Type 0 where
  pub reputation_fits : total.reputation + amount.reputation ≤ u64_max
  pub stake_fits : total.stake + amount.stake ≤ u128_max

module _ (P : Perbill) where
  -- As long as both totals fit their types, the record of the span and the running total of the
  -- payout grow by the same reward, and the record never passes the reward proportion of the
  -- largest slash that it was paid for.
  pub update_span_payout :
      (era : ℕ) (slash : SlashEntity) (index : ℕ) (i : InspectingSpans) (st : SpanStorage)
      → HasHeadroom (paid_in st i.stash index) (mul P slash i.reward_proportion)
      → HasHeadroom i.paid_out (mul P slash i.reward_proportion)
      → let old = paid_in st i.stash index in
        let (i', st') = update_span P era slash index i st in
        let new = paid_in st' i.stash index in
        IsBalanced i.paid_out old i'.paid_out new
        × IsAtMost old new
        × IsAtMost new (max_each old (mul P slash i.reward_proportion))
  unfolding update_span settle arm add_slash reward_of
  update_span_payout era slash index i st fits total =
      let r = st.span_slash i.stash index in
      let due = entity_saturating_sub (mul P slash i.reward_proportion) r.paid_out in
      ground (
        arith,
        P.scale_le reward_f1 due.reputation (omega arith),
        P.scale_le reward_f1 due.stake (omega arith),
      )
