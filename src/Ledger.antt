-- ===== src/Ledger.antt =====
-- The staking ledger, `StakingLedger` and `UnlockChunk` of pallets/energy-generation/src/lib.rs.
-- Balances are `u128` and their plain sums wrap; the differences in this code stand under tests that
-- make them exact. `T::BondingDuration` and `Perquintill` are parameters.
pub mod Unlocking
pub mod Rebond
pub mod Slash
use power_plant.Prelude.{
  ℕ, zero, suc, ◌-◌, min, Option, none, some, List, [], ◌∷◌, ◌++◌, leb, ltb, ◌==◌, if◌then◌else◌,
  add32, add128, saturating_add, u128_max, StorageMap, empty, insert, length, get_elem?, set,
  position,
}
use mathlib.Core.List.{reverse}

pub record UnlockChunk : Type 0 where
  pub value : ℕ
  pub era : ℕ

pub record StakingLedger : Type 0 where
  pub stash : ℕ
  pub total : ℕ
  pub active : ℕ
  pub unlocking : List UnlockChunk
  pub claimed_rewards : List ℕ

abbrev pub default_from : ℕ → StakingLedger
default_from stash = record {
  stash = stash;
  total = 0;
  active = 0;
  unlocking = [];
  claimed_rewards = [];
}

-- The filter of `consolidate_unlocked`, whose closure takes old chunks off the total.
unfoldable pub filter_unlocked : ℕ → ℕ → List UnlockChunk → ℕ × List UnlockChunk
filter_unlocked current_era total [] = (total, [])
filter_unlocked current_era total (chunk ∷ chunks) =
    let is_locked = ltb current_era chunk.era in
    let (total', kept) =
      filter_unlocked current_era (if is_locked then total else total - chunk.value) chunks in
    (total', if is_locked then chunk ∷ kept else kept)

unfoldable pub consolidate_unlocked : ℕ → StakingLedger → StakingLedger
consolidate_unlocked current_era l =
    let (total, unlocking) = filter_unlocked current_era l.total l.unlocking in
    record l { total = total; unlocking = unlocking }

-- The loop of `rebond`, over the chunks from the last: the chunks left, the active stake, and the
-- amount rebonded.
unfoldable pub rebond_last : ℕ → ℕ → ℕ → List UnlockChunk → List UnlockChunk × ℕ × ℕ
rebond_last value active unlocking_balance [] = ([], active, unlocking_balance)
rebond_last value active unlocking_balance (last ∷ chunks) =
    let balance = add128 unlocking_balance last.value in
    let rest = rebond_last value (add128 active last.value) balance chunks in
    let diff = value - unlocking_balance in
    if leb balance value
    then (if leb value balance then (chunks, add128 active last.value, balance) else rest)
    else (
      record last { value = last.value - diff } ∷ chunks,
      add128 active diff,
      add128 unlocking_balance diff,
    )

-- The ledger with funds rebonded, and their amount.
unfoldable pub rebond : ℕ → StakingLedger → StakingLedger × ℕ
rebond value l =
    let (chunks, active, balance) = rebond_last value l.active 0 (reverse l.unlocking) in
    (record l { active = active; unlocking = reverse chunks }, balance)

-- `Perquintill`: a ratio rounded up, at most one, and its product with a balance, rounded up.
pub record Perquintill : Type 1 where
  pub Ratio : Type 0
  pub from_rational_up : ℕ → ℕ → Ratio
  pub mul_ceil : Ratio → ℕ → ℕ

-- What the closure `slash_out_of` writes.
pub record Taken : Type 0 where
  pub target : ℕ
  pub total : ℕ
  pub remaining : ℕ

-- The variables of the loop over the chunks.
pub record ChunkLoop : Type 0 where
  pub unlocking : List UnlockChunk
  pub total : ℕ
  pub remaining : ℕ
  pub slashed_unlocking : StorageMap ℕ

-- `(0..n).rev()`
abbrev pub below : ℕ → List ℕ
below zero = []
below (suc n) = n ∷ below n

-- `start..start + n`
abbrev pub from : ℕ → ℕ → List ℕ
from start zero = []
from start (suc n) = start ∷ from (suc start) n

-- The saturating sum of the values, from the left.
unfoldable pub affected_from : ℕ → List UnlockChunk → ℕ
affected_from acc [] = acc
affected_from acc (c ∷ cs) = affected_from (saturating_add u128_max acc c.value) cs

abbrev pub drop_chunks : ℕ → List UnlockChunk → List UnlockChunk
drop_chunks zero cs = cs
drop_chunks (suc n) [] = []
drop_chunks (suc n) (c ∷ cs) = drop_chunks n cs

-- `unlocking.retain(|c| !c.value.is_zero())`
unfoldable pub retain_nonzero : List UnlockChunk → List UnlockChunk
retain_nonzero [] = []
retain_nonzero (c ∷ cs) = if c.value == 0 then retain_nonzero cs else c ∷ retain_nonzero cs

module _ (Q : Perquintill) where
  open Q use {Ratio, from_rational_up, mul_ceil}

  abbrev slash_wish : Option Ratio → ℕ → ℕ → ℕ
  slash_wish none target remaining = remaining
  slash_wish (some ratio) target remaining = mul_ceil ratio target

  unfoldable pub slash_out_of : Option Ratio → ℕ → ℕ → ℕ → ℕ → Taken
  slash_out_of ratio minimum_balance target total remaining =
      let wish = min (min (slash_wish ratio target remaining) target) remaining in
      let target' = target - wish in
      let is_dust = ltb target' minimum_balance in
      let taken = if is_dust then saturating_add u128_max target' wish else wish in
      record {
        target = if is_dust then 0 else target';
        total = total - taken;
        remaining = remaining - taken;
      }

  -- The ratio, if the slash is proportional, and the order of the chunks.
  unfoldable pub slash_priority : ℕ → ℕ → StakingLedger → Option Ratio × List ℕ
  slash_priority slash_amount slashable_chunks_start l =
      elim (position (λ c. leb slashable_chunks_start c.era) l.unlocking) [
        | none ↦ (none, below (length l.unlocking))
        | some first ↦ (
          some (
              from_rational_up slash_amount (
                saturating_add u128_max l.active
                  (affected_from 0 (drop_chunks first l.unlocking)))),
          from first (length l.unlocking - first) ++ below first,
        )
      ]

  unfoldable pub slash_chunk : Option Ratio → ℕ → ℕ → UnlockChunk → ChunkLoop → ChunkLoop
  slash_chunk ratio minimum_balance i chunk s =
      let t = slash_out_of ratio minimum_balance chunk.value s.total s.remaining in
      record {
        unlocking = set s.unlocking i (record chunk { value = t.target });
        total = t.total;
        remaining = t.remaining;
        slashed_unlocking = insert chunk.era t.target s.slashed_unlocking;
      }

  -- The loop over the chunks: it breaks when nothing is left to slash, or at a missing index.
  unfoldable pub slash_chunks : Option Ratio → ℕ → List ℕ → ChunkLoop → ChunkLoop
  slash_chunks ratio minimum_balance [] s = s
  slash_chunks ratio minimum_balance (i ∷ is) s =
      if s.remaining == 0 then s else elim (get_elem? s.unlocking i) [
        | none ↦ s
        | some chunk ↦
            slash_chunks ratio minimum_balance is (slash_chunk ratio minimum_balance i chunk s)
      ]

  -- The new ledger, the slashed amount, and the chunk values that the listener is told.
  unfoldable pub slash_stake : ℕ → ℕ → ℕ → ℕ → StakingLedger → StakingLedger × ℕ × StorageMap ℕ
  slash_stake bonding_duration slash_amount minimum_balance slash_era l =
      let (ratio, priority) = slash_priority slash_amount (add32 slash_era bonding_duration) l in
      let first = slash_out_of ratio minimum_balance l.active l.total slash_amount in
      let s = slash_chunks ratio minimum_balance priority (record {
        unlocking = l.unlocking;
        total = first.total;
        remaining = first.remaining;
        slashed_unlocking = empty;
      }) in
      if slash_amount == 0 then (l, 0, empty) else (
        record l { total = s.total; active = first.target; unlocking = retain_nonzero s.unlocking },
        l.total - s.total,
        s.slashed_unlocking,
      )
