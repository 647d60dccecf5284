-- ===== src/EnergyFee/Multiplier.antt =====
-- The multiplier of the fees for the next block, by how full the block is
-- (pallets/energy-fee/src/lib.rs).
use power_plant.Prelude.{ℕ, min, max, Option, ltb, leb, if◌then◌else◌, unwrap_or}
use power_plant.Slashing.Entity.{Perbill}
use power_plant.EnergyFee.{Config, Storage}

pub record Weight : Type 0 where
  pub ref_time : ℕ
  pub proof_size : ℕ

-- `Weight::min`, by component.
unfoldable pub weight_min : Weight → Weight → Weight
weight_min a b = record {
  ref_time = min a.ref_time b.ref_time;
  proof_size = min a.proof_size b.proof_size;
}

-- The dimension that limits: what the block uses of it, and what it may use.
unfoldable pub limiting_dimension : Perbill → Weight → Weight → ℕ × ℕ
limiting_dimension perbill used limit =
    let normalized_ref_time = perbill.from_rational used.ref_time (max limit.ref_time 1) in
    let normalized_proof_size = perbill.from_rational used.proof_size (max limit.proof_size 1) in
    if ltb normalized_ref_time normalized_proof_size
    then (used.proof_size, limit.proof_size)
    else (used.ref_time, limit.ref_time)

-- `scale` is the product of a `Perquintill` and a number. `block_weight` is the weight of the normal class so far,
-- `max_total` the one it may have, if it is limited, `max_block` that of a block.
module _ (C : Config) (perbill : Perbill) (scale : ℕ → ℕ → ℕ) where
  unfoldable pub convert : Weight → Option Weight → Weight → Storage C → ℕ
  convert block_weight max_total max_block s =
      let min_multiplier = C.one_multiplier in
      let max_multiplier = unwrap_or s.upper_fee_multiplier C.one_multiplier in
      let normal_max_weight = unwrap_or max_total max_block in
      let normal_block_weight = weight_min block_weight normal_max_weight in
      let (used, limit) = limiting_dimension perbill normal_block_weight normal_max_weight in
      let threshold_weight = scale (unwrap_or s.block_fullness_threshold C.full_block) limit in
      if leb threshold_weight used then max_multiplier else min_multiplier
