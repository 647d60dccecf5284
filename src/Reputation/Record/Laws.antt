-- ===== src/Reputation/Record/Laws.antt =====
-- What time in the network is worth (pallets/reputation/src/lib.rs).
use power_plant.Prelude.{ℕ, ◌+◌, ◌-◌, ◌*◌, ◌≤◌, ◌≡◌, arith, u64_max}
use power_plant.Reputation.Points.{Float}
use power_plant.Reputation.Record.{
  ReputationRecord, calculate, increase, update, update_with_block_number,
}

module _ (f : Float) where
  -- The points for the time in the network do not depend on how often the record is updated: an
  -- update at a block between the last update and a later block does not change the points after
  -- that block.
  pub update_with_block_number_twice :
      (middle last : ℕ) (r : ReputationRecord)
      → r.updated ≤ middle
      → middle ≤ last
      → (update_with_block_number f last (update_with_block_number f middle r)).reputation.points
        ≡ (update_with_block_number f last r).reputation.points
  unfolding update_with_block_number increase update calculate
  update_with_block_number_twice middle last r h k = ground arith

  -- The points never fall by an update, rise by 24 a block at most, and stay a `u64`.
  pub update_with_block_number_bounds :
      (block_number : ℕ) (r : ReputationRecord)
      → r.reputation.points ≤ u64_max
      → let points = (update_with_block_number f block_number r).reputation.points in
        (r.reputation.points ≤ points)
        × (points ≤ r.reputation.points + 24 * (block_number - r.updated))
        × (points ≤ u64_max)
  unfolding update_with_block_number increase update calculate
  update_with_block_number_bounds block_number r h = ground arith
