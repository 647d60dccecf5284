-- ===== src/Vesting/Schedule.antt =====
-- `VestingInfo` of pallets/simple-vesting/src/lib.rs. A block number converts to the same balance.
pub mod Laws
use power_plant.Prelude.{
  ℕ, ◌-◌, max, Bool, not, ◌&&◌, Option, none, some, ◌==◌, u128_max, checked_mul,
}

pub record VestingInfo : Type 0 where
  pub locked : ℕ
  pub per_block : ℕ
  pub starting_block : ℕ

unfoldable pub is_valid : VestingInfo → Bool
is_valid v = not (v.locked == 0) && not (v.per_block == 0)

-- What is left when an amount is unlocked; the amount is missing when it overflows.
abbrev left_of : ℕ → Option ℕ → ℕ
left_of locked none = 0
left_of locked (some to_unlock) = locked - to_unlock

unfoldable pub locked_at : ℕ → VestingInfo → ℕ
locked_at n v =
    let vested_block_count = n - v.starting_block in
    left_of v.locked (checked_mul u128_max vested_block_count (max v.per_block 1))
