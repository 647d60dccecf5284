-- ===== src/Vesting/Schedule/Laws.antt =====
-- The amount that is still locked (pallets/simple-vesting/src/lib.rs).
use power_plant.Prelude.{ℕ, ◌-◌, ◌*◌, ◌≤◌, ◌≡◌, max, arith, u128_max}
use power_plant.Vesting.Schedule.{VestingInfo, locked_at}
use native.Mathlib.Nat.{mul-le-mul_right}

-- The locked amount falls by the same amount, at least 1, in each block from the start until nothing is
-- left; the overflow of the product changes nothing, as the locked amount fits a balance.
pub locked_at_exact :
    (n : ℕ) (v : VestingInfo)
    → v.locked ≤ u128_max
    → locked_at n v ≡ v.locked - (n - v.starting_block) * max v.per_block 1
unfolding locked_at
locked_at_exact n v fits = ground arith

-- When the locked amount fits a balance, what is still locked never rises from one block to a
-- later one, and is never more than what was locked at the start.
pub locked_at_falls :
    (m n : ℕ) (v : VestingInfo)
    → v.locked ≤ u128_max
    → m ≤ n
    → (locked_at n v ≤ locked_at m v) × (locked_at m v ≤ v.locked)
locked_at_falls m n v fits le =
    let p =
      mul-le-mul_right {m = m - v.starting_block} {n = n - v.starting_block} (max v.per_block 1)
        (omega arith) in
    rw (locked_at_exact n v fits, locked_at_exact m v fits) (omega arith, omega arith)
