-- ===== src/Broker/Fees/Laws.antt =====
-- The two fee computations invert each other up to one unit (pallets/energy-broker/src/lib.rs).
use power_plant.Prelude.{ℕ, ◌+◌, ◌-◌, ◌*◌, ◌/◌, ◌≤◌, ◌<◌, ◌≡◌, ok, arith, u128_max}
use power_plant.Broker.Fees.{to_amount_with_fee_deducted, to_amount_with_fee_included}
use native.Mathlib.Nat.{mul-le-mul_left, div-mul-le_self, lt-div-mul-add}

-- Deducting a fee of at most all of it from a balance never fails, and leaves the balance less the
-- fee, rounded down.
pub to_amount_with_fee_deducted_total :
    (amount fee : ℕ)
    → amount ≤ u128_max
    → fee ≤ 1000
    → (n : ℕ) × (to_amount_with_fee_deducted amount fee ≡ ok n)
      × (n * 1000 ≤ amount * (1000 - fee))
      × (amount * (1000 - fee) < n * 1000 + 1000)
      × (n ≤ amount)
unfolding to_amount_with_fee_deducted
to_amount_with_fee_deducted_total amount fee fits h =
    let product_le : amount * (1000 - fee) ≤ amount * 1000 = mul-le-mul_left amount (omega arith) in
    (amount * (1000 - fee) / 1000, ground arith, omega arith, omega arith, omega arith)

-- The products that the two computations compare, as numbers.
deducted_back :
    (amount d paid : ℕ)
    → 0 < d
    → d ≤ 1000
    → paid ≡ amount * 1000 / d
    → (paid * d ≤ amount * 1000)
      × (amount * 1000 < paid * d + d)
      × (paid * d / 1000 ≤ amount)
      × (amount ≤ paid * d / 1000 + 1)
deducted_back amount d paid pos h e =
    let upper : paid * d ≤ amount * 1000 = rw e (div-mul-le_self (amount * 1000) d) in
    let lower : amount * 1000 < paid * d + d = rw e (lt-div-mul-add pos) in
    (upper, lower, omega arith, omega arith)

included_paid :
    (amount fee paid : ℕ)
    → fee < 1000
    → to_amount_with_fee_included amount fee ≡ ok paid
    → (paid ≡ amount * 1000 / (1000 - fee)) × (paid ≤ u128_max)
unfolding to_amount_with_fee_included
included_paid amount fee paid h e = (ground arith, ground arith)

-- With a fee below all of it, what has to be paid for an amount to arrive leaves that amount or
-- one unit less when the fee is deducted again; the deduction does not fail.
pub deducted-included :
    (amount fee paid : ℕ)
    → fee < 1000
    → to_amount_with_fee_included amount fee ≡ ok paid
    → (n : ℕ) × (to_amount_with_fee_deducted paid fee ≡ ok n) × (n ≤ amount) × (amount ≤ n + 1)
deducted-included amount fee paid h e =
    let (value, fits) = included_paid amount fee paid h e in
    let (upper, lower, le, ge) =
      deducted_back amount (1000 - fee) paid (omega arith) (omega arith) value in
    let (n, eq, n_le, n_lt, n_paid) =
      to_amount_with_fee_deducted_total paid fee fits (omega arith) in
    (n, eq, omega arith, omega arith)
