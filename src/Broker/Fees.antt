-- ===== src/Broker/Fees.antt =====
-- The swap fee, in tenths of a percent (`to_amount_with_fee_deducted` and `to_amount_with_fee_included`
-- of pallets/energy-broker/src/lib.rs). `HigherPrecisionBalance` is the `U256` of the runtime: its
-- subtraction panics below 0, its other operations here are checked.
pub mod Laws
use power_plant.Prelude.{
  ℕ, ◌-◌, ◌/◌, Option, none, some, Result, ok, err, leb, ltb, ◌==◌, if◌then◌else◌, checked_mul,
  u128_max,
}

abbrev pub u256_max : ℕ
u256_max =
    115_792_089_237_316_195_423_570_985_008_687_907_853_269_984_665_640_564_039_457_584_007_913_129_639_935

-- `Error` of the pallet, then the errors of others that it passes on, and the panic.
pub data Error : Type 0 where
  overflow zero_amount below_minimum insufficient_liquidity : Error
  provided_minimum_not_sufficient_for_swap provided_maximum_not_sufficient_for_swap : Error
  invalid_path : Error
  not_expendable unknown_asset assets_error bad_origin panicked : Error

abbrev pub checked_div : ℕ → ℕ → Option ℕ
checked_div a b = if b == 0 then none else some (a / b)

abbrev pub try_into : ℕ → Result Error ℕ
try_into n = if leb n u128_max then ok n else err overflow

abbrev pub ratio_of : ℕ → ℕ → ℕ → Result Error ℕ
ratio_of amount factor divisor = elim (checked_mul u256_max amount factor) [
  | none ↦ err overflow
  | some product ↦ elim (checked_div product divisor) [ none ↦ err overflow | some n ↦ try_into n ]
]

unfoldable pub to_amount_with_fee_deducted : ℕ → ℕ → Result Error ℕ
to_amount_with_fee_deducted amount fee =
    if ltb 1000 fee then err panicked else ratio_of amount (1000 - fee) 1000

unfoldable pub to_amount_with_fee_included : ℕ → ℕ → Result Error ℕ
to_amount_with_fee_included amount fee =
    if ltb 1000 fee then err panicked else ratio_of amount 1000 (1000 - fee)
