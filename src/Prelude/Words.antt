-- ===== src/Prelude/Words.antt =====
-- Machine integers: `u32` sums and differences wrap, as in a release build; the saturating and
-- checked operations take the largest value of their type.
use Prim.Native.Nat.{ℕ, ◌+◌, ◌-◌, ◌*◌, ◌%◌, ◌≤◌, ◌<◌, min}
use mathlib.Core.Path.{◌≡◌}
use mathlib.Core.Option.{Option, none, some}
use native.Mathlib.Omega.{arith}
use power_plant.Prelude.Tests.{leb, if◌then◌else◌}

abbrev pub u8_max : ℕ
u8_max = 255

abbrev pub u32_mod : ℕ
u32_mod = 4_294_967_296

abbrev pub u64_max : ℕ
u64_max = 18_446_744_073_709_551_615

abbrev pub u128_max : ℕ
u128_max = 340_282_366_920_938_463_463_374_607_431_768_211_455

unfoldable pub add32 : ℕ → ℕ → ℕ
add32 a b = (a + b) % u32_mod

unfoldable pub sub32 : ℕ → ℕ → ℕ
sub32 a b = (a + u32_mod - b) % u32_mod

-- `a + b` at a type whose largest value is `m`.
abbrev pub wrapping_add : ℕ → ℕ → ℕ → ℕ
wrapping_add m a b = (a + b) % (m + 1)

abbrev pub saturating_add : ℕ → ℕ → ℕ → ℕ
saturating_add m a b = min m (a + b)

abbrev pub saturating_mul : ℕ → ℕ → ℕ → ℕ
saturating_mul m a b = min m (a * b)

abbrev pub checked_mul : ℕ → ℕ → ℕ → Option ℕ
checked_mul m a b = if leb (a * b) m then some (a * b) else none

unfoldable pub add128 : ℕ → ℕ → ℕ
add128 a b = (a + b) % (u128_max + 1)

unfoldable pub sub128 : ℕ → ℕ → ℕ
sub128 a b = (a + (u128_max + 1) - b) % (u128_max + 1)

pub sub128-exact : (a b : ℕ) → b ≤ a → a ≤ u128_max → sub128 a b ≡ a - b
unfolding sub128
sub128-exact a b h le = omega arith

pub add128-exact : (a b : ℕ) → a + b ≤ u128_max → add128 a b ≡ a + b
unfolding add128
add128-exact a b h = omega arith

pub add32-exact : (a b : ℕ) → a + b < u32_mod → add32 a b ≡ a + b
unfolding add32
add32-exact a b h = omega arith

pub sub32-exact : (a b : ℕ) → b ≤ a → a < u32_mod → sub32 a b ≡ a - b
unfolding sub32
sub32-exact a b h lt = omega arith

pub add32-lt : (a b : ℕ) → add32 a b < u32_mod
unfolding add32
add32-lt a b = omega arith
