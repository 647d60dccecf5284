-- ===== src/Prelude/Maps.antt =====
-- Storage maps as functions from keys, and the default of a `ValueQuery`.
use Prim.Native.Nat.{ℕ}
use mathlib.Core.Bool.{Bool, true, false}
use mathlib.Core.Option.{Option, none, some}
use power_plant.Prelude.Tests.{◌==◌, if◌then◌else◌}

abbrev pub StorageMap : Type 0 → Type 0
StorageMap V = ℕ → Option V

module _ {V : Type 0} where
  abbrev pub empty : StorageMap V
  empty k = none

  abbrev pub insert : ℕ → V → StorageMap V → StorageMap V
  insert k v m j = if j == k then some v else m j

  abbrev pub remove : ℕ → StorageMap V → StorageMap V
  remove k m j = if j == k then none else m j

abbrev pub is_some {ℓ} : {V : Type ℓ} → Option V → Bool
is_some none = false
is_some (some v) = true

abbrev pub unwrap_or {ℓ} : {V : Type ℓ} → Option V → V → V
unwrap_or none d = d
unwrap_or (some v) d = v
