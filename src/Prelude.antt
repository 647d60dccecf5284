-- ===== src/Prelude.antt =====
-- Names shared by all modules: the library's, passed on, and those of the children: Boolean tests,
-- lists over the native numbers, machine words, and calls that change storage and may fail.
mod Tests
mod Lists
mod Words
mod Calls
mod Maps
mod Sorted
pub use Tests.*
unfoldable pub use Lists.{filter, filter_map}
pub use Lists.*
unfoldable pub use Words.{add32, sub32, add128, sub128}
pub use Words.*
unfoldable pub use Calls.{for_each, fold_state}
pub use Calls.*
pub use Maps.*
unfoldable pub use Sorted.{lookup, put_in, delete, member, set_insert, set_remove}
pub use Sorted.*
pub use Prim.Native.Nat.{ℕ, zero, suc, ◌+◌, ◌-◌, ◌*◌, ◌/◌, ◌%◌, ◌^◌, ◌≤◌, ◌<◌, min, max}
pub use mathlib.Core.Path.{◌≡◌, refl, sym, ap, ◌∙◌, fun_ext}
pub use mathlib.Core.Logic.{◌≢◌, ◌↔◌, ◌⊎◌, inl, inr}
pub use mathlib.Core.Bool.{Bool, true, false, not, ◌&&◌, ◌||◌}
pub use mathlib.Core.Option.{Option, none, some}
pub use mathlib.Core.List.{List, [], ◌∷◌, ◌++◌, map}
pub use native.Mathlib.Omega.{arith}
