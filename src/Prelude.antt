-- ===== src/Prelude.antt =====
-- Names that every module shares: library names passed on, tests, lists and bits over the native
-- numbers.
mod Tests
mod Lists
mod Bits
mod Fallible
mod Tables
mod Text
mod Find
mod Integers
pub use Tests.*
pub use Lists.*
pub use Bits.*
pub use Fallible.*
pub use Tables.*
pub use Text.*
pub use Find.*
pub use Integers.*
unfoldable pub use Text.{bytes_eq, starts_with, find, lower, is_space, trim_left, trim}
unfoldable pub use mathlib.Core.List.{flatten}
unfoldable pub use Tables.{lookup, insert, erase}
pub use Prim.Native.Nat.{
  ℕ, zero, suc, ◌+◌, ◌-◌, ◌*◌, ◌/◌, ◌%◌, ◌^◌, ◌≤◌, ◌<◌, min, max, bit_and, bit_or, bit_xor,
}
pub use mathlib.Core.Path.{◌≡◌, refl, sym, ap, ap₂, subst, ◌∙◌}
pub use mathlib.Core.Logic.{◌≢◌, ◌↔◌, ◌⊎◌, inl, inr}
pub use mathlib.Core.Bool.{Bool, true, false, not, ◌&&◌, ◌||◌}
pub use mathlib.Core.Option.{Option, none, some}
pub use mathlib.Core.List.{List, [], ◌∷◌, ◌++◌, map, reverse, append-nil, append_assoc, map-append}
pub use native.Mathlib.Omega.{arith}
