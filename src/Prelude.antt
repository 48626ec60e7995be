-- ===== src/Prelude.antt =====
-- The names that the components share: the libraries', passed on, with tests on numbers, lists over
-- the native numbers, the outcome of a kernel routine, 32-bit words and the laws of bit operations.
mod Tests
mod Lists
mod Run
mod Word
pub mod Bits
mod Digits
pub mod Xor
pub use Tests.*
pub use Lists.*
pub use Run.*
unfoldable pub use Word.{u32, sub32, shl32}
pub use Prim.Native.Nat.{
  ℕ, zero, suc, ◌+◌, ◌-◌, ◌*◌, ◌/◌, ◌%◌, ◌^◌, ◌≤◌, ◌<◌, bit_and, bit_or, bit_xor,
}
pub use mathlib.Core.Path.{◌≡◌, refl, sym, ap, ◌∙◌}
pub use mathlib.Core.Logic.{◌≢◌, ◌↔◌, ◌⊎◌, inl, inr}
pub use mathlib.Core.Bool.{Bool, true, false, not, ◌&&◌, ◌||◌}
pub use mathlib.Core.Option.{Option, none, some}
pub use mathlib.Core.List.{List, [], ◌∷◌, ◌++◌, map}
pub use native.Mathlib.Omega.{arith}
