-- ===== src/Base.antt =====
-- The names that every module shares: the libraries' names passed on, the Boolean tests, machine
-- words, lists with native indices, and the bits of a word.
mod Tests
mod Words
mod Truncation
mod Arrays
pub mod Bits
pub use Tests.*
pub use Words.*
pub use Truncation.*
pub use Arrays.*
pub use Prim.Native.Nat.{ℕ, zero, suc, ◌+◌, ◌-◌, ◌*◌, ◌/◌, ◌%◌, ◌^◌, ◌≤◌, ◌<◌, min, max}
pub use Prim.Native.Nat.{bit_and, bit_or, bit_xor}
pub use mathlib.Core.Path.{◌≡◌, subst, refl, sym, ap, ap₂, ◌∙◌, fun_ext}
pub use mathlib.Core.Logic.{◌≢◌, ◌↔◌, ◌⊎◌, inl, inr}
pub use mathlib.Core.Bool.{Bool, true, false, not, ◌&&◌, ◌||◌}
pub use mathlib.Core.Option.{Option, none, some}
pub use mathlib.Core.List.{List, [], ◌∷◌}
pub use native.Mathlib.Omega.{arith}
