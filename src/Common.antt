-- ===== src/Common.antt =====
-- The names that the other modules share: the libraries', passed on, the Boolean tests, lists and
-- integers over the native numbers, and C's 64-bit words.
mod Tests
mod Lists
mod Words
pub mod Int
pub mod Ranges
pub mod Text
pub use Tests.*
pub use Lists.*
unfoldable pub use Lists.{bytes_eq, has}
pub use Words.*
pub use Prim.Native.Nat.{ℕ, zero, suc, ◌+◌, ◌-◌, ◌*◌, ◌/◌, ◌%◌, ◌^◌, ◌≤◌, ◌<◌, min}
pub use mathlib.Core.Path.{◌≡◌, refl, sym, ap, ap₂, ◌∙◌, fun_ext}
pub use mathlib.Core.Logic.{◌≢◌, ◌↔◌, ◌⊎◌, inl, inr}
pub use mathlib.Core.Bool.{Bool, true, false, not, ◌&&◌, ◌||◌}
pub use mathlib.Core.Option.{Option, none, some}
pub use mathlib.Core.List.{List, [], ◌∷◌, ◌++◌, map}
pub use native.Mathlib.Omega.{arith}
