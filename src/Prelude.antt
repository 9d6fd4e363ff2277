-- ===== src/Prelude.antt =====
-- The names that the other modules share: those of the libraries, passed on, and those of the
-- children (tests on numbers, lists with native indices, C strings as lists of bytes, signed integers,
-- lists of indices, results of chains that may fail, decimal digits, circular arrays, points in
-- time).
mod Tests
mod Lists
mod Text
mod Int
mod Slots
mod Outcome
mod Decimal
mod Ring
mod Clock
pub use Tests.*
pub use Lists.*
unfoldable pub use Text.*
pub use Int.*
pub use Slots.*
pub use Outcome.*
unfoldable pub use Decimal.*
pub use Ring.*
pub use Clock.*
pub use Prim.Native.Nat.{ℕ, zero, suc, ◌+◌, ◌-◌, ◌*◌, ◌/◌, ◌%◌, ◌^◌, ◌≤◌, ◌<◌}
pub use mathlib.Core.Path.{◌≡◌, refl, sym, ap, ◌∙◌}
pub use mathlib.Core.Logic.{◌≢◌, ◌↔◌, ◌⊎◌, inl, inr}
pub use mathlib.Core.Bool.{Bool, true, false, not, ◌&&◌, ◌||◌}
pub use mathlib.Core.Option.{Option, none, some}
pub use mathlib.Core.List.{List, [], ◌∷◌, ◌++◌, map}
pub use native.Mathlib.Omega.{arith}
