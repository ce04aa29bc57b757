-- ===== src/Common.antt =====
-- Names that the other modules share: those of the libraries, passed on, and those of the children
-- (Boolean tests, lists over the native numbers, texts, and Python's insertion-ordered dict).
mod Tests
mod Lists
mod Texts
pub mod Decimal
pub mod Dict
pub mod Entries
pub mod Int
pub mod Results
pub mod Split
pub use Tests.*
pub use Lists.*
unfoldable pub use Texts.*
pub use Prim.Native.Nat.{ℕ, zero, suc, ◌+◌, ◌-◌, ◌*◌, ◌/◌, ◌%◌, ◌≤◌, ◌<◌}
pub use mathlib.Core.Path.{◌≡◌, refl, sym, ap, ◌∙◌, subst}
pub use mathlib.Core.Logic.{◌≢◌, ◌↔◌, ◌⊎◌, inl, inr}
pub use mathlib.Core.Bool.{Bool, true, false, not, ◌&&◌, ◌||◌}
pub use mathlib.Core.Option.{Option, none, some}
pub use mathlib.Core.List.{List, [], ◌∷◌, ◌++◌, map}
pub use native.Mathlib.Omega.{arith}
