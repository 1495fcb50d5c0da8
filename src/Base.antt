-- ===== src/Base.antt =====
-- The names that the other modules share: those of the libraries, passed on, and Python's tests,
-- dictionaries, lists and texts.
mod Tests
mod Dicts
mod Lists
mod Text
mod Int
mod Parts
mod Decimal
unfoldable pub use Tests.*
unfoldable pub use Dicts.*
unfoldable pub use Lists.*
unfoldable pub use Text.*
unfoldable pub use Parts.*
pub use Decimal.*
pub use Int.*
pub use Prim.Native.Nat.{ℕ, zero, suc, ◌+◌, ◌-◌, ◌*◌, ◌/◌, ◌%◌, ◌≤◌, ◌<◌, min, max}
pub use mathlib.Core.Path.{◌≡◌, refl, sym, ap, ◌∙◌, subst}
pub use mathlib.Core.Logic.{◌≢◌, ◌↔◌, ◌⊎◌, inl, inr}
pub use mathlib.Core.Bool.{Bool, true, false, not, ◌&&◌, ◌||◌}
pub use mathlib.Core.Option.{Option, none, some}
pub use mathlib.Core.List.{List, [], ◌∷◌, ◌++◌, map}
pub use native.Mathlib.Omega.{arith}
