-- ===== src/Common.antt =====
-- The names that the other modules share: the libraries', passed on, and those of the children.
mod Tests
mod Lists
mod Outcome
mod Int
mod Strings
mod Others
mod Find
mod Rearrange
mod Claims
unfoldable pub use Tests.*
unfoldable pub use Lists.*
unfoldable pub use Outcome.*
unfoldable pub use Int.*
unfoldable pub use Strings.*
unfoldable pub use Find.*
unfoldable pub use Others.*
unfoldable pub use Rearrange.*
unfoldable pub use Claims.*
pub use Prim.Native.Nat.{ℕ, zero, suc, ◌+◌, ◌-◌, ◌*◌, ◌/◌, ◌%◌, ◌^◌, ◌≤◌, ◌<◌}
pub use mathlib.Core.Path.{◌≡◌, refl, sym, ap, ◌∙◌}
pub use mathlib.Core.Logic.{◌≢◌, ◌↔◌, ◌⊎◌, inl, inr}
pub use mathlib.Core.Bool.{Bool, true, false, not, ◌&&◌, ◌||◌}
pub use mathlib.Core.Option.{Option, none, some}
pub use mathlib.Core.List.{List, [], ◌∷◌, ◌++◌, map}
pub use native.Mathlib.Omega.{arith}
