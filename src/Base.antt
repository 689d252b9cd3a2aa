-- ===== src/Base.antt =====
-- The names that the other modules share: the libraries', passed on, and those of the children.
-- JavaScript's own values are here: strict equality (`StrictEq`), `Map` and `Set` (`JsMap`, `JsSet`).
mod Tests
mod Lists
mod Keys
mod Outcomes
mod Truthy
pub mod JsMap
pub mod JsSet
pub mod Order
pub mod JsText
pub mod Sorting
pub mod Json
pub use Tests.*
pub use Lists.*
pub use Keys.*
pub use Outcomes.*
pub use Truthy.*
pub use Prim.Native.Nat.{ℕ, zero, suc, ◌+◌, ◌-◌, ◌*◌, ◌/◌, ◌%◌, ◌^◌, ◌≤◌, ◌<◌, min, max}
pub use Prim.Native.String.{String}
pub use mathlib.Core.Path.{◌≡◌, refl, sym, ap, ap₂, subst, ◌∙◌, fun_ext}
pub use mathlib.Core.Logic.{◌≢◌, ◌↔◌, ◌⊎◌, inl, inr}
pub use mathlib.Core.Bool.{Bool, true, false, not, ◌&&◌, ◌||◌}
pub use mathlib.Core.Option.{Option, none, some}
pub use mathlib.Core.List.{List, [], ◌∷◌, ◌++◌, map, append-nil, append_assoc}
pub use native.Mathlib.Omega.{arith}
