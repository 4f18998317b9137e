-- ===== src/Common.antt =====
-- Shared names: the libraries' passed on, Boolean tests, lists, signed integers, texts, maps.
pub mod Tests
pub mod Lists
pub mod Int
pub mod Float
pub mod Whole
pub mod Text
pub mod Assoc
pub mod Unique
pub mod Result
pub mod Decimal
pub mod Sort
pub use Tests.*
pub use Lists.*
pub use Prim.Native.Nat.{ℕ, zero, suc, ◌+◌, ◌-◌, ◌*◌, ◌/◌, ◌%◌, ◌^◌, ◌≤◌, ◌<◌}
pub use mathlib.Core.Path.{◌≡◌, refl, sym, ap, subst, ◌∙◌}
pub use mathlib.Core.Logic.{◌≢◌, ◌↔◌, ◌⊎◌, inl, inr}
pub use mathlib.Core.Bool.{Bool, true, false, not, ◌&&◌, ◌||◌}
pub use mathlib.Core.Option.{Option, none, some}
pub use mathlib.Core.List.{List, [], ◌∷◌, ◌++◌, map}
pub use native.Mathlib.Omega.{arith}
