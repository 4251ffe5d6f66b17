-- ===== src/Prelude.antt =====
-- The names that every module shares: the libraries', passed on, and those of the children.
-- `std::map` is modelled in `Prelude.Map`, `std::to_string` in `Prelude.Decimal`.
mod Tests
mod Lists
pub mod Map
pub mod Decimal
pub mod Int
pub mod Optional
pub use Tests.*
pub use Lists.*
unfoldable pub use Lists.{bytes_eq}
pub use Prim.Native.Nat.{ℕ, zero, suc, ◌+◌, ◌-◌, ◌*◌, ◌/◌, ◌%◌, ◌^◌, ◌≤◌, ◌<◌, min}
pub use Prim.Native.Char.{code}
pub use Prim.Native.String.{String}
pub use mathlib.Core.Path.{◌≡◌, refl, sym, ap, ◌∙◌, subst}
pub use mathlib.Core.Logic.{◌≢◌, ◌↔◌, ◌⊎◌, inl, inr}
pub use mathlib.Core.Bool.{Bool, true, false, ◌&&◌, ◌||◌, not}
pub use mathlib.Core.Option.{Option, none, some}
pub use mathlib.Core.List.{List, [], ◌∷◌, ◌++◌, map}
pub use native.Mathlib.Omega.{arith}
unfoldable pub use native.Mathlib.Decide.{dec_lt, ℕ_discrete}
