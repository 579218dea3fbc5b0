-- ===== src/Base.antt =====
-- The names that the other modules share: the libraries', passed on, and those of the children.
-- Nothing here models code of the repository; `Base.Table` is the Go map.
mod Tests
mod Eq
pub mod Table
pub mod Lists
pub mod Sort
pub mod Keys
pub mod Sets
pub mod Text
pub mod Result
pub use Tests.*
pub use Eq.{
  EqType, ◌==◌, nat_eq, bool_eq, bool_beq, bool_beq_iff, string_eq, eq_refl, eq_sym, eq_true,
  eq_false, different,
}
pub use Prim.Native.Nat.{ℕ, zero, suc, ◌+◌, ◌-◌, ◌*◌, ◌≤◌, ◌<◌}
pub use Prim.Native.String.{String}
pub use mathlib.Core.Path.{◌≡◌, refl, sym, ap, ◌∙◌}
pub use mathlib.Core.Logic.{◌≢◌, ◌↔◌, ◌⊎◌, inl, inr}
pub use mathlib.Core.Bool.{Bool, true, false, not, ◌&&◌, ◌||◌}
pub use mathlib.Core.Option.{Option, none, some}
pub use mathlib.Core.List.{List, [], ◌∷◌, ◌++◌, map}
pub use native.Mathlib.Omega.{arith}
