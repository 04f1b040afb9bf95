-- ===== src/Base.antt =====
-- The names that the components share: the libraries', passed on, the Boolean tests on the native
-- numbers, and the children: lists, texts, Python dictionaries and database tables.
pub mod Tests
pub mod Same
pub mod Lists
pub mod Text
pub mod Dict
pub mod Table
pub mod Int
pub mod Result
pub mod Clock
pub use Tests.*
pub use Prim.Native.Nat.{ℕ, zero, suc, ◌+◌, ◌-◌, ◌*◌, ◌/◌, ◌%◌, ◌≤◌, ◌<◌, min, max}
pub use mathlib.Core.Path.{◌≡◌, refl, sym, ap, ◌∙◌}
pub use mathlib.Core.Logic.{◌≢◌, ◌↔◌, ◌⊎◌, inl, inr}
pub use mathlib.Core.Bool.{Bool, true, false, not, ◌&&◌, ◌||◌}
pub use mathlib.Core.Option.{Option, none, some}
pub use mathlib.Core.List.{List, [], ◌∷◌, ◌++◌}
pub use native.Mathlib.Omega.{arith}
