-- ===== src/Base.antt =====
-- The names that the modules share: the libraries', passed on, and those of the children. The
-- children model what the program takes from Python: tests, lists, dicts, `sorted`, integers, floats.
mod Tests
mod Lists
mod Errors
pub mod Int
pub mod Dict
pub mod Sort
pub mod Float
pub mod Text
pub use Tests.*
pub use Lists.*
pub use Errors.*
pub use Prim.Native.Nat.{ℕ, zero, suc, ◌+◌, ◌-◌, ◌*◌, ◌/◌, ◌%◌, ◌≤◌, ◌<◌, min, max}
pub use Prim.Native.String.{String}
pub use mathlib.Core.Path.{◌≡◌, refl, sym, ap, ◌∙◌}
pub use mathlib.Core.Logic.{◌≢◌, ◌↔◌, ◌⊎◌, inl, inr}
pub use mathlib.Core.Bool.{Bool, true, false, not, ◌&&◌, ◌||◌}
pub use mathlib.Core.Option.{Option, none, some}
pub use mathlib.Core.List.{List, [], ◌∷◌, ◌++◌, map, Perm, Mem}
pub use native.Mathlib.Omega.{arith}
