-- ===== src/Prelude.antt =====
-- What the modules share: library names passed on, tests and conditionals, lists measured by native
-- numbers, bytes, signed integers, outcomes of fallible code, and sorting.
mod Tests
pub mod Lists
mod Basic
mod Results
pub mod Int
pub mod Order
pub mod Sort
pub mod Bits
pub mod Pow
pub mod Elements
pub use Tests.*
pub use Lists.*
pub use Basic.*
pub use Results.*
pub use Prim.Native.Nat.{ℕ, zero, suc, ◌+◌, ◌-◌, ◌*◌, ◌/◌, ◌%◌, ◌^◌, ◌≤◌, ◌<◌, min}
pub use mathlib.Core.Path.{◌≡◌, refl, sym, ap, ap₂, ◌∙◌, subst}
pub use mathlib.Core.Logic.{◌≢◌, ◌↔◌, ◌⊎◌, inl, inr}
pub use mathlib.Core.Bool.{Bool, true, false, not, ◌&&◌, ◌||◌}
pub use mathlib.Core.Option.{Option, none, some}
pub use mathlib.Core.List.{List, [], ◌∷◌, ◌++◌, map, append_assoc, append-nil}
pub use native.Mathlib.Omega.{arith}
