-- ===== src/Prelude.antt =====
-- The names that the other modules share: those of the libraries, passed on, and of the children
-- below (Boolean tests on numbers, lists over the native numbers, signed integers, the results of
-- code that may raise).
mod Tests
mod Lists
mod Results
pub mod Actions
pub mod Raises
pub mod Int
pub mod Texts
pub mod Dicts
pub mod Sorting
pub mod Inversion
pub use Tests.*
pub use Lists.*
pub use Results.*
pub use Prim.Native.Nat.{ℕ, zero, suc, ◌+◌, ◌-◌, ◌*◌, ◌/◌, ◌%◌, ◌^◌, ◌≤◌, ◌<◌, min, max}
pub use Prim.Native.String.{String}
pub use mathlib.Core.Path.{◌≡◌, refl, sym, ap, ◌∙◌, ◌≡⟨◌⟩◌, ◌∎}
pub use mathlib.Core.Logic.{◌≢◌, ◌↔◌, ◌⊎◌, inl, inr}
pub use mathlib.Core.Bool.{Bool, true, false, not, ◌&&◌, ◌||◌, false≢true}
pub use mathlib.Core.Option.{Option, none, some}
pub use mathlib.Core.List.{List, [], ◌∷◌, ◌++◌, map, reverse}
pub use native.Mathlib.Omega.{arith}
