-- ===== src/Prelude.antt =====
-- The names that every other module shares: the libraries' names, passed on, the Boolean tests,
-- lists measured by native numbers, Python's dict and its exceptions.
mod Tests
mod Lists
pub mod Dict
pub mod Outcome
pub mod Exec
pub mod Steps
pub mod Watch
pub mod Sort
pub use Tests.*
pub use Lists.*
pub use Prim.Native.Nat.{ℕ, zero, suc, ◌+◌, ◌-◌, ◌*◌, ◌/◌, ◌%◌, ◌^◌, ◌≤◌, ◌<◌, min, max}
pub use mathlib.Core.Path.{◌≡◌, refl, sym, ap, ◌∙◌}
pub use mathlib.Core.Logic.{◌≢◌, ◌↔◌, ◌⊎◌, inl, inr}
pub use mathlib.Core.Bool.{Bool, true, false, ◌&&◌, ◌||◌, not}
pub use mathlib.Core.Option.{Option, none, some}
pub use mathlib.Core.List.{List, [], ◌∷◌, ◌++◌, map, append-nil, append_assoc, Memᴰ}
pub use native.Mathlib.Omega.{arith}
