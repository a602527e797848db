-- ===== src/Prelude.antt =====
-- What the modules share: names of the libraries, Boolean tests on the native numbers, lists
-- measured by them, results with an error, and sets and maps kept as lists.
mod Tests
mod Lists
mod Outcome
mod Equality
mod Elems
mod Seen
mod Assoc
mod Search
pub mod Stateful
pub use Tests.*
pub use Lists.*
pub use Outcome.*
unfoldable pub use Equality.*
unfoldable pub use Elems.*
unfoldable pub use Assoc.*
unfoldable pub use Search.*
pub use Prim.Native.Nat.{ℕ, zero, suc, ◌+◌, ◌-◌, ◌*◌, ◌/◌, ◌%◌, ◌^◌, ◌≤◌, ◌<◌}
pub use Seen.{Fresh, Unseen, Fresh-Distinct, Distinct-Fresh, none_seen}
pub use mathlib.Core.Path.{◌≡◌, refl, sym, ap, ap₂, ◌∙◌, subst, fun_ext}
pub use mathlib.Core.Logic.{◌≢◌, ◌↔◌, ◌⊎◌, inl, inr}
pub use mathlib.Core.Bool.{Bool, true, false, ◌&&◌, ◌||◌, not}
pub use mathlib.Core.Option.{Option, none, some}
pub use mathlib.Core.List.{List, [], ◌∷◌, ◌++◌, map, reverse}
pub use native.Mathlib.Omega.{arith}
