-- ===== src/Base.antt =====
-- What the other modules share: the libraries' names passed on, tests on numbers and texts, lists
-- measured by native numbers, results, and the string-keyed maps of the standard library.
mod Tests
mod Lists
mod Results
mod Time
mod Order
mod Sort
mod Members
mod Maps
mod Entries
pub use Tests.*
pub use Lists.*
pub use Results.*
pub use Time.*
pub use Order.*
pub use Sort.*
pub use Members.*
unfoldable pub use Sort.{sort_by}
pub use Maps.*
pub use Entries.*
unfoldable pub use Maps.{get, insert, remove}
pub use Prim.Native.Nat.{ℕ, zero, suc, ◌+◌, ◌-◌, ◌*◌, ◌/◌, ◌%◌, ◌^◌, ◌≤◌, ◌<◌, min, max}
pub use Prim.Native.String.{String}
pub use mathlib.Core.Path.{◌≡◌, refl, sym, ap, ap₂, ◌∙◌, subst}
pub use mathlib.Core.Logic.{◌≢◌, ◌↔◌, ◌⊎◌, inl, inr}
pub use mathlib.Core.Bool.{Bool, true, false, ◌&&◌, ◌||◌, not}
pub use mathlib.Core.Option.{Option, none, some}
pub use mathlib.Core.List.{List, [], ◌∷◌, ◌++◌, map, reverse, Memᴰ}
pub use native.Mathlib.Omega.{arith}
pub use text.Mathlib.TextEquality.{eq_iff}
pub use text.Mathlib.TextPositions.{eq_refl}
