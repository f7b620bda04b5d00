-- ===== src/Prelude.antt =====
-- The names that the other modules share: the libraries', passed on, and the helpers of its
-- children (Boolean tests, lists, tables of rows, dictionaries, errors, sorting).
mod Tests
mod Integers
mod Texts
mod Lists
mod Table
mod Dict
mod Results
mod Sorting
pub use Integers.*
unfoldable pub use Texts.*
unfoldable pub use Tests.*
unfoldable pub use Lists.*
unfoldable pub use Table.*
unfoldable pub use Dict.*
unfoldable pub use Results.*
unfoldable pub use Sorting.*
pub use Prim.Native.Nat.{ℕ, zero, suc, ◌+◌, ◌-◌, ◌*◌, ◌/◌, ◌%◌, ◌^◌, ◌≤◌, ◌<◌, min, max}
pub use Prim.Native.String.{String, ◌++◌ as str_append, count}
pub use Prim.Native.Char.{Char, code}
pub use mathlib.Core.Path.{◌≡◌, refl, sym, ap, ◌∙◌, subst}
pub use mathlib.Core.Logic.{◌≢◌, ◌↔◌, ◌⊎◌, inl, inr}
pub use mathlib.Core.Bool.{Bool, true, false, not, ◌&&◌, ◌||◌, false≢true}
pub use mathlib.Core.Option.{Option, none, some}
pub use mathlib.Core.List.{List, [], ◌∷◌, ◌++◌, map}
pub use native.Mathlib.Omega.{arith}
pub use native.Mathlib.Nat.{le_trans}
pub use text.Mathlib.TextEquality.{eq_iff}
pub use text.Mathlib.TextPositions.{eq_refl}
