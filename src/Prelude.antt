-- ===== src/Prelude.antt =====
-- The names that the other modules share: those of the libraries, passed on, and the helpers of
-- the modules below: tests, equality, integers, lists, dicts, texts, results.
mod Tests
mod Eq
pub mod Int
pub mod Division
mod Lists
pub mod Dict
mod Sort
pub mod Text
pub mod Decimal
mod Effects
pub use Tests.*
pub use Eq.{
  ◌==◌, nat_eq, string_eq, bool_eq, int_eq, pair_eq, list_eq, eq_self, eq_sound, eq_test, ne_sound,
  ne_test,
}
pub use Eq.{Equality, equality_via}
pub use Lists.*
pub use Sort.*
unfoldable pub use Effects.*
pub use Prim.Native.Nat.{ℕ, zero, suc, ◌+◌, ◌-◌, ◌*◌, ◌/◌, ◌%◌, ◌≤◌, ◌<◌}
pub use Prim.Native.String.{String, ◌++◌ as ◌⧺◌}
pub use mathlib.Core.Path.{◌≡◌, refl, sym, ap, ◌∙◌, subst}
pub use mathlib.Core.Logic.{◌≢◌, ◌↔◌, ◌⊎◌, inl, inr}
pub use mathlib.Core.Bool.{Bool, true, false, not, ◌&&◌, ◌||◌}
pub use mathlib.Core.Option.{Option, none, some}
pub use mathlib.Core.List.{List, [], ◌∷◌, ◌++◌, map}
pub use native.Mathlib.Omega.{arith}
pub use text.Mathlib.TextEquality.{eq_iff}
