-- ===== src/Prelude.antt =====
-- The names that the other modules share: the libraries' names, passed on, and those of the
-- children: Boolean tests, the `==` of the source, lists, maps and signed integers.
mod Tests
mod Equality
mod Lists
pub mod Maps
pub mod Int
pub use Tests.{
  ltb, leb, if◌then◌else◌, ltb→lt, ltb→ge, lt→ltb, leb→le, Option-cases, is_some, if_both, if_cases,
}
unfoldable pub use Tests.{Bool-cases}
pub use Equality.{Eq, ◌==◌, ℕ_eq, String_eq, Bool_eq, eq_self, eq_of_beq}
unfoldable pub use Equality.{String_discrete, Bool_discrete}
pub use Lists.*
pub use Prim.Native.Nat.{ℕ, zero, suc, ◌+◌, ◌-◌, ◌*◌, ◌/◌, ◌%◌, ◌^◌, ◌≤◌, ◌<◌}
pub use Prim.Native.String.{String}
pub use mathlib.Core.Path.{◌≡◌, refl, sym, ap, ◌∙◌}
pub use mathlib.Core.Logic.{◌≢◌, ◌↔◌, ◌⊎◌, inl, inr}
pub use mathlib.Core.Bool.{Bool, true, false, not, ◌&&◌, ◌||◌}
pub use mathlib.Core.Option.{Option, none, some}
pub use mathlib.Core.List.{List, [], ◌∷◌, ◌++◌, map, append-nil, append_assoc}
pub use native.Mathlib.Omega.{arith}
unfoldable pub use native.Mathlib.Decide.{ℕ_discrete}
