-- ===== src/Common.antt =====
-- The names that the other modules share: the libraries', passed on, and those of the children.
pub mod Tests
pub mod Lists
pub mod Results
pub mod Text
pub mod Sort
pub use Tests.{
  if◌then◌else◌, ltb, leb, is_yes, Eq, ◌==◌, string_eq, nat_eq, Bool-cases, Option-cases,
}
unfoldable pub use Tests.{String-discrete}
unfoldable pub use Lists.*
pub use Results.{
  Result, ok, err, ◌>>=◌, ◌>>◌, fail_if, is_ok, Result-cases, >>-eq-ok, >>=-eq-ok, fail_if-eq-ok,
}
unfoldable pub use Text.{
  is_blank, is_space, to_lower, contains_codes, same_codes, key_matches, codes, sprint, decimal,
}
pub use Text.{sprint-not_empty}
pub use Sort.{text_lt, sort-perm, All-sort, sort-All, Pairs-sort}
unfoldable pub use Sort.{sort, insert_sorted}
pub use Prim.Native.Nat.{ℕ, zero, suc, ◌+◌, ◌-◌, ◌*◌, ◌/◌, ◌%◌, ◌≤◌, ◌<◌}
pub use Prim.Native.String.{String}
pub use mathlib.Core.Path.{◌≡◌, refl, sym, ap, subst, ◌∙◌}
pub use mathlib.Core.Logic.{◌≢◌, ◌↔◌, ◌⊎◌, inl, inr}
pub use mathlib.Core.Bool.{Bool, true, false, ◌&&◌, ◌||◌, not}
pub use mathlib.Core.Option.{Option, none, some}
pub use mathlib.Core.List.{List, [], ◌∷◌, ◌++◌, map}
pub use native.Mathlib.Omega.{arith}
unfoldable pub use native.Mathlib.Decide.{ℕ_discrete}
