-- ===== src/Scope/Leases.antt =====
-- internal/scope/scope.go: the write leases of several owners, the patterns of theirs that may
-- overlap, and the owners whose patterns cover a path. An owner is ranged over with its patterns.
use subagent_broker.Common.{
  String, Bool, true, false, List, [], ◌∷◌, ◌++◌, if◌then◌else◌, Result, ok, ◌>>=◌, sort, text_lt,
}
use subagent_broker.Dict.{Dict}
use subagent_broker.Scope.Pattern.{ScopeError, compile, match_pattern, may_overlap}

abbrev pub Leases : Type 0
Leases = Dict (List String)

pub record Overlap : Type 0 where
  pub left_owner : String
  pub left_pattern : String
  pub right_owner : String
  pub right_pattern : String

-- A loop that appends to a list and returns on the first error.
module _ {ℓ κ μ} {E : Type ℓ} {A : Type κ} {B : Type μ} where
  unfoldable pub collect : (A → Result E (List B)) → List A → Result E (List B)
  collect step [] = ok []
  collect step (x ∷ xs) = do first ← step x; rest ← collect step xs; ok (first ++ rest)

unfoldable pub overlap_of : String → String → String → String → Result ScopeError (List Overlap)
unfolding may_overlap
overlap_of left_owner left_pattern right_owner right_pattern = do
  overlap ← may_overlap left_pattern right_pattern
  ok (
      if overlap
      then record {
        left_owner = left_owner;
        left_pattern = left_pattern;
        right_owner = right_owner;
        right_pattern = right_pattern;
      }
        ∷ []
      else [])

unfoldable pub overlaps_between :
    String × List String → String × List String → Result ScopeError (List Overlap)
unfolding collect overlap_of
overlaps_between (left_owner, lefts) (right_owner, rights) =
    collect (λ left. collect (overlap_of left_owner left right_owner) rights) lefts

unfoldable pub overlaps_from : Leases → Result ScopeError (List Overlap)
unfolding collect overlaps_between
overlaps_from [] = ok []
overlaps_from (owner ∷ later) = do
  here ← collect (overlaps_between owner) later
  rest ← overlaps_from later
  ok (here ++ rest)

abbrev pub earlier_owner : String × List String → String × List String → Bool
earlier_owner (left, _) (right, _) = text_lt left right

unfoldable pub find_overlaps : Leases → Result ScopeError (List Overlap)
unfolding overlaps_from sort
find_overlaps leases = overlaps_from (sort earlier_owner leases)

-- The loop over one owner's patterns, which breaks on the first that matches.
unfoldable pub covers : String → List String → Result ScopeError Bool
unfolding compile match_pattern
covers candidate [] = ok false
covers candidate (raw ∷ rest) = do
  p ← compile raw
  if match_pattern p candidate then ok true else covers candidate rest

unfoldable pub owner_of : String → String × List String → Result ScopeError (List String)
unfolding covers
owner_of candidate (owner, patterns) = do
  covered ← covers candidate patterns
  ok (if covered then owner ∷ [] else [])

unfoldable pub covering_owners : String → Leases → Result ScopeError (List String)
unfolding collect owner_of sort
covering_owners candidate leases = do
  owners ← collect (owner_of candidate) leases
  ok (sort text_lt owners)
