-- ===== src/Scope/Examples.antt =====
-- Tests of the scope language.
use subagent_broker.Common.{ok, err, ◌≡◌, refl, true, false, [], ◌∷◌, String-discrete, ℕ_discrete}
use subagent_broker.Scope.Text.{clean_path}
use subagent_broker.Scope.Pattern.{normalize, match, may_overlap, not_relative, escapes_root}
use subagent_broker.Scope.Disjoint.{may_overlap_complete}
use subagent_broker.Scope.Single.{Single, covering_owners-Single}
use subagent_broker.Scope.Leases.{find_overlaps, covering_owners, Leases}

cleaned : clean_path "a//b/./../c/" ≡ "a/c"
unfolding clean_path String-discrete ℕ_discrete
cleaned = refl

cleaned_up : clean_path "../a/../../b" ≡ "../../b"
unfolding clean_path String-discrete ℕ_discrete
cleaned_up = refl

spaced : normalize " .\\src\\a.go " ≡ ok "src/a.go"
unfolding normalize String-discrete ℕ_discrete
spaced = refl

with_drive : normalize "C:\\x" ≡ err (not_relative "C:/x")
unfolding normalize String-discrete ℕ_discrete
with_drive = refl

outside : normalize "a/../../b" ≡ err (escapes_root "a/../../b")
unfolding normalize String-discrete ℕ_discrete
outside = refl

cache_file : match "**/*.pyc" "a/b/c.pyc" ≡ ok true
unfolding match String-discrete ℕ_discrete
cache_file = refl

cache_at_root : match "**/__pycache__/**" "__pycache__/x" ≡ ok true
unfolding match String-discrete ℕ_discrete
cache_at_root = refl

newline_in_name : match "src/**" "src/a\nb.go" ≡ ok false
unfolding match String-discrete ℕ_discrete
newline_in_name = refl

other_directory : match "src/*.go" "src/a/b.go" ≡ ok false
unfolding match String-discrete ℕ_discrete
other_directory = refl

abbrev sample_leases : Leases
sample_leases = ("b", "src/b/**" ∷ "go.mod" ∷ []) ∷ ("a", "src/a/**" ∷ []) ∷ []

apart : find_overlaps sample_leases ≡ ok []
unfolding find_overlaps String-discrete ℕ_discrete
apart = refl

one_owner : covering_owners "src/b/x.go" sample_leases ≡ ok ("b" ∷ [])
unfolding covering_owners String-discrete ℕ_discrete
one_owner = refl

may_overlap_complete_example : may_overlap "src/**" "**/*.go" ≡ ok true
unfolding match String-discrete ℕ_discrete
may_overlap_complete_example = may_overlap_complete "src/**" "**/*.go" "src/a/b.go" refl refl refl

covering_owners-Single_example : Single ("b" ∷ [])
unfolding find_overlaps covering_owners String-discrete ℕ_discrete
covering_owners-Single_example =
    covering_owners-Single "src/b/x.go" sample_leases ("b" ∷ []) refl refl refl
