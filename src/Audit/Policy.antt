-- ===== src/Audit/Policy.antt =====
-- internal/verify/audit.go: the policy of ephemeral paths.
use Prim.Native.String.{len}
use subagent_broker.Common.{
  String, Bool, true, false, List, [], ◌∷◌, ◌++◌, ◌==◌, ◌||◌, ◌&&◌, ltb, nat_eq, string_eq,
  contains, if◌then◌else◌, Result, ok, err, ◌>>=◌, sort, text_lt,
}
use subagent_broker.Scope.Pattern.{ScopeError, Pattern, compile, match_pattern}

pub record AuditPolicy : Type 0 where
  pub ephemeral_paths : List String

pub data AuditError : Type 0 where
  invalid_ephemeral : String → ScopeError → AuditError
  scope_error : ScopeError → AuditError

abbrev pub default_ephemeral_paths : List String
default_ephemeral_paths = "**/__pycache__/**" ∷ "**/.pytest_cache/**" ∷ "**/*.pyc" ∷ []

unfoldable pub default_policy : AuditPolicy
default_policy = record { ephemeral_paths = default_ephemeral_paths }

abbrev pub wrapped :
    {A : Type 0} → (ScopeError → AuditError) → Result ScopeError A → Result AuditError A
wrapped wrap (ok a) = ok a
wrapped wrap (err e) = err (wrap e)

-- The loop of `NormalizeAuditPolicy`; `seen` holds the forms that are in the result.
unfoldable pub normalized_paths : List String → List String → Result AuditError (List String)
unfolding compile
normalized_paths seen [] = ok []
normalized_paths seen (raw ∷ rest) = do
  compiled ← wrapped (invalid_ephemeral raw) (compile raw)
  elim (contains seen compiled.normalized) [
    | true ↦ normalized_paths seen rest
    | false ↦ do
      later ← normalized_paths (compiled.normalized ∷ seen) rest
      ok (compiled.normalized ∷ later)
  ]

unfoldable pub normalize_policy : AuditPolicy → Result AuditError AuditPolicy
unfolding normalized_paths sort
normalize_policy policy = do
  patterns ← normalized_paths [] policy.ephemeral_paths
  ok (record { ephemeral_paths = sort text_lt patterns })

unfoldable pub new_policy : List String → Result AuditError AuditPolicy
unfolding normalize_policy default_policy
new_policy extra =
    normalize_policy (record { ephemeral_paths = default_policy.ephemeral_paths ++ extra })

unfoldable pub compile_all : List String → Result AuditError (List Pattern)
unfolding compile
compile_all [] = ok []
compile_all (raw ∷ rest) = do
  compiled ← wrapped scope_error (compile raw)
  later ← compile_all rest
  ok (compiled ∷ later)

-- The most specific pattern is the longest, and of those the first in order.
unfoldable pub more_specific : String → String → Bool
more_specific text match =
    ltb (len match) (len text) || (len text == len match && text_lt text match)

-- The loop of `matchingEphemeralPattern`, with the match so far.
unfoldable pub best_match : String → String → List Pattern → String
unfolding match_pattern more_specific
best_match match file [] = match
best_match match file (p ∷ rest) =
    best_match
      (if match_pattern p file && more_specific p.normalized match then p.normalized else match)
      file rest

unfoldable pub matching_pattern : String → List Pattern → String
unfolding best_match
matching_pattern file patterns = best_match "" file patterns
