-- ===== src/Audit/Workspace.antt =====
-- internal/verify/workspace.go: the files that differ between two snapshots of a workspace. Taking
-- a snapshot walks the file system and stays outside.
use subagent_broker.Common.{
  ℕ, String, Bool, none, some, List, [], ◌∷◌, ◌==◌, not, Eq, string_eq, String-discrete, ℕ_discrete,
  if◌then◌else◌, keep, contains, sort, text_lt,
}
use subagent_broker.Dict.{Dict, lookup}

pub record FileState : Type 0 where
  pub kind : String
  pub mode : ℕ
  pub digest : String

unfoldable pub FileState-discrete : Discrete FileState
unfolding String-discrete ℕ_discrete
FileState-discrete = hlevel (String-discrete, ℕ_discrete)

instance abbrev pub file_state_eq : Eq FileState
file_state_eq = record { eq? = FileState-discrete }

pub record WorkspaceSnapshot : Type 0 where
  pub files : Dict FileState

-- `snapshot.Files[path]`, the zero state for a missing path.
unfoldable pub state_at : WorkspaceSnapshot → String → FileState
unfolding lookup
state_at snapshot path = elim (lookup path snapshot.files) [
  | none ↦ record { kind = ""; mode = 0; digest = "" }
  | some state ↦ state
]

-- The keys of the map `seen`.
unfoldable pub add_keys : List String → Dict FileState → List String
unfolding contains
add_keys seen [] = seen
add_keys seen ((path, state) ∷ rest) =
    add_keys (if contains seen path then seen else path ∷ seen) rest

abbrev pub differs : WorkspaceSnapshot → WorkspaceSnapshot → String → Bool
differs before after path = not (state_at before path == state_at after path)

unfoldable pub changed_files : WorkspaceSnapshot → WorkspaceSnapshot → List String
unfolding add_keys keep state_at sort
changed_files before after =
    sort text_lt (keep (differs before after) (add_keys (add_keys [] before.files) after.files))
