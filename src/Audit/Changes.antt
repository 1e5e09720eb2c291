-- ===== src/Audit/Changes.antt =====
-- internal/verify: the files that `ChangedFiles` gives, and their audit.
use subagent_broker.Common.{
  ℕ, String, Bool, true, false, none, List, [], ◌∷◌, ◌≡◌, ◌≢◌, refl, ap, ◌∙◌, ◌==◌, ◌||◌, ◌&&◌, not,
  string_eq, if◌then◌else◌, keep, contains, sort, insert_sorted, text_lt, arith, ok,
}
use subagent_broker.Dict.{Dict, lookup}
use subagent_broker.Scope.Leases.{Leases}
use subagent_broker.Barrier.Types.{ScopeAudit}
use subagent_broker.Audit.Policy.{AuditPolicy}
use subagent_broker.Audit.Classify.{audit_scopes}
use subagent_broker.Audit.Partition.{times_listed, audit_scopes-once}
use subagent_broker.Audit.Workspace.{
  FileState, file_state_eq, WorkspaceSnapshot, state_at, add_keys, differs, changed_files,
}

has_key : Dict FileState → String → Bool
has_key [] path = false
has_key ((other, state) ∷ rest) path = other == path || has_key rest path

contains-add_keys :
    (seen : List String) (files : Dict FileState) (path : String)
    → contains (add_keys seen files) path ≡ (contains seen path || has_key files path)
unfolding contains add_keys has_key
contains-add_keys seen [] path = ground (arith)
contains-add_keys seen ((other, state) ∷ rest) path =
    ground (arith, contains-add_keys seen rest path, contains-add_keys (other ∷ seen) rest path)

contains-keep :
    (f : String → Bool) (xs : List String) (path : String)
    → contains (keep f xs) path ≡ (f path && contains xs path)
unfolding contains keep
contains-keep f [] path = ground (arith)
contains-keep f (x ∷ xs) path = ground (arith, contains-keep f xs path)

contains-insert_sorted :
    (less : String → String → Bool) (x : String) (xs : List String) (path : String)
    → contains (insert_sorted less x xs) path ≡ (path == x || contains xs path)
unfolding contains insert_sorted
contains-insert_sorted less x [] path = ground (arith)
contains-insert_sorted less x (y ∷ ys) path = ground (arith, contains-insert_sorted less x ys path)

contains-sort :
    (less : String → String → Bool) (xs : List String) (path : String)
    → contains (sort less xs) path ≡ contains xs path
unfolding contains sort
contains-sort less [] path = refl
contains-sort less (x ∷ xs) path =
    ground (arith, contains-insert_sorted less x (sort less xs) path, contains-sort less xs path)

lookup-has_key :
    (files : Dict FileState) (path : String) → has_key files path ≡ false → lookup path files ≡ none
unfolding lookup has_key
lookup-has_key [] path h = refl
lookup-has_key ((other, state) ∷ rest) path h = ground (arith, lookup-has_key rest path)

or-false : (a b : Bool) → a || b ≡ false → (a ≡ false) × (b ≡ false)
or-false a b h = ground (arith)

differs-has_key :
    (before after : WorkspaceSnapshot) (path : String)
    → has_key before.files path || has_key after.files path ≡ false
    → state_at before path ≡ state_at after path
unfolding state_at
differs-has_key before after path h =
    let (no_before, no_after) = or-false (has_key before.files path) (has_key after.files path) h in
    rw
      (
        lookup-has_key before.files path no_before,
        lookup-has_key after.files path no_after,
        state_at,
      )
      refl

unchanged_keys :
    (changed known : Bool) (same : known ≡ false → changed ≡ false) → changed && known ≡ changed
unchanged_keys changed true same = ground (arith)
unchanged_keys changed false same = ground (arith, same refl)

same_state : (s t : FileState) → s ≡ t → not (s == t) ≡ false
same_state s t e = ground (arith)

-- A path is among the changed files exactly when the snapshots give it different states.
pub changed_files-contains :
    (before after : WorkspaceSnapshot) (path : String)
    → contains (changed_files before after) path ≡ differs before after path
unfolding changed_files
changed_files-contains before after path =
    contains-sort text_lt (keep (differs before after) keys) path
    ∙ contains-keep (differs before after) keys path
    ∙ ap (λ b. differs before after path && b) known
    ∙ unchanged_keys (differs before after path)
        (has_key before.files path || has_key after.files path)
        (λ h. same_state _ _ (differs-has_key before after path h))
  where
    keys : List String
    keys = add_keys (add_keys [] before.files) after.files

    known : contains keys path ≡ (has_key before.files path || has_key after.files path)
    known =
        contains-add_keys (add_keys [] before.files) after.files path
        ∙ ap (λ b. b || has_key after.files path) (contains-add_keys [] before.files path)

-- The audit of the files that changed between two snapshots, where it ends without an error, lists a
-- path once when the snapshots give it different states, and not at all otherwise. The path is not
-- empty.
pub audit_scopes-changed_files :
    (before after : WorkspaceSnapshot) (leases : Leases) (policy : AuditPolicy) (audit : ScopeAudit)
    (path : String)
    → audit_scopes (changed_files before after) leases policy ≡ ok audit
    → path ≢ ""
    → times_listed path audit ≡ (if state_at before path == state_at after path then 0 else 1)
audit_scopes-changed_files before after leases policy audit path h named =
    audit_scopes-once (changed_files before after) leases policy audit path h
    ∙ named_only (path == "") (contains (changed_files before after) path)
        (state_at before path == state_at after path) (ground (arith))
        (changed_files-contains before after path)
  where
    named_only :
        (unnamed changed same : Bool)
        → unnamed ≡ false
        → changed ≡ not same
        → ◌≡◌ {A = ℕ} (if unnamed then 0 else if changed then 1 else 0) (if same then 0 else 1)
    named_only unnamed changed same e h = ground (arith)
