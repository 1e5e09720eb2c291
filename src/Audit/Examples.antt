-- ===== src/Audit/Examples.antt =====
-- Instances for internal/verify.
use subagent_broker.Common.{
  String, [], ◌∷◌, ◌≡◌, refl, ok, String-discrete, ℕ_discrete, if◌then◌else◌, ◌==◌,
}
use subagent_broker.Barrier.Types.{ScopeAudit}
use subagent_broker.Scope.Leases.{Leases}
use subagent_broker.Audit.Policy.{default_policy}
use subagent_broker.Audit.Classify.{audit_scopes}
use subagent_broker.Audit.Partition.{times_listed}
use subagent_broker.Audit.Workspace.{
  WorkspaceSnapshot, FileState, file_state_eq, FileState-discrete, state_at, changed_files,
}
use subagent_broker.Audit.Changes.{audit_scopes-changed_files}

abbrev regular : String → FileState
regular digest = record { kind = "file"; mode = 420; digest = digest }

abbrev before : WorkspaceSnapshot
before = record { files = ("src/a.go", regular "1") ∷ ("go.mod", regular "2") ∷ [] }

abbrev after : WorkspaceSnapshot
after = record {
  files =
      ("go.mod", regular "2")
      ∷ ("src/a.go", regular "3")
      ∷ ("src/__pycache__/x.pyc", regular "4")
      ∷ ("doc/b.md", regular "5")
      ∷ [];
}

abbrev two_leases : Leases
two_leases = ("a", "src/**" ∷ []) ∷ ("b", "lib/**" ∷ []) ∷ []

abbrev found_audit : ScopeAudit
found_audit = record {
  authorized = record { path = "src/a.go"; owners = "a" ∷ [] } ∷ [];
  ephemeral = record { path = "src/__pycache__/x.pyc"; pattern_text = "**/__pycache__/**" } ∷ [];
  unauthorized = "doc/b.md" ∷ [];
  owner_uncertain = [];
}

changed : changed_files before after ≡ "doc/b.md" ∷ "src/__pycache__/x.pyc" ∷ "src/a.go" ∷ []
unfolding changed_files String-discrete ℕ_discrete FileState-discrete
changed = refl

audited : audit_scopes (changed_files before after) two_leases default_policy ≡ ok found_audit
unfolding audit_scopes changed_files String-discrete ℕ_discrete FileState-discrete default_policy
audited = refl

audit_scopes-changed_files_example :
    times_listed "src/a.go" found_audit
    ≡ (if state_at before "src/a.go" == state_at after "src/a.go" then 0 else 1)
audit_scopes-changed_files_example =
    audit_scopes-changed_files before after two_leases default_policy found_audit "src/a.go" audited
      (λ e. cc e)
