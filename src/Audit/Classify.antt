-- ===== src/Audit/Classify.antt =====
-- internal/verify/audit.go, `AuditScopes`; `uniqueSorted` is the one of internal/wave.
use subagent_broker.Common.{
  String, List, [], ◌∷◌, ◌++◌, ◌==◌, string_eq, if◌then◌else◌, Result, ok, ◌>>=◌, sort, text_lt,
}
use subagent_broker.Scope.Pattern.{Pattern}
use subagent_broker.Scope.Leases.{Leases, covering_owners}
use subagent_broker.Barrier.Types.{ScopeAudit}
use subagent_broker.Barrier.Evaluate.{unique_sorted}
use subagent_broker.Audit.Policy.{
  AuditPolicy, AuditError, scope_error, wrapped, normalize_policy, compile_all, matching_pattern,
}

abbrev pub empty_audit : ScopeAudit
empty_audit = record { authorized = []; ephemeral = []; unauthorized = []; owner_uncertain = [] }

-- The `switch len(owners)`.
unfoldable pub with_owners : ScopeAudit → String → List String → ScopeAudit
with_owners audit file [] = record audit { unauthorized = audit.unauthorized ++ (file ∷ []) }
with_owners audit file (owner ∷ []) = record audit {
  authorized = audit.authorized ++ (record { path = file; owners = owner ∷ [] } ∷ []);
}
with_owners audit file (owner ∷ other ∷ rest) = record audit {
  owner_uncertain =
      audit.owner_uncertain ++ (record { path = file; owners = owner ∷ other ∷ rest } ∷ []);
}

unfoldable pub with_ephemeral : ScopeAudit → String → String → ScopeAudit
with_ephemeral audit file matched = record audit {
  ephemeral = audit.ephemeral ++ (record { path = file; pattern_text = matched } ∷ []);
}

unfoldable pub audit_owners : Leases → ScopeAudit → String → Result AuditError ScopeAudit
unfolding with_owners covering_owners
audit_owners leases audit file = do
  owners ← wrapped scope_error (covering_owners file leases)
  ok (with_owners audit file owners)

-- One turn of the loop over the files.
unfoldable pub audit_file :
    List Pattern → Leases → ScopeAudit → String → Result AuditError ScopeAudit
unfolding audit_owners with_ephemeral matching_pattern
audit_file ephemeral leases audit file =
    let matched = matching_pattern file ephemeral in
    if matched == "" then audit_owners leases audit file else ok (with_ephemeral audit file matched)

unfoldable pub audit_files :
    List Pattern → Leases → ScopeAudit → List String → Result AuditError ScopeAudit
unfolding audit_file
audit_files ephemeral leases audit [] = ok audit
audit_files ephemeral leases audit (file ∷ rest) = do
  next ← audit_file ephemeral leases audit file
  audit_files ephemeral leases next rest

unfoldable pub audit_scopes : List String → Leases → AuditPolicy → Result AuditError ScopeAudit
unfolding audit_files normalize_policy compile_all unique_sorted sort
audit_scopes changed_files leases policy = do
  normalized ← normalize_policy policy
  ephemeral ← compile_all normalized.ephemeral_paths
  audit_files ephemeral leases empty_audit (sort text_lt (unique_sorted changed_files))
