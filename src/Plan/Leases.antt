-- ===== src/Plan/Leases.antt =====
-- The write scopes that the preflight of a wave collects, as the leases of the audit of its files.
use subagent_broker.Common.{String, true, List, [], ◌≡◌, ok, All}
use subagent_broker.Barrier.Types.{ScopeAudit}
use subagent_broker.Audit.Policy.{AuditPolicy}
use subagent_broker.Audit.Classify.{audit_scopes}
use subagent_broker.Audit.Owners.{Clean, audit_scopes-certain}
use subagent_broker.Plan.Types.{Task}
use subagent_broker.Plan.Preflight.{preflight}
use subagent_broker.Plan.Allowed.{preflight-IsAdmissible}

-- For a wave that the static preflight allows, the audit of changed files whose paths are clean,
-- against the scopes that the preflight gives, finds no file whose owner is uncertain.
pub preflight-audit_scopes :
    (quoted : String → String) (tasks : List Task) (changed : List String) (policy : AuditPolicy)
    (audit : ScopeAudit)
    → (preflight quoted tasks).allowed ≡ true
    → All Clean changed
    → audit_scopes changed (preflight quoted tasks).scopes policy ≡ ok audit
    → audit.owner_uncertain ≡ []
unfolding preflight
preflight-audit_scopes quoted tasks changed policy audit allowed clean h =
    audit_scopes-certain changed (preflight quoted tasks).scopes policy audit
      (preflight-IsAdmissible quoted tasks allowed).apart clean h
