-- ===== src/Audit/Cases.antt =====
-- internal/verify/audit.go, `AuditScopes`: what one turn of the loop does.
use subagent_broker.Common.{
  String, Bool, List, ◌≡◌, ◌≢◌, sym, ap, ◌∙◌, ◌==◌, string_eq, ◌⊎◌, inl, inr, if◌then◌else◌, Result,
  ok, err, >>=-eq-ok, arith, Bool-cases,
}
use subagent_broker.Scope.Pattern.{ScopeError, Pattern}
use subagent_broker.Scope.Leases.{Leases, covering_owners}
use subagent_broker.Barrier.Types.{ScopeAudit}
use subagent_broker.Audit.Policy.{AuditError, scope_error, wrapped, matching_pattern}
use subagent_broker.Audit.Classify.{with_owners, with_ephemeral, audit_owners, audit_file}

pub ok-injective {ℓ κ} :
    {E : Type ℓ} {A : Type κ} {x y : A} → ◌≡◌ {A = Result E A} (ok x) (ok y) → x ≡ y
ok-injective e = cc

pub wrapped-eq-ok :
    {A : Type 0} (wrap : ScopeError → AuditError) (r : Result ScopeError A) {x : A}
    → wrapped wrap r ≡ ok x
    → r ≡ ok x
wrapped-eq-ok wrap (ok a) h = cc
wrapped-eq-ok wrap (err e) h = cc

-- A file is listed as ephemeral, or by the number of its owners.
pub audit_file-cases :
    (ephemeral : List Pattern) (leases : Leases) (audit next : ScopeAudit) (file : String)
    → audit_file ephemeral leases audit file ≡ ok next
    → ((matching_pattern file ephemeral ≢ "")
        × (next ≡ with_ephemeral audit file (matching_pattern file ephemeral)))
      ⊎ ((matching_pattern file ephemeral ≡ "")
          × (owners : List String) × (covering_owners file leases ≡ ok owners)
          × (next ≡ with_owners audit file owners))
unfolding audit_file audit_owners
audit_file-cases ephemeral leases audit next file h = elim (Bool-cases (matched == "")) [
  | inl m ↦
      let (owners, e, h1) =
        >>=-eq-ok (wrapped scope_error (covering_owners file leases)) _ (sym (ap branch m) ∙ h) in
      inr (ground (arith), owners, wrapped-eq-ok scope_error _ e, sym (ok-injective h1))
  | inr m ↦ inl (ground (arith), sym (ok-injective (sym (ap branch m) ∙ h)))
]
  where
    matched : String
    matched = matching_pattern file ephemeral

    branch : Bool → Result AuditError ScopeAudit
    branch b = if b then audit_owners leases audit file else ok (with_ephemeral audit file matched)
