-- ===== src/Audit/Owners.antt =====
-- internal/verify/audit.go: the audit of leases that `FindOverlaps` accepts.
use subagent_broker.Common.{
  String, Bool, true, false, ◌==◌, string_eq, contains, if◌then◌else◌, List, [], ◌∷◌, ◌≡◌, refl, ap,
  ◌∙◌, inl, inr, ok, >>=-eq-ok, All, sort-All, text_lt,
}
use subagent_broker.Scope.Pattern.{Pattern, prepared}
use subagent_broker.Scope.Leases.{Leases, find_overlaps}
use subagent_broker.Scope.Single.{Single, covering_owners-Single}
use subagent_broker.Barrier.Types.{ScopeAudit}
use subagent_broker.Barrier.Evaluate.{unique_sorted, distinct}
use subagent_broker.Audit.Policy.{AuditPolicy, normalize_policy, compile_all}
use subagent_broker.Audit.Classify.{
  empty_audit, with_owners, with_ephemeral, audit_file, audit_files, audit_scopes,
}
use subagent_broker.Audit.Cases.{audit_file-cases}

-- A path in the form in which patterns match it.
abbrev pub Clean : String → Type 0
Clean path = prepared path ≡ path

with_owners-Single :
    (audit : ScopeAudit) (file : String) (owners : List String)
    → Single owners
    → (with_owners audit file owners).owner_uncertain ≡ audit.owner_uncertain
unfolding with_owners
with_owners-Single audit file [] one = refl
with_owners-Single audit file (owner ∷ []) one = refl
with_owners-Single audit file (owner ∷ other ∷ rest) (inl e) = cc
with_owners-Single audit file (owner ∷ other ∷ rest) (inr (o, e)) = cc

audit_files-owner_uncertain :
    (ephemeral : List Pattern) (leases : Leases) (audit out : ScopeAudit) (files : List String)
    → find_overlaps leases ≡ ok []
    → All Clean files
    → audit_files ephemeral leases audit files ≡ ok out
    → out.owner_uncertain ≡ audit.owner_uncertain
unfolding audit_files with_ephemeral
audit_files-owner_uncertain ephemeral leases audit out [] apart clean h = cc
audit_files-owner_uncertain ephemeral leases audit out (file ∷ rest) apart (of_file, clean) h =
    let (next, e, h1) = >>=-eq-ok (audit_file ephemeral leases audit file) _ h in
    let later = audit_files-owner_uncertain ephemeral leases next out rest apart clean h1 in
    elim (audit_file-cases ephemeral leases audit next file e) [
      | inl (_, n) ↦ later ∙ ap (λ (a : ScopeAudit). a.owner_uncertain) n
      | inr (_, owners, found, n) ↦
          later
          ∙ ap (λ (a : ScopeAudit). a.owner_uncertain) n
          ∙ with_owners-Single audit file owners
              (covering_owners-Single file leases owners of_file apart found)
    ]

distinct-All :
    (P : String → Type 0) (seen values : List String) → All P values → All P (distinct seen values)
unfolding distinct
distinct-All P seen [] held = held
distinct-All P seen (v ∷ rest) (pv, held) =
    go (v == "") (contains seen v) _ _ (distinct-All P seen rest held)
      (distinct-All P (v ∷ seen) rest held)
  where
    go :
        (a b : Bool) (skipped taken : List String)
        → All P skipped
        → All P taken
        → All P (if a then skipped else if b then skipped else v ∷ taken)
    go true b skipped taken later others = later
    go false true skipped taken later others = later
    go false false skipped taken later others = (pv, others)

-- When no patterns of different owners may overlap and every changed file's path is in its clean
-- form, the audit finds no file whose owner is uncertain.
pub audit_scopes-certain :
    (changed_files : List String) (leases : Leases) (policy : AuditPolicy) (audit : ScopeAudit)
    → find_overlaps leases ≡ ok []
    → All Clean changed_files
    → audit_scopes changed_files leases policy ≡ ok audit
    → audit.owner_uncertain ≡ []
unfolding audit_scopes unique_sorted
audit_scopes-certain changed_files leases policy audit apart clean h =
    let (normalized, e, h1) = >>=-eq-ok (normalize_policy policy) _ h in
    let (ephemeral, e1, h2) = >>=-eq-ok (compile_all normalized.ephemeral_paths) _ h1 in
    let of_files =
      sort-All text_lt Clean (distinct [] changed_files)
        (distinct-All Clean [] changed_files clean) in
    audit_files-owner_uncertain ephemeral leases empty_audit audit _ apart
      (sort-All text_lt Clean (unique_sorted changed_files) of_files) h2
