-- ===== src/Audit/Partition.antt =====
-- internal/verify/audit.go: where the audit lists a file.
use subagent_broker.Common.{
  ℕ, ◌+◌, String, Bool, List, [], ◌∷◌, ◌++◌, map, ◌≡◌, refl, sym, ap, ◌∙◌, ◌==◌, string_eq,
  if◌then◌else◌, ok, >>=-eq-ok, sort, insert_sorted, text_lt, contains, arith, Bool-cases, inl, inr,
}
use subagent_broker.Scope.Pattern.{Pattern}
use subagent_broker.Scope.Leases.{Leases}
use subagent_broker.Barrier.Types.{ScopeAudit, FileAttribution, EphemeralAttribution}
use subagent_broker.Barrier.Evaluate.{unique_sorted, distinct}
use subagent_broker.Audit.Policy.{AuditPolicy, normalize_policy, compile_all, matching_pattern}
use subagent_broker.Audit.Classify.{
  empty_audit, with_owners, with_ephemeral, audit_file, audit_files, audit_scopes,
}
use subagent_broker.Audit.Cases.{ok-injective, audit_file-cases}

abbrev hit : String → String → ℕ
hit path x = if x == path then 1 else 0

-- How often a list has a path.
unfoldable pub occurrences : String → List String → ℕ
occurrences path [] = 0
occurrences path (x ∷ xs) = hit path x + occurrences path xs

-- How often the four lists of an audit have a path.
unfoldable pub times_listed : String → ScopeAudit → ℕ
unfolding occurrences
times_listed path audit =
    occurrences path (map (λ (a : FileAttribution). a.path) audit.authorized)
    + occurrences path (map (λ (e : EphemeralAttribution). e.path) audit.ephemeral)
    + occurrences path audit.unauthorized
    + occurrences path (map (λ (a : FileAttribution). a.path) audit.owner_uncertain)

occurrences-map {ℓ} :
    {A : Type ℓ} (f : A → String) (path : String) (xs : List A) (x : A)
    → occurrences path (map f (xs ++ (x ∷ []))) ≡ occurrences path (map f xs) + hit path (f x)
unfolding occurrences
occurrences-map f path [] x = omega (arith)
occurrences-map f path (y ∷ ys) x = omega (arith, occurrences-map f path ys x)

occurrences-append :
    (path : String) (xs : List String) (x : String)
    → occurrences path (xs ++ (x ∷ [])) ≡ occurrences path xs + hit path x
unfolding occurrences
occurrences-append path [] x = omega (arith)
occurrences-append path (y ∷ ys) x = omega (arith, occurrences-append path ys x)

times_listed-with_owners :
    (path file : String) (audit : ScopeAudit) (owners : List String)
    → times_listed path (with_owners audit file owners) ≡ times_listed path audit + hit path file
unfolding times_listed with_owners
times_listed-with_owners path file audit [] =
    omega (arith, occurrences-append path audit.unauthorized file)
times_listed-with_owners path file audit (owner ∷ []) = omega (
  arith,
  occurrences-map (λ (a : FileAttribution). a.path) path audit.authorized
      (record { path = file; owners = owner ∷ [] }),
)
times_listed-with_owners path file audit (owner ∷ other ∷ rest) = omega (
  arith,
  occurrences-map (λ (a : FileAttribution). a.path) path audit.owner_uncertain
      (record { path = file; owners = owner ∷ other ∷ rest }),
)

times_listed-with_ephemeral :
    (path file matched : String) (audit : ScopeAudit)
    → times_listed path (with_ephemeral audit file matched)
      ≡ times_listed path audit + hit path file
unfolding times_listed with_ephemeral
times_listed-with_ephemeral path file matched audit = omega (
  arith,
  occurrences-map (λ (e : EphemeralAttribution). e.path) path audit.ephemeral
      (record { path = file; pattern_text = matched }),
)

times_listed-audit_files :
    (path : String) (ephemeral : List Pattern) (leases : Leases) (audit out : ScopeAudit)
    (files : List String)
    → audit_files ephemeral leases audit files ≡ ok out
    → times_listed path out ≡ times_listed path audit + occurrences path files
unfolding audit_files occurrences
times_listed-audit_files path ephemeral leases audit out [] h =
    ap (times_listed path) (sym (ok-injective h)) ∙ omega (arith)
times_listed-audit_files path ephemeral leases audit out (file ∷ rest) h =
    let (next, e, h1) = >>=-eq-ok (audit_file ephemeral leases audit file) _ h in
    let later = times_listed-audit_files path ephemeral leases next out rest h1 in
    elim (audit_file-cases ephemeral leases audit next file e) [
      | inl (_, n) ↦ omega (
        arith,
        later,
        ap (times_listed path) n,
        times_listed-with_ephemeral path file (matching_pattern file ephemeral) audit,
      )
      | inr (_, owners, _, n) ↦
          omega (
            arith,
            later,
            ap (times_listed path) n,
            times_listed-with_owners path file audit owners,
          )
    ]

occurrences-insert_sorted :
    (less : String → String → Bool) (path x : String) (xs : List String)
    → occurrences path (insert_sorted less x xs) ≡ hit path x + occurrences path xs
unfolding occurrences insert_sorted
occurrences-insert_sorted less path x [] = refl
occurrences-insert_sorted less path x (y ∷ ys) = elim (Bool-cases (less y x)) [
  | inl h ↦ rw h (omega (arith, occurrences-insert_sorted less path x ys))
  | inr h ↦ rw h refl
]

occurrences-sort :
    (less : String → String → Bool) (path : String) (xs : List String)
    → occurrences path (sort less xs) ≡ occurrences path xs
unfolding occurrences sort
occurrences-sort less path [] = refl
occurrences-sort less path (x ∷ xs) =
    omega
      (arith, occurrences-insert_sorted less path x (sort less xs), occurrences-sort less path xs)

occurrences-distinct :
    (path : String) (seen values : List String)
    → occurrences path (distinct seen values) ≡ (
        if path == ""
        then 0
        else if contains seen path
        then 0
        else if contains values path
        then 1
        else 0)
unfolding occurrences distinct contains
occurrences-distinct path seen [] = ground (arith)
occurrences-distinct path seen (v ∷ rest) =
    ground (arith, occurrences-distinct path seen rest, occurrences-distinct path (v ∷ seen) rest)

-- An audit that ends without an error lists every changed file exactly once, in one of its four lists,
-- and no other path and not the empty one.
pub audit_scopes-once :
    (changed_files : List String) (leases : Leases) (policy : AuditPolicy) (audit : ScopeAudit)
    (path : String)
    → audit_scopes changed_files leases policy ≡ ok audit
    → times_listed path audit
      ≡ (if path == "" then 0 else if contains changed_files path then 1 else 0)
unfolding audit_scopes unique_sorted times_listed occurrences contains
audit_scopes-once changed_files leases policy audit path h =
    let (normalized, e, h1) = >>=-eq-ok (normalize_policy policy) _ h in
    let (ephemeral, e1, h2) = >>=-eq-ok (compile_all normalized.ephemeral_paths) _ h1 in
    omega (
      arith,
      times_listed-audit_files path ephemeral leases empty_audit audit _ h2,
      occurrences-sort text_lt path (unique_sorted changed_files),
      occurrences-sort text_lt path (distinct [] changed_files),
      occurrences-distinct path [] changed_files,
    )
