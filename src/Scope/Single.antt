-- ===== src/Scope/Single.antt =====
-- internal/scope/scope.go: what leases without overlaps mean for `CoveringOwners`.
use subagent_broker.Common.{
  String, Bool, true, false, List, [], ◌∷◌, ◌++◌, ◌≡◌, refl, sym, ap, ◌∙◌, ◌⊎◌, inl, inr,
  Bool-cases, Result, ok, append-eq-nil, >>=-eq-ok, if◌then◌else◌, All, Pairs, sort, Pairs-sort,
}
use subagent_broker.Scope.Pattern.{ScopeError, compile, match, match_pattern, may_overlap, prepared}
use subagent_broker.Scope.Leases.{
  Leases, collect, overlap_of, overlaps_between, overlaps_from, earlier_owner, find_overlaps,
  covers, owner_of, covering_owners,
}
use subagent_broker.Scope.Disjoint.{may_overlap_complete}

module _ {ℓ κ μ} {E : Type ℓ} {A : Type κ} {B : Type μ} where
  -- The parts of a step of the loop that succeeds.
  collect-cons :
      (step : A → Result E (List B)) (x : A) (xs : List A) {out : List B}
      → collect step (x ∷ xs) ≡ ok out
      → (first rest : List B) × (step x ≡ ok first)
        × (collect step xs ≡ ok rest)
        × (first ++ rest ≡ out)
  unfolding collect
  collect-cons step x xs h =
      let (first, e, h1) = >>=-eq-ok (step x) _ h in
      let (rest, e1, h2) = >>=-eq-ok (collect step xs) _ h1 in (first, rest, e, e1, cc)

  -- A loop that collects nothing has collected nothing at each entry.
  collect-eq-nil :
      (step : A → Result E (List B)) (xs : List A)
      → collect step xs ≡ ok []
      → All (λ x. step x ≡ ok []) xs
  collect-eq-nil step [] h = tt
  collect-eq-nil step (x ∷ xs) h =
      let (first, rest, e, e1, nothing) = collect-cons step x xs h in
      let (nf, nr) = append-eq-nil first rest nothing in (cc, collect-eq-nil step xs (cc))

-- An owner whose patterns cover a path has one that matches it.
covers-All :
    (P : String → Type 0) (path : String) (patterns : List String)
    → covers path patterns ≡ ok true
    → All P patterns
    → (raw : String) × P raw × (match raw path ≡ ok true)
unfolding covers match
covers-All P path [] h held = cc
covers-All P path (raw ∷ rest) h (p, held) =
    let (compiled, e, h1) = >>=-eq-ok (compile raw) _ h in
    elim (Bool-cases (match_pattern compiled path)) [
      | inl m ↦ (raw, p, rw (e, m) refl)
      | inr m ↦
          covers-All P path rest (sym (ap (λ b. if b then ok true else covers path rest) m) ∙ h1)
            held
    ]

-- Two entries of which at most one covers the path.
Apart : String → String × List String → String × List String → Type 0
Apart path (_, lefts) (_, rights) = covers path lefts ≡ ok true → covers path rights ≡ ok true → ⊥

overlap_of-some :
    (left_owner left right_owner right : String)
    → may_overlap left right ≡ ok true
    → ¬ (overlap_of left_owner left right_owner right ≡ ok [])
unfolding overlap_of
overlap_of-some left_owner left right_owner right found none_found = cc

overlaps_between-Apart :
    (path : String) (x y : String × List String)
    → prepared path ≡ path
    → overlaps_between x y ≡ ok []
    → Apart path x y
unfolding overlaps_between Apart
overlaps_between-Apart path (left_owner, lefts) (right_owner, rights) clean h cl cr =
    let (left, hl, ml) = covers-All _ path lefts cl (collect-eq-nil _ lefts h) in
    let (right, hr, mr) = covers-All _ path rights cr (collect-eq-nil _ rights hl) in
    overlap_of-some left_owner left right_owner right
      (may_overlap_complete left right path clean ml mr) hr

All-Apart :
    (path : String) (x : String × List String) (later : Leases)
    → prepared path ≡ path
    → All (λ y. overlaps_between x y ≡ ok []) later
    → All (Apart path x) later
All-Apart path x [] clean held = tt
All-Apart path x (y ∷ later) clean (h, held) =
    (overlaps_between-Apart path x y clean h, All-Apart path x later clean held)

overlaps_from-Pairs :
    (path : String) (leases : Leases)
    → prepared path ≡ path
    → overlaps_from leases ≡ ok []
    → Pairs (Apart path) leases
unfolding overlaps_from
overlaps_from-Pairs path [] clean h = tt
overlaps_from-Pairs path (x ∷ later) clean h =
    let (here, e, h1) = >>=-eq-ok (collect (overlaps_between x) later) _ h in
    let (rest, e1, h2) = >>=-eq-ok (overlaps_from later) _ h1 in
    let (no_here, no_rest) = append-eq-nil here rest (cc) in
    (
      All-Apart path x later clean (collect-eq-nil (overlaps_between x) later (e ∙ ap ok no_here)),
      overlaps_from-Pairs path later clean (e1 ∙ ap ok no_rest),
    )

-- What `owner_of` gives: the owner, covering the path, or nothing.
owner_of-cases :
    (path owner : String) (patterns owners : List String)
    → owner_of path (owner, patterns) ≡ ok owners
    → ((owners ≡ owner ∷ []) × (covers path patterns ≡ ok true)) ⊎ (owners ≡ [])
unfolding owner_of
owner_of-cases path owner patterns owners h =
    let (covered, e, h1) = >>=-eq-ok (covers path patterns) _ h in go covered e h1
  where
    go :
        (covered : Bool)
        → covers path patterns ≡ ok covered
        → ◌≡◌ {A = Result ScopeError (List String)}
            (ok (if covered then owner ∷ [] else []))
            (ok owners)
        → ((owners ≡ owner ∷ []) × (covers path patterns ≡ ok true)) ⊎ (owners ≡ [])
    go true e h1 = inl (cc, e)
    go false e h1 = inr (cc)

collect-owner_of-nil :
    (path : String) (x : String × List String) (later : Leases) (owners : List String)
    → covers path (x.1) ≡ ok true
    → All (Apart path x) later
    → collect (owner_of path) later ≡ ok owners
    → owners ≡ []
unfolding collect Apart
collect-owner_of-nil path x [] owners covered held h = cc
collect-owner_of-nil path x ((owner, patterns) ∷ later) owners covered (apart, held) h =
    let (first, rest, e, e1, whole) = collect-cons (owner_of path) (owner, patterns) later h in
    let none_later = collect-owner_of-nil path x later rest covered held e1 in
    elim (owner_of-cases path owner patterns first e) [
      | inl both ↦ elim (apart covered (both.1)) [ ]
      | inr none_here ↦ cc
    ]

-- One owner at most.
abbrev pub Single : List String → Type 0
Single owners = (owners ≡ []) ⊎ ((owner : String) × (owners ≡ owner ∷ []))

collect-owner_of-Single :
    (path : String) (leases : Leases) (owners : List String)
    → Pairs (Apart path) leases
    → collect (owner_of path) leases ≡ ok owners
    → Single owners
unfolding collect
collect-owner_of-Single path [] owners held h = inl (cc)
collect-owner_of-Single path ((owner, patterns) ∷ later) owners (apart, held) h =
    let (first, rest, e, e1, whole) = collect-cons (owner_of path) (owner, patterns) later h in
    elim (owner_of-cases path owner patterns first e) [
      | inl both ↦
          let none_later =
            collect-owner_of-nil path (owner, patterns) later rest (both.1) apart e1 in
          inr (owner, cc)
      | inr none_here ↦ collect-owner_of-Single path later owners held (cc)
    ]

-- For leases in which no two patterns of different owners may overlap, and a path in its clean
-- form, one owner at most covers the path.
pub covering_owners-Single :
    (path : String) (leases : Leases) (owners : List String)
    → prepared path ≡ path
    → find_overlaps leases ≡ ok []
    → covering_owners path leases ≡ ok owners
    → Single owners
unfolding find_overlaps covering_owners Apart sort
covering_owners-Single path leases owners clean no_overlaps h =
    let held =
      Pairs-sort earlier_owner (Apart path) (λ x y apart cy cx. apart cx cy) leases
        (overlaps_from-Pairs path (sort earlier_owner leases) clean no_overlaps) in
    let (found, e, h1) = >>=-eq-ok (collect (owner_of path) leases) _ h in
    elim (collect-owner_of-Single path leases found held e) [
      | inl none_found ↦ inl (cc)
      | inr one ↦ inr (one.0, cc)
    ]
