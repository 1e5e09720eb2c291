-- ===== src/Scope/Disjoint.antt =====
-- internal/scope/scope.go, `MayOverlap`: what it answers about the paths that both patterns match.
use subagent_broker.Common.{
  String, true, false, ◌≡◌, refl, sym, ap, ◌∙◌, ◌⊎◌, inl, inr, arith, Bool-cases, ◌>>=◌, Result, ok,
  err, ◌==◌, string_eq,
}
use subagent_broker.Scope.Text.{split_slash, any_char}
use subagent_broker.Scope.Glob.{glob_tokens, matches}
use subagent_broker.Scope.Pattern.{
  ScopeError, pattern_of, is_wild, normalize, compile, prepared, match, match_pattern,
  patterns_overlap, may_overlap, literal_parts, static_prefix,
}
use subagent_broker.Scope.Prefix.{matches-exact, matches-Begins, agree-Begins}

same_text : (s t : String) → s ≡ t → (s == t) ≡ true
same_text s t e = ground (arith)

-- Patterns that match a common path are found to overlap.
overlap-pattern_of :
    (left right left_text right_text path : String)
    → prepared path ≡ path
    → matches (glob_tokens left_text) path ≡ true
    → matches (glob_tokens right_text) path ≡ true
    → patterns_overlap (pattern_of left left_text) (pattern_of right right_text) ≡ true
unfolding patterns_overlap pattern_of match_pattern static_prefix
overlap-pattern_of left right l r path clean ml mr =
    go (Bool-cases (any_char is_wild l)) (Bool-cases (any_char is_wild r))
  where
    go :
        ((any_char is_wild l ≡ true) ⊎ (any_char is_wild l ≡ false))
        → ((any_char is_wild r ≡ true) ⊎ (any_char is_wild r ≡ false))
        → patterns_overlap (pattern_of left l) (pattern_of right r) ≡ true
    go (inl wl) (inl wr) =
        rw (wl, wr)
          (agree-Begins (literal_parts (split_slash l)) (literal_parts (split_slash r))
            (split_slash path) (matches-Begins l path ml) (matches-Begins r path mr))
    go (inl wl) (inr wr) = rw (wl, wr, sym (matches-exact r path wr mr), clean) ml
    go (inr wl) (inl wr) = rw (wl, wr, sym (matches-exact l path wl ml), clean) mr
    go (inr wl) (inr wr) =
        rw (wl, wr) (same_text l r (sym (matches-exact l path wl ml) ∙ matches-exact r path wr mr))

-- A pattern that matches compiled, and its glob matches the path in its clean form.
pub match-eq-true :
    (raw path : String)
    → match raw path ≡ ok true
    → (text : String) × (normalize raw ≡ ok text)
      × (matches (glob_tokens text) (prepared path) ≡ true)
unfolding match compile match_pattern pattern_of
match-eq-true raw path h = go (normalize raw) refl h
  where
    go :
        (r : Result ScopeError String)
        → normalize raw ≡ r
        → ((r >>= λ text. ok (pattern_of raw text)) >>= λ p. ok (match_pattern p path)) ≡ ok true
        → (text : String) × (normalize raw ≡ ok text)
          × (matches (glob_tokens text) (prepared path) ≡ true)
    go (ok text) e m = (text, e, cc)
    go (err reason) e m = cc

-- Two patterns that match one clean path are reported as overlapping.
pub may_overlap_complete :
    (left right path : String)
    → prepared path ≡ path
    → match left path ≡ ok true
    → match right path ≡ ok true
    → may_overlap left right ≡ ok true
unfolding may_overlap compile
may_overlap_complete left right path clean ml mr =
    let (l, el, hl) = match-eq-true left path ml in
    let (r, er, hr) = match-eq-true right path mr in
    let found =
      overlap-pattern_of left right l r path clean (ap (matches (glob_tokens l)) (sym clean) ∙ hl)
        (ap (matches (glob_tokens r)) (sym clean) ∙ hr) in
    rw (el, er) (ap ok found)
