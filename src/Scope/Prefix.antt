-- ===== src/Scope/Prefix.antt =====
-- internal/scope/scope.go: what a path that a glob matches has in common with the glob's text.
use Prim.Native.Char.{Char, code}
use text.Mathlib.TextEquality.{Char-path}
use subagent_broker.Common.{
  String, Bool, true, false, List, [], ◌∷◌, ◌==◌, ◌||◌, ◌&&◌, ◌≡◌, refl, sym, ap, subst, ◌∙◌, inl,
  inr, arith, Bool-cases, nat_eq, string_eq,
}
use subagent_broker.Scope.Text.{is_slash, add_first, split_slash, any_char}
use subagent_broker.Scope.Glob.{literal, plain, glob_tokens, matches, one}
use subagent_broker.Scope.Pattern.{is_wild, literal_parts, agree}

-- The entries of the first list stand at the front of the second.
abbrev pub Begins : List String → List String → Type 0
Begins [] path = Unit
Begins (part ∷ parts) [] = ⊥
Begins (part ∷ parts) (other ∷ path) = (part ≡ other) × Begins parts path

glob_tokens-plain :
    (c : Char) (s : String)
    → is_wild c ≡ false
    → glob_tokens (String.◌∷◌ c s) ≡ literal c ∷ glob_tokens s
unfolding glob_tokens plain
glob_tokens-plain c String.[] tame = ground (arith)
glob_tokens-plain c (String.◌∷◌ d String.[]) tame = ground (arith)
glob_tokens-plain c (String.◌∷◌ d (String.◌∷◌ e s)) tame = ground (arith)

and-true : (a b : Bool) → a && b ≡ true → (a ≡ true) × (b ≡ true)
and-true a b h = ground (arith)

or-false : (a b : Bool) → a || b ≡ false → (a ≡ false) × (b ≡ false)
or-false a b h = ground (arith)

same_char : (c d : Char) → (code c == code d) ≡ true → c ≡ d
same_char c d h = Char-path c d (ground (arith))

-- A glob that starts with an ordinary character matches only what starts with it.
matches-plain :
    (c : Char) (p s : String)
    → is_wild c ≡ false
    → matches (glob_tokens (String.◌∷◌ c p)) s ≡ true
    → (rest : String) × (s ≡ String.◌∷◌ c rest) × (matches (glob_tokens p) rest ≡ true)
unfolding matches one
matches-plain c p s tame m = go s (sym (ap (λ ts. matches ts s) (glob_tokens-plain c p tame)) ∙ m)
  where
    go :
        (s : String)
        → matches (literal c ∷ glob_tokens p) s ≡ true
        → (rest : String) × (s ≡ String.◌∷◌ c rest) × (matches (glob_tokens p) rest ≡ true)
    go String.[] m = cc
    go (String.◌∷◌ d s) m =
        let (same, rest) = and-true (code c == code d) (matches (glob_tokens p) s) m in
        (s, ap (λ x. String.◌∷◌ x s) (sym (same_char c d same)), rest)

matches-empty : (s : String) → matches (glob_tokens "") s ≡ true → s ≡ ""
unfolding matches glob_tokens
matches-empty String.[] m = refl
matches-empty (String.◌∷◌ c s) m = cc

-- A glob without wildcards matches itself only.
pub matches-exact :
    (p s : String) → any_char is_wild p ≡ false → matches (glob_tokens p) s ≡ true → s ≡ p
unfolding any_char
matches-exact String.[] s tame m = matches-empty s m
matches-exact (String.◌∷◌ c p) s tame m =
    let (tame_c, tame_p) = or-false (is_wild c) (any_char is_wild p) tame in
    let (rest, e, later) = matches-plain c p s tame_c m in
    e ∙ ap (String.◌∷◌ c) (matches-exact p rest tame_p later)

split_slash-cons :
    (s : String) → (part : String) × (rest : List String) × (split_slash s ≡ part ∷ rest)
unfolding split_slash add_first
split_slash-cons String.[] = ("", [], refl)
split_slash-cons (String.◌∷◌ c s) =
    let (part, rest, e) = split_slash-cons s in
    elim (Bool-cases (is_slash c)) [
      | inl h ↦ ("", split_slash s, rw h refl)
      | inr h ↦ (String.◌∷◌ c part, rest, rw (h, e) refl)
    ]

literal_parts-add_first :
    (c : Char) (part : String) (rest : List String)
    → is_wild c ≡ true
    → literal_parts (add_first c (part ∷ rest)) ≡ []
unfolding literal_parts add_first any_char
literal_parts-add_first c part rest wild = rw wild refl

literal_parts-tame :
    (part : String) (rest : List String)
    → any_char is_wild part ≡ false
    → literal_parts (part ∷ rest) ≡ part ∷ literal_parts rest
unfolding literal_parts
literal_parts-tame part rest tame = rw tame refl

literal_parts-Begins :
    (c : Char) (part : String) (rest path : List String)
    → is_wild c ≡ false
    → Begins (literal_parts (part ∷ rest)) path
    → Begins (literal_parts (add_first c (part ∷ rest))) (add_first c path)
unfolding literal_parts add_first any_char
literal_parts-Begins c part rest path tame front = elim (Bool-cases (any_char is_wild part)) [
  | inl h ↦ rw (tame, h) tt
  | inr h ↦
      rw (tame, h)
        (go path (subst (λ parts. Begins parts path) (literal_parts-tame part rest h) front))
]
  where
    go :
        (path : List String)
        → Begins (part ∷ literal_parts rest) path
        → Begins (String.◌∷◌ c part ∷ literal_parts rest) (add_first c path)
    go [] missing = elim missing [ ]
    go (other ∷ path) (e, later) = (ap (String.◌∷◌ c) e, later)

slash-tame : (c : Char) → is_slash c ≡ true → is_wild c ≡ false
slash-tame c slash = ground (arith)

split_slash-part :
    (c : Char) (p : String)
    → is_slash c ≡ false
    → split_slash (String.◌∷◌ c p) ≡ add_first c (split_slash p)
unfolding split_slash
split_slash-part c p plain_char = rw plain_char refl

split_slash-slash :
    (c : Char) (p : String) → is_slash c ≡ true → split_slash (String.◌∷◌ c p) ≡ "" ∷ split_slash p
unfolding split_slash
split_slash-slash c p slash = rw slash refl

-- The literal parts of a glob are the first parts of every path that it matches.
pub matches-Begins :
    (p s : String)
    → matches (glob_tokens p) s ≡ true
    → Begins (literal_parts (split_slash p)) (split_slash s)
unfolding split_slash literal_parts any_char
matches-Begins String.[] s m = rw (matches-empty s m) (refl, tt)
matches-Begins (String.◌∷◌ c p) s m = elim (Bool-cases (is_slash c)) [
  | inl slash ↦
      let (rest, e, later) = matches-plain c p s (slash-tame c slash) m in
      rw (e, split_slash-slash c p slash, split_slash-slash c rest slash)
        (refl, matches-Begins p rest later)
  | inr h ↦
      let (part, parts, cut) = split_slash-cons p in
      elim (Bool-cases (is_wild c)) [
        | inl wild ↦ rw (split_slash-part c p h, cut, literal_parts-add_first c part parts wild) tt
        | inr tame ↦
            let (rest, e, later) = matches-plain c p s tame m in
            rw (e, split_slash-part c p h, split_slash-part c rest h, cut)
              (literal_parts-Begins c part parts (split_slash rest) tame (
                subst (λ parts. Begins (literal_parts parts) (split_slash rest)) cut
                  (matches-Begins p rest later)))
      ]
]

-- Two lists that stand at the front of one list agree as far as both go.
pub agree-Begins :
    (left right path : List String) → Begins left path → Begins right path → agree left right ≡ true
unfolding agree
agree-Begins [] right path l r = refl
agree-Begins (part ∷ left) [] path l r = refl
agree-Begins (part ∷ left) (other ∷ right) [] l r = elim l [ ]
agree-Begins (part ∷ left) (other ∷ right) (name ∷ path) (e, l) (h, r) =
    ground (arith, agree-Begins left right path l r)
