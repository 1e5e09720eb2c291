-- ===== src/Scope/Glob.antt =====
-- internal/scope/scope.go, `globRegex`: the pieces of the regular expression that it writes, and
-- what Go's regexp matches with them between `^` and `$`.
use Prim.Native.Char.{Char, code}
use subagent_broker.Common.{
  String, Bool, true, false, List, [], ◌∷◌, ◌==◌, ◌||◌, ◌&&◌, not, nat_eq, if◌then◌else◌,
}
use subagent_broker.Scope.Text.{is_slash}

pub data Token : Type 0 where
  -- A character, quoted where it has a meaning of its own.
  literal : Char → Token
  -- `(?:.*/)?`, `.*`, `[^/]*` and `[^/]`.
  any_dirs any_text any_name one_name : Token

abbrev pub is_star : Char → Bool
is_star c = code c == b'*'

-- `?` or the character itself.
unfoldable pub plain : Char → Token
plain c = if code c == b'?' then one_name else literal c

unfoldable pub glob_tokens : String → List Token
unfolding plain
glob_tokens String.[] = []
glob_tokens (String.◌∷◌ c String.[]) = (if is_star c then any_name else plain c) ∷ []
glob_tokens (String.◌∷◌ c (String.◌∷◌ d String.[])) = elim (is_star c) [
  | true ↦ elim (is_star d) [
    | true ↦ any_text ∷ []
    | false ↦ any_name ∷ glob_tokens (String.◌∷◌ d String.[])
  ]
  | false ↦ plain c ∷ glob_tokens (String.◌∷◌ d String.[])
]
glob_tokens (String.◌∷◌ c (String.◌∷◌ d (String.◌∷◌ e s))) = elim (is_star c) [
  | true ↦ elim (is_star d) [
    | true ↦ elim (is_slash e) [
      | true ↦ any_dirs ∷ glob_tokens s
      | false ↦ any_text ∷ glob_tokens (String.◌∷◌ e s)
    ]
    | false ↦ any_name ∷ glob_tokens (String.◌∷◌ d (String.◌∷◌ e s))
  ]
  | false ↦ plain c ∷ glob_tokens (String.◌∷◌ d (String.◌∷◌ e s))
]

-- What `.` and `[^/]` match.
abbrev pub on_line : Char → Bool
on_line c = not (code c == b'\n')

abbrev pub in_name : Char → Bool
in_name c = not (is_slash c)

-- As many characters as wanted that pass a test, and then the rest.
unfoldable pub gap : (Char → Bool) → (String → Bool) → String → Bool
gap f rest String.[] = rest ""
gap f rest (String.◌∷◌ c s) = rest (String.◌∷◌ c s) || (f c && gap f rest s)

unfoldable pub one : (Char → Bool) → (String → Bool) → String → Bool
one f rest String.[] = false
one f rest (String.◌∷◌ c s) = f c && rest s

-- `MatchString`.
unfoldable pub matches : List Token → String → Bool
unfolding gap one
matches [] String.[] = true
matches [] (String.◌∷◌ c s) = false
matches (literal c ∷ ts) s = one (λ d. code c == code d) (matches ts) s
matches (any_dirs ∷ ts) s = matches ts s || gap on_line (one is_slash (matches ts)) s
matches (any_text ∷ ts) s = gap on_line (matches ts) s
matches (any_name ∷ ts) s = gap in_name (matches ts) s
matches (one_name ∷ ts) s = one in_name (matches ts) s
