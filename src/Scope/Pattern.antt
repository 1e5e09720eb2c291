-- ===== src/Scope/Pattern.antt =====
-- internal/scope/scope.go: patterns of project-relative paths, and which of them may overlap. A
-- pattern keeps the pieces of its regular expression, which always compiles.
use Prim.Native.Char.{Char, code}
use subagent_broker.Common.{
  String, Bool, true, false, List, [], ◌∷◌, ◌==◌, ◌||◌, ◌&&◌, not, leb, nat_eq, string_eq,
  if◌then◌else◌, Result, ok, ◌>>=◌, ◌>>◌, fail_if,
}
use subagent_broker.Scope.Text.{
  is_slash, with_slashes, trim_dot, trim_space, split_slash, starts_slash, clean_path, has_prefix,
  any_char,
}
use subagent_broker.Scope.Glob.{Token, is_star, glob_tokens, matches}

pub data ScopeError : Type 0 where
  empty_pattern : ScopeError
  not_relative escapes_root : String → ScopeError

-- `^[A-Za-z]:/`.
has_drive : String → Bool
has_drive (String.◌∷◌ c (String.◌∷◌ d (String.◌∷◌ e s))) =
    ((leb b'A' (code c) && leb (code c) b'Z') || (leb b'a' (code c) && leb (code c) b'z'))
    && code d == b':'
    && is_slash e
has_drive s = false

unfoldable pub normalize : String → Result ScopeError String
unfolding with_slashes trim_space trim_dot starts_slash clean_path has_prefix has_drive
normalize raw =
    let path = trim_dot (trim_space (with_slashes raw)) in
    let clean = clean_path path in
    do
      fail_if (path == "") empty_pattern
      fail_if (starts_slash path || has_drive path) (not_relative path)
      fail_if (clean == "." || clean == ".." || has_prefix clean "../") (escapes_root path)
      ok clean

-- `strings.ContainsAny(s, "*?[")`.
abbrev pub is_wild : Char → Bool
is_wild c = is_star c || code c == b'?' || code c == b'['

unfoldable pub literal_parts : List String → List String
unfolding any_char
literal_parts [] = []
literal_parts (part ∷ rest) =
    let later = literal_parts rest in if any_char is_wild part then [] else part ∷ later

unfoldable pub static_prefix : String → List String
unfolding literal_parts split_slash
static_prefix pattern_text = literal_parts (split_slash pattern_text)

pub record Pattern : Type 0 where
  pub raw : String
  pub normalized : String
  pub tokens : List Token
  pub static_parts : List String
  pub has_wildcard : Bool

unfoldable pub pattern_of : String → String → Pattern
unfolding glob_tokens static_prefix any_char
pattern_of raw normalized = record {
  raw = raw;
  normalized = normalized;
  tokens = glob_tokens normalized;
  static_parts = static_prefix normalized;
  has_wildcard = any_char is_wild normalized;
}

unfoldable pub compile : String → Result ScopeError Pattern
unfolding normalize pattern_of
compile raw = do normalized ← normalize raw; ok (pattern_of raw normalized)

-- The form in which a candidate is matched.
unfoldable pub prepared : String → String
unfolding with_slashes trim_dot clean_path
prepared candidate = clean_path (trim_dot (with_slashes candidate))

unfoldable pub match_pattern : Pattern → String → Bool
unfolding matches prepared
match_pattern p candidate = matches p.tokens (prepared candidate)

unfoldable pub match : String → String → Result ScopeError Bool
unfolding compile match_pattern
match raw candidate = do p ← compile raw; ok (match_pattern p candidate)

-- The loop over the parts that both prefixes have.
unfoldable pub agree : List String → List String → Bool
agree [] right = true
agree (part ∷ left) [] = true
agree (part ∷ left) (other ∷ right) = part == other && agree left right

unfoldable pub patterns_overlap : Pattern → Pattern → Bool
unfolding match_pattern agree
patterns_overlap left right =
    if not left.has_wildcard && not right.has_wildcard
    then left.normalized == right.normalized
    else if not left.has_wildcard
    then match_pattern right left.normalized
    else if not right.has_wildcard
    then match_pattern left right.normalized
    else agree left.static_parts right.static_parts

unfoldable pub may_overlap : String → String → Result ScopeError Bool
unfolding compile patterns_overlap
may_overlap left right = do
  left_pattern ← compile left
  right_pattern ← compile right
  ok (patterns_overlap left_pattern right_pattern)
