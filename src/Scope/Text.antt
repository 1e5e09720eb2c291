-- ===== src/Scope/Text.antt =====
-- Go's `strings` and `path` as internal/scope uses them.
use Prim.Native.Char.{Char, char, code}
use Prim.Native.String.{String}
use Prim.Native.String
use subagent_broker.Common.{
  Bool, true, false, List, [], ◌∷◌, ◌==◌, ◌||◌, ◌&&◌, string_eq, nat_eq, if◌then◌else◌, is_space,
  is_empty,
}

abbrev pub slash : Char
slash = char 47 tt

abbrev pub is_slash : Char → Bool
is_slash c = code c == b'/'

-- `strings.ReplaceAll(s, "\\", "/")`.
unfoldable pub with_slashes : String → String
with_slashes String.[] = String.[]
with_slashes (String.◌∷◌ c s) = String.◌∷◌ (if code c == b'\\' then slash else c) (with_slashes s)

-- `strings.TrimPrefix(s, "./")`.
unfoldable pub trim_dot : String → String
trim_dot (String.◌∷◌ c (String.◌∷◌ d s)) =
    if code c == b'.' && is_slash d then s else String.◌∷◌ c (String.◌∷◌ d s)
trim_dot s = s

unfoldable pub trim_left : String → String
unfolding is_space
trim_left String.[] = String.[]
trim_left (String.◌∷◌ c s) =
    let rest = trim_left s in if is_space (code c) then rest else String.◌∷◌ c s

unfoldable pub trim_right : String → String
unfolding is_space
trim_right String.[] = String.[]
trim_right (String.◌∷◌ c s) =
    let rest = trim_right s in if is_space (code c) && rest == "" then "" else String.◌∷◌ c rest

-- `strings.TrimSpace`.
unfoldable pub trim_space : String → String
unfolding trim_left trim_right
trim_space s = trim_right (trim_left s)

-- `strings.Split(s, "/")`.
unfoldable pub add_first : Char → List String → List String
add_first c [] = String.◌∷◌ c "" ∷ []
add_first c (part ∷ rest) = String.◌∷◌ c part ∷ rest

unfoldable pub split_slash : String → List String
unfolding add_first
split_slash String.[] = "" ∷ []
split_slash (String.◌∷◌ c s) =
    let rest = split_slash s in if is_slash c then "" ∷ rest else add_first c rest

unfoldable pub join_slash : List String → String
join_slash [] = ""
join_slash (part ∷ []) = part
join_slash (part ∷ rest) = String.◌++◌ part (String.◌∷◌ slash (join_slash rest))

unfoldable pub starts_slash : String → Bool
starts_slash String.[] = false
starts_slash (String.◌∷◌ c s) = is_slash c

-- The parts of a path that `path.Clean` keeps; `kept` has the last one first.
unfoldable pub up : Bool → List String → List String
up rooted [] = if rooted then [] else ".." ∷ []
up rooted (part ∷ kept) = if part == ".." then ".." ∷ part ∷ kept else kept

unfoldable pub clean_parts : Bool → List String → List String → List String
unfolding up
clean_parts rooted kept [] = kept
clean_parts rooted kept (part ∷ rest) =
    clean_parts rooted
      (if part == "" || part == "."
        then kept
        else if part == ".."
        then up rooted kept
        else part ∷ kept)
      rest

unfoldable pub reversed : List String → List String → List String
reversed [] done = done
reversed (part ∷ rest) done = reversed rest (part ∷ done)

-- `path.Clean`.
unfoldable pub clean_path : String → String
unfolding clean_parts reversed starts_slash split_slash join_slash
clean_path s =
    let rooted = starts_slash s in
    let kept = reversed (clean_parts rooted [] (split_slash s)) [] in
    if rooted
    then String.◌∷◌ slash (join_slash kept)
    else if is_empty kept
    then "."
    else join_slash kept

-- `strings.HasPrefix(s, prefix)`.
unfoldable pub has_prefix : String → String → Bool
has_prefix s String.[] = true
has_prefix String.[] (String.◌∷◌ c prefix) = false
has_prefix (String.◌∷◌ d s) (String.◌∷◌ c prefix) = code d == code c && has_prefix s prefix

-- A test that some character passes.
unfoldable pub any_char : (Char → Bool) → String → Bool
any_char f String.[] = false
any_char f (String.◌∷◌ c s) = f c || any_char f s
