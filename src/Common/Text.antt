-- ===== src/Common/Text.antt =====
-- The text functions of Go's library that the program uses, on code points.
use Prim.Native.Char.{code}
use Prim.Native.String.{String}
use Prim.Native.String
use Prim.Native.Nat.{ℕ, zero, suc, ◌+◌, ◌/◌, ◌%◌}
use mathlib.Core.Logic.{◌≢◌}
use text.Mathlib.TextLemmas.{append-eq-nil_iff}
use mathlib.Core.Bool.{Bool, true, false, ◌&&◌, ◌||◌}
use mathlib.Core.List.{List, [], ◌∷◌, map}
use subagent_broker.Common.Tests.{◌==◌, nat_eq, leb, ltb, if◌then◌else◌}
use subagent_broker.Common.Lists.{is_empty}

abbrev pub codes : String → List ℕ
codes String.[] = []
codes (String.◌∷◌ c s) = code c ∷ codes s

-- `unicode.IsSpace`.
unfoldable pub is_space : ℕ → Bool
is_space c =
    (leb 9 c && leb c 13)
    || c == 32
    || c == 0x85
    || c == 0xa0
    || c == 0x1680
    || (leb 0x2000 c && leb c 0x200a)
    || c == 0x2028
    || c == 0x2029
    || c == 0x202f
    || c == 0x205f
    || c == 0x3000

all_space : List ℕ → Bool
all_space [] = true
all_space (c ∷ cs) = is_space c && all_space cs

-- `strings.TrimSpace(s) == ""`.
unfoldable pub is_blank : String → Bool
unfolding all_space is_space
is_blank s = all_space (codes s)

-- `strings.ToLower` as far as it yields an ASCII letter: the ASCII capitals, the Kelvin sign and
-- the dotted capital I.
unfoldable pub to_lower : ℕ → ℕ
to_lower c =
    if leb b'A' c && leb c b'Z'
    then c + 32
    else if c == 0x212a
    then b'k'
    else if c == 0x130
    then b'i'
    else c

starts : List ℕ → List ℕ → Bool
starts s [] = true
starts [] (c ∷ cs) = false
starts (d ∷ ds) (c ∷ cs) = d == c && starts ds cs

occurs : List ℕ → List ℕ → Bool
unfolding starts
occurs [] sub = is_empty sub
occurs (c ∷ cs) sub = starts (c ∷ cs) sub || occurs cs sub

-- `strings.Contains(s, sub)` on code points.
unfoldable pub contains_codes : List ℕ → List ℕ → Bool
unfolding occurs
contains_codes s sub = occurs s sub

-- The folding by which encoding/json matches a key with a field's name.
unfoldable pub fold_code : ℕ → ℕ
fold_code c =
    if leb b'A' c && leb c b'Z'
    then c + 32
    else if c == 0x212a
    then b'k'
    else if c == 0x17f
    then b's'
    else c

unfoldable pub same_codes : List ℕ → List ℕ → Bool
same_codes [] [] = true
same_codes (c ∷ cs) (d ∷ ds) = c == d && same_codes cs ds
same_codes _ _ = false

unfoldable pub key_matches : String → String → Bool
unfolding fold_code same_codes
key_matches key name = same_codes (map fold_code (codes key)) (codes name)

-- `fmt.Sprintf` of texts, as its parts in order.
unfoldable pub sprint : List String → String
sprint [] = ""
sprint (s ∷ rest) = String.◌++◌ s (sprint rest)

pub sprint-not_empty : (s : String) (rest : List String) → s ≢ "" → sprint (s ∷ rest) ≢ ""
unfolding sprint
sprint-not_empty s rest n e = n ((append-eq-nil_iff {p = s} {q = sprint rest}).0 e).0

digit : ℕ → String
digit d =
    if d == 0
    then "0"
    else if d == 1
    then "1"
    else if d == 2
    then "2"
    else if d == 3
    then "3"
    else if d == 4
    then "4"
    else if d == 5
    then "5"
    else if d == 6
    then "6"
    else if d == 7
    then "7"
    else if d == 8
    then "8"
    else "9"

digits_from : ℕ → ℕ → String
unfolding digit
digits_from zero n = ""
digits_from (suc fuel) n =
    let rest = digits_from fuel (n / 10) in
    if ltb n 10 then digit n else String.◌++◌ rest (digit (n % 10))

-- `%d`; a number has no more digits than the number itself and one.
unfoldable pub decimal : ℕ → String
unfolding digits_from
decimal n = digits_from (suc n) n
