-- ===== src/Journal/Lines.antt =====
-- internal/storage/jsonl.go: how a scan cuts a file into records.
use subagent_broker.Common.{
  ℕ, zero, suc, ◌+◌, Option, none, some, List, [], ◌∷◌, ◌++◌, ◌==◌, nat_eq, if◌then◌else◌, length,
  flat, Result, ok, err,
}

-- The bytes of a file.
abbrev pub Bytes : Type 0
Bytes = List ℕ

abbrev pub newline : ℕ
newline = b'\n'

unfoldable pub prepend : ℕ → Option (Bytes × Bytes) → Option (Bytes × Bytes)
prepend c none = none
prepend c (some (line, rest)) = some (c ∷ line, rest)

-- The inner loop: the bytes before the first newline, and those after it.
unfoldable pub find_newline : Bytes → Option (Bytes × Bytes)
unfolding prepend
find_newline [] = none
find_newline (c ∷ rest) =
    let later = prepend c (find_newline rest) in if c == newline then some ([], rest) else later

-- How a scan ends. `bad` has the number and the offset of the line that a callback refused;
-- `out_of_fuel` belongs to the model only.
pub data Ending (E : Type 0) : Type 0 where
  complete : Ending E
  incomplete : Bytes → Ending E
  bad : ℕ → ℕ → E → Ending E
  out_of_fuel : Ending E

pub record Scan (E S : Type 0) : Type 0 where
  pub state : S
  pub record_count : ℕ
  pub last_valid_offset : ℕ
  pub ending : Ending E

abbrev pub tail_ending : {E : Type 0} → Bytes → Ending E
tail_ending [] = complete
tail_ending (c ∷ rest) = incomplete (c ∷ rest)

-- `handle` is `validate` and then `consume`, which share the state of their caller. It is given the
-- line and its number.
module _ {E S : Type 0} (handle : Bytes → ℕ → S → Result E S) where
  abbrev finish : S → ℕ → ℕ → Ending E → Scan E S
  finish s count offset ending = record {
    state = s;
    record_count = count;
    last_valid_offset = offset;
    ending = ending;
  }

  -- The loop over the file; `file` is what is left from `offset` on.
  unfoldable pub scan_loop : ℕ → ℕ → ℕ → Bytes → S → Scan E S
  scan_loop zero count offset file s = finish s count offset out_of_fuel
  scan_loop (suc fuel) count offset file s = elim (find_newline file) [
    | none ↦ finish s count offset (tail_ending file)
    | some (line, rest) ↦ elim (handle line (count + 1) s) [
      | err e ↦ finish s count offset (bad (count + 1) offset e)
      | ok next ↦ scan_loop fuel (count + 1) (offset + length line + 1) rest next
    ]
  ]

  unfoldable pub scan : Bytes → S → Scan E S
  unfolding scan_loop
  scan file s = scan_loop (suc (length file)) 0 0 file s

-- The records of a file and what is left after the last newline, by recursion on the bytes.
unfoldable pub push : ℕ → List Bytes × Bytes → List Bytes × Bytes
push c ([], tail) = ([], c ∷ tail)
push c (line ∷ lines, tail) = ((c ∷ line) ∷ lines, tail)

unfoldable pub split : Bytes → List Bytes × Bytes
unfolding push
split [] = ([], [])
split (c ∷ rest) =
    let (lines, tail) = split rest in
    if c == newline then ([] ∷ lines, tail) else push c (lines, tail)

-- The bytes of records.
abbrev pub framed : List Bytes → Bytes
framed lines = flat (λ line. line ++ newline ∷ []) lines

-- One record after another, without positions in a file.
module _ {E S : Type 0} (handle : Bytes → ℕ → S → Result E S) where
  unfoldable pub run_lines : ℕ → ℕ → List Bytes → Bytes → S → Scan E S
  run_lines count offset [] tail s = record {
    state = s;
    record_count = count;
    last_valid_offset = offset;
    ending = tail_ending tail;
  }
  run_lines count offset (line ∷ lines) tail s = elim (handle line (count + 1) s) [
    | err e ↦ record {
      state = s;
      record_count = count;
      last_valid_offset = offset;
      ending = bad (count + 1) offset e;
    }
    | ok next ↦ run_lines (count + 1) (offset + length line + 1) lines tail next
  ]
