-- ===== src/Journal/Split.antt =====
-- internal/storage/jsonl.go: the scan beside the cutting of a whole file.
use subagent_broker.Common.{
  ℕ, zero, suc, ◌+◌, ◌<◌, ◌≡◌, ◌≢◌, refl, ap, ◌∙◌, none, some, List, [], ◌∷◌, ◌++◌, ◌==◌, nat_eq,
  length, flat, All, Result, arith, Bool-cases, Option-cases, inl, inr, Result-cases,
}
use subagent_broker.Journal.Lines.{
  Bytes, newline, find_newline, scan_loop, scan, split, framed, run_lines, push, prepend,
}

-- `find_newline` finds the first line of `split`, or the file is all tail.
find_newline-none : (file : Bytes) → find_newline file ≡ none → split file ≡ ([], file)
unfolding find_newline split prepend push
find_newline-none [] h = refl
find_newline-none (c ∷ rest) h = ground (arith, find_newline-none rest)

find_newline-some :
    (file line rest : Bytes)
    → find_newline file ≡ some (line, rest)
    → (split file ≡ (line ∷ (split rest).0, (split rest).1))
      × (length file ≡ length line + 1 + length rest)
      × (file ≡ line ++ newline ∷ rest)
unfolding find_newline split prepend push
find_newline-some [] line rest h = cc
find_newline-some (c ∷ file) line rest h = elim (Bool-cases (c == newline)) [
  | inl e ↦ ground arith
  | inr e ↦ elim (Option-cases (find_newline file)) [
    | inl n ↦ ground (arith, n)
    | inr ((l, r), f) ↦ let (s, n, d) = find_newline-some file l r f in ground (arith, f, s, n, d)
  ]
]

abbrev pub NoNewline : Bytes → Type 0
NoNewline line = All (λ c. c ≢ newline) line

-- Pushing a byte that is no newline onto the first line or the tail.
split-byte : (c : ℕ) (rest : Bytes) → c ≢ newline → split (c ∷ rest) ≡ push c (split rest)
unfolding split
split-byte c rest n = ground arith

split-line :
    (line rest : Bytes)
    → NoNewline line
    → split (line ++ newline ∷ rest) ≡ (line ∷ (split rest).0, (split rest).1)
unfolding split push
split-line [] rest h = ground arith
split-line (c ∷ line) rest h =
    split-byte c (line ++ newline ∷ rest) h.0 ∙ ap (push c) (split-line line rest h.1)

split-tail : (tail : Bytes) → NoNewline tail → split tail ≡ ([], tail)
unfolding split push
split-tail [] h = refl
split-tail (c ∷ rest) h = split-byte c rest h.0 ∙ ap (push c) (split-tail rest h.1)

append_assoc {ℓ} : {A : Type ℓ} (xs ys zs : List A) → (xs ++ ys) ++ zs ≡ xs ++ (ys ++ zs)
append_assoc [] ys zs = refl
append_assoc (x ∷ xs) ys zs = ap (λ l. x ∷ l) (append_assoc xs ys zs)

-- Cutting written records and an unfinished one gives them back.
pub split-framed :
    (lines : List Bytes) (tail : Bytes)
    → All NoNewline lines
    → NoNewline tail
    → split (framed lines ++ tail) ≡ (lines, tail)
unfolding flat
split-framed [] tail h k = split-tail tail k
split-framed (line ∷ lines) tail h k =
    ap split (
      append_assoc (line ++ newline ∷ []) (framed lines) tail
      ∙ append_assoc line (newline ∷ []) (framed lines ++ tail))
    ∙ split-line line (framed lines ++ tail) h.0
    ∙ ap (λ (p : List Bytes × Bytes). (line ∷ p.0, p.1)) (split-framed lines tail h.1 k)

-- The lines and the tail make the file, and no newline stands in them.
pub record Cuts (file : Bytes) (p : List Bytes × Bytes) : Type 0 where
  pub joined : file ≡ framed p.0 ++ p.1
  pub lines : All NoNewline p.0
  pub tail : NoNewline p.1

push-Cuts :
    (c : ℕ) (file : Bytes) (p : List Bytes × Bytes)
    → c ≢ newline
    → Cuts file p
    → Cuts (c ∷ file) (push c p)
unfolding push flat
push-Cuts c file ([], tail) n h = record {
  joined = ap (λ l. c ∷ l) h.joined;
  lines = tt;
  tail = (n, h.tail);
}
push-Cuts c file (line ∷ lines, tail) n h = record {
  joined = ap (λ l. c ∷ l) h.joined;
  lines = ((n, h.lines.0), h.lines.1);
  tail = h.tail;
}

newline-Cuts :
    (c : ℕ) (file : Bytes) (p : List Bytes × Bytes)
    → c ≡ newline
    → Cuts file p
    → Cuts (c ∷ file) ([] ∷ p.0, p.1)
unfolding flat
newline-Cuts c file p e h = record {
  joined = ground (arith, e, h.joined);
  lines = (tt, h.lines);
  tail = h.tail;
}

-- Nothing is lost by cutting a file.
pub split-Cuts : (file : Bytes) → Cuts file (split file)
unfolding split flat
split-Cuts [] = record { joined = refl; lines = tt; tail = tt }
split-Cuts (c ∷ rest) = elim (Bool-cases (c == newline)) [
  | inl e ↦ rw (e, split) (newline-Cuts c rest (split rest) (ground arith) (split-Cuts rest))
  | inr e ↦ rw (e, split) (push-Cuts c rest (split rest) (ground arith) (split-Cuts rest))
]

-- The scan is the run over the lines of the whole file: it needs no more rounds than bytes.
scan_loop-lines :
    {E S : Type 0} (handle : Bytes → ℕ → S → Result E S) (fuel count offset : ℕ) (file : Bytes)
    (s : S)
    → length file < fuel
    → scan_loop handle fuel count offset file s
      ≡ run_lines handle count offset (split file).0 (split file).1 s
unfolding scan_loop run_lines
scan_loop-lines handle zero count offset file s h = absurd (omega (arith, h))
scan_loop-lines handle (suc fuel) count offset file s h = elim (Option-cases (find_newline file)) [
  | inl n ↦ rw (n, find_newline-none file n, scan_loop) refl
  | inr ((line, rest), f) ↦
      let (s', n, d) = find_newline-some file line rest f in
      elim (Result-cases (handle line (count + 1) s)) [
        | inr (e, x) ↦ rw (f, s', scan_loop) (rw (x, scan_loop, run_lines) refl)
        | inl (next, x) ↦
            rw (f, s', scan_loop)
              (rw (x, scan_loop, run_lines)
                (scan_loop-lines handle fuel (count + 1) (offset + length line + 1) rest next
                  (omega (arith, n, h))))
      ]
]

-- A scan of a whole file handles the lines of the file one after another: it never runs out of the
-- rounds that it is given.
pub scan-run_lines :
    {E S : Type 0} (handle : Bytes → ℕ → S → Result E S) (file : Bytes) (s : S)
    → scan handle file s ≡ run_lines handle 0 0 (split file).0 (split file).1 s
unfolding scan
scan-run_lines handle file s = scan_loop-lines handle (suc (length file)) 0 0 file s (omega arith)
