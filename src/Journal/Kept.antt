-- ===== src/Journal/Kept.antt =====
-- internal/storage/jsonl.go: the bytes that a replay leaves.
use subagent_broker.Common.{
  ℕ, ◌+◌, ◌≤◌, ◌≡◌, refl, sym, Bool, true, false, some, List, [], ◌∷◌, ◌++◌, nat_eq, length, flat,
  Result, arith, inl, inr, Result-cases,
}
use mathlib.Core.Path.{subst}
use subagent_broker.Journal.Lines.{
  Bytes, Ending, complete, incomplete, bad, out_of_fuel, Scan, tail_ending, scan, split, framed,
  run_lines,
}
use subagent_broker.Journal.Split.{scan-run_lines, split-Cuts}
use subagent_broker.Journal.File.{
  content, ReplayDisk, Replayed, replay_jsonl, replay_end, repair, is_unreadable,
}
use subagent_broker.Journal.Crash.{take-length, append-nil, length-line}

length-append : (a b : Bytes) → length (a ++ b) ≡ length a + length b
length-append [] b = omega arith
length-append (c ∷ a) b = omega (arith, length-append a b)

-- No byte is lost, and the last record ends in the file.
abbrev pub Keeps : {E S : Type 0} → Bytes → Replayed E S → Type 0
Keeps file out =
    (out.1.last_valid_offset ≤ length file)
    × (file ≡ content out.0.journal ++ content out.0.quarantine)

tail_of :
    {E : Type 0} (tail t : Bytes) → ◌≡◌ {A = Ending E} (tail_ending tail) (incomplete t) → t ≡ tail
tail_of [] t e = cc e
tail_of (c ∷ tail) t e = cc e

module _ {E S : Type 0} (handle : Bytes → ℕ → S → Result E S) where
  run_lines-bounds :
      (count offset : ℕ) (lines : List Bytes) (tail : Bytes) (s : S)
      → let found = run_lines handle count offset lines tail s in
        (offset ≤ found.last_valid_offset)
        × (found.last_valid_offset ≤ offset + length (framed lines))
        × ((t : Bytes)
            → found.ending ≡ incomplete t
            → (found.last_valid_offset ≡ offset + length (framed lines)) × (t ≡ tail))
  unfolding run_lines flat
  run_lines-bounds count offset [] tail s =
      (omega arith, omega arith, λ t e. (omega arith, tail_of tail t e))
  run_lines-bounds count offset (line ∷ lines) tail s =
      elim (Result-cases (handle line (count + 1) s)) [
        | inr (x, e) ↦ rw (e, run_lines) (omega arith, omega arith, λ t h. cc h)
        | inl (next, e) ↦
            let (low, high, end) =
              run_lines-bounds (count + 1) (offset + length line + 1) lines tail next in
            let size = length-line handle line (framed lines) in
            rw (e, run_lines)
              (
                omega (arith, low),
                omega (arith, high, size),
                λ t h. (omega (arith, (end t h).0, size), (end t h).1),
              )
      ]

  replay_end-Keeps :
      (wanted : Bool) (lines : List Bytes) (tail : Bytes) (found : Scan E S) (ending : Ending E)
      → found.last_valid_offset ≤ length (framed lines ++ tail)
      → ((t : Bytes)
          → ending ≡ incomplete t
          → (found.last_valid_offset ≡ length (framed lines)) × (t ≡ tail))
      → Keeps
          (framed lines ++ tail)
          (replay_end wanted ReplayDisk.works (framed lines ++ tail) found ending)
  unfolding replay_end repair
  replay_end-Keeps wanted lines tail found complete h k =
      (h, sym (append-nil (framed lines ++ tail)))
  replay_end-Keeps wanted lines tail found (bad n o e) h k =
      (h, sym (append-nil (framed lines ++ tail)))
  replay_end-Keeps wanted lines tail found out_of_fuel h k =
      (h, sym (append-nil (framed lines ++ tail)))
  replay_end-Keeps false lines tail found (incomplete t) h k =
      (h, sym (append-nil (framed lines ++ tail)))
  replay_end-Keeps true lines tail found (incomplete t) h k =
      let (o, same) = k t refl in (h, rw (o, same, take-length (framed lines) tail) refl)

  cut-Keeps :
      (wanted : Bool) (file : Bytes) (lines : List Bytes) (tail : Bytes) (found : Scan E S)
      → file ≡ framed lines ++ tail
      → found.last_valid_offset ≤ length (framed lines)
      → ((t : Bytes)
          → found.ending ≡ incomplete t
          → (found.last_valid_offset ≡ length (framed lines)) × (t ≡ tail))
      → Keeps file (replay_end wanted ReplayDisk.works file found found.ending)
  cut-Keeps wanted file lines tail found e h k =
      subst (λ (b : Bytes). Keeps b (replay_end wanted ReplayDisk.works b found found.ending))
        (sym e)
        (replay_end-Keeps wanted lines tail found found.ending
          (omega (arith, h, length-append (framed lines) tail)) k)

  -- A replay on a working disk keeps every byte of the file: the journal that it leaves and the
  -- quarantine file, one after the other, are the file. The offset of its last record lies in the file.
  pub replay_jsonl-Keeps :
      (wanted : Bool) (s : S) (file : Bytes)
      → Keeps file (replay_jsonl wanted ReplayDisk.works handle s (some file))
  unfolding replay_jsonl is_unreadable
  replay_jsonl-Keeps wanted s file =
      let joined = (split-Cuts file).joined in
      let lines = (split file).0 in
      let tail = (split file).1 in
      let (_, high, end) = run_lines-bounds 0 0 lines tail s in
      let same = scan-run_lines handle file s in
      cut-Keeps wanted file lines tail (scan handle file s) joined (rw same (omega (arith, high)))
        (rw same λ t h. (omega (arith, (end t h).0), (end t h).1))
