-- ===== src/Journal/Crash.antt =====
-- internal/storage/jsonl.go: what a replay reads after an append, whole or torn.
use subagent_broker.Common.{
  ℕ, zero, suc, ◌+◌, ◌≡◌, ◌≢◌, refl, sym, ap, ◌∙◌, true, Option, none, some, List, [], ◌∷◌, ◌++◌,
  ◌==◌, nat_eq, length, flat, All, Result, ok, ◌>>=◌, arith, Bool-cases, Option-cases, ◌⊎◌, inl,
  inr, >>=-eq-ok,
}
use subagent_broker.Journal.Lines.{Bytes, newline, Scan, tail_ending, scan, framed, run_lines}
use subagent_broker.Journal.Split.{NoNewline, split-framed, scan-run_lines}
use subagent_broker.Journal.File.{
  File, content, take, AppendDisk, AppendError, has_complete_tail, append_jsonl, write, last_byte,
  has_no_directory, ReplayDisk, Replayed, replay_jsonl, replay_end, repair, is_unreadable,
  empty_replay,
}

module _ {E S : Type 0} (handle : Bytes → ℕ → S → Result E S) where
  -- The callbacks over whole lines, numbered after `count`.
  unfoldable pub fold_lines : ℕ → List Bytes → S → Result E S
  fold_lines count [] s = ok s
  fold_lines count (line ∷ lines) s = do
    next ← handle line (count + 1) s
    fold_lines (count + 1) lines next

  pub fold_lines-snoc :
      (count : ℕ) (lines : List Bytes) (r : Bytes) (s next last : S)
      → fold_lines count lines s ≡ ok next
      → handle r (count + length lines + 1) next ≡ ok last
      → fold_lines count (lines ++ r ∷ []) s ≡ ok last
  unfolding fold_lines
  fold_lines-snoc count [] r s next last h k = ground (arith, h, k)
  fold_lines-snoc count (line ∷ lines) r s next last h k =
      let (mid, first, rest) = >>=-eq-ok (handle line (count + 1) s) _ h in
      let same : count + 1 + length lines + 1 ≡ count + length (line ∷ lines) + 1 = omega arith in
      rw (first, fold_lines) (fold_lines-snoc (count + 1) lines r mid next last rest (rw same k))

  pub length-line :
      (line rest : Bytes) → length ((line ++ newline ∷ []) ++ rest) ≡ length line + 1 + length rest
  length-line [] rest = omega arith
  length-line (c ∷ line) rest = omega (arith, length-line line rest)

  run_lines-ok :
      (count offset : ℕ) (lines : List Bytes) (tail : Bytes) (s next : S)
      → fold_lines count lines s ≡ ok next
      → (run_lines handle count offset lines tail s).state ≡ next
        × ((run_lines handle count offset lines tail s).last_valid_offset
            ≡ offset + length (framed lines))
        × ((run_lines handle count offset lines tail s).ending ≡ tail_ending tail)
  unfolding fold_lines run_lines flat
  run_lines-ok count offset [] tail s next h = (ground arith, omega arith, refl)
  run_lines-ok count offset (line ∷ lines) tail s next h =
      let (mid, first, rest) = >>=-eq-ok (handle line (count + 1) s) _ h in
      let (a, b, c) =
        run_lines-ok (count + 1) (offset + length line + 1) lines tail mid next rest in
      rw (first, run_lines) (a, b ∙ omega (arith, length-line line (framed lines)), c)

pub take-length : (a b : Bytes) → take (length a) (a ++ b) ≡ a
unfolding take
take-length [] [] = refl
take-length [] (c ∷ b) = refl
take-length (c ∷ a) b = ap (λ l. c ∷ l) (take-length a b)

take-all : (a : Bytes) → take (length a) a ≡ a
unfolding take
take-all [] = refl
take-all (c ∷ a) = ap (λ l. c ∷ l) (take-all a)

take-NoNewline : (n : ℕ) (a : Bytes) → NoNewline a → NoNewline (take n a)
unfolding take
take-NoNewline zero a h = tt
take-NoNewline (suc n) [] h = tt
take-NoNewline (suc n) (c ∷ a) h = (h.0, take-NoNewline n a h.1)

pub append-nil {ℓ} : {A : Type ℓ} (xs : List A) → xs ++ [] ≡ xs
append-nil [] = refl
append-nil (x ∷ xs) = ap (λ l. x ∷ l) (append-nil xs)

append_assoc {ℓ} : {A : Type ℓ} (xs ys zs : List A) → (xs ++ ys) ++ zs ≡ xs ++ (ys ++ zs)
append_assoc [] ys zs = refl
append_assoc (x ∷ xs) ys zs = ap (λ l. x ∷ l) (append_assoc xs ys zs)

pub All-snoc :
    (lines : List Bytes) (r : Bytes)
    → All NoNewline lines
    → NoNewline r
    → All NoNewline (lines ++ r ∷ [])
All-snoc [] r h k = (k, tt)
All-snoc (line ∷ lines) r h k = (h.0, All-snoc lines r h.1 k)

pub framed-snoc :
    (lines : List Bytes) (r : Bytes)
    → framed (lines ++ r ∷ []) ≡ framed lines ++ (r ++ newline ∷ [])
unfolding flat
framed-snoc [] r = append-nil (r ++ newline ∷ [])
framed-snoc (line ∷ lines) r =
    ap (λ l. (line ++ newline ∷ []) ++ l) (framed-snoc lines r)
    ∙ sym (append_assoc (line ++ newline ∷ []) (framed lines) (r ++ newline ∷ []))

-- What an append leaves of a record: nothing or a part of it, with an error, or all of it.
abbrev pub Parts : Bytes → File → File × Option AppendError → Type 0
Parts r f after =
    ((after.0 ≡ f) × (after.1 ≢ none))
    ⊎ (((n : ℕ) × (after.0 ≡ some (content f ++ take n r))) × (after.1 ≢ none))
    ⊎ (after.0 ≡ some (content f ++ (r ++ newline ∷ [])))

kept-Parts : (r : Bytes) (f : File) (e : AppendError) → Parts r f (f, some e)
kept-Parts r f e = inl (refl, λ h. cc h)

write-Parts : (disk : AppendDisk) (r : Bytes) (f : File) → Parts r f (write disk r f)
unfolding write
write-Parts AppendDisk.written r f = inr (inr refl)
write-Parts AppendDisk.no_directory r f = kept-Parts r f _
write-Parts AppendDisk.unopened r f = kept-Parts r f _
write-Parts (AppendDisk.short n) r f = inr (inl ((n, refl), λ h. cc h))
write-Parts AppendDisk.no_newline r f =
    inr (inl ((length r, ap (λ l. some (content f ++ l)) (sym (take-all r))), λ h. cc h))
write-Parts AppendDisk.unsynced r f = inr (inr refl)

pub append-Parts : (disk : AppendDisk) (r : Bytes) (f : File) → Parts r f (append_jsonl disk r f)
unfolding append_jsonl
append-Parts disk r f = elim (Option-cases (last_byte r)) [
  | inl e ↦ rw (e, append_jsonl) (kept-Parts r f _)
  | inr (c, e) ↦
      rw (e, append_jsonl)
        (elim (Bool-cases (c == newline)) [
          | inl t ↦ rw t (kept-Parts r f _)
          | inr t ↦ rw t (elim (Bool-cases (has_no_directory disk)) [
            | inl d ↦ rw d (kept-Parts r f _)
            | inr d ↦ rw d (elim (Bool-cases (has_complete_tail f)) [
              | inl g ↦ rw g (write-Parts disk r f)
              | inr g ↦ rw g (kept-Parts r f _)
            ])
          ])
        ])
]

-- A repaired replay keeps the records and builds the state that the callbacks build from them.
abbrev pub Restored : {E S : Type 0} → List Bytes → S → Replayed E S → Type 0
Restored lines next out =
    (out.2 ≡ none) × (content out.0.journal ≡ framed lines) × (out.1.state ≡ next)

pub zero_count : (lines : List Bytes) → length lines + 1 ≡ 0 + length lines + 1
zero_count lines = omega arith

module _ {E S : Type 0} (handle : Bytes → ℕ → S → Result E S) where
  replay_end-Restored :
      (lines : List Bytes) (tail : Bytes) (next : S) (found : Scan E S)
      → found.state ≡ next
      → found.last_valid_offset ≡ length (framed lines)
      → found.ending ≡ tail_ending tail
      → Restored lines next
          (replay_end true ReplayDisk.works (framed lines ++ tail) found found.ending)
  unfolding replay_end repair
  replay_end-Restored lines [] next found h o e = rw e (refl, append-nil (framed lines), h)
  replay_end-Restored lines (c ∷ tail) next found h o e =
      rw e (refl, rw o (take-length (framed lines) (c ∷ tail)), h)

  replay_jsonl-Restored :
      (lines : List Bytes) (tail : Bytes) (s next : S)
      → All NoNewline lines
      → NoNewline tail
      → fold_lines handle 0 lines s ≡ ok next
      → Restored lines next
          (replay_jsonl true ReplayDisk.works handle s (some (framed lines ++ tail)))
  unfolding replay_jsonl is_unreadable
  replay_jsonl-Restored lines tail s next h k f =
      let file = framed lines ++ tail in
      let (a, b, c) = run_lines-ok handle 0 0 lines tail s next f in
      let cut = split-framed lines tail h k in
      let same : scan handle file s ≡ run_lines handle 0 0 lines tail s =
        scan-run_lines handle file s ∙ rw cut refl in
      replay_end-Restored lines tail next (scan handle file s) (rw same a)
        (rw same (b ∙ omega arith)) (rw same c)

  -- A file that has records only is read back, if the file exists or not.
  pub whole-Restored :
      (f : File) (lines : List Bytes) (s next : S)
      → content f ≡ framed lines
      → All NoNewline lines
      → fold_lines handle 0 lines s ≡ ok next
      → Restored lines next (replay_jsonl true ReplayDisk.works handle s f)
  unfolding replay_jsonl empty_replay fold_lines flat
  whole-Restored none [] s next e h k = (refl, refl, ground arith)
  whole-Restored none ([] ∷ lines) s next e h k = cc e
  whole-Restored none ((c ∷ line) ∷ lines) s next e h k = cc e
  whole-Restored (some b) lines s next e h k =
      let full : b ≡ framed lines ++ [] = e ∙ sym (append-nil (framed lines)) in
      rw full (replay_jsonl-Restored lines [] s next h tt k)

  -- Whatever the disk does to an append to a file of whole records, a repairing replay of the file
  -- afterwards reads the records before it, and the new record either whole or not at all; it reads
  -- the new record if the append answered without an error. The records have no newline in them, and
  -- the callbacks accept them.
  pub append-replay :
      (disk : AppendDisk) (f : File) (lines : List Bytes) (r : Bytes) (s next last : S)
      → content f ≡ framed lines
      → All NoNewline lines
      → NoNewline r
      → fold_lines handle 0 lines s ≡ ok next
      → handle r (length lines + 1) next ≡ ok last
      → let after = append_jsonl disk r f in
        let out = replay_jsonl true ReplayDisk.works handle s after.0 in
        (Restored lines next out × (after.1 ≢ none)) ⊎ Restored (lines ++ r ∷ []) last out
  append-replay disk f lines r s next last w h k fold g = elim (append-Parts disk r f) [
    | inl (kept, failed) ↦ inl (rw kept (whole-Restored f lines s next w h fold), failed)
    | inr (inl ((n, part), failed)) ↦ inl (
      rw (part, w) (replay_jsonl-Restored lines (take n r) s next h (take-NoNewline n r k) fold),
      failed,
    )
    | inr (inr whole) ↦
        let folded =
          fold_lines-snoc handle 0 lines r s next last fold (rw (← zero_count lines) g) in
        inr (
          rw whole (
            whole-Restored (some (content f ++ (r ++ newline ∷ []))) (lines ++ r ∷ []) s last
              (ap (λ b. b ++ (r ++ newline ∷ [])) w ∙ sym (framed-snoc lines r))
              (All-snoc lines r h k) folded))
  ]
