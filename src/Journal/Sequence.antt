-- ===== src/Journal/Sequence.antt =====
-- internal/event/event.go: the event store beside a replay of its file.
use subagent_broker.Common.{
  ℕ, ◌+◌, ◌%◌, ◌<◌, String, ◌≡◌, ◌≢◌, refl, sym, ap, ◌∙◌, ◌⊎◌, inl, inr, Option, none, some, List,
  [], ◌∷◌, ◌++◌, ◌==◌, ◌||◌, string_eq, nat_eq, ok, arith, All, length, Option-cases, Bool-cases,
}
use subagent_broker.Message.Json.{RawMessage}
use subagent_broker.Journal.Lines.{Bytes, framed, newline}
use subagent_broker.Journal.Split.{NoNewline}
use subagent_broker.Journal.File.{File, content, AppendDisk, append_jsonl, ReplayDisk}
use subagent_broker.Journal.Crash.{
  fold_lines, fold_lines-snoc, append-replay, append-Parts, whole-Restored, framed-snoc, All-snoc,
}
use subagent_broker.Journal.Events.{
  Event, Input, EventStore, Seen, nothing_seen, see, check_event, read_event, replay_events,
  append_event, marshalled, identified, written_event, event_of, two_64,
}

schema_named : let schema : String = "v1alpha1" in schema ≢ ""
schema_named e = cc e

-- An append without an error wrote all of the line.
appended :
    (disk : AppendDisk) (r : Bytes) (f : File)
    → (append_jsonl disk r f).1 ≡ none
    → (append_jsonl disk r f).0 ≡ some (content f ++ (r ++ newline ∷ []))
appended disk r f h = elim (append-Parts disk r f) [
  | inl (kept, failed) ↦ absurd (failed h)
  | inr (inl (part, failed)) ↦ absurd (failed h)
  | inr (inr whole) ↦ whole
]

module _ (encode : Event → Option Bytes) (decode : Bytes → Option Event) where
  -- The store goes on after the last event of its file.
  pub record Continues (s : EventStore) (seen : Seen) : Type 0 where
    pub lines : List Bytes
    pub file : content s.file ≡ framed lines
    pub unbroken : All NoNewline lines
    pub read : fold_lines (read_event encode decode) 0 lines nothing_seen ≡ ok seen
    pub next : s.next_seq ≡ seen.last_seq + 1
    pub run : (seen.run_id ≡ "") ⊎ (seen.run_id ≡ s.run_id)

  event_accepted :
      (s : EventStore) (seen : Seen) (input : Input) (payload : RawMessage) (id : String) (now : ℕ)
      → Continues s seen
      → s.run_id ≢ ""
      → id ≢ ""
      → check_event (event_of s input payload id now) seen ≡ ok tt
  unfolding check_event event_of
  event_accepted s seen input payload id now h r i = ground (arith, h.next, h.run, schema_named)

  -- What a successful append did.
  pub record Wrote (disk : AppendDisk) (now : ℕ) (id : String) (input : Input)
      (s after : EventStore) (e : Event) : Type 0 where
    pub payload : RawMessage
    pub given : input.payload ≡ some payload
    pub made : e ≡ event_of s input payload id now
    pub line : Bytes
    pub encoded : encode e ≡ some line
    pub unfailed : (append_jsonl disk line s.file).1 ≡ none
    pub store : after ≡ record s {
      file = (append_jsonl disk line s.file).0;
      next_seq = (s.next_seq + 1) % two_64;
    }

  pub append_event-Wrote :
      (disk : AppendDisk) (now : ℕ) (id : String) (input : Input) (s after : EventStore) (e : Event)
      → append_event encode decode disk now (some id) input s ≡ (after, ok e)
      → Wrote disk now id input s after e
  unfolding append_event marshalled identified written_event
  append_event-Wrote disk now id input s after e h = elim (Option-cases input.payload) [
    | inl p ↦ ground arith
    | inr (payload, p) ↦ elim (Option-cases (encode (event_of s input payload id now))) [
      | inl c ↦ ground arith
      | inr (line, c) ↦ elim (Option-cases (append_jsonl disk line s.file).1) [
        | inl ok_write ↦ record {
          payload = payload;
          given = p;
          made = ground arith;
          line = line;
          encoded = ground arith;
          unfailed = ok_write;
          store = ground arith;
        }
        | inr (x, failed) ↦ ground arith
      ]
    ]
  ]

  -- The file of the store after an append: as it was, or after the append of one line.
  append_event-file :
      (disk : AppendDisk) (now : ℕ) (id : String) (input : Input) (s : EventStore)
      → let after = append_event encode decode disk now (some id) input s in
        (after.0.file ≡ s.file)
        ⊎ ((payload : RawMessage) × (line : Bytes) × (input.payload ≡ some payload)
            × (encode (event_of s input payload id now) ≡ some line)
            × (after.0.file ≡ (append_jsonl disk line s.file).0))
  unfolding append_event marshalled identified written_event
  append_event-file disk now id input s = elim (Option-cases input.payload) [
    | inl p ↦ ground arith
    | inr (payload, p) ↦ elim (Option-cases (encode (event_of s input payload id now))) [
      | inl c ↦ ground arith
      | inr (line, c) ↦ elim (Option-cases (append_jsonl disk line s.file).1) [
        | inl ok_write ↦ elim (Bool-cases (input.type == "" || input.source == "")) [
          | inl b ↦ inl (ground arith)
          | inr b ↦ inr (payload, line, p, c, ground arith)
        ]
        | inr (x, failed) ↦ elim (Bool-cases (input.type == "" || input.source == "")) [
          | inl b ↦ inl (ground arith)
          | inr b ↦ inr (payload, line, p, c, ground arith)
        ]
      ]
    ]
  ]

  -- A replay of the file gives what the store goes on after.
  pub Continues-replays :
      (s : EventStore) (seen : Seen)
      → Continues s seen
      → let out = replay_events encode decode ReplayDisk.works s.file in
        (out.2 ≡ none) × (out.1.state ≡ seen)
  unfolding replay_events
  Continues-replays s seen h =
      let (a, b, c) =
        whole-Restored (read_event encode decode) s.file h.lines nothing_seen seen h.file h.unbroken
          h.read in
      (a, c)

  module _
      (law : (e : Event) (line : Bytes)
        → encode e ≡ some line
        → (decode line ≡ some e) × NoNewline line) where
    event_seq :
        (s : EventStore) (input : Input) (payload : RawMessage) (id : String) (now : ℕ) (e : Event)
        → e ≡ event_of s input payload id now
        → s.next_seq + 1 < two_64
        → ((s.next_seq + 1) % two_64 ≡ e.seq + 1) × (e.run_id ≡ s.run_id)
    unfolding event_of
    event_seq s input payload id now e h bound = (rw h (omega (arith, bound)), rw h refl)

    line_read :
        (s : EventStore) (seen : Seen) (input : Input) (payload : RawMessage) (id : String)
        (now : ℕ) (line : Bytes) (n : ℕ)
        → Continues s seen
        → s.run_id ≢ ""
        → id ≢ ""
        → encode (event_of s input payload id now) ≡ some line
        → read_event encode decode line n seen ≡ ok (see (event_of s input payload id now) seen)
    unfolding read_event
    line_read s seen input payload id now line n h r i c = ground (
      arith,
      (law (event_of s input payload id now) line c).0,
      event_accepted s seen input payload id now h r i,
    )

    -- A successful append of an event leads from a store that goes on after the last event of its file
    -- to such a store, whose file has the event at the end. `decode` reads what `encode` wrote, in
    -- which there is no newline; the run and the event have an id; the sequence numbers do not reach
    -- their last.
    pub append_event-Continues :
        (disk : AppendDisk) (now : ℕ) (id : String) (input : Input) (s after : EventStore)
        (seen : Seen) (e : Event)
        → Continues s seen
        → s.run_id ≢ ""
        → id ≢ ""
        → s.next_seq + 1 < two_64
        → append_event encode decode disk now (some id) input s ≡ (after, ok e)
        → Continues after (see e seen)
    append_event-Continues disk now id input s after seen e h r i bound done =
        let wrote = append_event-Wrote disk now id input s after e done in
        let (read, clean) = law e wrote.line wrote.encoded in
        let accepted : read_event encode decode wrote.line (0 + length h.lines + 1) seen
            ≡ ok (see e seen) =
          rw wrote.made (
            line_read s seen input wrote.payload id now wrote.line _ h r i
              (rw (← wrote.made) wrote.encoded)) in
        record {
          lines = h.lines ++ wrote.line ∷ [];
          file = rw wrote.store (
              rw (appended disk wrote.line s.file wrote.unfailed) (
                ap (λ b. b ++ (wrote.line ++ newline ∷ [])) h.file
                ∙ sym (framed-snoc h.lines wrote.line)));
          unbroken = All-snoc h.lines wrote.line h.unbroken clean;
          read =
              fold_lines-snoc (read_event encode decode) 0 h.lines wrote.line nothing_seen seen
                (see e seen) h.read accepted;
          next = rw wrote.store (event_seq s input wrote.payload id now e wrote.made bound).0;
          run = inr (rw wrote.store (event_seq s input wrote.payload id now e wrote.made bound).1);
        }

    -- Whatever the disk does to the append of an event, a repairing replay of the file afterwards ends
    -- without an error and gives the earlier events, and after them nothing or the event that the input
    -- describes, with the sequence number that was next.
    pub append_event-replays :
        (disk : AppendDisk) (now : ℕ) (id : String) (input : Input) (s : EventStore) (seen : Seen)
        → Continues s seen
        → s.run_id ≢ ""
        → id ≢ ""
        → let after = append_event encode decode disk now (some id) input s in
          let out = replay_events encode decode ReplayDisk.works after.0.file in
          (out.2 ≡ none)
          × ((out.1.state ≡ seen)
              ⊎ ((payload : RawMessage) × (input.payload ≡ some payload)
                  × (out.1.state ≡ see (event_of s input payload id now) seen)))
    unfolding replay_events
    append_event-replays disk now id input s seen h r i =
        elim (append_event-file disk now id input s) [
          | inl same ↦
              let (a, b, c) =
                whole-Restored (read_event encode decode) s.file h.lines nothing_seen seen h.file
                  h.unbroken h.read in
              rw same (a, inl c)
          | inr (payload, line, p, c, f) ↦
              let e = event_of s input payload id now in
              elim (append-replay (read_event encode decode) disk s.file h.lines line nothing_seen
                seen (see e seen) h.file h.unbroken (law e line c).1 h.read
                (line_read s seen input payload id now line _ h r i c)) [
                  | inl (restored, failed) ↦ rw f (restored.0, inl restored.2)
                  | inr restored ↦ rw f (restored.0, inr (payload, p, restored.2))
                ]
        ]
