-- ===== src/Journal/Examples.antt =====
-- Tests and instances for internal/storage/jsonl.go and internal/event/event.go.
use subagent_broker.Common.{
  ℕ, String, ◌≡◌, ◌≢◌, ◌⊎◌, inl, refl, true, Option, none, some, List, [], ◌∷◌, ◌++◌, ok, err,
  Result, ℕ_discrete, arith, flat, nat_eq,
}
use subagent_broker.Message.Json.{RawMessage, document, text}
use subagent_broker.Journal.Lines.{Bytes, scan, split, framed, run_lines, newline}
use subagent_broker.Journal.Split.{NoNewline, scan-run_lines}
use subagent_broker.Journal.File.{
  AppendDisk, append_jsonl, ReplayDisk, replay_jsonl, trailing_newline, incomplete_tail, last_byte,
  has_complete_tail,
}
use subagent_broker.Journal.Crash.{fold_lines, Restored, append-replay}
use subagent_broker.Journal.Kept.{Keeps, replay_jsonl-Keeps}
use subagent_broker.Journal.Events.{
  Event, Input, EventStore, nothing_seen, see, replay_events, append_event, new_store, event_of,
}
use subagent_broker.Journal.Sample.{encode_among, decode_among, among_law}
use subagent_broker.Journal.Sequence.{Continues, append_event-Continues, append_event-replays}

-- Callbacks that keep the lines and refuse an empty one.
abbrev keep_lines : Bytes → ℕ → List Bytes → Result ℕ (List Bytes)
keep_lines [] n s = err n
keep_lines line n s = ok (s ++ line ∷ [])

abbrev two_and_tail : Bytes
two_and_tail = b'a' ∷ newline ∷ b'b' ∷ b'c' ∷ newline ∷ b'd' ∷ []

append_after_torn_tail :
    append_jsonl AppendDisk.written (b'x' ∷ []) (some two_and_tail)
    ≡ (some two_and_tail, some incomplete_tail)
unfolding append_jsonl ℕ_discrete has_complete_tail
append_after_torn_tail = refl

append_two_lines :
    (append_jsonl AppendDisk.written (b'x' ∷ newline ∷ []) none).1 ≡ some trailing_newline
unfolding append_jsonl last_byte ℕ_discrete
append_two_lines = refl

scan-run_lines_example :
    scan keep_lines two_and_tail []
    ≡ run_lines keep_lines 0 0 (split two_and_tail).0 (split two_and_tail).1 []
scan-run_lines_example = scan-run_lines keep_lines two_and_tail []

replay_jsonl-Keeps_example :
    Keeps two_and_tail (replay_jsonl true ReplayDisk.works keep_lines [] (some two_and_tail))
replay_jsonl-Keeps_example = replay_jsonl-Keeps keep_lines true [] two_and_tail

abbrev one_line : List Bytes
one_line = (b'a' ∷ []) ∷ []

unbroken_a : NoNewline (b'a' ∷ [])
unbroken_a = (omega arith, tt)

append-replay_example :
    let after = append_jsonl (AppendDisk.short 1) (b'b' ∷ b'c' ∷ []) (some (framed one_line)) in
    let out = replay_jsonl true ReplayDisk.works keep_lines [] after.0 in
    (Restored one_line one_line out × (after.1 ≢ none))
    ⊎ Restored (one_line ++ (b'b' ∷ b'c' ∷ []) ∷ []) (one_line ++ (b'b' ∷ b'c' ∷ []) ∷ []) out
unfolding fold_lines
append-replay_example =
    append-replay keep_lines (AppendDisk.short 1) (some (framed one_line)) one_line
      (b'b' ∷ b'c' ∷ []) [] one_line (one_line ++ (b'b' ∷ b'c' ∷ []) ∷ []) refl (unbroken_a, tt)
      (omega arith, (omega arith, tt)) refl refl

abbrev started : Input
started = record {
  task_id = "";
  worker_id = "";
  timestamp = 5;
  source = "supervisor";
  type = "run.state_changed";
  severity = "info";
  payload = some (document (text "x"));
}

abbrev empty_store : EventStore
unfolding new_store
empty_store = new_store none "run-1" 0

abbrev first_event : Event
unfolding event_of
first_event = event_of empty_store started (document (text "x")) "event-1" 5

abbrev encode : Event → Option Bytes
unfolding encode_among
encode = encode_among first_event first_event

abbrev decode : Bytes → Option Event
unfolding decode_among
decode = decode_among first_event first_event

codec_law :
    (e : Event) (line : Bytes) → encode e ≡ some line → (decode line ≡ some e) × NoNewline line
unfolding encode decode
codec_law = among_law first_event first_event

run_named : let s : String = "run-1" in s ≢ ""
run_named e = cc e

event_named : let s : String = "event-1" in s ≢ ""
event_named e = cc e

empty_store-Continues : Continues encode decode empty_store nothing_seen
unfolding fold_lines new_store flat
empty_store-Continues = record {
  lines = [];
  file = refl;
  unbroken = tt;
  read = refl;
  next = refl;
  run = inl refl;
}

abbrev after_first : EventStore
unfolding append_event encode
after_first =
    (append_event encode decode AppendDisk.written 9 (some "event-1") started empty_store).0

append_event-Continues_example : Continues encode decode after_first (see first_event nothing_seen)
unfolding append_event encode empty_store append_jsonl has_complete_tail
append_event-Continues_example =
    append_event-Continues encode decode codec_law AppendDisk.written 9 "event-1" started
      empty_store after_first nothing_seen first_event empty_store-Continues run_named event_named
      (omega arith) refl

append_event-replays_example :
    let after =
      append_event encode decode (AppendDisk.short 0) 9 (some "event-1") started empty_store in
    let out = replay_events encode decode ReplayDisk.works after.0.file in
    (out.2 ≡ none)
    × ((out.1.state ≡ nothing_seen)
        ⊎ ((payload : RawMessage) × (started.payload ≡ some payload)
            × (out.1.state ≡ see (event_of empty_store started payload "event-1" 9) nothing_seen)))
unfolding empty_store
append_event-replays_example =
    append_event-replays encode decode codec_law (AppendDisk.short 0) 9 "event-1" started
      empty_store nothing_seen empty_store-Continues run_named event_named
