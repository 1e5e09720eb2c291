-- ===== src/Journal/Events.antt =====
-- internal/event/event.go: the event journal. encoding/json is a parameter: `encode` and `decode` are
-- what `json.Marshal` makes of an event and `json.Unmarshal` of a line.
use subagent_broker.Common.{
  ℕ, ◌+◌, ◌%◌, String, true, Option, none, some, List, [], ◌∷◌, ◌++◌, ◌==◌, ◌||◌, not, leb,
  string_eq, nat_eq, if◌then◌else◌, Result, ok, err, ◌>>◌, fail_if,
}
use subagent_broker.Message.Json.{RawMessage}
use subagent_broker.Journal.Lines.{Bytes}
use subagent_broker.Journal.File.{
  File, AppendDisk, AppendError, append_jsonl, ReplayDisk, Replayed, replay_jsonl,
}

abbrev schema_version : String
schema_version = "v1alpha1"

-- A sequence number is a `uint64`.
abbrev pub two_64 : ℕ
two_64 = 18446744073709551616

-- Times are nanoseconds after Go's zero time.
pub record Event : Type 0 where
  pub schema : String
  pub seq : ℕ
  pub event_id : String
  pub run_id : String
  pub task_id : String
  pub worker_id : String
  pub timestamp : ℕ
  pub source : String
  pub type : String
  pub severity : String
  pub payload : RawMessage

-- `payload` is what `json.Marshal` made of the payload, if it could.
pub record Input : Type 0 where
  pub task_id : String
  pub worker_id : String
  pub timestamp : ℕ
  pub source : String
  pub type : String
  pub severity : String
  pub payload : Option RawMessage

pub record EventStore : Type 0 where
  pub file : File
  pub run_id : String
  pub next_seq : ℕ

pub data EventError : Type 0 where
  source_and_type_required bad_payload id_failure unencodable : EventError
  not_written : AppendError → EventError

-- `NewStore`; `file` is the file at its path.
unfoldable pub new_store : File → String → ℕ → EventStore
new_store file run_id start_seq = record {
  file = file;
  run_id = run_id;
  next_seq = (start_seq + 1) % two_64;
}

unfoldable pub event_of : EventStore → Input → RawMessage → String → ℕ → Event
event_of s input payload id now = record {
  schema = schema_version;
  seq = s.next_seq;
  event_id = id;
  run_id = s.run_id;
  task_id = input.task_id;
  worker_id = input.worker_id;
  timestamp = if input.timestamp == 0 then now else input.timestamp;
  source = input.source;
  type = input.type;
  severity = input.severity;
  payload = payload;
}

-- What the callbacks of `Replay` know: `lastSeq`, `runID` and the events.
pub record Seen : Type 0 where
  pub last_seq : ℕ
  pub run_id : String
  pub events : List Event

abbrev pub nothing_seen : Seen
nothing_seen = record { last_seq = 0; run_id = ""; events = [] }

pub data LineError : Type 0 where
  undecodable incomplete_event zero_seq : LineError
  not_monotonic : ℕ → ℕ → LineError
  run_changed : String → String → LineError

-- The checks of a decoded event.
unfoldable pub check_event : Event → Seen → Result LineError (Unit {0})
check_event e seen = do
  fail_if (e.schema == "" || e.event_id == "" || e.run_id == "") incomplete_event
  fail_if (e.seq == 0) zero_seq
  fail_if (leb e.seq seen.last_seq) (not_monotonic e.seq seen.last_seq)
  if seen.run_id == ""
      then ok tt
      else fail_if (not (e.run_id == seen.run_id)) (run_changed seen.run_id e.run_id)

abbrev pub see : Event → Seen → Seen
see e seen = record { last_seq = e.seq; run_id = e.run_id; events = seen.events ++ e ∷ [] }

module _ (encode : Event → Option Bytes) (decode : Bytes → Option Event) where
  -- The validator and the consumer of `Replay`.
  unfoldable pub read_event : Bytes → ℕ → Seen → Result LineError Seen
  unfolding check_event
  read_event line number seen = elim (decode line) [
    | none ↦ err undecodable
    | some e ↦ do check_event e seen; ok (see e seen)
  ]

  -- `Replay`.
  unfoldable pub replay_events : ReplayDisk → File → Replayed LineError Seen
  replay_events disk file = replay_jsonl true disk read_event nothing_seen file

  unfoldable pub written_event :
      AppendDisk → EventStore → Event → Option Bytes → EventStore × Result EventError Event
  written_event disk s e none = (s, err unencodable)
  written_event disk s e (some line) =
      let (file, failure) = append_jsonl disk line s.file in
      elim failure [
        | some x ↦ (record s { file = file }, err (not_written x))
        | none ↦ (record s { file = file; next_seq = (s.next_seq + 1) % two_64 }, ok e)
      ]

  unfoldable pub identified :
      AppendDisk
      → ℕ
      → EventStore
      → Input
      → RawMessage
      → Option String
      → EventStore × Result EventError Event
  unfolding written_event event_of
  identified disk now s input payload none = (s, err id_failure)
  identified disk now s input payload (some id) =
      let e = event_of s input payload id now in written_event disk s e (encode e)

  unfoldable pub marshalled :
      AppendDisk
      → ℕ
      → EventStore
      → Input
      → Option RawMessage
      → Option String
      → EventStore × Result EventError Event
  unfolding identified
  marshalled disk now s input none new_id = (s, err bad_payload)
  marshalled disk now s input (some payload) new_id = identified disk now s input payload new_id

  -- `Store.Append`; `new_id` is what `newID` returned and `now` what the clock did.
  unfoldable pub append_event :
      AppendDisk → ℕ → Option String → Input → EventStore → EventStore × Result EventError Event
  unfolding marshalled
  append_event disk now new_id input s =
      if input.type == "" || input.source == ""
      then (s, err source_and_type_required)
      else marshalled disk now s input input.payload new_id
