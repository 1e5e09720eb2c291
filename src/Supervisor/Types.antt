-- ===== src/Supervisor/Types.antt =====
-- internal/supervisor/runtime.go, internal/domain/models.go: the snapshot of a run, with the fields
-- that a commit of a status or the reducer reads or writes, less the stall assessment, the process
-- evidence and the identity of the supervisor. Times are nanoseconds after Go's zero time.
use subagent_broker.Common.{ℕ, String, Bool, Option, List}
use subagent_broker.State.Kinds.{Task}
use subagent_broker.State.Transitions.{StateError}
use subagent_broker.Attempts.Types.{TaskState}

-- A status that is a Go string without a table is kept as the string.
pub record Run : Type 0 where
  pub run_id : String
  pub status : String
  pub started_at : Option ℕ
  pub ended_at : Option ℕ
  pub current_wave : String

pub record Wave : Type 0 where
  pub wave_id : String
  pub status : String
  pub started_at : Option ℕ
  pub ended_at : Option ℕ
  pub barrier_result : String
  pub failure_reason : String

-- A `TaskState`: the fields of its task, and those that hold its attempts and dimensions.
pub record TaskRuntime : Type 0 where
  pub task_id : String
  pub status : Task
  pub write_scope : List String
  pub allow_public_interface_change : Bool
  pub state : TaskState

pub record Snapshot : Type 0 where
  pub run : Run
  pub wave : Wave
  pub waves : List Wave
  pub tasks : List TaskRuntime
  pub updated_at : ℕ
  pub last_error : String
  pub applied_event_seq : ℕ

-- What `ApplyEvent` and the mutations answer when they fail.
pub data SnapshotError : Type 0 where
  zero_seq run_mismatch already_applied seq_gap bad_payload : SnapshotError
  requires_to requires_wave_id requires_task requires_worker from_mismatch : SnapshotError
  task_not_found : String → SnapshotError
  invalid_transition : StateError → SnapshotError
