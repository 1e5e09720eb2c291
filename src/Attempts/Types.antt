-- ===== src/Attempts/Types.antt =====
-- internal/worker/attempt.go: modes, outcomes and attempts; internal/domain/models.go: the worker
-- session, without the capability maps, the runtime identity and the warnings, which no operation
-- here reads; internal/supervisor/runtime.go: the fields of a task's state that hold its attempts.
use subagent_broker.Common.{
  ℕ, String, Bool, Option, Eq, ◌==◌, String-discrete, List, string_eq, if◌then◌else◌,
}
use subagent_broker.State.Kinds.{Dimensions}

-- A Go `int`, over the native numbers.
pub data ℤ : Type 0 where
  pos negsuc : ℕ → ℤ

pub data Mode : Type 0 where
  fresh recovery_resume explicit_retry : Mode
  other : String → Mode

pub data Outcome : Type 0 where
  running exited orphaned pid_reused failed_start : Outcome
  other : String → Outcome

unfoldable pub Mode-discrete : Discrete Mode
unfolding String-discrete
Mode-discrete = hlevel String-discrete

unfoldable pub Outcome-discrete : Discrete Outcome
unfolding String-discrete
Outcome-discrete = hlevel String-discrete

instance abbrev pub mode_eq : Eq Mode
mode_eq = record { eq? = Mode-discrete }

instance abbrev pub outcome_eq : Eq Outcome
outcome_eq = record { eq? = Outcome-discrete }

abbrev pub mode_text : Mode → String
mode_text Mode.fresh = "fresh"
mode_text Mode.recovery_resume = "recovery_resume"
mode_text Mode.explicit_retry = "explicit_retry"
mode_text (Mode.other s) = s

unfoldable pub mode_of_text : String → Mode
mode_of_text s =
    if s == "fresh"
    then Mode.fresh
    else if s == "recovery_resume"
    then Mode.recovery_resume
    else if s == "explicit_retry"
    then Mode.explicit_retry
    else Mode.other s

-- `AttemptOutcome(text)`.
unfoldable pub outcome_of_text : String → Outcome
outcome_of_text s =
    if s == "running"
    then Outcome.running
    else if s == "exited"
    then Outcome.exited
    else if s == "orphaned"
    then Outcome.orphaned
    else if s == "pid_reused"
    then Outcome.pid_reused
    else if s == "failed_start"
    then Outcome.failed_start
    else Outcome.other s

-- Times are nanoseconds after Go's zero time. Attempt numbers are not negative.
pub record WorkerSession : Type 0 where
  pub worker_id : String
  pub task_id : String
  pub harness : String
  pub adapter_version : String
  pub native_session_id : String
  pub native_turn_id : String
  pub pid : ℤ
  pub process_start_token : String
  pub process_group_identity : String
  pub started_at : ℕ
  pub last_event_at : ℕ
  pub last_progress_at : ℕ
  pub ended_at : Option ℕ
  pub exit_code : Option ℤ
  pub attempt : ℕ
  pub attempt_mode : String
  pub dimensions : Dimensions

pub record Attempt : Type 0 where
  pub number : ℕ
  pub mode : Mode
  pub worker : WorkerSession
  pub outcome : Outcome
  pub started_at : ℕ
  pub ended_at : Option ℕ
  pub reason : String

-- `report_stale` is the flag of the frozen report identity, where the task has one.
pub record TaskState : Type 0 where
  pub attempts : List Attempt
  pub active_attempt : ℕ
  pub worker : Option WorkerSession
  pub dimensions : Dimensions
  pub last_progress : ℕ
  pub report_stale : Option Bool

pub data AttemptError : Type 0 where
  multiple_running : ℕ → ℕ → AttemptError
  already_running : ℕ → AttemptError
  fresh_with_history : AttemptError
  needs_history : Mode → AttemptError
  unknown_mode : Mode → AttemptError
  task_mismatch : String → String → AttemptError
  already_finished : ℕ → Outcome → AttemptError
  finish_as_running : AttemptError
  unknown_outcome : Outcome → AttemptError
