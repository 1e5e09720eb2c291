-- ===== src/Report/Types.antt =====
-- internal/report/envelope.go: the result envelope of a task and what is kept beside it.
use subagent_broker.Common.{ℕ, String, Bool, Option, Eq, String-discrete, List}
use subagent_broker.Attempts.Types.{ℤ}
use subagent_broker.Barrier.Types.{EnvelopeStatus}

pub record Validation : Type 0 where
  pub command : String
  pub passed : Bool
  pub details : String

pub record ScopeExpansion : Type 0 where
  pub paths : List String
  pub reason : String
  pub consequence : String
  pub partial_write_made : Bool
  pub related_tasks : List String
  pub suggested_resolution : String

pub record Envelope : Type 0 where
  pub schema_version : String
  pub task_id : String
  pub worker_id : String
  pub status : EnvelopeStatus
  pub summary : String
  pub work_completed : List String
  pub files_changed : List String
  pub no_files_changed_reason : String
  pub validation : List Validation
  pub validation_not_run_reason : String
  pub remaining_work : List String
  pub blocking_issues : List String
  pub stop_reason : String
  pub failure_stage : String
  pub error_summary : String
  pub workspace_state : String
  pub scope_expansion : Option ScopeExpansion
  pub scope_violations_self_reported : List String
  pub risks : List String
  pub handoff_notes : List String

unfoldable pub EnvelopeStatus-discrete : Discrete EnvelopeStatus
unfolding String-discrete
EnvelopeStatus-discrete = hlevel String-discrete

instance abbrev pub envelope_status_eq : Eq EnvelopeStatus
envelope_status_eq = record { eq? = EnvelopeStatus-discrete }

unfoldable pub envelope_status_text : EnvelopeStatus → String
envelope_status_text EnvelopeStatus.succeeded = "succeeded"
envelope_status_text EnvelopeStatus.partial = "partial"
envelope_status_text EnvelopeStatus.blocked = "blocked"
envelope_status_text EnvelopeStatus.failed = "failed"
envelope_status_text EnvelopeStatus.cancelled = "cancelled"
envelope_status_text (EnvelopeStatus.other text) = text

pub record Meta : Type 0 where
  pub schema_version : String
  pub task_id : String
  pub worker_id : String
  pub attempt_number : ℤ
  pub status : EnvelopeStatus
  pub envelope_hash : String
  pub markdown_hash : String
  pub published_at : ℕ
  pub unverified : Bool
