-- ===== src/Barrier/Types.antt =====
-- internal/wave/evaluator.go: what the barrier evaluation reads and writes, with the types of
-- internal/domain, internal/report, internal/verify and internal/wave/barrier.go that it names.
use subagent_broker.Common.{ℕ, String, Bool, Eq, String-discrete, List}
use subagent_broker.State.Kinds.{Task}
use subagent_broker.Message.Kinds.{MessageType}

-- `report.Status`.
pub data EnvelopeStatus : Type 0 where
  succeeded partial blocked failed cancelled : EnvelopeStatus
  other : String → EnvelopeStatus

pub data Severity : Type 0 where
  warning error : Severity
  other : String → Severity

unfoldable pub Severity-discrete : Discrete Severity
unfolding String-discrete
Severity-discrete = hlevel String-discrete

instance abbrev pub severity_eq : Eq Severity
severity_eq = record { eq? = Severity-discrete }

pub data BarrierResult : Type 0 where
  passed passed_with_warnings blocked failed cancelled : BarrierResult
  other : String → BarrierResult

pub record ReportAssessment : Type 0 where
  pub task_id : String
  pub runtime_status : Task
  pub envelope_status : EnvelopeStatus
  pub present : Bool
  pub meta_valid : Bool
  pub markdown_valid : Bool
  pub identity_valid : Bool
  pub error : String

pub record PendingDecision : Type 0 where
  pub message_id : String
  pub task_id : String
  pub type : MessageType

pub record HighRiskChange : Type 0 where
  pub path : String
  pub severity : Severity
  pub reason : String

pub record CheckResult : Type 0 where
  pub command : String
  pub passed : Bool
  pub details : String

pub record FileAttribution : Type 0 where
  pub path : String
  pub owners : List String

pub record EphemeralAttribution : Type 0 where
  pub path : String
  pub pattern_text : String

pub record ScopeAudit : Type 0 where
  pub authorized : List FileAttribution
  pub ephemeral : List EphemeralAttribution
  pub unauthorized : List String
  pub owner_uncertain : List FileAttribution

pub record BarrierInputs : Type 0 where
  pub wave_id : String
  pub cancelled : Bool
  pub reports : List ReportAssessment
  pub pending : List PendingDecision
  pub changed_files : List String
  pub scope_audit : ScopeAudit
  pub high_risk_changes : List HighRiskChange
  pub checks : List CheckResult
  pub existing_warnings : List String
  pub existing_errors : List String

-- The fields of `Verification` that the evaluation sets; the others stay zero.
pub record Verification : Type 0 where
  pub schema_version : String
  pub wave_id : String
  pub started_at : ℕ
  pub ended_at : ℕ
  pub result : BarrierResult
  pub changed_files : List String
  pub scope_audit : ScopeAudit
  pub checks : List CheckResult
  pub warnings : List String
  pub errors : List String
  pub pending_messages : List String
  pub high_risk_changes : List HighRiskChange
  pub reports : List ReportAssessment
