-- ===== src/Plan/Types.antt =====
-- internal/domain/models.go and internal/wave/preflight.go: the plan of a run, and what the
-- preflight of a wave finds. Of a task, the fields that these read.
use subagent_broker.Common.{ℕ, String, Bool, Eq, String-discrete, List}
use subagent_broker.Dict.{Dict}

pub record ValidationCommand : Type 0 where
  pub command : String
  pub scope : String

pub record Task : Type 0 where
  pub task_id : String
  pub title : String
  pub objective : String
  pub completion_criteria : List String
  pub write_scope : List String
  pub forbidden_scope : List String
  pub known_read_dependencies : List String
  pub parallel_responsibilities : Dict String
  pub validation_commands : List ValidationCommand
  pub depends_on : List String
  pub allow_nested_agents : Bool
  pub project_root : String

pub record WavePlan : Type 0 where
  pub wave_id : String
  pub integration_checks : List ValidationCommand
  pub tasks : List Task

pub record RunPlan : Type 0 where
  pub schema_version : String
  pub waves : List WavePlan
  pub final_checks : List ValidationCommand

pub data IssueKind : Type 0 where
  duplicate_task scope_overlap write_read_conflict validation_conflict : IssueKind
  same_wave_dependency nested_agents missing_contract high_risk_shared : IssueKind
  missing_responsibility invalid_responsibility : IssueKind

unfoldable pub issue_kind_text : IssueKind → String
issue_kind_text duplicate_task = "duplicate_task"
issue_kind_text scope_overlap = "scope_overlap"
issue_kind_text write_read_conflict = "write_read_conflict"
issue_kind_text validation_conflict = "validation_conflict"
issue_kind_text same_wave_dependency = "same_wave_dependency"
issue_kind_text nested_agents = "nested_agents_forbidden"
issue_kind_text missing_contract = "missing_contract_field"
issue_kind_text high_risk_shared = "high_risk_file_shared"
issue_kind_text missing_responsibility = "missing_parallel_responsibility"
issue_kind_text invalid_responsibility = "invalid_parallel_responsibility"

pub data IssueSeverity : Type 0 where
  warning error : IssueSeverity
  other : String → IssueSeverity

unfoldable pub IssueSeverity-discrete : Discrete IssueSeverity
unfolding String-discrete
IssueSeverity-discrete = hlevel String-discrete

instance abbrev pub issue_severity_eq : Eq IssueSeverity
issue_severity_eq = record { eq? = IssueSeverity-discrete }

unfoldable pub severity_text : IssueSeverity → String
severity_text warning = "warning"
severity_text error = "error"
severity_text (other text) = text

pub record Issue : Type 0 where
  pub kind : IssueKind
  pub severity : IssueSeverity
  pub tasks : List String
  pub details : String

pub record PreflightResult : Type 0 where
  pub allowed : Bool
  pub concurrency : ℕ
  pub scopes : Dict (List String)
  pub issues : List Issue
