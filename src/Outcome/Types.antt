-- ===== src/Outcome/Types.antt =====
-- internal/clioutcome/outcome.go: exit codes, kinds and outcomes; internal/domain/models.go: the
-- statuses that outcomes are made from.
use subagent_broker.Common.{ℕ, String, Bool, Eq, ℕ_discrete}
use subagent_broker.Barrier.Types.{BarrierResult}

-- A number that is none of the constants is `other`.
pub data ExitCode : Type 0 where
  success usage not_found preflight partial blocked failed cancelled timeout : ExitCode
  communication compatibility internal : ExitCode
  other : ℕ → ExitCode

unfoldable pub ExitCode-discrete : Discrete ExitCode
unfolding ℕ_discrete
ExitCode-discrete = hlevel ℕ_discrete

instance abbrev pub exit_code_eq : Eq ExitCode
exit_code_eq = record { eq? = ExitCode-discrete }

-- The kinds that the conversions make.
pub data TargetKind : Type 0 where
  run wave task : TargetKind

pub data RunStatus : Type 0 where
  planned starting running barrier completed failed cancelled recovering degraded : RunStatus
  other : String → RunStatus

pub data WaveStatus : Type 0 where
  planned preflight running waiting barrier verified blocked failed cancelled : WaveStatus
  other : String → WaveStatus

-- The fields of `domain.Wave` that `FromWave` reads.
pub record Wave : Type 0 where
  pub wave_id : String
  pub status : WaveStatus
  pub barrier_result : BarrierResult
  pub barrier_accepted : Bool
  pub barrier_reason : String

pub record Outcome : Type 0 where
  pub kind : TargetKind
  pub id : String
  pub status : String
  pub reason : String
  pub terminal : Bool
  pub successful : Bool
  pub code : ExitCode

-- A typed error: its code, operation and message.
pub record CliError : Type 0 where
  pub code : ExitCode
  pub op : String
  pub message : String
