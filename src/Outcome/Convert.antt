-- ===== src/Outcome/Convert.antt =====
-- internal/clioutcome/outcome.go: the outcome of a run, a wave and a task, its name and its error.
use subagent_broker.Common.{
  String, Bool, true, false, Option, none, some, [], ◌∷◌, ◌==◌, ◌||◌, string_eq, if◌then◌else◌, map,
  codes, to_lower, contains_codes, sprint,
}
use subagent_broker.State.Kinds.{Task, task_text}
use subagent_broker.Barrier.Types.{BarrierResult}
use subagent_broker.Outcome.Types.{
  ExitCode, exit_code_eq, TargetKind, RunStatus, WaveStatus, Wave, Outcome, CliError,
}

abbrev run_status_text : RunStatus → String
run_status_text RunStatus.planned = "planned"
run_status_text RunStatus.starting = "starting"
run_status_text RunStatus.running = "running"
run_status_text RunStatus.barrier = "barrier"
run_status_text RunStatus.completed = "completed"
run_status_text RunStatus.failed = "failed"
run_status_text RunStatus.cancelled = "cancelled"
run_status_text RunStatus.recovering = "recovering"
run_status_text RunStatus.degraded = "degraded"
run_status_text (RunStatus.other s) = s

abbrev wave_status_text : WaveStatus → String
wave_status_text WaveStatus.planned = "planned"
wave_status_text WaveStatus.preflight = "preflight"
wave_status_text WaveStatus.running = "running"
wave_status_text WaveStatus.waiting = "waiting"
wave_status_text WaveStatus.barrier = "barrier"
wave_status_text WaveStatus.verified = "verified"
wave_status_text WaveStatus.blocked = "blocked"
wave_status_text WaveStatus.failed = "failed"
wave_status_text WaveStatus.cancelled = "cancelled"
wave_status_text (WaveStatus.other s) = s

abbrev kind_text : TargetKind → String
kind_text TargetKind.run = "run"
kind_text TargetKind.wave = "wave"
kind_text TargetKind.task = "task"

-- `containsFold`.
unfoldable pub contains_fold : String → String → Bool
contains_fold s sub = contains_codes (map to_lower (codes s)) (map to_lower (codes sub))

-- The code of a degraded run, by its reason.
unfoldable pub degraded_code : String → ExitCode
unfolding contains_fold
degraded_code reason =
    if contains_fold reason "timeout" || contains_fold reason "timed out"
    then ExitCode.timeout
    else if contains_fold reason "cancel"
    then ExitCode.cancelled
    else if contains_fold reason "warning"
        || contains_fold reason "acceptance"
        || contains_fold reason "blocked"
    then ExitCode.blocked
    else if contains_fold reason "supervisor"
        || contains_fold reason "unreachable"
        || contains_fold reason "communication"
        || contains_fold reason "orphan"
        || contains_fold reason "reattach"
    then ExitCode.communication
    else if contains_fold reason "partial"
    then ExitCode.partial
    else ExitCode.failed

-- An outcome as the conversions begin it: not terminal, not successful, code 0.
unfoldable pub pending : TargetKind → String → String → Outcome
pending kind id status = record {
  kind = kind;
  id = id;
  status = status;
  reason = "";
  terminal = false;
  successful = false;
  code = ExitCode.success;
}

abbrev succeeded : Outcome → Outcome
succeeded o = record o { terminal = true; successful = true }

abbrev ended : ExitCode → Outcome → Outcome
ended code o = record o { terminal = true; code = code }

-- `FromRunDetailed`.
unfoldable pub from_run_detailed : RunStatus → String → Outcome
unfolding degraded_code pending
from_run_detailed RunStatus.completed reason =
    succeeded (pending TargetKind.run "" (run_status_text RunStatus.completed))
from_run_detailed RunStatus.failed reason =
    ended ExitCode.failed (pending TargetKind.run "" (run_status_text RunStatus.failed))
from_run_detailed RunStatus.degraded reason =
    record (ended (degraded_code reason)
      (pending TargetKind.run "" (run_status_text RunStatus.degraded))) { reason = reason }
from_run_detailed RunStatus.cancelled reason =
    ended ExitCode.cancelled (pending TargetKind.run "" (run_status_text RunStatus.cancelled))
from_run_detailed status reason = pending TargetKind.run "" (run_status_text status)

-- `FromRun`.
unfoldable pub from_run : RunStatus → Outcome
unfolding from_run_detailed
from_run status = from_run_detailed status ""

verified_wave : BarrierResult → Bool → Outcome → Outcome
verified_wave BarrierResult.passed_with_warnings accepted o =
    if accepted then succeeded o else ended ExitCode.blocked o
verified_wave BarrierResult.failed accepted o = ended ExitCode.failed o
verified_wave BarrierResult.blocked accepted o = ended ExitCode.blocked o
verified_wave BarrierResult.cancelled accepted o = ended ExitCode.cancelled o
verified_wave _ accepted o = succeeded o

wave_outcome : WaveStatus → Wave → Outcome → Outcome
unfolding verified_wave
wave_outcome WaveStatus.verified value o =
    verified_wave value.barrier_result value.barrier_accepted o
wave_outcome WaveStatus.blocked value o = ended ExitCode.blocked o
wave_outcome WaveStatus.waiting value o = record (ended ExitCode.blocked o) {
  reason = value.barrier_reason;
}
wave_outcome WaveStatus.failed value o = ended ExitCode.failed o
wave_outcome WaveStatus.cancelled value o = ended ExitCode.cancelled o
wave_outcome _ value o = o

-- `FromWave`.
unfoldable pub from_wave : Wave → Outcome
unfolding wave_outcome pending
from_wave value =
    wave_outcome value.status value
      (pending TargetKind.wave value.wave_id (wave_status_text value.status))

task_outcome : Task → Bool → Outcome → Outcome
task_outcome Task.verified_success terminal_blocked o = succeeded o
task_outcome Task.verified_partial terminal_blocked o = ended ExitCode.partial o
task_outcome Task.blocked terminal_blocked o =
    if terminal_blocked then ended ExitCode.blocked o else o
task_outcome Task.verification_failed terminal_blocked o = ended ExitCode.failed o
task_outcome Task.failed terminal_blocked o = ended ExitCode.failed o
task_outcome Task.cancelled terminal_blocked o = ended ExitCode.cancelled o
task_outcome _ terminal_blocked o = o

-- `FromTask`.
unfoldable pub from_task : String → Task → Bool → Outcome
unfolding task_outcome pending
from_task id status terminal_blocked =
    task_outcome status terminal_blocked (pending TargetKind.task id (task_text status))

-- `Outcome.Err`.
unfoldable pub outcome_error : String → Outcome → Option CliError
outcome_error op o =
    if o.code == ExitCode.success
    then none
    else some (record {
      code = o.code;
      op = op;
      message = sprint (
          kind_text o.kind
          ∷ (if o.id == "" then "" else sprint (" " ∷ o.id ∷ []))
          ∷ " ended with status "
          ∷ o.status
          ∷ (if o.reason == "" then [] else ": " ∷ o.reason ∷ []));
    })

-- `CodeOf`, for a nil or a typed error.
unfoldable pub code_of : Option CliError → ExitCode
code_of none = ExitCode.success
code_of (some e) = e.code

-- `Name`.
unfoldable pub name : ExitCode → String
name ExitCode.success = "success"
name ExitCode.partial = "partial"
name ExitCode.blocked = "blocked"
name ExitCode.failed = "failed"
name ExitCode.cancelled = "cancelled"
name ExitCode.timeout = "timeout"
name ExitCode.communication = "communication_error"
name ExitCode.usage = "usage_error"
name ExitCode.compatibility = "compatibility_error"
name ExitCode.preflight = "preflight_failed"
name ExitCode.not_found = "not_found"
name ExitCode.internal = "internal_error"
name (ExitCode.other n) = "internal_error"
