-- ===== src/Outcome/Sound.antt =====
-- internal/clioutcome/outcome.go: the flags and the exit code of an outcome together.
use subagent_broker.Common.{String, ◌≡◌, ◌≢◌, Bool, true, false, arith, string_eq}
use subagent_broker.State.Kinds.{Task}
use subagent_broker.Outcome.Types.{ExitCode, exit_code_eq, RunStatus, Wave, Outcome}
use subagent_broker.Outcome.Convert.{
  degraded_code, pending, from_run_detailed, from_wave, from_task, outcome_error, code_of,
}

-- What a caller may read from the flags and the code.
pub record IsConsistent (o : Outcome) : Type 0 where
  pub success : o.successful ≡ true → (o.terminal ≡ true) × (o.code ≡ ExitCode.success)
  pub terminal_zero : o.terminal ≡ true → o.code ≡ ExitCode.success → o.successful ≡ true
  pub unfinished : o.terminal ≡ false → (o.code ≡ ExitCode.success) × (o.successful ≡ false)

degraded_not_success : (reason : String) → degraded_code reason ≢ ExitCode.success
unfolding degraded_code
degraded_not_success reason = ground arith

-- A run's outcome is successful exactly when it is terminal with exit code 0; one that is not
-- terminal has exit code 0 and is not successful.
pub from_run_detailed-IsConsistent :
    (status : RunStatus) (reason : String) → IsConsistent (from_run_detailed status reason)
unfolding from_run_detailed pending
from_run_detailed-IsConsistent status reason = ground (arith, degraded_not_success reason)

-- A wave's outcome is successful exactly when it is terminal with exit code 0; one that is not
-- terminal has exit code 0 and is not successful.
pub from_wave-IsConsistent : (value : Wave) → IsConsistent (from_wave value)
unfolding from_wave pending
from_wave-IsConsistent value = ground arith

-- A task's outcome is successful exactly when it is terminal with exit code 0; one that is not
-- terminal has exit code 0 and is not successful.
pub from_task-IsConsistent :
    (id : String) (status : Task) (blocked : Bool) → IsConsistent (from_task id status blocked)
unfolding from_task pending
from_task-IsConsistent id status blocked = ground arith

-- The code of an outcome's error is the outcome's code.
pub code_of-outcome_error : (op : String) (o : Outcome) → code_of (outcome_error op o) ≡ o.code
unfolding code_of outcome_error
code_of-outcome_error op o = ground arith
