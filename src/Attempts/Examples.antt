-- ===== src/Attempts/Examples.antt =====
-- Tests and instances for the attempts of a task.
use subagent_broker.Common.{
  ◌≡◌, ◌⊎◌, ◌↔◌, refl, inr, true, false, none, some, [], ◌∷◌, ok, err, is_ok, is_empty, arith,
  String-discrete,
}
use subagent_broker.State.Kinds.{Process, Protocol, Progress, Task, Dimensions}
use subagent_broker.Attempts.Types.{
  Mode, Outcome, WorkerSession, Attempt, TaskState, Outcome-discrete, ℤ, already_running,
}
use subagent_broker.Attempts.Ops.{
  begin, start_attempt, active, next_number, record_attempt, migrate_attempts, migrate_with,
}
use subagent_broker.Attempts.Tracked.{Idle, Managed}
use subagent_broker.Attempts.Managed.{begin_iff}
use subagent_broker.Attempts.History.{started, Reached, here, next, Untried, Reached-Managed}

abbrev starting : Dimensions
starting = record {
  process = Process.starting;
  protocol = Protocol.initializing;
  progress = Progress.active;
  task = Task.running;
}

abbrev worker : WorkerSession
worker = record {
  worker_id = "worker-1";
  task_id = "";
  harness = "claude";
  adapter_version = "1";
  native_session_id = "session-1";
  native_turn_id = "";
  pid = ℤ.pos 7;
  process_start_token = "";
  process_group_identity = "";
  started_at = 5;
  last_event_at = 5;
  last_progress_at = 5;
  ended_at = none;
  exit_code = none;
  attempt = 0;
  attempt_mode = "";
  dimensions = starting;
}

abbrev fresh_task : TaskState
fresh_task = record {
  attempts = [];
  active_attempt = 0;
  worker = none;
  dimensions = starting;
  last_progress = 0;
  report_stale = none;
}

abbrev first_attempt : Attempt
first_attempt = record {
  number = 1;
  mode = Mode.fresh;
  worker = record worker { task_id = "task-1"; attempt = 1; attempt_mode = "fresh" };
  outcome = Outcome.running;
  started_at = 6;
  ended_at = none;
  reason = "";
}

abbrev exited_attempt : Attempt
exited_attempt = record first_attempt {
  outcome = Outcome.exited;
  ended_at = some 9;
  reason = "done";
}

abbrev running_task : TaskState
running_task = record {
  attempts = first_attempt ∷ [];
  active_attempt = 1;
  worker = some first_attempt.worker;
  dimensions = starting;
  last_progress = 5;
  report_stale = none;
}

first_start : start_attempt "task-1" Mode.fresh worker 6 fresh_task ≡ ok running_task
unfolding start_attempt begin active migrate_attempts migrate_with String-discrete record_attempt
    next_number
first_start = refl

second_start_refused :
    start_attempt "task-1" Mode.recovery_resume worker 7 running_task ≡ err (already_running 1)
unfolding start_attempt begin active migrate_attempts String-discrete record_attempt next_number
    Outcome-discrete
second_start_refused = refl

untried : Untried fresh_task
untried = record { attempts = refl; active_attempt = refl }

running-Reached : Reached fresh_task running_task
running-Reached = next here (started "task-1" Mode.fresh worker 6 first_start)

Reached-Managed_example : Managed running_task
Reached-Managed_example = Reached-Managed untried running-Reached

running-Managed : Managed running_task
running-Managed = record {
  rising = (omega arith, tt);
  current = inr ([], first_attempt, refl, tt, refl, refl);
}

begin_iff_example :
    (is_ok (begin "task-1" (exited_attempt ∷ []) Mode.recovery_resume worker 10) ≡ true) ↔ (
      Idle (exited_attempt ∷ [])
      × ((Mode.recovery_resume ≡ Mode.fresh) × (is_empty (exited_attempt ∷ []) ≡ true)
          ⊎ ((Mode.recovery_resume ≡ Mode.recovery_resume)
              ⊎ (Mode.recovery_resume ≡ Mode.explicit_retry))
            × (is_empty (exited_attempt ∷ []) ≡ false))
      × ((worker.task_id ≡ "") ⊎ (worker.task_id ≡ "task-1")))
begin_iff_example = begin_iff "task-1" (exited_attempt ∷ []) Mode.recovery_resume worker 10

abbrev lost_session : WorkerSession
lost_session = record worker { native_session_id = "" }

abbrev resumed_attempt : Attempt
resumed_attempt = record {
  number = 2;
  mode = Mode.recovery_resume;
  worker = record worker { task_id = "task-1"; attempt = 2; attempt_mode = "recovery_resume" };
  outcome = Outcome.running;
  started_at = 10;
  ended_at = none;
  reason = "";
}

resumes :
    begin "task-1" (exited_attempt ∷ []) Mode.recovery_resume lost_session 10 ≡ ok resumed_attempt
unfolding begin active Outcome-discrete next_number
resumes = refl
