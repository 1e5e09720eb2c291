-- ===== src/Attempts/Ops.antt =====
-- internal/worker/attempt.go, and where internal/supervisor puts its results: execute_task.go
-- (starting an attempt) and recovery.go (finishing it, and the snapshots from before attempts). The
-- source's copies of attempts and workers are the values themselves.
use subagent_broker.Common.{
  ℕ, ◌+◌, String, true, Option, none, some, List, [], ◌∷◌, ◌++◌, ◌==◌, not, ltb, string_eq, nat_eq,
  if◌then◌else◌, Result, ok, err, ◌>>=◌, ◌>>◌, fail_if, is_empty,
}
use subagent_broker.State.Kinds.{Process, process_eq}
use subagent_broker.Attempts.Types.{
  Mode, Outcome, mode_eq, outcome_eq, mode_text, mode_of_text, WorkerSession, Attempt, TaskState,
  AttemptError, multiple_running, already_running, fresh_with_history, needs_history, unknown_mode,
  task_mismatch, already_finished, finish_as_running, unknown_outcome,
}

unfoldable pub highest : ℕ → List Attempt → ℕ
highest max [] = max
highest max (a ∷ rest) = highest (if ltb max a.number then a.number else max) rest

-- `NextNumber`.
unfoldable pub next_number : List Attempt → ℕ
unfolding highest
next_number existing = highest 0 existing + 1

unfoldable pub active_from : Option Attempt → List Attempt → Result AttemptError (Option Attempt)
active_from found [] = ok found
active_from found (a ∷ rest) =
    let skipped = active_from found rest in
    let first = active_from (some a) rest in
    if not (a.outcome == Outcome.running)
    then skipped
    else elim found [ some b ↦ err (multiple_running b.number a.number) | none ↦ first ]

-- `Active`.
unfoldable pub active : List Attempt → Result AttemptError (Option Attempt)
unfolding active_from
active existing = active_from none existing

unfoldable pub none_running : Option Attempt → Result AttemptError (Unit {0})
none_running none = ok tt
none_running (some a) = err (already_running a.number)

unfoldable pub check_mode : Mode → List Attempt → Result AttemptError (Unit {0})
check_mode Mode.fresh history = fail_if (not (is_empty history)) fresh_with_history
check_mode Mode.recovery_resume history =
    fail_if (is_empty history) (needs_history Mode.recovery_resume)
check_mode Mode.explicit_retry history =
    fail_if (is_empty history) (needs_history Mode.explicit_retry)
check_mode (Mode.other s) history = err (unknown_mode (Mode.other s))

-- The last native session id of the history that is not empty.
unfoldable pub last_session : List Attempt → String
last_session [] = ""
last_session (a ∷ rest) =
    let later = last_session rest in if later == "" then a.worker.native_session_id else later

abbrev pub owned_by : String → WorkerSession → WorkerSession
owned_by task_id worker = record worker {
  task_id = if worker.task_id == "" then task_id else worker.task_id;
}

unfoldable pub resumed : Mode → List Attempt → WorkerSession → WorkerSession
unfolding last_session
resumed Mode.recovery_resume history worker = record worker {
  native_session_id =
      if worker.native_session_id == "" then last_session history else worker.native_session_id;
}
resumed _ history worker = worker

unfoldable pub new_attempt : ℕ → Mode → WorkerSession → ℕ → Attempt
new_attempt number mode worker now = record {
  number = number;
  mode = mode;
  worker = record worker { attempt = number; attempt_mode = mode_text mode };
  outcome = Outcome.running;
  started_at = now;
  ended_at = none;
  reason = "";
}

-- `Begin`.
unfoldable pub begin :
    String → List Attempt → Mode → WorkerSession → ℕ → Result AttemptError Attempt
unfolding none_running check_mode resumed new_attempt
begin task_id history mode worker now = do
  current ← active history
  none_running current
  check_mode mode history
  fail_if (not ((owned_by task_id worker).task_id == task_id))
      (task_mismatch (owned_by task_id worker).task_id task_id)
  ok (new_attempt (next_number history) mode (resumed mode history (owned_by task_id worker)) now)

check_outcome : Outcome → Result AttemptError (Unit {0})
check_outcome Outcome.running = err finish_as_running
check_outcome (Outcome.other s) = err (unknown_outcome (Outcome.other s))
check_outcome _ = ok tt

-- `Finish`.
unfoldable pub finish : Attempt → Outcome → String → ℕ → Result AttemptError Attempt
unfolding check_outcome
finish value outcome reason now = do
  fail_if (not (value.outcome == Outcome.running)) (already_finished value.number value.outcome)
  check_outcome outcome
  ok (record value { outcome = outcome; reason = reason; ended_at = some now })

-- What the supervisor stores for an attempt that it finishes.
unfoldable pub force_finish : Attempt → Outcome → String → ℕ → Attempt
force_finish value outcome reason now = elim (finish value outcome reason now) [
  | ok finished ↦ finished
  | err _ ↦ record value { outcome = outcome; reason = reason; ended_at = some now }
]

-- `migrateAttempts`.
unfoldable pub migrated_number : WorkerSession → ℕ
migrated_number w = if w.attempt == 0 then 1 else w.attempt

unfoldable pub migrated_outcome : WorkerSession → Process → Outcome
migrated_outcome w p = if p == Process.orphaned then Outcome.orphaned else elim w.exit_code [
  | some _ ↦ Outcome.exited
  | none ↦ if p == Process.exited then Outcome.exited else Outcome.running
]

unfoldable pub migrated_attempt : WorkerSession → Process → Attempt
unfolding migrated_number migrated_outcome
migrated_attempt w p = record {
  number = migrated_number w;
  mode = if w.attempt_mode == "" then Mode.fresh else mode_of_text w.attempt_mode;
  worker = w;
  outcome = migrated_outcome w p;
  started_at = w.started_at;
  ended_at = w.ended_at;
  reason = "";
}

unfoldable pub migrate_with : Option WorkerSession → TaskState → TaskState
unfolding migrated_attempt migrated_number migrated_outcome
migrate_with none ts = ts
migrate_with (some w) ts = record ts {
  attempts = migrated_attempt w ts.dimensions.process ∷ [];
  active_attempt =
      if migrated_outcome w ts.dimensions.process == Outcome.running
      then migrated_number w
      else ts.active_attempt;
}

unfoldable pub migrate_attempts : TaskState → TaskState
migrate_attempts ts = if is_empty ts.attempts then migrate_with ts.worker ts else ts

-- The attempt that `begin` made becomes the current one; a report identity goes stale.
unfoldable pub record_attempt : Attempt → TaskState → TaskState
record_attempt a ts = record {
  attempts = ts.attempts ++ a ∷ [];
  active_attempt = a.number;
  worker = some a.worker;
  dimensions = a.worker.dimensions;
  last_progress = a.worker.last_progress_at;
  report_stale = elim ts.report_stale [ some _ ↦ some true | none ↦ none ];
}

-- The part of `executeTask` that starts an attempt.
unfoldable pub start_attempt :
    String → Mode → WorkerSession → ℕ → TaskState → Result AttemptError TaskState
start_attempt task_id mode worker now ts = do
  a ← begin task_id (migrate_attempts ts).attempts mode worker now
  ok (record_attempt a (migrate_attempts ts))

-- The loop of `finishActiveAttempt`: the attempts, and the worker of the one that was finished.
unfoldable pub finish_numbered :
    ℕ → Outcome → String → ℕ → List Attempt → List Attempt × Option WorkerSession
finish_numbered n outcome reason now [] = ([], none)
finish_numbered n outcome reason now (a ∷ rest) =
    let later = finish_numbered n outcome reason now rest in
    if a.number == n
    then (force_finish a outcome reason now ∷ rest, some (force_finish a outcome reason now).worker)
    else (a ∷ later.0, later.1)

unfoldable pub finished_in : TaskState → List Attempt × Option WorkerSession → TaskState
finished_in ts (attempts, none) = ts
finished_in ts (attempts, some w) = record ts {
  attempts = attempts;
  worker = some w;
  active_attempt = 0;
}

-- `finishActiveAttempt`.
unfoldable pub finish_active_attempt : Outcome → String → ℕ → TaskState → TaskState
unfolding finished_in
finish_active_attempt outcome reason now ts =
    let m = migrate_attempts ts in
    if m.active_attempt == 0
    then m
    else finished_in m (finish_numbered m.active_attempt outcome reason now m.attempts)

unfoldable pub update_numbered : ℕ → WorkerSession → List Attempt → List Attempt
update_numbered n w [] = []
update_numbered n w (a ∷ rest) =
    let later = update_numbered n w rest in
    if a.number == n then record a { worker = w } ∷ rest else a ∷ later

-- `updateAttemptWorker`.
unfoldable pub update_attempt_worker : WorkerSession → TaskState → TaskState
unfolding update_numbered
update_attempt_worker w ts =
    if ts.active_attempt == 0
    then ts
    else record ts { attempts = update_numbered ts.active_attempt w ts.attempts }
