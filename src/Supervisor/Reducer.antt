-- ===== src/Supervisor/Reducer.antt =====
-- internal/supervisor/reducer.go: the helpers of `ApplyEvent` and its cases for runs, waves and the status
-- of a task.
use subagent_broker.Common.{
  ℕ, String, Bool, true, false, Option, none, some, List, [], ◌∷◌, ◌==◌, ◌||◌, ◌&&◌, not, string_eq,
  nat_eq, if◌then◌else◌, Result, ok, err, ◌>>=◌, ◌>>◌, fail_if,
}
use subagent_broker.Message.Json.{Json, text, Fields, object, RawMessage, document, lookup_field}
use subagent_broker.State.Kinds.{Task, task_text, task_of_text}
use subagent_broker.State.Transitions.{validate_task_transition}
use subagent_broker.Attempts.Types.{WorkerSession}
use subagent_broker.Supervisor.Types.{
  Wave, TaskRuntime, Snapshot, SnapshotError, bad_payload, requires_to, requires_wave_id,
  requires_task, from_mismatch, task_not_found, invalid_transition,
}

-- The cases of the switch on the type of an event; `task_changed` has the status that a legacy event
-- type stands for. The heartbeat and the two stall cases change fields that `Snapshot` leaves out, the
-- supervisor identity and the stall assessment of a task. `untracked` is the default case.
pub data EventKind : Type 0 where
  run_changed wave_changed : EventKind
  task_changed : String → EventKind
  attempt_started attempt_finished runtime_updated : EventKind
  process_changed protocol_changed progress_changed : EventKind
  stall_assessed stall_cleared heartbeat untracked : EventKind

unfoldable pub event_kind : String → EventKind
event_kind type =
    if type == "run.state_changed"
    then run_changed
    else if type == "wave.state_changed"
    then wave_changed
    else if type == "task.state_changed"
    then task_changed ""
    else if type == "task.reported_complete"
    then task_changed "reported_complete"
    else if type == "task.verified_success"
    then task_changed "verified_success"
    else if type == "task.verification_failed"
    then task_changed "verification_failed"
    else if type == "worker.attempt_started"
    then attempt_started
    else if type == "worker.attempt_finished"
    then attempt_finished
    else if type == "task.runtime_updated"
    then runtime_updated
    else if type == "process.state_changed"
        || type == "process.spawned"
        || type == "process.exited"
        || type == "process.orphaned"
    then process_changed
    else if type == "protocol.state_changed"
    then protocol_changed
    else if type == "worker.stall_assessed"
    then stall_assessed
    else if type == "worker.stall_cleared"
    then stall_cleared
    else if type == "progress.state_changed"
    then progress_changed
    else if type == "supervisor.heartbeat"
    then heartbeat
    else untracked

-- `isTelemetry`.
unfoldable pub is_telemetry : String → Bool
is_telemetry type = not (
    type == "run.state_changed"
    || type == "wave.state_changed"
    || type == "task.state_changed"
    || type == "task.reported_complete"
    || type == "task.verified_success"
    || type == "task.verification_failed"
    || type == "task.runtime_updated"
    || type == "process.state_changed"
    || type == "protocol.state_changed"
    || type == "progress.state_changed"
    || type == "supervisor.heartbeat"
    || type == "worker.attempt_started"
    || type == "worker.attempt_finished")

-- `decodeMap`.
unfoldable pub decode_map : RawMessage → Result SnapshotError Fields
decode_map RawMessage.empty = ok Fields.end
decode_map (document Json.null) = ok Fields.end
decode_map (document (object fields)) = ok fields
decode_map _ = err bad_payload

-- `value, _ := payload[key].(string)`.
unfoldable pub string_field : String → Fields → String
string_field key fields = elim (lookup_field key fields) [ some (text s) ↦ s | _ ↦ "" ]

pub record Transition : Type 0 where
  pub from : String
  pub to : String
  pub reason : String

unfoldable pub transition_of : Fields → Transition
unfolding string_field
transition_of fields = record {
  from = string_field "from" fields;
  to = string_field "to" fields;
  reason = string_field "reason" fields;
}

-- `decodeTransition`.
unfoldable pub decode_transition : RawMessage → Result SnapshotError Transition
unfolding transition_of
decode_transition payload = do
  fields ← decode_map payload
  fail_if (string_field "to" fields == "") requires_to
  ok (transition_of fields)

-- `findTaskIndex` and the update of the task at that index.
unfoldable pub update_task :
    String
    → (TaskRuntime → Result SnapshotError TaskRuntime)
    → List TaskRuntime
    → Result SnapshotError (List TaskRuntime)
update_task id f [] = err (task_not_found id)
update_task id f (t ∷ rest) =
    let later = update_task id f rest in
    if t.task_id == id then (do u ← f t; ok (u ∷ rest)) else (do l ← later; ok (t ∷ l))

-- The statuses in which a run has ended.
unfoldable pub is_ended : String → Bool
is_ended status =
    status == "completed" || status == "failed" || status == "cancelled" || status == "degraded"

unfoldable pub first_time : Option ℕ → ℕ → Option ℕ
first_time none at = some at
first_time (some t) at = some t

unfoldable pub reduce_run : ℕ → RawMessage → Snapshot → Result SnapshotError Snapshot
unfolding is_ended first_time decode_transition
reduce_run at payload s = do
  t ← decode_transition payload
  fail_if (not (s.run.status == "") && not (s.run.status == t.from)) from_mismatch
  ok (record s {
    run = record s.run {
      status = t.to;
      started_at = if t.to == "planned" then s.run.started_at else first_time s.run.started_at at;
      ended_at = if is_ended t.to then some at else s.run.ended_at;
    };
    last_error = if t.reason == "" then s.last_error else t.reason;
  })

abbrev pub is_marker : String → Bool
is_marker reason = reason == "select_wave" || reason == "barrier_result"

-- `applyWave`.
unfoldable pub apply_wave : String → Transition → String → Wave → Result SnapshotError Wave
apply_wave wave_id t barrier_result w = do
  fail_if
      (not (t.to == "")
        && not (w.status == "")
        && not (t.from == "")
        && not (w.status == t.from)
        && not (is_marker t.reason)
        && w.wave_id == wave_id
        && t.reason == "")
      from_mismatch
  let moved = not (t.to == "") && not (is_marker t.reason)
  ok (record w {
    status = if moved then t.to else w.status;
    failure_reason =
        if moved && not (t.reason == "") && t.to == "failed" then t.reason else w.failure_reason;
    barrier_result = if barrier_result == "" then w.barrier_result else barrier_result;
  })

-- The loop over `next.Waves`: the waves, and the one that was found.
unfoldable pub update_wave :
    String
    → (Wave → Result SnapshotError Wave)
    → List Wave
    → Result SnapshotError (List Wave × Option Wave)
update_wave id f [] = ok ([], none)
update_wave id f (w ∷ rest) =
    let later = update_wave id f rest in
    if w.wave_id == id
    then (do u ← f w; ok (u ∷ rest, some u))
    else (do l ← later; ok (w ∷ l.0, l.1))

unfoldable pub with_wave : String → String → Wave → Snapshot → List Wave × Option Wave → Snapshot
with_wave wave_id reason current s (waves, some w) = record s {
  wave = if current.wave_id == wave_id then w else current;
  waves = waves;
}
-- No wave has the id, so the loop that looks for it again finds none.
with_wave wave_id reason current s (waves, none) = record s {
  wave = current;
  waves = waves;
  run = if reason == "select_wave" then record s.run { current_wave = wave_id } else s.run;
}

unfoldable pub is_nil : Option Json → Bool
is_nil none = true
is_nil (some Json.null) = true
is_nil _ = false

unfoldable pub reduce_wave : RawMessage → Snapshot → Result SnapshotError Snapshot
unfolding apply_wave update_wave with_wave transition_of is_nil
reduce_wave payload s = do
  fields ← decode_map payload
  let wave_id = string_field "wave_id" fields
  let t = transition_of fields
  let barrier_result = string_field "barrier_result" fields
  fail_if (wave_id == "") requires_wave_id
  fail_if (t.to == "" && is_nil (lookup_field "barrier_result" fields)) requires_to
  current ←
      (if s.wave.wave_id == ""
        then apply_wave wave_id t barrier_result (record s.wave { wave_id = wave_id })
        else if s.wave.wave_id == wave_id
        then apply_wave wave_id t barrier_result s.wave
        else ok s.wave)
  found ← update_wave wave_id (apply_wave wave_id t barrier_result) s.waves
  ok (with_wave wave_id t.reason current s found)

-- The status of the task, of its dimensions and of its worker.
unfoldable pub reduced_worker : Task → WorkerSession → WorkerSession
reduced_worker to w = record w { dimensions = record w.dimensions { task = to } }

unfoldable pub reduced_task : Task → TaskRuntime → TaskRuntime
unfolding reduced_worker
reduced_task to t = record t {
  status = to;
  state = record t.state {
    dimensions = record t.state.dimensions { task = to };
    worker = elim t.state.worker [ none ↦ none | some w ↦ some (reduced_worker to w) ];
  };
}

unfoldable pub reduce_task_status : String → String → TaskRuntime → Result SnapshotError TaskRuntime
unfolding reduced_task
reduce_task_status from to t = do
  fail_if (not (from == "") && not (task_text t.status == from)) from_mismatch
  elim (validate_task_transition t.status (task_of_text to)) [
    | err e ↦ err (invalid_transition e)
    | ok _ ↦ ok (reduced_task (task_of_text to) t)
  ]

unfoldable pub reduce_task : String → String → RawMessage → Snapshot → Result SnapshotError Snapshot
unfolding transition_of reduce_task_status update_task
reduce_task legacy event_task payload s = do
  fields ← decode_map payload
  let task_id = if event_task == "" then string_field "task_id" fields else event_task
  let to = if string_field "to" fields == "" then legacy else string_field "to" fields
  fail_if (task_id == "" || to == "") requires_task
  tasks ← update_task task_id (reduce_task_status (string_field "from" fields) to) s.tasks
  ok (record s { tasks = tasks })
