-- ===== src/Supervisor/Apply.antt =====
-- internal/supervisor/reducer.go: `ApplyEvent` and `ReplayEvents`. encoding/json is a parameter where it
-- reads a typed value: `decode_worker` and `decode_runtime`, and `to_int` for the text of a number.
use subagent_broker.Common.{
  ℕ, ◌+◌, String, true, Option, none, some, List, [], ◌∷◌, ◌++◌, ◌==◌, ◌&&◌, not, ltb, leb, length,
  string_eq, nat_eq, if◌then◌else◌, Result, ok, err, ◌>>=◌, ◌>>◌, fail_if,
}
use subagent_broker.Message.Json.{Json, number, Fields, RawMessage, lookup_field}
use subagent_broker.State.Kinds.{Dimensions, process_of_text, protocol_of_text, progress_of_text}
use subagent_broker.State.Transitions.{validate_progress_transition}
use subagent_broker.Attempts.Types.{
  Mode, mode_of_text, Outcome, outcome_of_text, WorkerSession, TaskState,
}
use subagent_broker.Attempts.Ops.{migrate_attempts, finish_active_attempt}
use subagent_broker.Journal.Events.{Event}
use subagent_broker.Supervisor.Types.{
  TaskRuntime, Snapshot, SnapshotError, zero_seq, run_mismatch, already_applied, seq_gap,
  bad_payload, requires_task, requires_worker, invalid_transition,
}
use subagent_broker.Supervisor.Reducer.{
  EventKind, run_changed, wave_changed, task_changed, attempt_started, attempt_finished,
  runtime_updated, process_changed, protocol_changed, progress_changed, stall_assessed,
  stall_cleared, heartbeat, untracked, event_kind, is_telemetry, decode_map, string_field,
  update_task, reduce_run, reduce_wave, reduce_task,
}

-- `payload, _ := decodeMap(ev.Payload)`.
unfoldable pub fields_of : RawMessage → Fields
unfolding decode_map
fields_of payload = elim (decode_map payload) [ ok fields ↦ fields | err _ ↦ Fields.end ]

-- A best-effort update: no task id, or no such task, changes nothing.
unfoldable pub try_task :
    String
    → (TaskRuntime → Result SnapshotError TaskRuntime)
    → List TaskRuntime
    → Result SnapshotError (List TaskRuntime)
try_task id f [] = ok []
try_task id f (t ∷ rest) =
    let later = try_task id f rest in
    if t.task_id == id then (do u ← f t; ok (u ∷ rest)) else (do l ← later; ok (t ∷ l))

unfoldable pub try_in_snapshot :
    String
    → (TaskRuntime → Result SnapshotError TaskRuntime)
    → Snapshot
    → Result SnapshotError Snapshot
unfolding try_task
try_in_snapshot id f s =
    if id == "" then ok s else (do tasks ← try_task id f s.tasks; ok (record s { tasks = tasks }))

-- One change of the dimensions of a task and of its worker.
unfoldable pub with_dimensions : (Dimensions → Dimensions) → TaskRuntime → TaskRuntime
with_dimensions f t = record t {
  state = record t.state {
    dimensions = f t.state.dimensions;
    worker = elim t.state.worker [
      | none ↦ none
      | some w ↦ some (record w { dimensions = f w.dimensions })
    ];
  };
}

unfoldable pub reduce_process : Fields → TaskRuntime → Result SnapshotError TaskRuntime
unfolding with_dimensions
reduce_process fields t =
    let to = string_field "to" fields in
    ok (if to == "" then t else with_dimensions (λ d. record d { process = process_of_text to }) t)

unfoldable pub reduce_protocol : Fields → TaskRuntime → Result SnapshotError TaskRuntime
unfolding with_dimensions
reduce_protocol fields t =
    let to = string_field "to" fields in
    ok
      (if to == "" then t else with_dimensions (λ d. record d { protocol = protocol_of_text to }) t)

unfoldable pub reduce_progress : Fields → TaskRuntime → Result SnapshotError TaskRuntime
unfolding with_dimensions
reduce_progress fields t =
    let to = string_field "to" fields in
    let from = string_field "from" fields in
    let moved = with_dimensions (λ d. record d { progress = progress_of_text to }) t in
    if to == ""
    then ok t
    else if from == ""
    then ok moved
    else elim (validate_progress_transition (progress_of_text from) (progress_of_text to)) [
      | err e ↦ err (invalid_transition e)
      | ok _ ↦ ok moved
    ]

unfoldable pub reduce_finished : ℕ → Fields → TaskRuntime → Result SnapshotError TaskRuntime
reduce_finished at fields t =
    let to = string_field "to" fields in
    ok (
      if to == "" then t else record t {
        state =
            finish_active_attempt (outcome_of_text to) (string_field "reason" fields) at t.state;
      })

-- The attempt of a worker whose attempt has started.
unfoldable pub started_attempt : ℕ → Mode → WorkerSession → TaskState → TaskState
started_attempt attempt_number mode w ts = record ts {
  attempts =
      ts.attempts
      ++ record {
        number = attempt_number;
        mode = mode;
        worker = w;
        outcome = Outcome.running;
        started_at = w.started_at;
        ended_at = none;
        reason = "";
      }
        ∷ [];
  active_attempt = attempt_number;
  worker = some w;
  dimensions = w.dimensions;
  report_stale = elim ts.report_stale [ some _ ↦ some true | none ↦ none ];
}

-- A runtime that was written before the last expansion of the scope keeps the scope of the snapshot.
unfoldable pub reduce_runtime : TaskRuntime → TaskRuntime → Result SnapshotError TaskRuntime
reduce_runtime written t = ok (
    if ltb (length written.write_scope) (length t.write_scope)
    then record written {
      write_scope = t.write_scope;
      allow_public_interface_change = t.allow_public_interface_change;
    }
    else written)

module _ (decode_worker : Json → Option WorkerSession) (decode_runtime : Json → Option TaskRuntime)
    (to_int : String → ℕ) where
  unfoldable pub payload_number : Fields → ℕ
  payload_number fields = elim (lookup_field "attempt" fields) [
    | some (number n) ↦ to_int n
    | _ ↦ 0
  ]

  unfoldable pub reduce_started : String → RawMessage → Snapshot → Result SnapshotError Snapshot
  unfolding payload_number started_attempt
  reduce_started event_task payload s = do
    fields ← decode_map payload
    elim (lookup_field "worker" fields) [
      | none ↦ err requires_worker
      | some raw ↦ elim (decode_worker raw) [
        | none ↦ err bad_payload
        | some w ↦ do
          let mode = string_field "mode" fields
          let attempt_number = if w.attempt == 0 then payload_number fields else w.attempt
          tasks ←
              update_task (if event_task == "" then w.task_id else event_task)
                (λ t. ok (record t {
                  state =
                      started_attempt attempt_number
                        (if mode == "" then Mode.fresh else mode_of_text mode) w
                        (migrate_attempts t.state);
                }))
                s.tasks
          ok (record s { tasks = tasks })
      ]
    ]

  unfoldable pub reduce_updated : RawMessage → Snapshot → Result SnapshotError Snapshot
  unfolding reduce_runtime
  reduce_updated payload s = do
    fields ← decode_map payload
    elim (lookup_field "task" fields) [
      | none ↦ err requires_task
      | some raw ↦ elim (decode_runtime raw) [
        | none ↦ err bad_payload
        | some written ↦ do
          tasks ← update_task written.task_id (reduce_runtime written) s.tasks
          ok (record s { tasks = tasks })
      ]
    ]

  -- The switch. The stall cases and the heartbeat change only fields that `Snapshot` leaves out.
  unfoldable pub reduce : ℕ → EventKind → Event → Snapshot → Result SnapshotError Snapshot
  unfolding reduce_started reduce_updated try_in_snapshot reduce_finished
  reduce now run_changed e s =
      reduce_run (if e.timestamp == 0 then now else e.timestamp) e.payload s
  reduce now wave_changed e s = reduce_wave e.payload s
  reduce now (task_changed legacy) e s = reduce_task legacy e.task_id e.payload s
  reduce now attempt_started e s = reduce_started e.task_id e.payload s
  reduce now attempt_finished e s =
      try_in_snapshot e.task_id (reduce_finished e.timestamp (fields_of e.payload)) s
  reduce now runtime_updated e s = reduce_updated e.payload s
  reduce now process_changed e s =
      try_in_snapshot e.task_id (reduce_process (fields_of e.payload)) s
  reduce now protocol_changed e s =
      try_in_snapshot e.task_id (reduce_protocol (fields_of e.payload)) s
  reduce now progress_changed e s =
      try_in_snapshot e.task_id (reduce_progress (fields_of e.payload)) s
  reduce now stall_assessed e s = ok s
  reduce now stall_cleared e s = ok s
  reduce now heartbeat e s = ok s
  reduce now untracked e s = ok s

  -- The checks before the switch.
  unfoldable pub check_applicable : Event → Snapshot → Result SnapshotError (Unit {0})
  check_applicable e s = do
    fail_if (e.seq == 0) zero_seq
    fail_if (not (s.run.run_id == "") && not (e.run_id == "") && not (s.run.run_id == e.run_id))
        run_mismatch
    fail_if (ltb 0 s.applied_event_seq && leb e.seq s.applied_event_seq) already_applied
    fail_if (ltb 0 s.applied_event_seq && not (e.seq == s.applied_event_seq + 1)) seq_gap

  unfoldable pub with_run_id : Event → Snapshot → Snapshot
  with_run_id e s = record s {
    run = record s.run {
      run_id = if s.run.run_id == "" && not (e.run_id == "") then e.run_id else s.run.run_id;
    };
  }

  -- `ApplyEvent`; `now` is what the clock says where the event has no time.
  unfoldable pub apply_event : ℕ → Snapshot → Event → Result SnapshotError Snapshot
  unfolding check_applicable with_run_id reduce
  apply_event now s e = do
    check_applicable e s
    next ← reduce now (event_kind e.type) e (with_run_id e s)
    ok (record next {
      applied_event_seq = e.seq;
      updated_at = if e.timestamp == 0 then now else e.timestamp;
    })

  -- The loop of `ReplayEvents` where the checkpoint has a sequence number.
  unfoldable pub replay_after : ℕ → ℕ → Snapshot → List Event → Result SnapshotError Snapshot
  replay_after now checkpoint current [] = ok current
  replay_after now checkpoint current (e ∷ rest) =
      let skipped = replay_after now checkpoint current rest in
      if leb e.seq checkpoint
      then skipped
      else (do applied ← apply_event now current e; replay_after now checkpoint applied rest)

  -- The loop where it has none; `last_seq` is 0 before the first event.
  unfoldable pub replay_legacy : ℕ → ℕ → Snapshot → List Event → Result SnapshotError Snapshot
  replay_legacy now last_seq current [] = ok current
  replay_legacy now last_seq current (e ∷ rest) = do
    fail_if (not (last_seq == 0) && not (e.seq == last_seq + 1)) seq_gap
    elim (apply_event now current e) [
      | ok applied ↦ replay_legacy now e.seq applied rest
      | err x ↦
          if is_telemetry e.type
          then replay_legacy now e.seq (record current { applied_event_seq = e.seq }) rest
          else err x
    ]

  -- `ReplayEvents`.
  unfoldable pub replay_snapshot : ℕ → Snapshot → List Event → Result SnapshotError Snapshot
  unfolding replay_after replay_legacy
  replay_snapshot now s events =
      if s.applied_event_seq == 0
      then replay_legacy now 0 s events
      else replay_after now s.applied_event_seq s events
