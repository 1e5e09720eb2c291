-- ===== src/Supervisor/Status.antt =====
-- internal/supervisor/state_commit.go, runtime.go: the commits of the status of a run, a wave and a task.
-- The caller of these reads the snapshot that the commit then copies: `before` is both.
use subagent_broker.Common.{
  ℕ, String, Option, none, some, List, [], ◌∷◌, ◌==◌, ◌||◌, ◌&&◌, string_eq, if◌then◌else◌, Result,
  ok, err, ◌>>=◌,
}
use subagent_broker.Message.Json.{text, Fields, field, object, document}
use subagent_broker.State.Kinds.{Task, task_text, task_eq}
use subagent_broker.State.Transitions.{validate_task_transition}
use subagent_broker.Attempts.Types.{WorkerSession}
use subagent_broker.Journal.Lines.{Bytes}
use subagent_broker.Journal.Events.{Event, Input}
use subagent_broker.Supervisor.Types.{
  Wave, TaskRuntime, Snapshot, SnapshotError, task_not_found, invalid_transition,
}
use subagent_broker.Supervisor.Commit.{Service, World, CommitError, rejected, commit_mutate}

abbrev pub text_field : String → String → Fields → Fields
text_field key value rest = field key (text value) rest

unfoldable pub supervisor_input : String → String → Fields → Input
supervisor_input task_id type fields = record {
  task_id = task_id;
  worker_id = "";
  timestamp = 0;
  source = "supervisor";
  type = type;
  severity = "info";
  payload = some (document (object fields));
}

unfoldable pub run_input : String → String → String → Input
unfolding supervisor_input
run_input from to reason =
    supervisor_input "" "run.state_changed"
      (text_field "from" from (text_field "reason" reason (text_field "to" to Fields.end)))

-- The mutation of `setRunStatus`.
unfoldable pub mutate_run : ℕ → String → String → Snapshot → Result SnapshotError Snapshot
mutate_run now status reason s = ok (record s {
  run = record s.run {
    status = status;
    started_at = elim s.run.started_at [
      | some t ↦ some t
      | none ↦ if status == "planned" then none else some now
    ];
    ended_at =
        if status == "completed"
          || status == "failed"
          || status == "cancelled"
          || status == "degraded"
        then some now
        else s.run.ended_at;
  };
  last_error = if reason == "" then s.last_error else reason;
  updated_at = now;
})

unfoldable pub wave_input : String → String → String → String → Input
unfolding supervisor_input
wave_input wave_id from to reason = supervisor_input "" "wave.state_changed" (
    text_field "from" from
      (text_field "reason" reason (text_field "to" to (text_field "wave_id" wave_id Fields.end))))

unfoldable pub replace_wave : Wave → List Wave → List Wave
replace_wave w [] = []
replace_wave w (v ∷ rest) =
    let later = replace_wave w rest in if v.wave_id == w.wave_id then w ∷ rest else v ∷ later

-- The mutation of `setWaveStatusReason`.
unfoldable pub mutated_wave : ℕ → String → String → Wave → Wave
mutated_wave now status reason w = record w {
  status = status;
  failure_reason = if reason == "" then w.failure_reason else reason;
  started_at = if status == "running" then some now else w.started_at;
  ended_at =
      if status == "verified" || status == "failed" || status == "cancelled" || status == "blocked"
      then some now
      else w.ended_at;
}

unfoldable pub mutate_wave : ℕ → String → String → Snapshot → Result SnapshotError Snapshot
unfolding mutated_wave replace_wave
mutate_wave now status reason s = ok (record s {
  wave = mutated_wave now status reason s.wave;
  waves = replace_wave (mutated_wave now status reason s.wave) s.waves;
  updated_at = now;
})

-- The mutation of `selectWave`.
unfoldable pub find_wave : String → List Wave → Option Wave
find_wave id [] = none
find_wave id (w ∷ rest) = let later = find_wave id rest in if w.wave_id == id then some w else later

unfoldable pub mutate_selected : ℕ → String → Snapshot → Result SnapshotError Snapshot
unfolding find_wave
mutate_selected now id s = ok (record s {
  run = record s.run { current_wave = id };
  wave = elim (find_wave id s.waves) [ some w ↦ w | none ↦ s.wave ];
  updated_at = now;
})

unfoldable pub task_event_type : Task → String
task_event_type Task.reported_complete = "task.reported_complete"
task_event_type Task.verified_success = "task.verified_success"
task_event_type Task.verification_failed = "task.verification_failed"
task_event_type _ = "task.state_changed"

unfoldable pub task_input : String → Task → Task → Input
unfolding supervisor_input task_event_type
task_input task_id from to = supervisor_input task_id (task_event_type to) (
    text_field "from" (task_text from) (
      text_field "reason" ""
        (text_field "task_id" task_id (text_field "to" (task_text to) Fields.end))))

-- The mutation of `transitionTask`.
unfoldable pub moved_worker : Task → Option WorkerSession → Option WorkerSession
moved_worker next none = none
moved_worker next (some w) = some (record w { dimensions = record w.dimensions { task = next } })

unfoldable pub moved_task : Task → TaskRuntime → TaskRuntime
unfolding moved_worker
moved_task next t = record t {
  status = next;
  state = record t.state {
    dimensions = record t.state.dimensions { task = next };
    worker = moved_worker next t.state.worker;
  };
}

unfoldable pub move_task :
    String → Task → List TaskRuntime → Result SnapshotError (List TaskRuntime)
unfolding moved_task
move_task id next [] = err (task_not_found id)
move_task id next (t ∷ rest) =
    let later = move_task id next rest in
    if t.task_id == id
    then elim (validate_task_transition t.status next) [
      | err e ↦ err (invalid_transition e)
      | ok _ ↦ ok (moved_task next t ∷ rest)
    ]
    else (do l ← later; ok (t ∷ l))

unfoldable pub mutate_task : ℕ → String → Task → Snapshot → Result SnapshotError Snapshot
unfolding move_task
mutate_task now id next s = do
  tasks ← move_task id next s.tasks
  ok (record s { tasks = tasks; updated_at = now })

module _ (encode : Event → Option Bytes) (decode : Bytes → Option Event) where
  -- `setRunStatus`; `now` is the clock in the mutation.
  unfoldable pub set_run_status :
      World → ℕ → String → String → Service → Service × Option CommitError
  unfolding run_input
  set_run_status world now status reason s =
      if s.snapshot.run.status == status && (reason == "" || s.snapshot.last_error == reason)
      then (s, none)
      else commit_mutate encode decode world (run_input s.snapshot.run.status status reason)
          (mutate_run now status reason) s

  -- `setWaveStatusReason`.
  unfoldable pub set_wave_status_reason :
      World → ℕ → String → String → Service → Service × Option CommitError
  unfolding wave_input
  set_wave_status_reason world now status reason s =
      if s.snapshot.wave.status == status
        && (reason == "" || s.snapshot.wave.failure_reason == reason)
      then (s, none)
      else commit_mutate encode decode world
          (wave_input s.snapshot.wave.wave_id s.snapshot.wave.status status reason)
          (mutate_wave now status reason) s

  -- `selectWave`.
  unfoldable pub select_wave : World → ℕ → String → Service → Service × Option CommitError
  unfolding wave_input
  select_wave world now id s =
      commit_mutate encode decode world (wave_input id s.snapshot.wave.wave_id id "select_wave")
        (mutate_selected now id) s

  -- `transitionTask`; `from` is the status of the runtime that the caller holds.
  unfoldable pub transition_task :
      World → ℕ → String → Task → Task → Service → Service × Option CommitError
  unfolding task_input
  transition_task world now task_id from next s = elim (validate_task_transition from next) [
    | err e ↦ (s, some (rejected (invalid_transition e)))
    | ok _ ↦
        commit_mutate encode decode world (task_input task_id from next)
          (mutate_task now task_id next) s
  ]
