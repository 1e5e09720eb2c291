-- ===== src/Supervisor/Examples.antt =====
-- Tests and instances for internal/supervisor.
use subagent_broker.Common.{
  any, ℕ, String, true, false, Option, none, some, [], ◌∷◌, ◌≡◌, ◌≢◌, refl, sym, ap, string_eq, ◌⊎◌,
  inr, Result, ok, err, arith, flat, String-discrete, ℕ_discrete,
}
use subagent_broker.Message.Json.{Json, RawMessage, document, object, field, text, end}
use subagent_broker.State.Kinds.{
  Process, Protocol, Progress, Task, Dimensions, task_text, task_of_text,
}
use subagent_broker.Attempts.Types.{WorkerSession}
use subagent_broker.Journal.Lines.{Bytes, newline}
use subagent_broker.Journal.Split.{NoNewline}
use subagent_broker.Journal.File.{AppendDisk, append_jsonl, has_complete_tail}
use subagent_broker.Journal.Crash.{fold_lines}
use subagent_broker.Journal.Events.{
  Input, Event, EventStore, Seen, see, event_of, read_event, check_event, append_event,
}
use subagent_broker.Journal.Sequence.{Continues}
use subagent_broker.Journal.Sample.{encode_among, decode_among, among_law}
use subagent_broker.Supervisor.Types.{Wave, TaskRuntime, Snapshot}
use subagent_broker.Supervisor.Apply.{apply_event, replay_after}
use subagent_broker.Supervisor.Commit.{
  append_telemetry, Service, SnapshotDisk, persisted, not_stored, stored_only, World, CommitError,
  CommitRequest, candidate_of, commit, commit_candidate,
}
use subagent_broker.Supervisor.Status.{
  run_input, mutate_run, mutate_task, wave_input, mutate_wave, mutate_selected, find_wave,
  set_run_status, transition_task,
}
use subagent_broker.Supervisor.Failed.{Refused, FailsClosed, Installed, commit_ends}
use subagent_broker.Supervisor.Restore.{last_sequence}
use subagent_broker.Supervisor.Recovery.{Settled, Recovers}
use subagent_broker.Supervisor.Restarts.{commit-Recovers}
use subagent_broker.Supervisor.Rebuilt.{unvalidated, run_status-Rebuilds}
use subagent_broker.Supervisor.TaskRebuilt.{task_status}
use subagent_broker.Supervisor.StatusRestarts.{
  Restarts, set_run_status-Restarts, transition_task-Restarts,
}
use subagent_broker.Supervisor.Divergence.{selection_is_lost, start_of_wave_is_lost}
use subagent_broker.Message.Kinds.{Message, MessageType, Status, no_mode}
use subagent_broker.Supervisor.Saved.{mutate_saved, saved_input, awaits_decision}
use subagent_broker.Supervisor.SavedDivergence.{block_is_lost}
use subagent_broker.Supervisor.Onward.{commit-Settled}

-- No typed value is read in these tests.
abbrev no_worker : Json → Option WorkerSession
no_worker j = none

abbrev no_runtime : Json → Option TaskRuntime
no_runtime j = none

abbrev no_int : String → ℕ
no_int n = 0

abbrev dimensions : Dimensions
dimensions = record {
  process = Process.alive;
  protocol = Protocol.thinking;
  progress = Progress.active;
  task = Task.running;
}

abbrev running_task : TaskRuntime
running_task = record {
  task_id = "task-1";
  status = Task.running;
  write_scope = [];
  allow_public_interface_change = false;
  state = record {
    attempts = [];
    active_attempt = 0;
    worker = none;
    dimensions = dimensions;
    last_progress = 0;
    report_stale = none;
  };
}

abbrev wave_one : Wave
wave_one = record {
  wave_id = "first";
  status = "planned";
  started_at = none;
  ended_at = none;
  barrier_result = "";
  failure_reason = "";
}

abbrev wave_two : Wave
wave_two = record wave_one { wave_id = "second" }

abbrev snapshot_one : Snapshot
snapshot_one = record {
  run = record {
    run_id = "run-1";
    status = "running";
    started_at = some 3;
    ended_at = none;
    current_wave = "first";
  };
  wave = wave_one;
  waves = wave_one ∷ wave_two ∷ [];
  tasks = running_task ∷ [];
  updated_at = 3;
  last_error = "";
  applied_event_seq = 1;
}

abbrev heartbeat : Event
heartbeat = record {
  schema = "v1alpha1";
  seq = 1;
  event_id = "event-1";
  run_id = "run-1";
  task_id = "";
  worker_id = "";
  timestamp = 2;
  source = "supervisor";
  type = "supervisor.heartbeat";
  severity = "info";
  payload = RawMessage.empty;
}

abbrev store_one : EventStore
store_one = record { file = some (b'1' ∷ newline ∷ []); run_id = "run-1"; next_seq = 2 }

abbrev degraded_event : Event
unfolding event_of run_input
degraded_event =
    event_of store_one (run_input "running" "degraded" "disk")
      (document (
        object (
          field "from" (text "running")
            (field "reason" (text "disk") (field "to" (text "degraded") end)))))
      "event-2" 7

abbrev encode : Event → Option Bytes
unfolding encode_among
encode = encode_among heartbeat degraded_event

abbrev decode : Bytes → Option Event
unfolding decode_among
decode = decode_among heartbeat degraded_event

codec_law :
    (e : Event) (line : Bytes) → encode e ≡ some line → (decode line ≡ some e) × NoNewline line
unfolding encode decode
codec_law = among_law heartbeat degraded_event

abbrev service_one : Service
service_one = record {
  snapshot = snapshot_one;
  accepting_work = true;
  events = store_one;
  stored = snapshot_one;
  failure_reported = false;
  workers_cancelled = false;
}

abbrev world : AppendDisk → SnapshotDisk → World
world append_disk snapshot_disk = record {
  cancelled = false;
  append_disk = append_disk;
  snapshot_disk = snapshot_disk;
  new_id = some "event-2";
  append_time = 7;
  commit_time = 8;
}

abbrev seen_one : Seen
seen_one = record { last_seq = 1; run_id = "run-1"; events = heartbeat ∷ [] }

run_named : let s : String = "run-1" in s ≢ ""
run_named e = cc e

event_named : let s : String = "event-2" in s ≢ ""
event_named e = cc e

store_one-Continues : Continues encode decode store_one seen_one
unfolding fold_lines flat encode decode read_event check_event decode_among String-discrete
    ℕ_discrete
store_one-Continues = record {
  lines = (b'1' ∷ []) ∷ [];
  file = refl;
  unbroken = ((omega arith, tt), tt);
  read = refl;
  next = refl;
  run = inr refl;
}

service_one-Settled :
    Settled encode decode no_worker no_runtime no_int 9 service_one seen_one snapshot_one
unfolding last_sequence replay_after ℕ_discrete
service_one-Settled = record {
  journal = store_one-Continues;
  run_named = run_named;
  same_run = refl;
  begun = omega arith;
  behind = omega arith;
  last = refl;
  rising = (omega arith, tt);
  replayed = refl;
  caught_up = refl;
  same = refl;
}

abbrev degrade : CommitRequest
degrade = unvalidated (run_input "running" "degraded" "disk") (mutate_run 6 "degraded" "disk")

commit_ends_example :
    let out = commit encode decode (world AppendDisk.unsynced persisted) degrade service_one in
    Refused service_one out
    ⊎ FailsClosed service_one out
    ⊎ Installed (world AppendDisk.unsynced persisted) degrade service_one out
commit_ends_example =
    commit_ends encode decode (world AppendDisk.unsynced persisted) degrade service_one

degraded_named : let s : String = "degraded" in s ≢ ""
degraded_named e = cc e

commit-Recovers_example :
    Recovers encode decode no_worker no_runtime no_int 9 degrade service_one
      (commit encode decode (world AppendDisk.unsynced persisted) degrade service_one)
commit-Recovers_example =
    commit-Recovers encode decode no_worker no_runtime no_int 9 codec_law degrade
      (world AppendDisk.unsynced persisted) service_one seen_one snapshot_one "event-2"
      service_one-Settled
      (run_status-Rebuilds encode decode no_worker no_runtime no_int 9 6 "degraded" "disk"
        snapshot_one degraded_named run_named)
      event_named refl (omega arith)

set_run_status-Restarts_example :
    Restarts encode decode no_worker no_runtime no_int 9
      (mutate_run 6 "degraded" "disk")
      service_one
      (set_run_status encode decode
        (world AppendDisk.written stored_only)
        6
        "degraded"
        "disk"
        service_one)
set_run_status-Restarts_example =
    set_run_status-Restarts encode decode no_worker no_runtime no_int 9 codec_law
      (world AppendDisk.written stored_only) service_one seen_one snapshot_one "event-2"
      service_one-Settled event_named refl (omega arith) 6 "degraded" "disk" degraded_named
      run_named

task_named : let s : String = "task-1" in s ≢ ""
task_named e = cc e

reported_named : task_text Task.reported_complete ≢ ""
unfolding task_text
reported_named e = cc e

transition_task-Restarts_example :
    Restarts encode decode no_worker no_runtime no_int 9
      (mutate_task 6 "task-1" Task.reported_complete)
      service_one
      (transition_task encode decode
        (world AppendDisk.written not_stored)
        6
        "task-1"
        Task.running
        Task.reported_complete
        service_one)
unfolding task_status task_of_text task_text String-discrete
transition_task-Restarts_example =
    transition_task-Restarts encode decode no_worker no_runtime no_int 9 codec_law
      (world AppendDisk.written not_stored) service_one seen_one snapshot_one "event-2"
      service_one-Settled event_named refl (omega arith) 6 "task-1" Task.running
      Task.reported_complete task_named reported_named refl refl run_named

abbrev after_degrade : Service
unfolding commit
after_degrade = (commit encode decode (world AppendDisk.written persisted) degrade service_one).0

run_id_of : Result CommitError Snapshot → String
run_id_of (ok s) = s.run.run_id
run_id_of (err e) = ""

degrade_keeps_run :
    (candidate : Snapshot)
    → candidate_of degrade service_one.snapshot ≡ ok candidate
    → candidate.run.run_id ≡ "run-1"
unfolding candidate_of mutate_run String-discrete run_input run_id_of
degrade_keeps_run candidate h = ap (λ (x : Result CommitError Snapshot). run_id_of x) (sym h)

commit-Settled_example :
    Settled encode decode no_worker no_runtime no_int 9 after_degrade
      (see degraded_event seen_one)
      after_degrade.snapshot
unfolding after_degrade commit encode candidate_of mutate_run run_input String-discrete append_event
    append_jsonl has_complete_tail ℕ_discrete commit_candidate
commit-Settled_example =
    commit-Settled encode decode no_worker no_runtime no_int 9 codec_law
      (world AppendDisk.written persisted) degrade service_one after_degrade seen_one snapshot_one
      "event-2" degraded_event service_one-Settled event_named refl (omega arith) degrade_keeps_run
      refl

abbrev selection : Event
unfolding wave_input
selection = record heartbeat {
  seq = 2;
  type = "wave.state_changed";
  payload = document (
      object (
        field "from" (text "first") (
          field "reason" (text "select_wave")
            (field "to" (text "second") (field "wave_id" (text "second") end)))));
}

wave_named : let s : String = "second" in s ≢ ""
wave_named e = cc e

wave_one_named : let s : String = "first" in (s ≢ "") × (s ≢ "second")
wave_one_named = (λ e. cc e, λ e. cc e)

selection_is_lost_example :
    ((r : Snapshot) × (apply_event no_worker no_runtime no_int 9 snapshot_one selection ≡ ok r)
      × (r.wave ≡ wave_one)
      × (r.run ≡ snapshot_one.run)
      × (r.applied_event_seq ≡ 2))
    × ((candidate : Snapshot) × (mutate_selected 6 "second" snapshot_one ≡ ok candidate)
        × (candidate.wave ≡ wave_two)
        × (candidate.run.current_wave ≡ "second"))
unfolding find_wave wave_input String-discrete
selection_is_lost_example =
    selection_is_lost no_worker no_runtime no_int 6 9 snapshot_one selection "second" wave_two
      (record { payload = refl; type = refl; task = refl; run = refl; seq = refl }) run_named
      wave_named wave_one_named.0 wave_one_named.1 refl

abbrev start : Event
start = record selection {
  payload = document (
      object (
        field "from" (text "planned") (
          field "reason" (text "")
            (field "to" (text "running") (field "wave_id" (text "first") end)))));
}

start_of_wave_is_lost_example :
    ((r : Snapshot) × (apply_event no_worker no_runtime no_int 9 snapshot_one start ≡ ok r)
      × (r.wave.status ≡ "running")
      × (r.wave.started_at ≡ none))
    × ((candidate : Snapshot) × (mutate_wave 6 "running" "" snapshot_one ≡ ok candidate)
        × (candidate.wave.status ≡ "running")
        × (candidate.wave.started_at ≡ some 6))
unfolding find_wave wave_input String-discrete
start_of_wave_is_lost_example =
    start_of_wave_is_lost no_worker no_runtime no_int 6 9 snapshot_one start
      (record { payload = refl; type = refl; task = refl; run = refl; seq = refl }) run_named
      wave_one_named.0 refl

-- A question of the task, not answered.
abbrev open_question : Message
open_question = record {
  schema = "v1alpha1";
  message_id = "message-1";
  run_id = "run-1";
  task_id = "task-1";
  worker_id = "worker-1";
  attempt_number = 1;
  type = MessageType.question;
  category = "";
  status = Status.queued;
  created_at = 4;
  updated_at = 4;
  in_reply_to = "";
  delivery_mode = no_mode;
  delivery_attempts = 0;
  error = "";
  payload = RawMessage.empty;
  resolution = RawMessage.empty;
}

abbrev as_text : TaskRuntime → Json
as_text t = text "task"

abbrev from_text : Json → Option TaskRuntime
from_text j = some running_task

abbrev saved_event : Event
saved_event = record heartbeat {
  seq = 2;
  task_id = "task-1";
  type = "task.runtime_updated";
  payload = document (
      object (
        field "reason" (text "runtime_update")
          (field "task" (text "task") (field "task_id" (text "task-1") end))));
}

block_is_lost_example :
    ((r : Snapshot) × (apply_event no_worker from_text no_int 9 snapshot_one saved_event ≡ ok r)
      × (task_status "task-1" r.tasks ≡ some Task.running))
    × ((candidate : Snapshot) × (mutate_saved 6 (open_question ∷ []) running_task snapshot_one
          ≡ ok candidate)
        × (task_status "task-1" candidate.tasks ≡ some Task.blocked))
unfolding task_status awaits_decision any saved_input String-discrete
block_is_lost_example =
    block_is_lost no_worker from_text no_int as_text 6 9 snapshot_one saved_event running_task
      (open_question ∷ []) Task.running
      (record { payload = refl; type = refl; task = refl; run = refl; seq = refl }) run_named refl
      refl refl

abbrev audit_note : Input
audit_note = record {
  task_id = "";
  worker_id = "";
  timestamp = 7;
  source = "supervisor";
  type = "report.published";
  severity = "info";
  payload = some RawMessage.empty;
}

abbrev note_event : Event
unfolding event_of
note_event = event_of store_one audit_note RawMessage.empty "event-2" 7

abbrev encode_note : Event → Option Bytes
unfolding encode_among
encode_note = encode_among heartbeat note_event

abbrev decode_note : Bytes → Option Event
unfolding decode_among
decode_note = decode_among heartbeat note_event

abbrev after_note : Service
unfolding append_telemetry
after_note =
    (append_telemetry encode_note decode_note (world AppendDisk.written persisted) audit_note
      service_one).0
