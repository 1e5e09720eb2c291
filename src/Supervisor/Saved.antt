-- ===== src/Supervisor/Saved.antt =====
-- internal/supervisor/state_commit.go: saveRuntime. `encode_runtime` is what `json.Marshal` makes of the
-- state of a task.
use subagent_broker.Common.{
  ℕ, String, Bool, true, false, Option, none, some, List, ◌==◌, ◌&&◌, not, any, string_eq,
  if◌then◌else◌, Result, ok, ◌>>=◌,
}
use subagent_broker.Message.Json.{Json, text, end, field, object, document}
use subagent_broker.Message.Kinds.{Message, MessageType, is_terminal}
use subagent_broker.State.Kinds.{Progress, Task}
use subagent_broker.Attempts.Types.{WorkerSession}
use subagent_broker.Journal.Lines.{Bytes}
use subagent_broker.Journal.Events.{Event, Input}
use subagent_broker.Supervisor.Types.{TaskRuntime, Snapshot, SnapshotError}
use subagent_broker.Supervisor.Reducer.{update_task}
use subagent_broker.Supervisor.Commit.{Service, World, CommitError, commit_mutate}

-- `workerID`.
unfoldable pub worker_id_of : Option WorkerSession → String
worker_id_of none = "worker-unknown"
worker_id_of (some w) = w.worker_id

is_instruction : MessageType → Bool
is_instruction MessageType.instruction = true
is_instruction _ = false

-- A pending message that is no instruction; `messages` are the values of the index.
unfoldable pub awaits_decision : String → List Message → Bool
unfolding is_instruction
awaits_decision id messages =
    any
      (λ (m : Message).
        m.task_id == id && not (is_terminal m.status) && not (is_instruction m.type))
      messages

unfoldable pub blocked_runtime : TaskRuntime → TaskRuntime
blocked_runtime t = record t {
  status = Task.blocked;
  state = record t.state {
    dimensions = record t.state.dimensions { task = Task.blocked; progress = Progress.quiet };
  };
}

-- What the mutation makes of the runtime and of the task that is there.
unfoldable pub saved_runtime : List Message → TaskRuntime → TaskRuntime → TaskRuntime
unfolding blocked_runtime
saved_runtime messages runtime there =
    let scoped = record runtime {
      write_scope = there.write_scope;
      allow_public_interface_change = there.allow_public_interface_change;
    } in
    if awaits_decision runtime.task_id messages then blocked_runtime scoped else scoped

unfoldable pub mutate_saved :
    ℕ → List Message → TaskRuntime → Snapshot → Result SnapshotError Snapshot
unfolding update_task
mutate_saved now messages runtime s = do
  tasks ← update_task runtime.task_id (λ there. ok (saved_runtime messages runtime there)) s.tasks
  ok (record s { tasks = tasks; updated_at = now })

module _ (encode_runtime : TaskRuntime → Json) where
  unfoldable pub saved_input : TaskRuntime → Input
  unfolding worker_id_of
  saved_input runtime = record {
    task_id = runtime.task_id;
    worker_id = worker_id_of runtime.state.worker;
    timestamp = 0;
    source = "supervisor";
    type = "task.runtime_updated";
    severity = "info";
    payload = some (
        document (
          object (
            field "reason" (text "runtime_update") (
              field "task" (encode_runtime runtime)
                (field "task_id" (text runtime.task_id) end)))));
  }

  -- `saveRuntime`.
  unfoldable pub save_runtime :
      (Event → Option Bytes)
      → (Bytes → Option Event)
      → World
      → ℕ
      → List Message
      → TaskRuntime
      → Service
      → Service × Option CommitError
  unfolding saved_input mutate_saved
  save_runtime encode decode world now messages runtime s =
      commit_mutate encode decode world (saved_input runtime) (mutate_saved now messages runtime) s
