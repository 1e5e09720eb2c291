-- ===== src/Supervisor/SavedDivergence.antt =====
-- internal/supervisor/state_commit.go, reducer.go: the event of saveRuntime beside its mutation.
use subagent_broker.Common.{
  ℕ, String, true, Option, some, List, [], ◌∷◌, ◌≡◌, ◌≢◌, refl, inl, inr, ◌==◌, string_eq, nat_eq,
  Result, ok, arith, Bool-cases, String-discrete, length, ltb,
}
use subagent_broker.Message.Json.{Json, text, field, end, object, document, lookup_field}
use subagent_broker.Message.Kinds.{Message}
use subagent_broker.State.Kinds.{Task}
use subagent_broker.Attempts.Types.{WorkerSession}
use subagent_broker.Journal.Events.{Event}
use subagent_broker.Supervisor.Types.{TaskRuntime, Snapshot, SnapshotError}
use subagent_broker.Supervisor.Reducer.{update_task, event_kind, decode_map}
use subagent_broker.Supervisor.Apply.{apply_event, reduce, reduce_updated, reduce_runtime}
use subagent_broker.Supervisor.Saved.{
  awaits_decision, blocked_runtime, saved_runtime, mutate_saved, saved_input,
}
use subagent_broker.Supervisor.Recovery.{Describes}
use subagent_broker.Supervisor.Rebuilt.{apply_event-next}
use subagent_broker.Supervisor.TaskRebuilt.{task_status, same_payload}

-- An update that gives every task one id and one status gives the first task with the id the status.
update_task-status :
    (id : String) (f : TaskRuntime → Result SnapshotError TaskRuntime) (tasks : List TaskRuntime)
    (was st : Task)
    → ((t : TaskRuntime) → (u : TaskRuntime) × (f t ≡ ok u) × (u.task_id ≡ id) × (u.status ≡ st))
    → task_status id tasks ≡ some was
    → (l : List TaskRuntime) × (update_task id f tasks ≡ ok l) × (task_status id l ≡ some st)
unfolding update_task task_status
update_task-status id f [] was st made h = cc
update_task-status id f (t ∷ rest) was st made h = elim (Bool-cases (t.task_id == id)) [
  | inl b ↦ let (u, e, i, k) = made t in (u ∷ rest, ground (arith, b, e), ground (arith, i, k))
  | inr b ↦
      let (l, e, k) = update_task-status id f rest was st made (ground (arith, b, h)) in
      (t ∷ l, ground (arith, b, e), ground (arith, b, k))
]

saved_blocked :
    (messages : List Message) (runtime there : TaskRuntime)
    → awaits_decision runtime.task_id messages ≡ true
    → (u : TaskRuntime) × (◌≡◌ {A = Result SnapshotError TaskRuntime}
        (ok (saved_runtime messages runtime there))
        (ok u))
      × (u.task_id ≡ runtime.task_id)
      × (u.status ≡ Task.blocked)
unfolding saved_runtime blocked_runtime
saved_blocked messages runtime there h =
    (saved_runtime messages runtime there, refl, ground (arith, h), ground (arith, h))

reduced_written :
    (written there : TaskRuntime)
    → (u : TaskRuntime) × (reduce_runtime written there ≡ ok u)
      × (u.task_id ≡ written.task_id)
      × (u.status ≡ written.status)
unfolding reduce_runtime
reduced_written written there =
    elim (Bool-cases (ltb (length written.write_scope) (length there.write_scope))) [
      | inl b ↦ (
        record written {
          write_scope = there.write_scope;
          allow_public_interface_change = there.allow_public_interface_change;
        },
        ground (arith, b),
        refl,
        refl,
      )
      | inr b ↦ (written, ground (arith, b), refl, refl)
    ]

module _ (decode_worker : Json → Option WorkerSession) (decode_runtime : Json → Option TaskRuntime)
    (to_int : String → ℕ) (encode_runtime : TaskRuntime → Json) where
  reduced_saved :
      (at : Snapshot) (runtime : TaskRuntime) (moved : List TaskRuntime)
      → decode_runtime (encode_runtime runtime) ≡ some runtime
      → update_task runtime.task_id (reduce_runtime runtime) at.tasks ≡ ok moved
      → reduce_updated decode_worker decode_runtime to_int
          (document (
            object (
              field "reason" (text "runtime_update") (
                field "task"
                  (encode_runtime runtime)
                  (field "task_id" (text runtime.task_id) end)))))
          at
        ≡ ok (record at { tasks = moved })
  unfolding reduce_updated decode_map lookup_field String-discrete
  reduced_saved at runtime moved law h = rw (law, h) refl

  -- The event of `saveRuntime` has the runtime from before its mutation: where a message of the task
  -- awaits a decision, the commit makes the task blocked, and the reducer gives it the status that the
  -- runtime had. `decode_runtime` reads what `encode_runtime` wrote; the snapshot has the task.
  pub block_is_lost :
      (now later : ℕ) (at : Snapshot) (e : Event) (runtime : TaskRuntime) (messages : List Message)
      (was : Task)
      → Describes (saved_input encode_runtime runtime) at e
      → at.run.run_id ≢ ""
      → decode_runtime (encode_runtime runtime) ≡ some runtime
      → awaits_decision runtime.task_id messages ≡ true
      → task_status runtime.task_id at.tasks ≡ some was
      → ((r : Snapshot) × (apply_event decode_worker decode_runtime to_int later at e ≡ ok r)
          × (task_status runtime.task_id r.tasks ≡ some runtime.status))
        × ((candidate : Snapshot) × (mutate_saved now messages runtime at ≡ ok candidate)
            × (task_status runtime.task_id candidate.tasks ≡ some Task.blocked))
  unfolding mutate_saved reduce saved_input event_kind String-discrete
  block_is_lost now later at e runtime messages was d named law waits had =
      let (moved, m, status) =
        update_task-status runtime.task_id (reduce_runtime runtime) at.tasks was runtime.status
          (reduced_written runtime) had in
      let (blocked, b, blocked_status) =
        update_task-status runtime.task_id (λ there. ok (saved_runtime messages runtime there))
          at.tasks was Task.blocked (λ there. saved_blocked messages runtime there waits) had in
      let read = same_payload e (saved_input encode_runtime runtime) _ refl d.payload in
      let applied : reduce decode_worker decode_runtime to_int later (event_kind e.type) e at
          ≡ ok (record at { tasks = moved }) =
        rw (d.type, read) (reduced_saved at runtime moved law m) in
      (
        (
          _,
          apply_event-next decode_worker decode_runtime to_int later at
              (record at { tasks = moved }) e _ d named applied,
          status,
        ),
        (record at { tasks = blocked; updated_at = now }, rw b refl, blocked_status),
      )
