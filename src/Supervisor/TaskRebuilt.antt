-- ===== src/Supervisor/TaskRebuilt.antt =====
-- internal/supervisor/state_commit.go, reducer.go: the reducer beside `transitionTask`.
use subagent_broker.Common.{
  ℕ, String, Option, none, some, List, [], ◌∷◌, ◌≡◌, ◌≢◌, refl, sym, ap, ◌∙◌, inl, inr, ◌==◌,
  string_eq, nat_eq, if◌then◌else◌, ok, arith, Bool-cases, Option-cases, Result-cases,
  String-discrete,
}
use subagent_broker.Message.Json.{Json, Fields, object, document, RawMessage, lookup_field}
use subagent_broker.State.Kinds.{Task, task_text, task_of_text}
use subagent_broker.State.Transitions.{validate_task_transition}
use subagent_broker.Attempts.Types.{WorkerSession}
use subagent_broker.Journal.Lines.{Bytes}
use subagent_broker.Journal.Events.{Event, Input}
use subagent_broker.Supervisor.Types.{TaskRuntime, Snapshot}
use subagent_broker.Supervisor.Reducer.{
  task_changed, event_kind, decode_map, string_field, reduce_task, reduce_task_status, reduced_task,
  reduced_worker, update_task,
}
use subagent_broker.Supervisor.Apply.{reduce}
use subagent_broker.Supervisor.Status.{
  supervisor_input, text_field, task_input, task_event_type, mutate_task, move_task, moved_task,
  moved_worker,
}
use subagent_broker.Supervisor.Recovery.{Rebuilds}
use subagent_broker.Supervisor.Rebuilt.{unvalidated, candidate_of-unvalidated, apply_event-next}

-- The status of the first task with an id.
unfoldable pub task_status : String → List TaskRuntime → Option Task
task_status id [] = none
task_status id (t ∷ rest) =
    let later = task_status id rest in if t.task_id == id then some t.status else later

reduced_moved : (next : Task) (t : TaskRuntime) → reduced_task next t ≡ moved_task next t
unfolding reduced_task moved_task reduced_worker moved_worker
reduced_moved next t = elim (Option-cases t.state.worker) [
  | inl n ↦ ground (arith, n)
  | inr (w, n) ↦ ground (arith, n)
]

rebuilt_tasks :
    (id : String) (from next : Task) (tasks moved : List TaskRuntime)
    → task_of_text (task_text next) ≡ next
    → task_status id tasks ≡ some from
    → move_task id next tasks ≡ ok moved
    → update_task id (reduce_task_status (task_text from) (task_text next)) tasks ≡ ok moved
unfolding task_status move_task update_task reduce_task_status
rebuilt_tasks id from next [] moved k s h = cc
rebuilt_tasks id from next (t ∷ rest) moved k s h = elim (Bool-cases (t.task_id == id)) [
  | inl b ↦ elim (Result-cases (validate_task_transition t.status next)) [
    | inl (u, v) ↦ ground (arith, b, v, k, s, h, reduced_moved next t)
    | inr (x, v) ↦ ground (arith, b, v, h)
  ]
  | inr b ↦ elim (Result-cases (move_task id next rest)) [
    | inl (l, m) ↦ ground (arith, b, h, m, s, rebuilt_tasks id from next rest l k)
    | inr (x, m) ↦ ground (arith, b, h, m)
  ]
]

-- The type of the event and its legacy status.
task_event_kind :
    (next : Task) → (legacy : String) × (event_kind (task_event_type next) ≡ task_changed legacy)
unfolding task_event_type event_kind String-discrete
task_event_kind Task.reported_complete = ("reported_complete", refl)
task_event_kind Task.verified_success = ("verified_success", refl)
task_event_kind Task.verification_failed = ("verification_failed", refl)
task_event_kind Task.planned = ("", refl)
task_event_kind Task.running = ("", refl)
task_event_kind Task.blocked = ("", refl)
task_event_kind Task.verifying = ("", refl)
task_event_kind Task.verified_partial = ("", refl)
task_event_kind Task.failed = ("", refl)
task_event_kind Task.cancelled = ("", refl)
task_event_kind (Task.other s) = ("", refl)

abbrev task_fields : String → String → String → Fields
task_fields id from to =
    text_field "from" from
      (text_field "reason" "" (text_field "task_id" id (text_field "to" to Fields.end)))

task_field_from : (id from to : String) → string_field "from" (task_fields id from to) ≡ from
unfolding string_field lookup_field String-discrete
task_field_from id from to = ground arith

task_field_to : (id from to : String) → string_field "to" (task_fields id from to) ≡ to
unfolding string_field lookup_field String-discrete
task_field_to id from to = ground arith

reduce_task-ok :
    (legacy id : String) (from next : Task) (at : Snapshot) (moved : List TaskRuntime)
    → id ≢ ""
    → task_text next ≢ ""
    → task_of_text (task_text next) ≡ next
    → task_status id at.tasks ≡ some from
    → move_task id next at.tasks ≡ ok moved
    → reduce_task legacy id
        (document (object (task_fields id (task_text from) (task_text next))))
        at
      ≡ ok (record at { tasks = moved })
unfolding reduce_task decode_map
reduce_task-ok legacy id from next at moved named there k s h = ground (
  arith,
  named,
  there,
  task_field_from id (task_text from) (task_text next),
  task_field_to id (task_text from) (task_text next),
  rebuilt_tasks id from next at.tasks moved k s h,
)

pub same_payload :
    (e : Event) (input : Input) (payload : RawMessage)
    → input.payload ≡ some payload
    → input.payload ≡ some e.payload
    → e.payload ≡ payload
same_payload e input payload a b = ground (arith, a, b)

module _ (encode : Event → Option Bytes) (decode : Bytes → Option Event)
    (decode_worker : Json → Option WorkerSession) (decode_runtime : Json → Option TaskRuntime)
    (to_int : String → ℕ) (later : ℕ) where
  -- The reducer rebuilds what `transitionTask` makes of a snapshot with a run id, where the caller knows
  -- the status of the task, and the next status is a text of its own, not empty.
  pub task_status-Rebuilds :
      (now : ℕ) (id : String) (from next : Task) (before : Snapshot)
      → id ≢ ""
      → task_text next ≢ ""
      → task_of_text (task_text next) ≡ next
      → task_status id before.tasks ≡ some from
      → before.run.run_id ≢ ""
      → Rebuilds encode decode decode_worker decode_runtime to_int later
          (unvalidated (task_input id from next) (mutate_task now id next))
          before
  unfolding mutate_task reduce task_input supervisor_input
  task_status-Rebuilds now id from next before named there known_next had run_named at candidate e
        same c d =
      let made = candidate_of-unvalidated _ (mutate_task now id next) before candidate c in
      let tasks : at.tasks ≡ before.tasks = ap (λ (s : Snapshot). s.tasks) same in
      let (legacy, kind) = task_event_kind next in
      elim (Result-cases (move_task id next before.tasks)) [
        | inr (x, m) ↦ ground (arith, made, m)
        | inl (moved, m) ↦
            let read = same_payload e (task_input id from next) _ refl d.payload in
            let step =
              reduce_task-ok legacy id from next at moved named there known_next (rw tasks had)
                (rw tasks m) in
            let applied : reduce decode_worker decode_runtime to_int later (event_kind e.type) e at
                ≡ ok (record at { tasks = moved }) =
              rw (d.type, kind, d.task, read) step in
            (
              _,
              apply_event-next decode_worker decode_runtime to_int later at
                  (record at { tasks = moved }) e _ d
                  (λ z. run_named (sym (ap (λ (s : Snapshot). s.run.run_id) same) ∙ z)) applied,
              ground (arith, made, m, same),
            )
      ]
