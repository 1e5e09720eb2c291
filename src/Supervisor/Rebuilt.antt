-- ===== src/Supervisor/Rebuilt.antt =====
-- internal/supervisor/state_commit.go, reducer.go: the reducer beside the mutations of a status.
use subagent_broker.Common.{
  ℕ, String, Option, none, some, ◌≡◌, ◌≢◌, refl, sym, ap, ◌∙◌, inl, inr, ◌==◌, ◌||◌, string_eq,
  nat_eq, if◌then◌else◌, Result, ok, arith, Result-cases, String-discrete,
}
use subagent_broker.Message.Json.{
  Json, text, field, end, object, document, RawMessage, lookup_field,
}
use subagent_broker.Attempts.Types.{WorkerSession}
use subagent_broker.Journal.Lines.{Bytes}
use subagent_broker.Journal.Events.{Event, Input}
use subagent_broker.Supervisor.Types.{TaskRuntime, Snapshot, SnapshotError}
use subagent_broker.Supervisor.Reducer.{
  run_changed, event_kind, decode_map, string_field, transition_of, decode_transition, is_ended,
  first_time, reduce_run,
}
use subagent_broker.Supervisor.Apply.{apply_event, check_applicable, with_run_id, reduce}
use subagent_broker.Supervisor.Commit.{CommitRequest, candidate_of}
use subagent_broker.Supervisor.Status.{supervisor_input, run_input, mutate_run}
use subagent_broker.Supervisor.Recovery.{known, untimed, Describes, Rebuilds}

-- A request whose validation is nil.
abbrev pub unvalidated : Input → (Snapshot → Result SnapshotError Snapshot) → CommitRequest
unvalidated input mutate = record {
  event = input;
  mutate = mutate;
  validate = λ before candidate. ok tt;
}

module _ (decode_worker : Json → Option WorkerSession) (decode_runtime : Json → Option TaskRuntime)
    (to_int : String → ℕ) where
  check_next :
      (at : Snapshot) (e : Event) (input : Input)
      → Describes input at e
      → check_applicable decode_worker decode_runtime to_int e at ≡ ok tt
  unfolding check_applicable
  check_next at e input d = ground (arith, d.run, d.seq)

  run_id_kept :
      (at : Snapshot) (e : Event)
      → at.run.run_id ≢ ""
      → with_run_id decode_worker decode_runtime to_int e at ≡ at
  unfolding with_run_id
  run_id_kept at e named = ground (arith, named)

  -- An event that comes next is applied as its case says.
  pub apply_event-next :
      (now : ℕ) (at next : Snapshot) (e : Event) (input : Input)
      → Describes input at e
      → at.run.run_id ≢ ""
      → reduce decode_worker decode_runtime to_int now (event_kind e.type) e at ≡ ok next
      → apply_event decode_worker decode_runtime to_int now at e
        ≡ ok (record next {
          applied_event_seq = e.seq;
          updated_at = if e.timestamp == 0 then now else e.timestamp;
        })
  unfolding apply_event
  apply_event-next now at next e input d named h =
      rw (check_next at e input d, run_id_kept at e named, h) refl

run_payload :
    (from to reason : String)
    → to ≢ ""
    → decode_transition (
        document (
          object
            (field "from" (text from) (field "reason" (text reason) (field "to" (text to) end)))))
      ≡ ok (record { from = from; to = to; reason = reason })
unfolding decode_transition decode_map transition_of string_field lookup_field String-discrete
run_payload from to reason h = ground (arith, h)

-- What the case of the reducer makes of a run.
abbrev run_reduced : ℕ → String → String → Snapshot → Snapshot
unfolding is_ended first_time
run_reduced time status reason s = record s {
  run = record s.run {
    status = status;
    started_at = if status == "planned" then s.run.started_at else first_time s.run.started_at time;
    ended_at = if is_ended status then some time else s.run.ended_at;
  };
  last_error = if reason == "" then s.last_error else reason;
}

reduce_run-ok :
    (at : Snapshot) (time : ℕ) (status reason : String) (payload : RawMessage)
    → decode_transition payload ≡ ok (record { from = at.run.status; to = status; reason = reason })
    → reduce_run time payload at ≡ ok (run_reduced time status reason at)
unfolding reduce_run run_reduced
reduce_run-ok at time status reason payload h = rw h (ground arith)

abbrev run_mutated : ℕ → String → String → Snapshot → Snapshot
run_mutated now status reason s = record s {
  run = record s.run {
    status = status;
    started_at = elim s.run.started_at [
      | some t ↦ some t
      | none ↦ if status == "planned" then none else some now
    ];
    ended_at =
        if status == "completed"
          || status == "failed"
          || status == "cancelled"
          || status == "degraded"
        then some now
        else s.run.ended_at;
  };
  last_error = if reason == "" then s.last_error else reason;
  updated_at = now;
}

started_alike :
    (a b : Option ℕ) (time now : ℕ) (status : String)
    → known a ≡ known b
    → known (if status == "planned" then a else first_time a time)
      ≡ known (elim b [ some t ↦ some t | none ↦ if status == "planned" then none else some now ])
unfolding first_time
started_alike none none time now status h = ground arith
started_alike none (some t) time now status h = cc h
started_alike (some t) none time now status h = cc h
started_alike (some t) (some u) time now status h = ground arith

ended_alike :
    (a b : Option ℕ) (time now : ℕ) (status : String)
    → known a ≡ known b
    → known (if is_ended status then some time else a)
      ≡ known (
          if status == "completed"
            || status == "failed"
            || status == "cancelled"
            || status == "degraded"
          then some now
          else b)
unfolding is_ended
ended_alike a b time now status h = ground (arith, h)

reduced_alike :
    (at before : Snapshot) (time now : ℕ) (status reason : String)
    → untimed at ≡ untimed before
    → untimed (run_reduced time status reason at) ≡ untimed (run_mutated now status reason before)
unfolding run_reduced
reduced_alike at before time now status reason same =
    let a =
      started_alike at.run.started_at before.run.started_at time now status
        (ap (λ (s : Snapshot). s.run.started_at) same) in
    let b =
      ended_alike at.run.ended_at before.run.ended_at time now status
        (ap (λ (s : Snapshot). s.run.ended_at) same) in
    ground (arith, a, b, same)

pub candidate_of-unvalidated :
    (input : Input) (mutate : Snapshot → Result SnapshotError Snapshot)
    (before candidate : Snapshot)
    → candidate_of (unvalidated input mutate) before ≡ ok candidate
    → mutate before ≡ ok candidate
unfolding candidate_of
candidate_of-unvalidated input mutate before candidate h = elim (Result-cases (mutate before)) [
  | inl (c, e) ↦ ground (arith, h, e)
  | inr (x, e) ↦ ground (arith, h, e)
]

run_event_kind :
    (e : Event) (from to reason : String)
    → e.type ≡ (run_input from to reason).type
    → event_kind e.type ≡ run_changed
unfolding run_input supervisor_input event_kind
run_event_kind e from to reason h = rw h (ground arith)

run_event_payload :
    (e : Event) (from to reason : String)
    → (run_input from to reason).payload ≡ some e.payload
    → to ≢ ""
    → decode_transition e.payload ≡ ok (record { from = from; to = to; reason = reason })
unfolding run_input supervisor_input
run_event_payload e from to reason h named = elim (Result-cases (decode_transition e.payload)) [
  | inl (t, p) ↦ ground (arith, h, p, run_payload from to reason named)
  | inr (x, p) ↦ ground (arith, h, p, run_payload from to reason named)
]

module _ (encode : Event → Option Bytes) (decode : Bytes → Option Event)
    (decode_worker : Json → Option WorkerSession) (decode_runtime : Json → Option TaskRuntime)
    (to_int : String → ℕ) (later : ℕ) where
  -- The reducer rebuilds what `setRunStatus` makes of a snapshot with a run id, where the status is not
  -- empty.
  pub run_status-Rebuilds :
      (now : ℕ) (status reason : String) (before : Snapshot)
      → status ≢ ""
      → before.run.run_id ≢ ""
      → Rebuilds encode decode decode_worker decode_runtime to_int later
          (unvalidated (run_input before.run.status status reason) (mutate_run now status reason))
          before
  unfolding mutate_run reduce
  run_status-Rebuilds now status reason before named run_named at candidate e same c d =
      let made = candidate_of-unvalidated _ (mutate_run now status reason) before candidate c in
      let time = if e.timestamp == 0 then later else e.timestamp in
      let had : at.run.status ≡ before.run.status = ap (λ (s : Snapshot). s.run.status) same in
      let kind = run_event_kind e before.run.status status reason d.type in
      let read = run_event_payload e before.run.status status reason d.payload named in
      let applied : reduce decode_worker decode_runtime to_int later (event_kind e.type) e at
          ≡ ok (run_reduced time status reason at) =
        rw kind (reduce_run-ok at time status reason e.payload (rw had read)) in
      (
        _,
        apply_event-next decode_worker decode_runtime to_int later at
            (run_reduced time status reason at) e _ d
            (λ z. run_named (sym (ap (λ (s : Snapshot). s.run.run_id) same) ∙ z)) applied,
        ground (arith, made, reduced_alike at before time now status reason same),
      )
