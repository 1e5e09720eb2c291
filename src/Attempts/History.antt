-- ===== src/Attempts/History.antt =====
-- internal/supervisor/execute_task.go, recovery.go: the histories that a task can reach.
use subagent_broker.Common.{
  ℕ, ◌<◌, String, ◌≡◌, ◌≢◌, ◌⊎◌, inl, inr, refl, Option, none, some, List, [], ◌∷◌, ◌++◌, All, ok,
  arith, Result-cases, if◌then◌else◌, ◌==◌, string_eq,
}
use subagent_broker.Attempts.Types.{Mode, Outcome, WorkerSession, Attempt, TaskState}
use subagent_broker.Attempts.Ops.{
  active, active_from, begin, start_attempt, finish_active_attempt, update_attempt_worker, resumed,
  new_attempt, last_session,
}
use subagent_broker.Attempts.Tracked.{Idle, Managed, Above-last}
use subagent_broker.Attempts.Managed.{
  start_attempt-Managed, finish_active_attempt-Managed, update_attempt_worker-Managed, Idle-active,
}

-- One call that changes a task's attempts. The supervisor finishes attempts with constants other
-- than `running`.
pub data Step : TaskState → TaskState → Type 0 where
  started :
      {ts after : TaskState} (task_id : String) (mode : Mode) (worker : WorkerSession) (now : ℕ)
      → start_attempt task_id mode worker now ts ≡ ok after
      → Step ts after
  finished :
      {ts : TaskState} (outcome : Outcome) (reason : String) (now : ℕ)
      → outcome ≢ Outcome.running
      → Step ts (finish_active_attempt outcome reason now ts)
  observed : {ts : TaskState} (w : WorkerSession) → Step ts (update_attempt_worker w ts)

pub data Reached (first : TaskState) : TaskState → Type 0 where
  here : Reached first first
  next : {ts later : TaskState} → Reached first ts → Step ts later → Reached first later

-- A task that has had no attempt.
pub record Untried (ts : TaskState) : Type 0 where
  pub attempts : ts.attempts ≡ []
  pub active_attempt : ts.active_attempt ≡ 0

Step-Managed : {ts after : TaskState} → Step ts after → Managed ts → Managed after
Step-Managed {ts} {after} (started task_id mode worker now e) h =
    start_attempt-Managed task_id mode worker now ts after h e
Step-Managed {ts} (finished outcome reason now o) h =
    (finish_active_attempt-Managed outcome reason now ts o h).0
Step-Managed {ts} (observed w) h = update_attempt_worker-Managed w ts h

Untried-Managed : (ts : TaskState) → Untried ts → Managed ts
Untried-Managed ts h = record {
  rising = rw h.attempts tt;
  current = inl (h.active_attempt, rw h.attempts tt);
}

-- In every state that starts, finishes and worker updates reach from a task without attempts, the
-- attempt numbers rise strictly from 1 or more, and an attempt is running exactly when it is the
-- last one and the one that `ActiveAttempt` names.
pub Reached-Managed : {first ts : TaskState} → Untried first → Reached first ts → Managed ts
Reached-Managed {first} u here = Untried-Managed first u
Reached-Managed u (next r s) = Step-Managed s (Reached-Managed u r)

one_running :
    (before : List Attempt) (a : Attempt) (found : Option Attempt)
    → Idle before
    → a.outcome ≡ Outcome.running
    → active_from none (before ++ a ∷ []) ≡ ok (some a)
unfolding active_from
one_running [] a found h r = ground arith
one_running (b ∷ before) a found h r = ground (arith, one_running before a found h.1 r)

-- `Active` never reports several running attempts on a managed history; it returns none exactly
-- when `ActiveAttempt` is 0, and else the attempt of that number.
pub active-Managed :
    (ts : TaskState)
    → Managed ts
    → ((ts.active_attempt ≡ 0) × (active ts.attempts ≡ ok none))
      ⊎ ((a : Attempt) × (active ts.attempts ≡ ok (some a))
          × (a.number ≡ ts.active_attempt)
          × (0 < a.number))
unfolding active
active-Managed ts h = elim h.current [
  | inl (z, idle) ↦ inl (z, Idle-active ts.attempts idle)
  | inr (before, a, split, idle, r, n) ↦ inr (
    a,
    rw (split) (one_running before a none idle r),
    n,
    (Above-last 0 before a (rw (← split) h.rising)).0,
  )
]

silent_last :
    (xs : List Attempt) → All (λ b. b.worker.native_session_id ≡ "") xs → last_session xs ≡ ""
unfolding last_session
silent_last [] h = refl
silent_last (x ∷ xs) h = ground (arith, silent_last xs h.1)

last_session-found :
    (before after : List Attempt) (b : Attempt)
    → b.worker.native_session_id ≢ ""
    → All (λ c. c.worker.native_session_id ≡ "") after
    → last_session (before ++ b ∷ after) ≡ b.worker.native_session_id
unfolding last_session
last_session-found [] after b n h = ground (arith, silent_last after h)
last_session-found (x ∷ before) after b n h = ground (arith, last_session-found before after b n h)

resume_session :
    (task_id : String) (history : List Attempt) (worker : WorkerSession) (now : ℕ) (a : Attempt)
    → begin task_id history Mode.recovery_resume worker now ≡ ok a
    → a.worker.native_session_id
      ≡ (if worker.native_session_id == "" then last_session history else worker.native_session_id)
unfolding begin resumed new_attempt
resume_session task_id history worker now a h = elim (Result-cases (active history)) [
  | inr (e, x) ↦ ground arith
  | inl (o, x) ↦ ground arith
]

-- A recovery resume runs on the native session that the caller gives, or else on the session of the
-- latest attempt that has one.
pub resume_keeps_session :
    (task_id : String) (history : List Attempt) (worker : WorkerSession) (now : ℕ) (a : Attempt)
    → begin task_id history Mode.recovery_resume worker now ≡ ok a
    → (worker.native_session_id ≢ "" → a.worker.native_session_id ≡ worker.native_session_id)
      × ((before after : List Attempt) (b : Attempt)
          → worker.native_session_id ≡ ""
          → history ≡ before ++ b ∷ after
          → b.worker.native_session_id ≢ ""
          → All (λ c. c.worker.native_session_id ≡ "") after
          → a.worker.native_session_id ≡ b.worker.native_session_id)
resume_keeps_session task_id history worker now a h =
    let given = resume_session task_id history worker now a h in
    (
      λ n. ground (arith, given),
      λ before after b z split n silent.
          ground (arith, given, last_session-found before after b n silent, split),
    )
