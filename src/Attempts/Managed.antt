-- ===== src/Attempts/Managed.antt =====
-- internal/supervisor/execute_task.go, recovery.go: the attempts of a task through its starts,
-- finishes and worker updates.
use subagent_broker.Common.{
  ℕ, ◌≤◌, ◌<◌, String, ◌≡◌, ◌≢◌, ◌⊎◌, ◌↔◌, inl, inr, refl, true, false, Option, none, some, List,
  [], ◌∷◌, ◌++◌, All, ok, arith, ◌==◌, string_eq, nat_eq, if◌then◌else◌, Bool-cases, Result-cases,
  is_ok, is_empty, >>=-eq-ok,
}
use mathlib.Core.Path.{subst}
use subagent_broker.State.Kinds.{process_eq}
use subagent_broker.Attempts.Types.{Mode, Outcome, WorkerSession, Attempt, TaskState, outcome_eq}
use subagent_broker.Attempts.Ops.{
  highest, next_number, none_running, check_mode, active, begin, finish, force_finish,
  migrated_number, migrated_outcome, migrated_attempt, migrate_with, migrate_attempts,
  record_attempt, start_attempt, finished_in, finish_numbered, finish_active_attempt,
  update_attempt_worker,
}
use subagent_broker.Attempts.Tracked.{
  Idle, Above, Current, Managed, highest-bounds, active_from-Idle, active_from-none, Above-snoc,
  Above-last, Above-relast, finish_numbered-last, update_numbered-last,
}

-- A fresh attempt list, or one from a snapshot that has a worker only.
migrated-Managed :
    (w : WorkerSession) (ts : TaskState)
    → ts.active_attempt ≡ 0
    → Managed (migrate_with (some w) ts)
unfolding migrate_with migrated_attempt migrated_number migrated_outcome
migrated-Managed w ts h =
    elim (Bool-cases (migrated_outcome w ts.dimensions.process == Outcome.running)) [
      | inl e ↦ record {
        rising = ground arith;
        current =
            inr
              ([], migrated_attempt w ts.dimensions.process, refl, tt, ground arith, ground arith);
      }
      | inr e ↦ record { rising = ground arith; current = inl (ground arith, ground arith) }
    ]

snoc-not_empty : (xs : List Attempt) (a : Attempt) → is_empty (xs ++ a ∷ []) ≡ false
snoc-not_empty [] a = refl
snoc-not_empty (x ∷ xs) a = refl

idle_of_empty : (xs : List Attempt) (n : ℕ) → is_empty xs ≡ true → Current xs n → n ≡ 0
idle_of_empty xs n e (inl h) = h.0
idle_of_empty xs n e (inr (before, a, s, _, _, _)) = cc (snoc-not_empty before a, s, e)

migrate_with-Managed :
    (o : Option WorkerSession) (ts : TaskState)
    → Managed ts
    → ts.active_attempt ≡ 0
    → Managed (migrate_with o ts)
unfolding migrate_with
migrate_with-Managed none ts h z = h
migrate_with-Managed (some w) ts h z = migrated-Managed w ts z

pub migrate_attempts-Managed : (ts : TaskState) → Managed ts → Managed (migrate_attempts ts)
unfolding migrate_attempts
migrate_attempts-Managed ts h = elim (Bool-cases (is_empty ts.attempts)) [
  | inr e ↦ rw (e, migrate_attempts) h
  | inl e ↦
      rw (e, migrate_attempts)
        (migrate_with-Managed ts.worker ts h
          (idle_of_empty ts.attempts ts.active_attempt e h.current))
]

active-Idle : (xs : List Attempt) → active xs ≡ ok none → Idle xs
unfolding active
active-Idle xs h = active_from-none xs h

pub Idle-active : (xs : List Attempt) → Idle xs → active xs ≡ ok none
unfolding active
Idle-active xs h = active_from-Idle none xs h

-- `Begin` succeeds exactly when no attempt is running, the mode is a known one that fits whether
-- there is a history, and the worker names the task or none.
pub begin_iff :
    (task_id : String) (history : List Attempt) (mode : Mode) (worker : WorkerSession) (now : ℕ)
    → (is_ok (begin task_id history mode worker now) ≡ true) ↔ (
        Idle history
        × ((mode ≡ Mode.fresh) × (is_empty history ≡ true)
            ⊎ ((mode ≡ Mode.recovery_resume) ⊎ (mode ≡ Mode.explicit_retry))
              × (is_empty history ≡ false))
        × ((worker.task_id ≡ "") ⊎ (worker.task_id ≡ task_id)))
unfolding begin none_running check_mode
begin_iff task_id history mode worker now = (
  λ h. elim (Result-cases (active history)) [
    | inr (e, x) ↦ ground (arith, active-Idle history)
    | inl (o, x) ↦ ground (arith, active-Idle history)
  ],
  λ h. ground (arith, Idle-active history h.0),
)

-- What `Begin` makes.
begun :
    (task_id : String) (history : List Attempt) (mode : Mode) (worker : WorkerSession) (now : ℕ)
    (a : Attempt)
    → begin task_id history mode worker now ≡ ok a
    → Idle history × (a.outcome ≡ Outcome.running) × (a.number ≡ next_number history)
unfolding begin
begun task_id history mode worker now a h = elim (Result-cases (active history)) [
  | inr (e, x) ↦ ground (arith, active-Idle history)
  | inl (o, x) ↦ ground (arith, active-Idle history)
]

strictly :
    (m n : ℕ) (xs : List Attempt) → m < n → All (λ a. a.number ≤ m) xs → All (λ a. a.number < n) xs
strictly m n [] l h = tt
strictly m n (a ∷ rest) l h = (omega (arith, l, h.0), strictly m n rest l h.1)

start-Managed :
    (a : Attempt) (ts : TaskState)
    → Managed ts
    → Idle ts.attempts
    → a.outcome ≡ Outcome.running
    → a.number ≡ next_number ts.attempts
    → Managed (record_attempt a ts)
unfolding record_attempt next_number
start-Managed a ts h idle r n =
    let (_, below) = highest-bounds 0 ts.attempts in
    record {
      rising =
          Above-snoc 0 ts.attempts a h.rising (omega (arith, n))
            (strictly (highest 0 ts.attempts) a.number ts.attempts (omega (arith, n)) below);
      current = inr (ts.attempts, a, refl, idle, r, refl);
    }

-- Starting an attempt.
pub start_attempt-Managed :
    (task_id : String) (mode : Mode) (worker : WorkerSession) (now : ℕ) (ts next : TaskState)
    → Managed ts
    → start_attempt task_id mode worker now ts ≡ ok next
    → Managed next
unfolding start_attempt
start_attempt-Managed task_id mode worker now ts next h e =
    let m = migrate_attempts-Managed ts h in
    let (a, made, put) =
      >>=-eq-ok (begin task_id (migrate_attempts ts).attempts mode worker now) _ e in
    let (idle, r, n) = begun task_id (migrate_attempts ts).attempts mode worker now a made in
    let same : record_attempt a (migrate_attempts ts) ≡ next = cc put in
    subst Managed same (start-Managed a (migrate_attempts ts) m idle r n)

force_finish-kept :
    (a : Attempt) (outcome : Outcome) (reason : String) (now : ℕ)
    → ((force_finish a outcome reason now).number ≡ a.number)
      × ((force_finish a outcome reason now).outcome ≡ outcome)
unfolding force_finish finish
force_finish-kept a outcome reason now = ground arith

Idle-snoc :
    (xs : List Attempt) (a : Attempt) → Idle xs → a.outcome ≢ Outcome.running → Idle (xs ++ a ∷ [])
Idle-snoc [] a h n = (n, tt)
Idle-snoc (x ∷ xs) a h n = (h.0, Idle-snoc xs a h.1 n)

-- Finishing the attempt that `ActiveAttempt` names, with an outcome that is not `running`.
finish-Managed :
    (outcome : Outcome) (reason : String) (now : ℕ) (ts : TaskState)
    → outcome ≢ Outcome.running
    → Managed ts
    → (before : List Attempt) (a : Attempt) → ts.attempts ≡ before ++ a ∷ []
    → Idle before
    → a.number ≡ ts.active_attempt
    → let done = finish_numbered ts.active_attempt outcome reason now ts.attempts in
      let after = finished_in ts done in
      Managed after × (after.active_attempt ≡ 0) × Idle after.attempts
unfolding finished_in
finish-Managed outcome reason now ts o h before a split idle n =
    let rising : Above 0 (before ++ a ∷ []) = rw (← split) h.rising in
    let (_, below) = Above-last 0 before a rising in
    let (number, result) = force_finish-kept a outcome reason now in
    let quiet = Idle-snoc before (force_finish a outcome reason now) idle (rw result o) in
    rw (split, ← n, finish_numbered-last outcome reason now before a below)
      (
        record {
          rising = Above-relast 0 before a (force_finish a outcome reason now) number rising;
          current = inl (refl, quiet);
        },
        refl,
        quiet,
      )

zero_named : (ts : TaskState) → ts.active_attempt ≡ 0 → (ts.active_attempt == 0) ≡ true
zero_named ts z = ground arith

named_positive :
    (ts : TaskState) (before : List Attempt) (a : Attempt)
    → Managed ts
    → ts.attempts ≡ before ++ a ∷ []
    → a.number ≡ ts.active_attempt
    → (ts.active_attempt == 0) ≡ false
named_positive ts before a h split n =
    let (low, _) = Above-last 0 before a (rw (← split) h.rising) in ground (arith, low, n)

-- After `finishActiveAttempt` no attempt is running.
pub finish_active_attempt-Managed :
    (outcome : Outcome) (reason : String) (now : ℕ) (ts : TaskState)
    → outcome ≢ Outcome.running
    → Managed ts
    → let done = finish_active_attempt outcome reason now ts in
      Managed done × (done.active_attempt ≡ 0) × Idle done.attempts
unfolding finish_active_attempt
finish_active_attempt-Managed outcome reason now ts o h =
    go (migrate_attempts ts) (migrate_attempts-Managed ts h)
  where
    go :
        (m : TaskState)
        → Managed m
        → let done =
            (if m.active_attempt == 0
              then m
              else finished_in m
                  (finish_numbered m.active_attempt outcome reason now m.attempts)) in
          Managed done × (done.active_attempt ≡ 0) × Idle done.attempts
    go m h = elim h.current [
      | inl (z, idle) ↦ rw (zero_named m z) (h, z, idle)
      | inr (before, a, split, idle, r, n) ↦
          rw (named_positive m before a h split n)
            (finish-Managed outcome reason now m o h before a split idle n)
    ]

-- A worker update.
pub update_attempt_worker-Managed :
    (w : WorkerSession) (ts : TaskState) → Managed ts → Managed (update_attempt_worker w ts)
unfolding update_attempt_worker
update_attempt_worker-Managed w ts h = elim h.current [
  | inl (z, _) ↦ rw (zero_named ts z) h
  | inr (before, a, split, idle, r, n) ↦
      let rising : Above 0 (before ++ a ∷ []) = rw (← split) h.rising in
      let (_, below) = Above-last 0 before a rising in
      rw (named_positive ts before a h split n, split, ← n, update_numbered-last w before a below)
        (record {
          rising = Above-relast 0 before a (record a { worker = w }) refl rising;
          current = inr (before, record a { worker = w }, refl, idle, r, refl);
        })
]
