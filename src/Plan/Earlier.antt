-- ===== src/Plan/Earlier.antt =====
-- internal/run/plan.go: the order of the waves of an accepted plan.
use subagent_broker.Common.{
  ℕ, ◌+◌, String, true, none, some, List, [], ◌∷◌, ◌++◌, map, ◌≡◌, ◌==◌, not, ◌⊎◌, inl, inr, Result,
  ok, fail_if, >>-eq-ok, >>=-eq-ok, fail_if-eq-ok, Option-cases, All, All-map, contains, is_empty,
  is_blank, string_eq, nat_eq, arith, ◌≤◌, ◌<◌,
}
use subagent_broker.Dict.{Dict, lookup, insert, lookup-insert}
use subagent_broker.Plan.Types.{Task, WavePlan, RunPlan}
use subagent_broker.Plan.Preflight.{preflight}
use subagent_broker.Plan.Validate.{
  place_task, place_tasks, place_waves, check_dependency, each, check_order, validate_plan,
  schema_version_text,
}

abbrev ids_of : List Task → List String
ids_of tasks = map (λ (task : Task). task.task_id) tasks

pub place_task-eq-ok :
    (ordinal : ℕ) (task_wave next : Dict ℕ) (task : Task)
    → place_task ordinal task_wave task ≡ ok next
    → (lookup task.task_id task_wave ≡ none) × (next ≡ insert task.task_id ordinal task_wave)
unfolding place_task
place_task-eq-ok ordinal task_wave next task h = ground (arith)

-- What `place_tasks` adds: the wave's tasks, with its ordinal.
place_tasks-lookup :
    (ordinal : ℕ) (task_wave placed : Dict ℕ) (tasks : List Task) (id : String) (at : ℕ)
    → place_tasks ordinal task_wave tasks ≡ ok placed
    → lookup id placed ≡ some at
    → (lookup id task_wave ≡ some at) ⊎ ((at ≡ ordinal) × (contains (ids_of tasks) id ≡ true))
unfolding place_tasks contains
place_tasks-lookup ordinal task_wave placed [] id at h found = inl (cc)
place_tasks-lookup ordinal task_wave placed (task ∷ rest) id at h found =
    let (next, e, h1) = >>=-eq-ok (place_task ordinal task_wave task) _ h in
    let (new, added) = place_task-eq-ok ordinal task_wave next task e in
    elim (place_tasks-lookup ordinal next placed rest id at h1 found) [
      | inl before ↦ ground (arith, before, added, lookup-insert task.task_id id ordinal task_wave)
      | inr later ↦ ground (arith, later)
    ]

-- A task keeps its wave.
pub place_tasks-kept :
    (ordinal : ℕ) (task_wave placed : Dict ℕ) (tasks : List Task) (id : String) (at : ℕ)
    → place_tasks ordinal task_wave tasks ≡ ok placed
    → lookup id task_wave ≡ some at
    → lookup id placed ≡ some at
unfolding place_tasks
place_tasks-kept ordinal task_wave placed [] id at h found = cc
place_tasks-kept ordinal task_wave placed (task ∷ rest) id at h found =
    let (next, e, h1) = >>=-eq-ok (place_task ordinal task_wave task) _ h in
    let (new, added) = place_task-eq-ok ordinal task_wave next task e in
    place_tasks-kept ordinal next placed rest id at h1
      (ground (arith, added, new, found, lookup-insert task.task_id id ordinal task_wave))

pub check_dependency-eq-ok :
    (task_wave : Dict ℕ) (ordinal : ℕ) (task : Task) (dependency : String)
    → check_dependency task_wave ordinal task dependency ≡ ok tt
    → (at : ℕ) × (lookup dependency task_wave ≡ some at) × (at < ordinal)
unfolding check_dependency
check_dependency-eq-ok task_wave ordinal task dependency h =
    elim (Option-cases (lookup dependency task_wave)) [
      | inl missing ↦ ground (arith)
      | inr (at, found) ↦ (at, found, ground (arith))
    ]

pub each-All {ℓ κ} :
    {E : Type ℓ} {A : Type κ} (check : A → Result E (Unit {0})) (xs : List A)
    → each check xs ≡ ok tt
    → All (λ x. check x ≡ ok tt) xs
unfolding each
each-All check [] h = tt
each-All check (x ∷ xs) h =
    let (here, later) = >>-eq-ok (check x) (each check xs) h in (here, each-All check xs later)

-- Every dependency of a task is a task of an earlier wave; `earlier` are those tasks.
abbrev pub IsOrdered : List String → List WavePlan → Type 0
IsOrdered earlier [] = Unit
IsOrdered earlier (item ∷ rest) =
    All (λ (task : Task). All (λ dependency. contains earlier dependency ≡ true) task.depends_on)
      item.tasks
    × IsOrdered (ids_of item.tasks ++ earlier) rest

contains-append :
    (xs ys : List String) (id : String)
    → (contains xs id ≡ true) ⊎ (contains ys id ≡ true)
    → contains (xs ++ ys) id ≡ true
unfolding contains
contains-append [] ys id (inl h) = cc
contains-append [] ys id (inr h) = h
contains-append (x ∷ xs) ys id (inl h) = ground (arith, contains-append xs ys id)
contains-append (x ∷ xs) ys id (inr h) = ground (arith, contains-append xs ys id (inr h))

not_both : {m n : ℕ} → m < n → n ≤ m → ⊥
not_both before late = omega (arith)

module _ (quoted : String → String) where
  pub place_waves-cons :
      (ordinal : ℕ) (seen : List String) (task_wave final : Dict ℕ) (item : WavePlan)
      (rest : List WavePlan)
      → place_waves quoted ordinal seen task_wave (item ∷ rest) ≡ ok final
      → (placed : Dict ℕ) × (place_tasks ordinal task_wave item.tasks ≡ ok placed)
        × ((preflight quoted item.tasks).allowed ≡ true)
        × (place_waves quoted (ordinal + 1) (item.wave_id ∷ seen) placed rest ≡ ok final)
  unfolding place_waves
  place_waves-cons ordinal seen task_wave final item rest h =
      let (no_blank, h1) = >>-eq-ok (fail_if (is_blank item.wave_id) _) _ h in
      let (not_seen, h2) = >>-eq-ok (fail_if (contains seen item.wave_id) _) _ h1 in
      let (some_tasks, h3) = >>-eq-ok (fail_if (is_empty item.tasks) _) _ h2 in
      let (placed, e, h4) = >>=-eq-ok (place_tasks ordinal task_wave item.tasks) _ h3 in
      let (allowed, h5) = >>-eq-ok (fail_if (not (preflight quoted item.tasks).allowed) _) _ h4 in
      (
        placed,
        e,
        ground (arith, fail_if-eq-ok (not (preflight quoted item.tasks).allowed) _ allowed),
        h5,
      )

  -- A task that is placed later has a later ordinal.
  pub place_waves-lookup :
      (ordinal : ℕ) (seen : List String) (task_wave final : Dict ℕ) (waves : List WavePlan)
      (id : String) (at : ℕ)
      → place_waves quoted ordinal seen task_wave waves ≡ ok final
      → lookup id final ≡ some at
      → (lookup id task_wave ≡ some at) ⊎ (ordinal ≤ at)
  unfolding place_waves
  place_waves-lookup ordinal seen task_wave final [] id at h found = inl (cc)
  place_waves-lookup ordinal seen task_wave final (item ∷ rest) id at h found =
      let (placed, e, allowed, h1) = place_waves-cons ordinal seen task_wave final item rest h in
      elim (place_waves-lookup (ordinal + 1) (item.wave_id ∷ seen) placed final rest id at h1
        found) [
          | inl before ↦
              elim (place_tasks-lookup ordinal task_wave placed item.tasks id at e before) [
                | inl earlier ↦ inl earlier
                | inr (same, here) ↦ inr (omega (arith, same))
              ]
          | inr later ↦ inr (omega (arith, later))
        ]

  -- `earlier` has the tasks that are placed.
  check_order-IsOrdered :
      (ordinal : ℕ) (seen earlier : List String) (task_wave final : Dict ℕ) (waves : List WavePlan)
      → ((id : String) (at : ℕ) → lookup id task_wave ≡ some at → contains earlier id ≡ true)
      → place_waves quoted ordinal seen task_wave waves ≡ ok final
      → check_order final ordinal waves ≡ ok tt
      → IsOrdered earlier waves
  unfolding check_order
  check_order-IsOrdered ordinal seen earlier task_wave final [] known h checked = tt
  check_order-IsOrdered ordinal seen earlier task_wave final (item ∷ rest) known h checked =
      let (placed, e, allowed, h1) = place_waves-cons ordinal seen task_wave final item rest h in
      let (here, later) =
        >>-eq-ok (each _ item.tasks) (check_order final (ordinal + 1) rest) checked in
      (
        All-map _ _
            (λ task of_task.
              All-map _ _
                (λ dependency of_dependency.
                  let (at, found, before) =
                    check_dependency-eq-ok final ordinal task dependency of_dependency in
                  elim (place_waves-lookup ordinal seen task_wave final (item ∷ rest) dependency at
                    h found) [
                      | inl placed_before ↦ known dependency at placed_before
                      | inr too_late ↦ elim (not_both before too_late) [ ]
                    ])
                task.depends_on (each-All _ task.depends_on of_task))
            item.tasks (each-All _ item.tasks here),
        check_order-IsOrdered (ordinal + 1) (item.wave_id ∷ seen) (ids_of item.tasks ++ earlier)
            placed final rest
            (λ id at found.
              contains-append (ids_of item.tasks) earlier id
                (elim (place_tasks-lookup ordinal task_wave placed item.tasks id at e found) [
                  | inl before ↦ inr (known id at before)
                  | inr (same, listed) ↦ inl listed
                ]))
            h1 later,
      )

-- In an accepted plan, every task depends on tasks of earlier waves only.
pub validate_plan-IsOrdered :
    (quoted : String → String) (plan : RunPlan)
    → validate_plan quoted plan ≡ ok tt
    → IsOrdered [] plan.waves
unfolding validate_plan lookup
validate_plan-IsOrdered quoted plan h =
    let (supported, h1) =
      >>-eq-ok (fail_if (not (plan.schema_version == schema_version_text)) _) _ h in
    let (some_waves, h2) = >>-eq-ok (fail_if (is_empty plan.waves) _) _ h1 in
    let (final, e, h3) = >>=-eq-ok (place_waves quoted 0 [] [] plan.waves) _ h2 in
    check_order-IsOrdered quoted 0 [] [] [] final plan.waves (λ id at found. cc) e h3
