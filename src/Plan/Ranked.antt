-- ===== src/Plan/Ranked.antt =====
-- internal/run/plan.go: an accepted plan has no cycle of dependencies, and its waves are allowed.
use subagent_broker.Common.{
  ℕ, ◌+◌, String, none, some, List, [], ◌∷◌, ◌≡◌, ◌==◌, not, ok, fail_if, >>-eq-ok, >>=-eq-ok, All,
  All-map, is_empty, string_eq, nat_eq, arith, ◌<◌,
}
use subagent_broker.Dict.{Dict, lookup, lookup-insert}
use subagent_broker.Plan.Types.{Task, WavePlan, RunPlan}
use subagent_broker.Plan.Allowed.{IsAdmissible, preflight-IsAdmissible}
use subagent_broker.Plan.Validate.{
  place_task, place_tasks, place_waves, check_dependency, each, check_order, validate_plan,
  schema_version_text,
}
use subagent_broker.Plan.Earlier.{
  place_task-eq-ok, place_tasks-kept, place_waves-cons, check_dependency-eq-ok, each-All,
}

-- Every task of the wave is placed in it.
place_tasks-All :
    (ordinal : ℕ) (task_wave placed : Dict ℕ) (tasks : List Task)
    → place_tasks ordinal task_wave tasks ≡ ok placed
    → All (λ (task : Task). lookup task.task_id placed ≡ some ordinal) tasks
unfolding place_tasks
place_tasks-All ordinal task_wave placed [] h = tt
place_tasks-All ordinal task_wave placed (task ∷ rest) h =
    let (next, e, h1) = >>=-eq-ok (place_task ordinal task_wave task) _ h in
    let (new, added) = place_task-eq-ok ordinal task_wave next task e in
    (
      place_tasks-kept ordinal next placed rest task.task_id ordinal h1
          (ground (arith, added, lookup-insert task.task_id task.task_id ordinal task_wave)),
      place_tasks-All ordinal next placed rest h1,
    )

-- The ordinal of a task's wave.
unfoldable pub rank_in : Dict ℕ → String → ℕ
unfolding lookup
rank_in task_wave id = elim (lookup id task_wave) [ none ↦ 0 | some at ↦ at ]

-- Each task comes after the tasks that it depends on.
abbrev pub IsRanked : (String → ℕ) → List WavePlan → Type 0
IsRanked rank waves =
    All
      (λ (item : WavePlan).
        All
          (λ (task : Task). All (λ dependency. rank dependency < rank task.task_id) task.depends_on)
          item.tasks)
      waves

module _ (quoted : String → String) where
  place_waves-kept :
      (ordinal : ℕ) (seen : List String) (task_wave final : Dict ℕ) (waves : List WavePlan)
      (id : String) (at : ℕ)
      → place_waves quoted ordinal seen task_wave waves ≡ ok final
      → lookup id task_wave ≡ some at
      → lookup id final ≡ some at
  unfolding place_waves
  place_waves-kept ordinal seen task_wave final [] id at h found = cc
  place_waves-kept ordinal seen task_wave final (item ∷ rest) id at h found =
      let (placed, e, allowed, h1) =
        place_waves-cons quoted ordinal seen task_wave final item rest h in
      place_waves-kept (ordinal + 1) (item.wave_id ∷ seen) placed final rest id at h1
        (place_tasks-kept ordinal task_wave placed item.tasks id at e found)

  dependency-rank_in :
      (final : Dict ℕ) (ordinal : ℕ) (task : Task) (dependency : String)
      → lookup task.task_id final ≡ some ordinal
      → check_dependency final ordinal task dependency ≡ ok tt
      → rank_in final dependency < rank_in final task.task_id
  unfolding rank_in
  dependency-rank_in final ordinal task dependency here checked =
      let (at, found, before) = check_dependency-eq-ok final ordinal task dependency checked in
      rw (here, found, rank_in) before

  tasks-rank_in :
      (final : Dict ℕ) (ordinal : ℕ) (tasks : List Task)
      → All (λ (task : Task). lookup task.task_id final ≡ some ordinal) tasks
      → All
          (λ (task : Task). each (check_dependency final ordinal task) task.depends_on ≡ ok tt)
          tasks
      → All
          (λ (task : Task).
            All
              (λ dependency. rank_in final dependency < rank_in final task.task_id)
              task.depends_on)
          tasks
  tasks-rank_in final ordinal [] placed checked = tt
  tasks-rank_in final ordinal (task ∷ rest) (here, placed) (of_task, checked) = (
    All-map _ _ (λ dependency e. dependency-rank_in final ordinal task dependency here e)
        task.depends_on (each-All _ task.depends_on of_task),
    tasks-rank_in final ordinal rest placed checked,
  )

  check_order-IsRanked :
      (ordinal : ℕ) (seen : List String) (task_wave final : Dict ℕ) (waves : List WavePlan)
      → place_waves quoted ordinal seen task_wave waves ≡ ok final
      → check_order final ordinal waves ≡ ok tt
      → IsRanked (rank_in final) waves × All (λ item. IsAdmissible quoted item.tasks) waves
  unfolding check_order
  check_order-IsRanked ordinal seen task_wave final [] h checked = (tt, tt)
  check_order-IsRanked ordinal seen task_wave final (item ∷ rest) h checked =
      let (placed, e, allowed, h1) =
        place_waves-cons quoted ordinal seen task_wave final item rest h in
      let (here, later) =
        >>-eq-ok (each _ item.tasks) (check_order final (ordinal + 1) rest) checked in
      let (ranked, admissible) =
        check_order-IsRanked (ordinal + 1) (item.wave_id ∷ seen) placed final rest h1 later in
      (
        (
          tasks-rank_in final ordinal item.tasks
              (All-map _ _
                (λ task at_wave.
                  place_waves-kept (ordinal + 1) (item.wave_id ∷ seen) placed final rest
                    task.task_id ordinal h1 at_wave)
                item.tasks (place_tasks-All ordinal task_wave placed item.tasks e))
              (each-All _ item.tasks here),
          ranked,
        ),
        (preflight-IsAdmissible quoted item.tasks allowed, admissible),
      )

-- An accepted plan ranks its tasks such that each comes after those that it depends on, so that no
-- task depends on itself through others, and every wave of it is admissible.
pub validate_plan-IsRanked :
    (quoted : String → String) (plan : RunPlan)
    → validate_plan quoted plan ≡ ok tt
    → ((rank : String → ℕ) × IsRanked rank plan.waves)
      × All (λ item. IsAdmissible quoted item.tasks) plan.waves
unfolding validate_plan
validate_plan-IsRanked quoted plan h =
    let (supported, h1) =
      >>-eq-ok (fail_if (not (plan.schema_version == schema_version_text)) _) _ h in
    let (some_waves, h2) = >>-eq-ok (fail_if (is_empty plan.waves) _) _ h1 in
    let (final, e, h3) = >>=-eq-ok (place_waves quoted 0 [] [] plan.waves) _ h2 in
    let (ranked, admissible) = check_order-IsRanked quoted 0 [] [] final plan.waves e h3 in
    ((rank_in final, ranked), admissible)
