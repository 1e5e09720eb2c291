-- ===== src/Plan/Validate.antt =====
-- internal/run/plan.go, `ValidatePlan`. The waves that come before are the entries of `seen` and
-- of `task_wave`, which has a task's wave by its ordinal.
use subagent_broker.Common.{
  ℕ, ◌+◌, String, none, some, List, [], ◌∷◌, ◌==◌, not, string_eq, leb, is_empty, is_blank,
  contains, Result, ok, err, ◌>>=◌, ◌>>◌, fail_if,
}
use subagent_broker.Dict.{Dict, lookup, insert}
use subagent_broker.Plan.Types.{Task, WavePlan, RunPlan, Issue}
use subagent_broker.Plan.Preflight.{preflight}

pub data PlanError : Type 0 where
  unsupported_schema : String → PlanError
  no_waves : PlanError
  no_wave_id : ℕ → PlanError
  duplicate_wave no_tasks : String → PlanError
  repeated_task : String → ℕ → ℕ → PlanError
  rejected : String → List Issue → PlanError
  unknown_dependency late_dependency : String → String → PlanError

abbrev pub schema_version_text : String
schema_version_text = "v1alpha1"

-- The loop over a wave's tasks that fills `task_wave`.
unfoldable pub place_task : ℕ → Dict ℕ → Task → Result PlanError (Dict ℕ)
unfolding lookup insert
place_task ordinal task_wave task = elim (lookup task.task_id task_wave) [
  | some previous ↦ err (repeated_task task.task_id (previous + 1) (ordinal + 1))
  | none ↦ ok (insert task.task_id ordinal task_wave)
]

unfoldable pub place_tasks : ℕ → Dict ℕ → List Task → Result PlanError (Dict ℕ)
unfolding place_task
place_tasks ordinal task_wave [] = ok task_wave
place_tasks ordinal task_wave (task ∷ rest) = do
  next ← place_task ordinal task_wave task
  place_tasks ordinal next rest

unfoldable pub check_dependency : Dict ℕ → ℕ → Task → String → Result PlanError (Unit {0})
unfolding lookup
check_dependency task_wave ordinal task dependency = elim (lookup dependency task_wave) [
  | none ↦ err (unknown_dependency task.task_id dependency)
  | some dependency_wave ↦
      fail_if (leb ordinal dependency_wave) (late_dependency task.task_id dependency)
]

-- A loop that returns on the first error.
module _ {ℓ κ} {E : Type ℓ} {A : Type κ} where
  unfoldable pub each : (A → Result E (Unit {0})) → List A → Result E (Unit {0})
  each check [] = ok tt
  each check (x ∷ xs) = do check x; each check xs

unfoldable pub check_order : Dict ℕ → ℕ → List WavePlan → Result PlanError (Unit {0})
unfolding each check_dependency
check_order task_wave ordinal [] = ok tt
check_order task_wave ordinal (item ∷ rest) = do
  each (λ (task : Task). each (check_dependency task_wave ordinal task) task.depends_on) item.tasks
  check_order task_wave (ordinal + 1) rest

module _ (quoted : String → String) where
  -- The first loop, from the wave of an ordinal on.
  unfoldable pub place_waves : ℕ → List String → Dict ℕ → List WavePlan → Result PlanError (Dict ℕ)
  unfolding is_blank contains place_tasks preflight
  place_waves ordinal seen task_wave [] = ok task_wave
  place_waves ordinal seen task_wave (item ∷ rest) =
      let result = preflight quoted item.tasks in
      do
        fail_if (is_blank item.wave_id) (no_wave_id (ordinal + 1))
        fail_if (contains seen item.wave_id) (duplicate_wave item.wave_id)
        fail_if (is_empty item.tasks) (no_tasks item.wave_id)
        placed ← place_tasks ordinal task_wave item.tasks
        fail_if (not result.allowed) (rejected item.wave_id result.issues)
        place_waves (ordinal + 1) (item.wave_id ∷ seen) placed rest

  unfoldable pub validate_plan : RunPlan → Result PlanError (Unit {0})
  unfolding place_waves check_order
  validate_plan plan = do
    fail_if (not (plan.schema_version == schema_version_text))
        (unsupported_schema plan.schema_version)
    fail_if (is_empty plan.waves) no_waves
    task_wave ← place_waves 0 [] [] plan.waves
    check_order task_wave 0 plan.waves
