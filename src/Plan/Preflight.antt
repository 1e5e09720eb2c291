-- ===== src/Plan/Preflight.antt =====
-- internal/wave/preflight.go, `Preflight`. What the source appends to `result.Issues`, each group
-- of loops in a definition, in the order of the source; the map `ids` is its keys.
use subagent_broker.Common.{
  String, Bool, false, none, some, List, [], ◌∷◌, ◌++◌, map, ◌==◌, not, ltb, string_eq, only_if,
  contains, flat, keep, any, length, sprint, sort, text_lt, Result, ok, err, if◌then◌else◌,
}
use subagent_broker.Dict.{lookup, insert}
use subagent_broker.Scope.Pattern.{ScopeError, may_overlap}
use subagent_broker.Scope.Leases.{Leases, Overlap, find_overlaps}
use subagent_broker.Plan.Types.{
  ValidationCommand, Task, duplicate_task, scope_overlap, write_read_conflict, validation_conflict,
  same_wave_dependency, nested_agents, missing_contract, high_risk_shared, missing_responsibility,
  invalid_responsibility, Issue, PreflightResult,
}
use subagent_broker.Plan.Contract.{scope_error_text, validate_contract}
use subagent_broker.Plan.Issues.{
  error_issue, has_error_issues, issue_less, is_placeholder, is_global_validation,
}

abbrev pub high_risk_files : List String
high_risk_files =
    "go.mod" ∷ "go.sum" ∷ "package.json" ∷ "package-lock.json" ∷ "pnpm-lock.yaml" ∷ "yarn.lock"
    ∷ "Cargo.toml" ∷ "Cargo.lock" ∷ ".github/workflows/**" ∷ "migrations/**" ∷ "schema/**" ∷ []

-- `overlap, err := scope.MayOverlap(a, b); err == nil && overlap`.
unfoldable pub surely_overlap : String → String → Bool
unfolding may_overlap
surely_overlap a b = elim (may_overlap a b) [ ok overlap ↦ overlap | err e ↦ false ]

-- The map `ids`, and the map of the write scopes.
unfoldable pub ids_from : List String → List Task → List String
unfolding contains
ids_from ids [] = ids
ids_from ids (task ∷ rest) =
    ids_from (if contains ids task.task_id then ids else ids ++ (task.task_id ∷ [])) rest

unfoldable pub scopes_from : Leases → List Task → Leases
unfolding insert
scopes_from scopes [] = scopes
scopes_from scopes (task ∷ rest) = scopes_from (insert task.task_id task.write_scope scopes) rest

-- `checkParallelResponsibilities`.
unfoldable pub responsibility_of : Task → String → List Issue
unfolding lookup is_placeholder sprint
responsibility_of task other_id =
    if other_id == task.task_id then [] else elim (lookup other_id task.parallel_responsibilities) [
      | none ↦
          error_issue missing_responsibility (task.task_id ∷ other_id ∷ []) (
            sprint
              ("task " ∷ task.task_id ∷ " is missing parallel responsibility for " ∷ other_id ∷ []))
          ∷ []
      | some text ↦ only_if (is_placeholder text) (
          error_issue invalid_responsibility (task.task_id ∷ other_id ∷ []) (
            sprint (
              "task " ∷ task.task_id ∷ " has empty or placeholder parallel responsibility for "
              ∷ other_id ∷ [])))
    ]

unfoldable pub declared_issues : List String → Task → String × String → List Issue
unfolding contains sprint
declared_issues ids task (declared, text) =
    if declared == task.task_id
    then error_issue invalid_responsibility (task.task_id ∷ []) (
        sprint
          ("task " ∷ task.task_id ∷ " must not declare a parallel responsibility for itself" ∷ []))
      ∷ []
    else only_if (not (contains ids declared)) (
        error_issue invalid_responsibility (task.task_id ∷ declared ∷ []) (
          sprint (
            "task " ∷ task.task_id ∷ " declares parallel responsibility for out-of-wave task "
            ∷ declared ∷ [])))

unfoldable pub responsibility_issues : List Task → List String → List Issue
unfolding flat responsibility_of declared_issues
responsibility_issues tasks ids =
    flat
      (λ task.
        flat (responsibility_of task) ids
        ++ flat (declared_issues ids task) task.parallel_responsibilities)
      tasks

unfoldable pub parallel_issues : List Task → List String → List Issue
unfolding responsibility_issues
parallel_issues tasks ids = if ltb 1 (length tasks) then responsibility_issues tasks ids else []

-- The loop over the dependencies and the validation commands.
unfoldable pub dependency_issues : List String → Task → List Issue
unfolding flat contains is_global_validation sprint
dependency_issues ids task =
    flat
      (λ dependency. only_if (contains ids dependency) (
        error_issue same_wave_dependency (task.task_id ∷ dependency ∷ [])
          "a task depends on another task in the same Wave"))
      task.depends_on
    ++ flat
        (λ (validation : ValidationCommand). only_if (is_global_validation validation) (
          error_issue validation_conflict (task.task_id ∷ []) (
            sprint
              ("same-Wave task declares repository-wide validation: " ∷ validation.command ∷ []))))
        task.validation_commands

-- The loop over what a task reads and what the others write.
unfoldable pub conflict_issues : List Task → Task → List Issue
unfolding flat surely_overlap sprint
conflict_issues tasks reader =
    flat
      (λ dependency.
        flat
          (λ (writer : Task).
            if reader.task_id == writer.task_id
            then []
            else flat
                (λ write_pattern. only_if (surely_overlap dependency write_pattern) (
                  error_issue write_read_conflict (reader.task_id ∷ writer.task_id ∷ []) (
                    sprint (
                      "read dependency " ∷ dependency ∷ " overlaps writer scope " ∷ write_pattern
                      ∷ []))))
                writer.write_scope)
          tasks)
      reader.known_read_dependencies

unfoldable pub overlap_issue : Overlap → List Issue
unfolding sprint
overlap_issue overlap =
    error_issue scope_overlap (overlap.left_owner ∷ overlap.right_owner ∷ [])
      (sprint (overlap.left_pattern ∷ " overlaps " ∷ overlap.right_pattern ∷ []))
    ∷ []

unfoldable pub owners_claiming : String → Leases → List String
unfolding surely_overlap any keep sort
owners_claiming pattern_text scopes = sort text_lt (
    map (λ (owner, patterns). owner)
      (keep (λ (owner, patterns). any (surely_overlap pattern_text) patterns) scopes))

unfoldable pub shared_issue : Leases → String → List Issue
unfolding owners_claiming sprint
shared_issue scopes high_risk =
    let owners = owners_claiming high_risk scopes in
    only_if (ltb 1 (length owners)) (
      error_issue high_risk_shared owners
        (sprint (high_risk ∷ " is a high-risk global object" ∷ [])))

unfoldable pub contract_issue : Task → Result String (Unit {0}) → List Issue
contract_issue task (ok done) = []
contract_issue task (err message) = error_issue missing_contract (task.task_id ∷ []) message ∷ []

module _ (quoted : String → String) where
  unfoldable pub contract_issues : Task → List Issue
  unfolding validate_contract contract_issue
  contract_issues task = contract_issue task (validate_contract quoted task)

  -- The first loop; `ids` holds the tasks before.
  unfoldable pub task_issues : List String → List Task → List Issue
  unfolding contract_issues contains
  task_issues ids [] = []
  task_issues ids (task ∷ rest) =
      contract_issues task
      ++ only_if (contains ids task.task_id)
          (error_issue duplicate_task (task.task_id ∷ []) "duplicate task id")
      ++ only_if task.allow_nested_agents
          (error_issue nested_agents (task.task_id ∷ []) "V1 globally forbids nested agents")
      ++ task_issues (ids ++ (task.task_id ∷ [])) rest

  unfoldable pub found_issues : Result ScopeError (List Overlap) → List Issue
  unfolding flat overlap_issue scope_error_text
  found_issues (ok overlaps) = flat overlap_issue overlaps
  found_issues (err e) = error_issue scope_overlap [] (scope_error_text quoted e) ∷ []

  unfoldable pub overlap_issues : Leases → List Issue
  unfolding find_overlaps found_issues
  overlap_issues scopes = found_issues (find_overlaps scopes)

  unfoldable pub preflight_issues : List Task → List Issue
  unfolding task_issues parallel_issues dependency_issues conflict_issues overlap_issues
      shared_issue flat ids_from scopes_from
  preflight_issues tasks =
      let ids = ids_from [] tasks in
      let scopes = scopes_from [] tasks in
      task_issues [] tasks
      ++ parallel_issues tasks ids
      ++ flat (dependency_issues ids) tasks
      ++ flat (conflict_issues tasks) tasks
      ++ overlap_issues scopes
      ++ flat (shared_issue scopes) high_risk_files

  unfoldable pub preflight : List Task → PreflightResult
  unfolding preflight_issues scopes_from has_error_issues issue_less sort
  preflight tasks =
      let issues = sort issue_less (preflight_issues tasks) in
      record {
        allowed = not (has_error_issues issues);
        concurrency = length tasks;
        scopes = scopes_from [] tasks;
        issues = issues;
      }
