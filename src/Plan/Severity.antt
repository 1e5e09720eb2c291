-- ===== src/Plan/Severity.antt =====
-- internal/wave/preflight.go: the severity of the issues of the static preflight.
use subagent_broker.Common.{
  String, Bool, true, false, Option, none, some, List, [], ◌∷◌, ◌++◌, ◌≡◌, ◌==◌, ltb, Result, ok,
  err, All, only_if, append-All, only_if-All, flat-All, contains, length, if◌then◌else◌, arith,
  string_eq,
}
use subagent_broker.Dict.{lookup}
use subagent_broker.Scope.Pattern.{ScopeError}
use subagent_broker.Scope.Leases.{Leases, Overlap, find_overlaps}
use subagent_broker.Plan.Types.{
  Task, Issue, error, duplicate_task, nested_agents, IssueKind, issue_severity_eq,
}
use subagent_broker.Plan.Contract.{validate_contract}
use subagent_broker.Plan.Issues.{error_issue, issue_severity}
use subagent_broker.Plan.Preflight.{
  ids_from, scopes_from, responsibility_of, declared_issues, responsibility_issues, parallel_issues,
  contract_issue, contract_issues, found_issues, dependency_issues, conflict_issues, overlap_issue,
  shared_issue, task_issues, overlap_issues, high_risk_files, preflight_issues,
}

-- An issue that stops the wave.
unfoldable pub IsError : Issue → Type 0
unfolding issue_severity
IsError issue = (issue_severity issue == error) ≡ true

error_issue-IsError :
    (kind : IssueKind) (tasks : List String) (details : String)
    → IsError (error_issue kind tasks details)
unfolding IsError issue_severity
error_issue-IsError kind tasks details = ground (arith)

-- A condition's issue, if it is noted.
noted :
    (b : Bool) (kind : IssueKind) (tasks : List String) (details : String)
    → All IsError (only_if b (error_issue kind tasks details))
noted b kind tasks details = only_if-All IsError b _ (error_issue-IsError kind tasks details)

both : (xs ys : List Issue) → All IsError xs → All IsError ys → All IsError (xs ++ ys)
both xs ys px py = append-All IsError xs ys px py

if-All :
    (b : Bool) (xs ys : List Issue)
    → All IsError xs
    → All IsError ys
    → All IsError (if b then xs else ys)
if-All true xs ys px py = px
if-All false xs ys px py = py

option-All :
    (o : Option String) (xs : List Issue) (f : String → List Issue)
    → All IsError xs
    → ((text : String) → All IsError (f text))
    → All IsError (elim o [ none ↦ xs | some text ↦ f text ])
option-All none xs f px pf = px
option-All (some text) xs f px pf = pf text

responsibility_of-IsError : (task : Task) (id : String) → All IsError (responsibility_of task id)
unfolding responsibility_of
responsibility_of-IsError task id = if-All (id == task.task_id) _ _ tt (
    option-All (lookup id task.parallel_responsibilities) _ _ (error_issue-IsError _ _ _, tt)
      (λ text. noted _ _ _ _))

declared_issues-IsError :
    (ids : List String) (task : Task) (entry : String × String)
    → All IsError (declared_issues ids task entry)
unfolding declared_issues
declared_issues-IsError ids task (declared, text) =
    if-All (declared == task.task_id) _ _ (error_issue-IsError _ _ _, tt) (noted _ _ _ _)

responsibility_issues-IsError :
    (tasks : List Task) (ids : List String) → All IsError (responsibility_issues tasks ids)
unfolding responsibility_issues
responsibility_issues-IsError tasks ids =
    flat-All IsError _
      (λ task.
        append-All IsError _ _ (flat-All IsError _ (responsibility_of-IsError task) ids)
          (flat-All IsError _ (declared_issues-IsError ids task) task.parallel_responsibilities))
      tasks

parallel_issues-IsError :
    (tasks : List Task) (ids : List String) → All IsError (parallel_issues tasks ids)
unfolding parallel_issues
parallel_issues-IsError tasks ids =
    if-All (ltb 1 (length tasks)) _ _ (responsibility_issues-IsError tasks ids) tt

dependency_issues-IsError :
    (ids : List String) (task : Task) → All IsError (dependency_issues ids task)
unfolding dependency_issues
dependency_issues-IsError ids task =
    append-All IsError _ _ (flat-All IsError _ (λ dependency. noted _ _ _ _) task.depends_on)
      (flat-All IsError _ (λ validation. noted _ _ _ _) task.validation_commands)

conflict_issues-IsError :
    (tasks : List Task) (reader : Task) → All IsError (conflict_issues tasks reader)
unfolding conflict_issues
conflict_issues-IsError tasks reader =
    flat-All IsError _
      (λ dependency.
        flat-All IsError _
          (λ writer.
            if-All (reader.task_id == writer.task_id) _ _ tt
              (flat-All IsError _ (λ write_pattern. noted _ _ _ _) writer.write_scope))
          tasks)
      reader.known_read_dependencies

shared_issue-IsError :
    (scopes : Leases) (high_risk : String) → All IsError (shared_issue scopes high_risk)
unfolding shared_issue
shared_issue-IsError scopes high_risk = noted _ _ _ _

module _ (quoted : String → String) where
  contract_issue-IsError :
      (task : Task) (r : Result String (Unit {0})) → All IsError (contract_issue task r)
  unfolding contract_issue
  contract_issue-IsError task (ok done) = tt
  contract_issue-IsError task (err message) = (error_issue-IsError _ _ _, tt)

  contract_issues-IsError : (task : Task) → All IsError (contract_issues quoted task)
  unfolding contract_issues
  contract_issues-IsError task = contract_issue-IsError task (validate_contract quoted task)

  task_issues-IsError :
      (ids : List String) (tasks : List Task) → All IsError (task_issues quoted ids tasks)
  unfolding task_issues
  task_issues-IsError ids [] = tt
  task_issues-IsError ids (task ∷ rest) =
      let duplicate =
        noted (contains ids task.task_id) duplicate_task (task.task_id ∷ []) "duplicate task id" in
      let nested =
        noted task.allow_nested_agents nested_agents (task.task_id ∷ [])
          "V1 globally forbids nested agents" in
      let first = both _ _ (contract_issues-IsError task) duplicate in
      both _ _ (both _ _ first nested) (task_issues-IsError (ids ++ (task.task_id ∷ [])) rest)

  overlap_issue-IsError : (overlap : Overlap) → All IsError (overlap_issue overlap)
  unfolding overlap_issue
  overlap_issue-IsError overlap = (error_issue-IsError _ _ _, tt)

  found_issues-IsError :
      (r : Result ScopeError (List Overlap)) → All IsError (found_issues quoted r)
  unfolding found_issues
  found_issues-IsError (ok overlaps) = flat-All IsError overlap_issue overlap_issue-IsError overlaps
  found_issues-IsError (err e) = (error_issue-IsError _ _ _, tt)

  overlap_issues-IsError : (scopes : Leases) → All IsError (overlap_issues quoted scopes)
  unfolding overlap_issues
  overlap_issues-IsError scopes = found_issues-IsError (find_overlaps scopes)

  pub preflight_issues-IsError : (tasks : List Task) → All IsError (preflight_issues quoted tasks)
  unfolding preflight_issues
  preflight_issues-IsError tasks =
      let ids = ids_from [] tasks in
      let scopes = scopes_from [] tasks in
      let dependencies =
        flat-All IsError (dependency_issues ids) (dependency_issues-IsError ids) tasks in
      let conflicts =
        flat-All IsError (conflict_issues tasks) (conflict_issues-IsError tasks) tasks in
      let shared =
        flat-All IsError (shared_issue scopes) (shared_issue-IsError scopes) high_risk_files in
      let first = both _ _ (task_issues-IsError [] tasks) (parallel_issues-IsError tasks ids) in
      let later = both _ _ (both _ _ first dependencies) conflicts in
      both _ _ (both _ _ later (overlap_issues-IsError scopes)) shared
