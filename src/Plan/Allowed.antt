-- ===== src/Plan/Allowed.antt =====
-- internal/wave/preflight.go: what an allowed wave has.
use subagent_broker.Common.{
  String, true, false, List, [], ◌∷◌, ◌++◌, ◌≡◌, ◌≢◌, refl, ltb, ◌⊎◌, inl, inr, Result, ok, err,
  All, All-map, flat, only_if, append-eq-nil, flat-eq-nil, only_if-eq-nil, any, is_yes,
  String-discrete, contains, length, sort, insert_sorted, sort-All, if◌then◌else◌, arith, string_eq,
}
use subagent_broker.Scope.Pattern.{ScopeError}
use subagent_broker.Scope.Leases.{Overlap, find_overlaps}
use subagent_broker.Plan.Types.{Task, Issue, issue_severity_eq}
use subagent_broker.Plan.Contract.{validate_contract}
use subagent_broker.Plan.Issues.{has_error_issues, issue_less, is_global_validation}
use subagent_broker.Plan.Preflight.{
  ids_from, scopes_from, parallel_issues, contract_issue, contract_issues, found_issues,
  dependency_issues, conflict_issues, surely_overlap, overlap_issue, shared_issue, owners_claiming,
  task_issues, overlap_issues, high_risk_files, preflight_issues, preflight,
}
use subagent_broker.Plan.Severity.{IsError, preflight_issues-IsError}

abbrev IsContract : (String → String) → Task → Type 0
IsContract quoted task = validate_contract quoted task ≡ ok tt

-- No task has the identifier of one before it.
abbrev IsFresh : List String → List Task → Type 0
IsFresh ids [] = Unit
IsFresh ids (task ∷ rest) =
    (contains ids task.task_id ≡ false) × IsFresh (ids ++ (task.task_id ∷ [])) rest

-- No dependency is a task of the wave.
abbrev IsIndependent : List String → Task → Type 0
IsIndependent ids task = All (λ dependency. contains ids dependency ≡ false) task.depends_on

-- No validation command is repository-wide.
abbrev IsLocal : Task → Type 0
IsLocal task = All (λ validation. is_global_validation validation ≡ false) task.validation_commands

-- Nothing that the task reads may be written by another task.
abbrev ReadsApart : List Task → Task → Type 0
ReadsApart tasks reader =
    All
      (λ dependency.
        All
          (λ (writer : Task).
            (reader.task_id ≡ writer.task_id)
            ⊎ All (λ write_pattern. surely_overlap dependency write_pattern ≡ false)
                writer.write_scope)
          tasks)
      reader.known_read_dependencies

pub record IsAdmissible (quoted : String → String) (tasks : List Task) : Type 0 where
  pub contracts : All (IsContract quoted) tasks
  pub fresh : IsFresh [] tasks
  pub apart : find_overlaps (scopes_from [] tasks) ≡ ok []
  pub independent : All (IsIndependent (ids_from [] tasks)) tasks
  pub local_checks : All IsLocal tasks
  pub reads_apart : All (ReadsApart tasks) tasks
  pub high_risk_apart :
      All
        (λ high_risk. ltb 1 (length (owners_claiming high_risk (scopes_from [] tasks))) ≡ false)
        high_risk_files

has_error_issues-nil :
    (issues : List Issue) → All IsError issues → has_error_issues issues ≡ false → issues ≡ []
unfolding has_error_issues any IsError
has_error_issues-nil [] held h = refl
has_error_issues-nil (issue ∷ rest) (e, held) h = ground (arith)

insert_sorted-cons :
    (issue : Issue) (issues : List Issue) → insert_sorted issue_less issue issues ≢ []
unfolding insert_sorted
insert_sorted-cons issue [] e = cc
insert_sorted-cons issue (other ∷ rest) e = ground (arith)

sort-nil : (issues : List Issue) → sort issue_less issues ≡ [] → issues ≡ []
unfolding sort
sort-nil [] h = refl
sort-nil (issue ∷ rest) h = elim (insert_sorted-cons issue (sort issue_less rest) h) [ ]

module _ (quoted : String → String) where
  -- An allowed wave has no issue at all.
  pub preflight-no_issues :
      (tasks : List Task)
      → (preflight quoted tasks).allowed ≡ true
      → preflight_issues quoted tasks ≡ []
  unfolding preflight
  preflight-no_issues tasks allowed = sort-nil (preflight_issues quoted tasks) (
      has_error_issues-nil (sort issue_less (preflight_issues quoted tasks))
        (sort-All issue_less IsError (preflight_issues quoted tasks)
          (preflight_issues-IsError quoted tasks))
        (ground (arith, allowed)))

  found_issues-nil : (r : Result ScopeError (List Overlap)) → found_issues quoted r ≡ [] → r ≡ ok []
  unfolding found_issues overlap_issue flat
  found_issues-nil (ok []) h = refl
  found_issues-nil (ok (overlap ∷ rest)) h = cc
  found_issues-nil (err e) h = cc

  contract_issue-nil :
      (task : Task) (r : Result String (Unit {0})) → contract_issue task r ≡ [] → r ≡ ok tt
  unfolding contract_issue
  contract_issue-nil task (ok done) h = refl
  contract_issue-nil task (err message) h = cc

  -- The issues of the first loop, task by task.
  task_issues-nil :
      (ids : List String) (tasks : List Task)
      → task_issues quoted ids tasks ≡ []
      → All (IsContract quoted) tasks × IsFresh ids tasks
  unfolding task_issues contract_issues
  task_issues-nil ids [] h = (tt, tt)
  task_issues-nil ids (task ∷ rest) h =
      let (h1, later) = append-eq-nil _ (task_issues quoted (ids ++ (task.task_id ∷ [])) rest) h in
      let (h2, nested) = append-eq-nil _ (only_if task.allow_nested_agents _) h1 in
      let (here, repeated) = append-eq-nil (contract_issues quoted task) _ h2 in
      let (contracts, fresh) = task_issues-nil (ids ++ (task.task_id ∷ [])) rest later in
      (
        (contract_issue-nil task (validate_contract quoted task) here, contracts),
        (only_if-eq-nil (contains ids task.task_id) _ repeated, fresh),
      )

-- The dependencies and the validation commands of a task without issues.
dependency_issues-nil :
    (ids : List String) (task : Task)
    → dependency_issues ids task ≡ []
    → IsIndependent ids task × IsLocal task
unfolding dependency_issues
dependency_issues-nil ids task h =
    let (of_dependencies, of_validations) = append-eq-nil (flat _ task.depends_on) _ h in
    (
      All-map _ _ (λ dependency e. only_if-eq-nil (contains ids dependency) _ e) task.depends_on
          (flat-eq-nil _ task.depends_on of_dependencies),
      All-map _ _ (λ validation e. only_if-eq-nil (is_global_validation validation) _ e)
          task.validation_commands (flat-eq-nil _ task.validation_commands of_validations),
    )

unless-nil :
    {P : Type 0} (d : Dec P) (issues : List Issue)
    → (if is_yes d then [] else issues) ≡ []
    → P ⊎ (issues ≡ [])
unless-nil (yes p) issues h = inl p
unless-nil (no n) issues h = inr h

conflict_issues-nil :
    (tasks : List Task) (reader : Task)
    → conflict_issues tasks reader ≡ []
    → ReadsApart tasks reader
unfolding conflict_issues
conflict_issues-nil tasks reader h =
    All-map _ _
      (λ dependency of_dependency.
        All-map _ _
          (λ writer of_writer.
            elim (unless-nil (String-discrete reader.task_id writer.task_id) _ of_writer) [
              | inl same ↦ inl same
              | inr silent ↦ inr (
                  All-map _ _
                    (λ write_pattern e.
                      only_if-eq-nil (surely_overlap dependency write_pattern) _ e)
                    writer.write_scope (flat-eq-nil _ writer.write_scope silent))
            ])
          tasks (flat-eq-nil _ tasks of_dependency))
      reader.known_read_dependencies (flat-eq-nil _ reader.known_read_dependencies h)

pub preflight-IsAdmissible :
    (quoted : String → String) (tasks : List Task)
    → (preflight quoted tasks).allowed ≡ true
    → IsAdmissible quoted tasks
unfolding preflight_issues overlap_issues shared_issue
preflight-IsAdmissible quoted tasks allowed =
    let ids = ids_from [] tasks in
    let scopes = scopes_from [] tasks in
    let (h1, shared) =
      append-eq-nil _ (flat (shared_issue scopes) high_risk_files)
        (preflight-no_issues quoted tasks allowed) in
    let (h2, overlaps) = append-eq-nil _ (overlap_issues quoted scopes) h1 in
    let (h3, conflicts) = append-eq-nil _ (flat (conflict_issues tasks) tasks) h2 in
    let (h4, dependencies) = append-eq-nil _ (flat (dependency_issues ids) tasks) h3 in
    let (first, parallel) =
      append-eq-nil (task_issues quoted [] tasks) (parallel_issues tasks ids) h4 in
    let (contracts, fresh) = task_issues-nil quoted [] tasks first in
    let of_tasks =
      All-map _ _ (dependency_issues-nil ids) tasks
        (flat-eq-nil (dependency_issues ids) tasks dependencies) in
    record {
      contracts = contracts;
      fresh = fresh;
      apart = found_issues-nil quoted (find_overlaps scopes) overlaps;
      independent = All-map _ _ (λ task both. both.0) tasks of_tasks;
      local_checks = All-map _ _ (λ task both. both.1) tasks of_tasks;
      reads_apart =
          All-map _ _ (conflict_issues-nil tasks) tasks
            (flat-eq-nil (conflict_issues tasks) tasks conflicts);
      high_risk_apart =
          All-map (λ high_risk. shared_issue scopes high_risk ≡ []) _
            (λ high_risk e. only_if-eq-nil (ltb 1 (length (owners_claiming high_risk scopes))) _ e)
            high_risk_files (flat-eq-nil (shared_issue scopes) high_risk_files shared);
    }
