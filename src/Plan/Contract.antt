-- ===== src/Plan/Contract.antt =====
-- internal/task/contract.go, `ValidateContract`. A section's `quoted` is the `%q` of fmt.
use subagent_broker.Common.{
  String, List, [], ◌∷◌, ◌++◌, ◌==◌, string_eq, only_if, is_empty, is_blank, flat, sprint, sort,
  text_lt, Result, ok, err, if◌then◌else◌,
}
use subagent_broker.Scope.Pattern.{ScopeError, empty_pattern, not_relative, escapes_root, compile}
use subagent_broker.Plan.Types.{Task}

-- `strings.Join`.
unfoldable pub join_texts : String → List String → String
unfolding sprint
join_texts sep [] = ""
join_texts sep (text ∷ []) = text
join_texts sep (text ∷ rest) = sprint (text ∷ sep ∷ join_texts sep rest ∷ [])

module _ (quoted : String → String) where
  unfoldable pub scope_error_text : ScopeError → String
  unfolding sprint
  scope_error_text empty_pattern = "scope pattern is empty"
  scope_error_text (not_relative raw) =
      sprint ("scope pattern must be project-relative: " ∷ quoted raw ∷ [])
  scope_error_text (escapes_root raw) =
      sprint ("scope pattern escapes project root: " ∷ quoted raw ∷ [])

  unfoldable pub scope_problem : String → List String
  unfolding compile scope_error_text
  scope_problem raw = elim (compile raw) [ ok p ↦ [] | err e ↦ scope_error_text e ∷ [] ]

  unfoldable pub contract_problems : Task → List String
  unfolding is_blank flat scope_problem
  contract_problems task =
      only_if (task.task_id == "") "task_id is required"
      ++ only_if (is_blank task.title) "title is required"
      ++ only_if (is_blank task.objective) "objective is required"
      ++ only_if (is_empty task.completion_criteria) "completion criteria are required"
      ++ only_if (is_empty task.write_scope) "write scope is required"
      ++ flat scope_problem (task.write_scope ++ task.forbidden_scope)
      ++ only_if (is_empty task.validation_commands)
          "at least one local validation command is required"
      ++ only_if (is_blank task.project_root) "project root is required"
      ++ only_if task.allow_nested_agents "nested agents are forbidden in V1"

  unfoldable pub validate_contract : Task → Result String (Unit {0})
  unfolding contract_problems sort join_texts
  validate_contract task =
      let problems = contract_problems task in
      if is_empty problems
      then ok tt
      else err (sprint ("invalid task contract: " ∷ join_texts "; " (sort text_lt problems) ∷ []))
