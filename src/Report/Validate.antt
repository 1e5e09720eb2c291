-- ===== src/Report/Validate.antt =====
-- internal/report/envelope.go, `ValidateEnvelope`. The problems are the texts that it appends, in
-- their order; `quoted` is the `%q` of fmt.
use subagent_broker.Common.{
  String, Option, none, some, List, [], ◌∷◌, ◌++◌, ◌==◌, ◌||◌, ◌&&◌, not, string_eq, only_if,
  is_empty, is_blank, any, sprint, sort, text_lt, Result, ok, err, if◌then◌else◌,
}
use subagent_broker.Barrier.Types.{EnvelopeStatus}
use subagent_broker.Plan.Contract.{join_texts}
use subagent_broker.Report.Types.{ScopeExpansion, Envelope}

abbrev pub schema_version_text : String
schema_version_text = "v1alpha1"

unfoldable pub expansion_problems : Option ScopeExpansion → List String
unfolding is_blank any
expansion_problems none = []
expansion_problems (some expansion) =
    (if is_empty expansion.paths
      then "scope_expansion requires at least one path" ∷ []
      else only_if (any is_blank expansion.paths)
          "scope_expansion paths cannot be empty or whitespace-only")
    ++ only_if (is_blank expansion.reason) "scope_expansion reason is required"
    ++ only_if (is_blank expansion.consequence) "scope_expansion consequence is required"

module _ (quoted : String → String) where
  -- The `switch e.Status`.
  unfoldable pub status_problems : EnvelopeStatus → Envelope → List String
  unfolding is_blank sprint
  status_problems EnvelopeStatus.succeeded e =
      only_if (is_empty e.work_completed) "succeeded requires work_completed"
      ++ only_if (not (is_empty e.remaining_work) || not (is_empty e.blocking_issues))
          "succeeded cannot contain remaining work or blocking issues"
  status_problems EnvelopeStatus.partial e =
      only_if
        (is_empty e.work_completed
          || is_empty e.remaining_work
          || is_blank e.stop_reason
          || is_blank e.workspace_state)
        "partial requires completed work, remaining work, stop reason, and workspace state"
  status_problems EnvelopeStatus.blocked e =
      only_if (is_empty e.blocking_issues || is_blank e.stop_reason || is_blank e.workspace_state)
        "blocked requires blocking issues, stop reason, and workspace state"
  status_problems EnvelopeStatus.failed e =
      only_if
        (is_blank e.failure_stage
          || is_blank e.error_summary
          || is_blank e.workspace_state
          || is_empty e.handoff_notes)
        "failed requires failure stage, error summary, workspace state, and handoff notes"
  status_problems EnvelopeStatus.cancelled e =
      only_if (is_blank e.stop_reason || is_blank e.workspace_state)
        "cancelled requires stop reason and workspace state"
  status_problems (EnvelopeStatus.other text) e = sprint ("invalid status " ∷ quoted text ∷ []) ∷ []

  unfoldable pub envelope_problems : Envelope → List String
  unfolding is_blank expansion_problems status_problems
  envelope_problems e =
      only_if (not (e.schema_version == schema_version_text))
        "unsupported or missing schema_version"
      ++ only_if (is_blank e.task_id || is_blank e.worker_id) "task_id and worker_id are required"
      ++ only_if (is_blank e.summary) "summary is required"
      ++ only_if (is_empty e.files_changed && is_blank e.no_files_changed_reason)
          "state changed files or explain why no files changed"
      ++ only_if (is_empty e.validation && is_blank e.validation_not_run_reason)
          "state validation results or explain why validation was not run"
      ++ expansion_problems e.scope_expansion
      ++ status_problems e.status e

  unfoldable pub validate_envelope : Envelope → Result String (Unit {0})
  unfolding envelope_problems sort join_texts
  validate_envelope e =
      let problems = envelope_problems e in
      if is_empty problems
      then ok tt
      else err (sprint ("invalid result envelope: " ∷ join_texts "; " (sort text_lt problems) ∷ []))
