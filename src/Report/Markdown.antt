-- ===== src/Report/Markdown.antt =====
-- internal/report/envelope.go, `RenderMarkdown`.
use subagent_broker.Common.{
  String, List, [], ◌∷◌, ◌==◌, string_eq, is_empty, map, sprint, if◌then◌else◌,
}
use subagent_broker.Report.Types.{Validation, Envelope, envelope_status_text}

unfoldable pub items_text : List String → String → String
unfolding sprint
items_text items fallback =
    if is_empty items
    then sprint (fallback ∷ "\n\n" ∷ [])
    else sprint (sprint (map (λ item. sprint ("- " ∷ item ∷ "\n" ∷ [])) items) ∷ "\n" ∷ [])

unfoldable pub validation_text : Validation → String
unfolding sprint
validation_text v = sprint (
    "- `"
    ∷ v.command
    ∷ "`: "
    ∷ (if v.passed then "passed" else "failed")
    ∷ (if v.details == "" then "" else sprint (" — " ∷ v.details ∷ []))
    ∷ "\n"
    ∷ [])

unfoldable pub render_markdown : Envelope → String
unfolding sprint items_text validation_text envelope_status_text
render_markdown e = sprint (
    "# Task Report\n\n## Status\n\n"
    ∷ envelope_status_text e.status
    ∷ "\n\n"
    ∷ "## Completed Work\n\n"
    ∷ items_text e.work_completed e.summary
    ∷ "## Changed Files\n\n"
    ∷ items_text e.files_changed e.no_files_changed_reason
    ∷ "## Verification\n\n"
    ∷ (if is_empty e.validation
        then sprint (e.validation_not_run_reason ∷ "\n\n" ∷ [])
        else sprint (sprint (map validation_text e.validation) ∷ "\n" ∷ []))
    ∷ "## Remaining Work\n\n"
    ∷ items_text e.remaining_work "None."
    ∷ "## Risks and Notes\n\n"
    ∷ items_text e.risks "No known risks."
    ∷ "## Handoff Notes\n\n"
    ∷ items_text e.handoff_notes "No additional handoff notes."
    ∷ [])
