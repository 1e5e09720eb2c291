-- ===== src/Barrier/Evaluate.antt =====
-- internal/wave/evaluator.go: `EvaluateBarrier`. The errors and warnings that the loops append are
-- lists in the order of the source.
use subagent_broker.Common.{
  ℕ, String, Bool, true, false, List, [], ◌∷◌, ◌++◌, map, ◌==◌, ◌||◌, not, string_eq, if◌then◌else◌,
  is_empty, any, contains, flat, length, sprint, decimal, sort, text_lt,
}
use subagent_broker.State.Kinds.{Task, task_text}
use subagent_broker.Message.Kinds.{type_text}
use subagent_broker.Barrier.Types.{
  EnvelopeStatus, Severity, severity_eq, BarrierResult, ReportAssessment, PendingDecision,
  HighRiskChange, CheckResult, FileAttribution, BarrierInputs, Verification,
}

-- `uniqueSorted`; `seen` holds the values that are in the result.
unfoldable pub distinct : List String → List String → List String
distinct seen [] = []
distinct seen (v ∷ rest) =
    let skipped = distinct seen rest in
    let taken = v ∷ distinct (v ∷ seen) rest in
    if v == "" then skipped else if contains seen v then skipped else taken

unfoldable pub unique_sorted : List String → List String
unfolding distinct
unique_sorted values = sort text_lt (distinct [] values)

-- `if cond { list = append(list, text) }`.
abbrev pub note_if : Bool → String → List String
note_if true text = text ∷ []
note_if false text = []

abbrev about_task : String → String → String
about_task task_id text = sprint ("task " ∷ task_id ∷ text ∷ [])

-- A report's files.
unfoldable pub file_errors : ReportAssessment → List String
file_errors r =
    if not r.present
    then about_task r.task_id " report is missing" ∷ []
    else note_if (not r.meta_valid) (about_task r.task_id " report.meta.json is invalid")
      ++ note_if (not r.markdown_valid) (about_task r.task_id " report.md is invalid")
      ++ note_if (not r.identity_valid) (about_task r.task_id " report identity mismatch")

-- The `switch item.RuntimeStatus`; `run_cancelled` is `input.Cancelled`.
unfoldable pub runtime_errors : Bool → String → Task → List String
runtime_errors run_cancelled id Task.failed =
    sprint ("task " ∷ id ∷ " is " ∷ task_text Task.failed ∷ []) ∷ []
runtime_errors run_cancelled id Task.verification_failed =
    sprint ("task " ∷ id ∷ " is " ∷ task_text Task.verification_failed ∷ []) ∷ []
runtime_errors run_cancelled id Task.cancelled =
    note_if (not run_cancelled) (about_task id " is cancelled")
runtime_errors run_cancelled id _ = []

unfoldable pub runtime_warnings : String → Task → List String
runtime_warnings id Task.blocked = about_task id " is blocked" ∷ []
runtime_warnings id Task.verified_partial = about_task id " is verified_partial" ∷ []
runtime_warnings id _ = []

unfoldable pub runtime_blocks : Task → Bool
runtime_blocks Task.blocked = true
runtime_blocks _ = false

-- The `switch item.EnvelopeStatus`.
unfoldable pub envelope_errors : String → EnvelopeStatus → List String
envelope_errors id EnvelopeStatus.failed = about_task id " envelope status is failed" ∷ []
envelope_errors id EnvelopeStatus.cancelled = about_task id " envelope status is cancelled" ∷ []
envelope_errors id _ = []

unfoldable pub envelope_warnings : String → EnvelopeStatus → List String
envelope_warnings id EnvelopeStatus.blocked = about_task id " envelope status is blocked" ∷ []
envelope_warnings id EnvelopeStatus.partial = about_task id " envelope status is partial" ∷ []
envelope_warnings id _ = []

unfoldable pub envelope_blocks : EnvelopeStatus → Bool
envelope_blocks EnvelopeStatus.blocked = true
envelope_blocks _ = false

unfoldable pub report_errors : Bool → ReportAssessment → List String
unfolding file_errors runtime_errors envelope_errors
report_errors run_cancelled r =
    note_if (not (r.error == "")) r.error
    ++ file_errors r
    ++ runtime_errors run_cancelled r.task_id r.runtime_status
    ++ envelope_errors r.task_id r.envelope_status

unfoldable pub report_warnings : ReportAssessment → List String
unfolding runtime_warnings envelope_warnings
report_warnings r =
    runtime_warnings r.task_id r.runtime_status ++ envelope_warnings r.task_id r.envelope_status

unfoldable pub report_blocks : ReportAssessment → Bool
unfolding runtime_blocks envelope_blocks
report_blocks r = runtime_blocks r.runtime_status || envelope_blocks r.envelope_status

unfoldable pub pending_warning : PendingDecision → String
pending_warning p =
    sprint
      ("pending " ∷ type_text p.type ∷ " message " ∷ p.message_id ∷ " for task " ∷ p.task_id ∷ [])

unfoldable pub risk_text : HighRiskChange → String
risk_text c =
    sprint ("high-risk change: " ∷ c.path ∷ (if c.reason == "" then [] else ": " ∷ c.reason ∷ []))

-- No severity means an error.
unfoldable pub is_risk_error : HighRiskChange → Bool
is_risk_error c = c.severity == Severity.other "" || c.severity == Severity.error

unfoldable pub risk_errors : HighRiskChange → List String
unfolding risk_text
risk_errors c = note_if (is_risk_error c) (risk_text c)

unfoldable pub risk_warnings : HighRiskChange → List String
unfolding risk_text
risk_warnings c = note_if (not (is_risk_error c)) (risk_text c)

unfoldable pub check_errors : CheckResult → List String
check_errors c = note_if (not c.passed) (sprint ("integration check failed: " ∷ c.command ∷ []))

abbrev pub unauthorized_error : String → List String
unauthorized_error path = sprint ("unauthorized file: " ∷ path ∷ []) ∷ []

abbrev pub uncertain_warning : FileAttribution → List String
uncertain_warning f = sprint ("owner uncertain: " ∷ f.path ∷ []) ∷ []

abbrev pub ephemeral_warning : ℕ → String
ephemeral_warning n =
    sprint ("ephemeral workspace artifacts observed: " ∷ decimal n ∷ " path(s)" ∷ [])

unfoldable pub barrier_errors : BarrierInputs → List String
unfolding report_errors risk_errors check_errors
barrier_errors input =
    input.existing_errors
    ++ flat (report_errors input.cancelled) input.reports
    ++ flat unauthorized_error input.scope_audit.unauthorized
    ++ flat risk_errors input.high_risk_changes
    ++ flat check_errors input.checks

unfoldable pub barrier_warnings : BarrierInputs → List String
unfolding report_warnings pending_warning risk_warnings
barrier_warnings input =
    input.existing_warnings
    ++ flat report_warnings input.reports
    ++ flat (λ p. pending_warning p ∷ []) input.pending
    ++ flat uncertain_warning input.scope_audit.owner_uncertain
    ++ note_if (not (is_empty input.scope_audit.ephemeral))
        (ephemeral_warning (length input.scope_audit.ephemeral))
    ++ flat risk_warnings input.high_risk_changes

-- The flag `blocked` after the loops.
unfoldable pub is_blocked : BarrierInputs → Bool
unfolding report_blocks
is_blocked input = any report_blocks input.reports || not (is_empty input.pending)

-- The final `switch`.
unfoldable pub barrier_result : Bool → List String → Bool → List String → BarrierResult
barrier_result run_cancelled errors held warnings =
    if run_cancelled
    then BarrierResult.cancelled
    else if not (is_empty errors)
    then BarrierResult.failed
    else if held
    then BarrierResult.blocked
    else if not (is_empty warnings)
    then BarrierResult.passed_with_warnings
    else BarrierResult.passed

risk_before : HighRiskChange → HighRiskChange → Bool
risk_before a b =
    if not (a.path == b.path) then text_lt a.path b.path else text_lt a.reason b.reason

-- `EvaluateBarrier`.
unfoldable pub evaluate_barrier : BarrierInputs → ℕ → Verification
unfolding unique_sorted barrier_errors barrier_warnings is_blocked barrier_result risk_before
evaluate_barrier input now =
    let errors = unique_sorted (barrier_errors input) in
    let warnings = unique_sorted (barrier_warnings input) in
    record {
      schema_version = "v1alpha1";
      wave_id = input.wave_id;
      started_at = now;
      ended_at = now;
      result =
          barrier_result input.cancelled errors (is_blocked input || not (is_empty input.pending))
            warnings;
      changed_files = unique_sorted input.changed_files;
      scope_audit = input.scope_audit;
      checks = input.checks;
      warnings = warnings;
      errors = errors;
      pending_messages = unique_sorted (map (λ (p : PendingDecision). p.message_id) input.pending);
      high_risk_changes = sort risk_before input.high_risk_changes;
      reports = sort (λ (a b : ReportAssessment). text_lt a.task_id b.task_id) input.reports;
    }
