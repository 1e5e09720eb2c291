-- ===== src/Barrier/Decision.antt =====
-- internal/wave/evaluator.go: `EvaluateBarrier` against the description of its result.
use subagent_broker.Common.{
  ℕ, String, ◌≡◌, refl, ◌∙◌, Bool, true, List, [], ◌∷◌, ◌++◌, ◌||◌, not, string_eq, is_empty, any,
  flat, length, arith,
}
use subagent_broker.Barrier.Types.{
  ReportAssessment, PendingDecision, HighRiskChange, CheckResult, BarrierInputs,
}
use subagent_broker.Barrier.Evaluate.{
  note_if, report_errors, report_warnings, pending_warning, risk_text, is_risk_error, risk_errors,
  risk_warnings, check_errors, barrier_errors, barrier_warnings, is_blocked, barrier_result,
  evaluate_barrier, runtime_warnings, envelope_warnings, ephemeral_warning, unauthorized_error,
  uncertain_warning,
}
use subagent_broker.Barrier.Verdict.{
  says, any-append, any-flat, unique_sorted-empty, says_text, about_says, any-note_if,
  report_errors-says, report_fails, fails, partly_done, warns, verdict,
}

report_warnings-says :
    (r : ReportAssessment)
    → any says (report_warnings r) ≡ partly_done r.runtime_status r.envelope_status
unfolding report_warnings runtime_warnings envelope_warnings any partly_done
report_warnings-says r = ground (
  arith,
  about_says r.task_id " is blocked",
  about_says r.task_id " is verified_partial",
  about_says r.task_id " envelope status is blocked",
  about_says r.task_id " envelope status is partial",
)

-- A list whose every entry gives one text.
any-each {ℓ} :
    {A : Type ℓ} (f : A → List String) (xs : List A)
    → ((x : A) → any says (f x) ≡ true)
    → any says (flat f xs) ≡ not (is_empty xs)
unfolding any flat
any-each f [] h = refl
any-each f (x ∷ xs) h = any-append says (f x) (flat f xs) ∙ ground (arith, h x)

one_says : (s : String) → says s ≡ true → any says (s ∷ []) ≡ true
unfolding any
one_says s h = ground (arith, h)

risk_says : (c : HighRiskChange) → says (risk_text c) ≡ true
unfolding risk_text
risk_says c = says_text "high-risk change: " _ (λ e. cc e)

module _ {ℓ} {A : Type ℓ} (p : A → Bool) (a b c d e : List A) where
  any-append5 :
      any p (a ++ b ++ c ++ d ++ e) ≡ (any p a || any p b || any p c || any p d || any p e)
  any-append5 = simp any-append

  any-append6 :
      (f : List A)
      → any p (a ++ b ++ c ++ d ++ e ++ f)
        ≡ (any p a || any p b || any p c || any p d || any p e || any p f)
  any-append6 f = simp any-append

risk_error : (c : HighRiskChange) → any says (risk_errors c) ≡ is_risk_error c
unfolding risk_errors
risk_error c = any-note_if (is_risk_error c) (risk_text c) (risk_says c)

check_error : (c : CheckResult) → any says (check_errors c) ≡ not c.passed
unfolding check_errors
check_error c =
    any-note_if (not c.passed) _
      (says_text "integration check failed: " (c.command ∷ []) (λ e. cc e))

pending_says : (p : PendingDecision) → any says (pending_warning p ∷ []) ≡ true
unfolding pending_warning
pending_says p = one_says _ (says_text "pending " _ (λ e. cc e))

risk_warning : (c : HighRiskChange) → any says (risk_warnings c) ≡ not (is_risk_error c)
unfolding risk_warnings
risk_warning c = any-note_if (not (is_risk_error c)) (risk_text c) (risk_says c)

barrier_errors-says : (input : BarrierInputs) → any says (barrier_errors input) ≡ fails input
unfolding barrier_errors fails
barrier_errors-says input =
    let audit = input.scope_audit in
    any-append5 says input.existing_errors (flat (report_errors input.cancelled) input.reports)
      (flat unauthorized_error audit.unauthorized) (flat risk_errors input.high_risk_changes)
      (flat check_errors input.checks)
    ∙ rw
        (
          any-flat says (report_fails input.cancelled) (report_errors input.cancelled) input.reports
              (report_errors-says input.cancelled),
          any-each unauthorized_error audit.unauthorized
              (λ path. one_says _ (says_text "unauthorized file: " (path ∷ []) (λ e. cc e))),
          any-flat says is_risk_error risk_errors input.high_risk_changes risk_error,
          any-flat says (λ (c : CheckResult). not c.passed) check_errors input.checks check_error,
        )
        refl

barrier_warnings-says : (input : BarrierInputs) → any says (barrier_warnings input) ≡ warns input
unfolding barrier_warnings warns
barrier_warnings-says input =
    let audit = input.scope_audit in
    any-append6 says input.existing_warnings (flat report_warnings input.reports)
      (flat (λ p. pending_warning p ∷ []) input.pending)
      (flat uncertain_warning audit.owner_uncertain)
      (note_if (not (is_empty audit.ephemeral)) (ephemeral_warning (length audit.ephemeral)))
      (flat risk_warnings input.high_risk_changes)
    ∙ rw
        (
          any-flat says (λ (r : ReportAssessment). partly_done r.runtime_status r.envelope_status)
              report_warnings input.reports report_warnings-says,
          any-each (λ p. pending_warning p ∷ []) input.pending pending_says,
          any-each uncertain_warning audit.owner_uncertain
              (λ f. one_says _ (says_text "owner uncertain: " (f.path ∷ []) (λ e. cc e))),
          any-note_if (not (is_empty audit.ephemeral)) (ephemeral_warning (length audit.ephemeral))
              (says_text "ephemeral workspace artifacts observed: " _ (λ e. cc e)),
          any-flat says (λ (c : HighRiskChange). not (is_risk_error c)) risk_warnings
              input.high_risk_changes risk_warning,
        )
        refl

pub evaluate_barrier-verdict :
    (input : BarrierInputs) (now : ℕ) → (evaluate_barrier input now).result ≡ verdict input
unfolding evaluate_barrier verdict barrier_result is_blocked
evaluate_barrier-verdict input now = ground (
  arith,
  unique_sorted-empty (barrier_errors input),
  unique_sorted-empty (barrier_warnings input),
  barrier_errors-says input,
  barrier_warnings-says input,
)
