-- ===== src/Barrier/Passed.antt =====
-- internal/wave/evaluator.go: what a passed barrier says of its inputs.
use subagent_broker.Common.{
  ℕ, ◌≡◌, ◌≢◌, refl, sym, ◌∙◌, Bool, true, false, List, [], ◌∷◌, not, string_eq, is_empty, any, All,
  arith,
}
use subagent_broker.State.Kinds.{Task}
use subagent_broker.Barrier.Types.{
  EnvelopeStatus, BarrierResult, ReportAssessment, HighRiskChange, CheckResult, BarrierInputs,
}
use subagent_broker.Barrier.Evaluate.{is_risk_error, evaluate_barrier}
use subagent_broker.Barrier.Verdict.{
  report_fails, fails, partly_done, warns, verdict, task_fails, envelope_fails,
}
use subagent_broker.Barrier.Decision.{evaluate_barrier-verdict}

-- A report that is complete and valid, of a task and an envelope that did not fall short.
pub record IsClean (r : ReportAssessment) : Type 0 where
  pub error : r.error ≡ ""
  pub present : r.present ≡ true
  pub meta_valid : r.meta_valid ≡ true
  pub markdown_valid : r.markdown_valid ≡ true
  pub identity_valid : r.identity_valid ≡ true
  pub task :
      (r.runtime_status ≢ Task.failed)
      × (r.runtime_status ≢ Task.verification_failed)
      × (r.runtime_status ≢ Task.cancelled)
      × (r.runtime_status ≢ Task.blocked)
      × (r.runtime_status ≢ Task.verified_partial)
  pub envelope :
      (r.envelope_status ≢ EnvelopeStatus.failed)
      × (r.envelope_status ≢ EnvelopeStatus.cancelled)
      × (r.envelope_status ≢ EnvelopeStatus.blocked)
      × (r.envelope_status ≢ EnvelopeStatus.partial)

pub record CleanInputs (input : BarrierInputs) : Type 0 where
  pub cancelled : input.cancelled ≡ false
  pub reports : All IsClean input.reports
  pub pending : input.pending ≡ []
  pub unauthorized : input.scope_audit.unauthorized ≡ []
  pub owner_uncertain : input.scope_audit.owner_uncertain ≡ []
  pub ephemeral : input.scope_audit.ephemeral ≡ []
  pub high_risk_changes : input.high_risk_changes ≡ []
  pub checks : All (λ (c : CheckResult). c.passed ≡ true) input.checks

none_of {ℓ} :
    {A : Type ℓ} (p : A → Bool) (xs : List A) → any p xs ≡ false → All (λ x. p x ≡ false) xs
unfolding any
none_of p [] h = tt
none_of p (x ∷ xs) h = ground (arith, none_of p xs)

checks-All :
    (xs : List CheckResult)
    → any (λ (c : CheckResult). not c.passed) xs ≡ false
    → All (λ (c : CheckResult). c.passed ≡ true) xs
unfolding any
checks-All [] h = tt
checks-All (x ∷ xs) h = ground (arith, checks-All xs)

no_risk :
    (xs : List HighRiskChange)
    → any is_risk_error xs ≡ false
    → any (λ (c : HighRiskChange). not (is_risk_error c)) xs ≡ false
    → xs ≡ []
unfolding any
no_risk [] h k = refl
no_risk (x ∷ xs) h k = ground arith

report-IsClean :
    (r : ReportAssessment)
    → report_fails false r ≡ false
    → partly_done r.runtime_status r.envelope_status ≡ false
    → IsClean r
unfolding report_fails task_fails envelope_fails partly_done
report-IsClean r h k = ground arith

reports-IsClean :
    (xs : List ReportAssessment)
    → any (report_fails false) xs ≡ false
    → any (λ (r : ReportAssessment). partly_done r.runtime_status r.envelope_status) xs ≡ false
    → All IsClean xs
unfolding any
reports-IsClean [] h k = tt
reports-IsClean (x ∷ xs) h k = (
  report-IsClean x (ground arith) (ground arith),
  reports-IsClean xs (ground arith) (ground arith),
)

is_empty-nil {ℓ} : {A : Type ℓ} (xs : List A) → is_empty xs ≡ true → xs ≡ []
is_empty-nil [] h = refl
is_empty-nil (x ∷ xs) h = cc

verdict-passed :
    (input : BarrierInputs)
    → verdict input ≡ BarrierResult.passed
    → (input.cancelled ≡ false) × (fails input ≡ false) × (warns input ≡ false)
unfolding verdict
verdict-passed input h = ground arith

-- A barrier that passes without warnings is not cancelled, has no pending decision, no file outside
-- the scopes, no ephemeral file, no file of uncertain owner and no high-risk change, only checks
-- that passed, and only reports that are complete, valid, and of a task that did not fall short.
pub passed_is_clean :
    (input : BarrierInputs) (now : ℕ)
    → (evaluate_barrier input now).result ≡ BarrierResult.passed
    → CleanInputs input
unfolding fails warns
passed_is_clean input now h =
    let (live, sound, quiet) =
      verdict-passed input (sym (evaluate_barrier-verdict input now) ∙ h) in
    let audit = input.scope_audit in
    record {
      cancelled = live;
      reports = reports-IsClean input.reports (ground arith) (ground arith);
      pending = is_empty-nil input.pending (ground arith);
      unauthorized = is_empty-nil audit.unauthorized (ground arith);
      owner_uncertain = is_empty-nil audit.owner_uncertain (ground arith);
      ephemeral = is_empty-nil audit.ephemeral (ground arith);
      high_risk_changes = no_risk input.high_risk_changes (ground arith) (ground arith);
      checks = checks-All input.checks (ground arith);
    }
