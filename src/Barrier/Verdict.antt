-- ===== src/Barrier/Verdict.antt =====
-- internal/wave/evaluator.go: what decides the result of a barrier.
use subagent_broker.Common.{
  String, ◌≡◌, ◌≢◌, refl, ◌∙◌, Bool, true, false, List, [], ◌∷◌, ◌++◌, ◌==◌, ◌&&◌, ◌||◌, not,
  string_eq, if◌then◌else◌, is_empty, any, contains, flat, sprint, sprint-not_empty, sort,
  insert_sorted, text_lt, arith,
}
use subagent_broker.State.Kinds.{Task, task_text}
use subagent_broker.Barrier.Types.{
  EnvelopeStatus, BarrierResult, ReportAssessment, HighRiskChange, CheckResult, BarrierInputs,
}
use subagent_broker.Barrier.Evaluate.{
  distinct, unique_sorted, note_if, report_errors, is_risk_error, is_blocked, file_errors,
  runtime_errors, envelope_errors,
}

-- Whether a list has an entry that is not the empty text.
abbrev pub says : String → Bool
says s = not (s == "")

pub any-append {ℓ} :
    {A : Type ℓ} (p : A → Bool) (xs ys : List A) → any p (xs ++ ys) ≡ (any p xs || any p ys)
unfolding any
any-append p [] ys = refl
any-append p (x ∷ xs) ys = ground (arith, any-append p xs ys)

pub any-flat {ℓ κ} :
    {A : Type ℓ} {B : Type κ} (p : B → Bool) (q : A → Bool) (f : A → List B) (xs : List A)
    → ((x : A) → any p (f x) ≡ q x)
    → any p (flat f xs) ≡ any q xs
unfolding any flat
any-flat p q f [] h = refl
any-flat p q f (x ∷ xs) h =
    any-append p (f x) (flat f xs) ∙ ground (arith, h x, any-flat p q f xs h)

insert_sorted-empty :
    (less : String → String → Bool) (x : String) (ys : List String)
    → is_empty (insert_sorted less x ys) ≡ false
unfolding insert_sorted
insert_sorted-empty less x [] = refl
insert_sorted-empty less x (y ∷ ys) = ground arith

sort-empty : (xs : List String) → is_empty (sort text_lt xs) ≡ is_empty xs
unfolding sort
sort-empty [] = refl
sort-empty (x ∷ xs) = insert_sorted-empty text_lt x (sort text_lt xs)

distinct-empty : (xs : List String) → is_empty (distinct [] xs) ≡ not (any says xs)
unfolding distinct any contains
distinct-empty [] = refl
distinct-empty (x ∷ xs) = ground (arith, distinct-empty xs)

pub unique_sorted-empty : (xs : List String) → is_empty (unique_sorted xs) ≡ not (any says xs)
unfolding unique_sorted
unique_sorted-empty xs = sort-empty (distinct [] xs) ∙ distinct-empty xs

pub says_text : (s : String) (rest : List String) → s ≢ "" → says (sprint (s ∷ rest)) ≡ true
says_text s rest n = ground (arith, sprint-not_empty s rest n)

-- A description of the result that makes no texts. What fails a barrier:
unfoldable pub task_fails : Bool → Task → Bool
task_fails run_cancelled Task.failed = true
task_fails run_cancelled Task.verification_failed = true
task_fails run_cancelled Task.cancelled = not run_cancelled
task_fails run_cancelled _ = false

unfoldable pub envelope_fails : EnvelopeStatus → Bool
envelope_fails EnvelopeStatus.failed = true
envelope_fails EnvelopeStatus.cancelled = true
envelope_fails _ = false

unfoldable pub report_fails : Bool → ReportAssessment → Bool
unfolding task_fails envelope_fails
report_fails run_cancelled r =
    says r.error
    || not (r.present && r.meta_valid && r.markdown_valid && r.identity_valid)
    || task_fails run_cancelled r.runtime_status
    || envelope_fails r.envelope_status

unfoldable pub fails : BarrierInputs → Bool
unfolding report_fails
fails input =
    any says input.existing_errors
    || any (report_fails input.cancelled) input.reports
    || not (is_empty input.scope_audit.unauthorized)
    || any is_risk_error input.high_risk_changes
    || any (λ (c : CheckResult). not c.passed) input.checks

-- What makes a passed barrier one with warnings.
unfoldable pub partly_done : Task → EnvelopeStatus → Bool
partly_done Task.blocked e = true
partly_done Task.verified_partial e = true
partly_done t EnvelopeStatus.blocked = true
partly_done t EnvelopeStatus.partial = true
partly_done t e = false

unfoldable pub warns : BarrierInputs → Bool
unfolding partly_done
warns input =
    any says input.existing_warnings
    || any (λ (r : ReportAssessment). partly_done r.runtime_status r.envelope_status) input.reports
    || not (is_empty input.pending)
    || not (is_empty input.scope_audit.owner_uncertain)
    || not (is_empty input.scope_audit.ephemeral)
    || any (λ (c : HighRiskChange). not (is_risk_error c)) input.high_risk_changes

unfoldable pub verdict : BarrierInputs → BarrierResult
unfolding fails warns is_blocked
verdict input =
    if input.cancelled
    then BarrierResult.cancelled
    else if fails input
    then BarrierResult.failed
    else if is_blocked input
    then BarrierResult.blocked
    else if warns input
    then BarrierResult.passed_with_warnings
    else BarrierResult.passed

pub any-note_if : (b : Bool) (s : String) → says s ≡ true → any says (note_if b s) ≡ b
unfolding any
any-note_if true s h = ground (arith, h)
any-note_if false s h = refl

pub task_says : (rest : List String) → says (sprint ("task " ∷ rest)) ≡ true
task_says rest = says_text "task " rest (λ e. cc e)

abbrev pub about_says : (id text : String) → says (sprint ("task " ∷ id ∷ text ∷ [])) ≡ true
about_says id text = task_says (id ∷ text ∷ [])

file_errors-says :
    (r : ReportAssessment)
    → any says (file_errors r)
      ≡ not (r.present && r.meta_valid && r.markdown_valid && r.identity_valid)
unfolding file_errors any
file_errors-says r = ground (
  arith,
  about_says r.task_id " report is missing",
  about_says r.task_id " report.meta.json is invalid",
  about_says r.task_id " report.md is invalid",
  about_says r.task_id " report identity mismatch",
)

runtime_errors-says :
    (c : Bool) (id : String) (t : Task) → any says (runtime_errors c id t) ≡ task_fails c t
unfolding runtime_errors any task_fails
runtime_errors-says c id t = ground (
  arith,
  task_says (id ∷ " is " ∷ task_text Task.failed ∷ []),
  task_says (id ∷ " is " ∷ task_text Task.verification_failed ∷ []),
  about_says id " is cancelled",
)

envelope_errors-says :
    (id : String) (e : EnvelopeStatus) → any says (envelope_errors id e) ≡ envelope_fails e
unfolding envelope_errors any envelope_fails
envelope_errors-says id e = ground (
  arith,
  about_says id " envelope status is failed",
  about_says id " envelope status is cancelled",
)

module _ {ℓ} {A : Type ℓ} (p : A → Bool) (a b c d : List A) where
  any-append4 : any p (a ++ b ++ c ++ d) ≡ (any p a || any p b || any p c || any p d)
  any-append4 = simp any-append

pub report_errors-says :
    (c : Bool) (r : ReportAssessment) → any says (report_errors c r) ≡ report_fails c r
unfolding report_errors report_fails any
report_errors-says c r =
    any-append4 says (note_if (says r.error) r.error) (file_errors r)
      (runtime_errors c r.task_id r.runtime_status) (envelope_errors r.task_id r.envelope_status)
    ∙ ground (
      arith,
      any-note_if (says r.error) r.error,
      file_errors-says r,
      runtime_errors-says c r.task_id r.runtime_status,
      envelope_errors-says r.task_id r.envelope_status,
    )
