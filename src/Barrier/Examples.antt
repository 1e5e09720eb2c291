-- ===== src/Barrier/Examples.antt =====
-- Tests and instances for the barrier.
use subagent_broker.Common.{
  ◌≡◌, refl, true, false, [], ◌∷◌, String-discrete, any, flat, contains, sprint, sort,
}
use subagent_broker.State.Kinds.{Task}
use subagent_broker.Barrier.Types.{EnvelopeStatus, BarrierResult, ReportAssessment, BarrierInputs}
use subagent_broker.Barrier.Evaluate.{evaluate_barrier}
use subagent_broker.Barrier.Passed.{CleanInputs, passed_is_clean}

abbrev clean_report : ReportAssessment
clean_report = record {
  task_id = "task-1";
  runtime_status = Task.verified_success;
  envelope_status = EnvelopeStatus.succeeded;
  present = true;
  meta_valid = true;
  markdown_valid = true;
  identity_valid = true;
  error = "";
}

abbrev clean_input : BarrierInputs
clean_input = record {
  wave_id = "wave-1";
  cancelled = false;
  reports = clean_report ∷ [];
  pending = [];
  changed_files = "b.go" ∷ "a.go" ∷ "b.go" ∷ [];
  scope_audit = record { authorized = []; ephemeral = []; unauthorized = []; owner_uncertain = [] };
  high_risk_changes = [];
  checks = record { command = "go test"; passed = true; details = "" } ∷ [];
  existing_warnings = [];
  existing_errors = [];
}

abbrev stray_input : BarrierInputs
stray_input = record clean_input {
  scope_audit = record {
    authorized = [];
    ephemeral = [];
    unauthorized = "x.go" ∷ [];
    owner_uncertain = [];
  };
}

clean_passes : (evaluate_barrier clean_input 4).result ≡ BarrierResult.passed
unfolding evaluate_barrier sort flat String-discrete sprint contains any
clean_passes = refl

stray_errors : (evaluate_barrier stray_input 4).errors ≡ "unauthorized file: x.go" ∷ []
unfolding evaluate_barrier sort flat String-discrete sprint contains any
stray_errors = refl

passed_is_clean_example : CleanInputs clean_input
passed_is_clean_example = passed_is_clean clean_input 4 clean_passes
