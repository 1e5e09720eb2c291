-- ===== src/Plan/Examples.antt =====
-- Instances for the checks of a plan.
use subagent_broker.Common.{
  ℕ, String, true, false, List, [], ◌∷◌, ◌≡◌, refl, ok, String-discrete, ℕ_discrete, All,
}
use subagent_broker.Barrier.Types.{ScopeAudit}
use subagent_broker.Audit.Policy.{default_policy}
use subagent_broker.Audit.Classify.{audit_scopes}
use subagent_broker.Plan.Types.{Task, WavePlan, RunPlan, IssueSeverity-discrete}
use subagent_broker.Plan.Preflight.{preflight}
use subagent_broker.Plan.Validate.{validate_plan}
use subagent_broker.Plan.Allowed.{IsAdmissible}
use subagent_broker.Plan.Leases.{preflight-audit_scopes}
use subagent_broker.Plan.Earlier.{IsOrdered, validate_plan-IsOrdered}
use subagent_broker.Plan.Ranked.{IsRanked, validate_plan-IsRanked}

abbrev in_quotes : String → String
in_quotes s = s

abbrev sample_task : String → String → String → List String → Task
sample_task id scope partner depends_on = record {
  task_id = id;
  title = "title";
  objective = "objective";
  completion_criteria = "done" ∷ [];
  write_scope = scope ∷ [];
  forbidden_scope = [];
  known_read_dependencies = "doc/**" ∷ [];
  parallel_responsibilities = (partner, "the other half") ∷ [];
  validation_commands = record { command = "go vet ./a"; scope = "" } ∷ [];
  depends_on = depends_on;
  allow_nested_agents = false;
  project_root = "/p";
}

abbrev first_tasks : List Task
first_tasks = sample_task "a" "src/a/**" "b" [] ∷ sample_task "b" "src/b/**" "a" [] ∷ []

abbrev later_tasks : List Task
later_tasks =
    record (sample_task "c" "src/**" "" ("a" ∷ "b" ∷ [])) { parallel_responsibilities = [] } ∷ []

abbrev sample_plan : RunPlan
sample_plan = record {
  schema_version = "v1alpha1";
  waves =
      record { wave_id = "wave-1"; integration_checks = []; tasks = first_tasks }
      ∷ record { wave_id = "wave-2"; integration_checks = []; tasks = later_tasks }
      ∷ [];
  final_checks = [];
}

allowed_wave : (preflight in_quotes first_tasks).allowed ≡ true
unfolding preflight String-discrete ℕ_discrete IssueSeverity-discrete
allowed_wave = refl

accepted : validate_plan in_quotes sample_plan ≡ ok tt
unfolding validate_plan String-discrete ℕ_discrete IssueSeverity-discrete
accepted = refl

abbrev wave_audit : ScopeAudit
wave_audit = record {
  authorized = record { path = "src/a/x.go"; owners = "a" ∷ [] } ∷ [];
  ephemeral = [];
  unauthorized = "src/c.go" ∷ [];
  owner_uncertain = [];
}

wave_audited :
    audit_scopes
      ("src/c.go" ∷ "src/a/x.go" ∷ [])
      (preflight in_quotes first_tasks).scopes
      default_policy
    ≡ ok wave_audit
unfolding audit_scopes preflight default_policy String-discrete ℕ_discrete IssueSeverity-discrete
wave_audited = refl

preflight-audit_scopes_example : wave_audit.owner_uncertain ≡ []
unfolding audit_scopes String-discrete ℕ_discrete
preflight-audit_scopes_example =
    preflight-audit_scopes in_quotes first_tasks ("src/c.go" ∷ "src/a/x.go" ∷ []) default_policy
      wave_audit allowed_wave (refl, (refl, tt)) wave_audited

validate_plan-IsOrdered_example : IsOrdered [] sample_plan.waves
validate_plan-IsOrdered_example = validate_plan-IsOrdered in_quotes sample_plan accepted

validate_plan-IsRanked_example :
    ((rank : String → ℕ) × IsRanked rank sample_plan.waves)
    × All (λ (item : WavePlan). IsAdmissible in_quotes item.tasks) sample_plan.waves
validate_plan-IsRanked_example = validate_plan-IsRanked in_quotes sample_plan accepted
