-- ===== src/Message/Resolution/Types.antt =====
-- internal/message/resolution.go: the tagged resolution, its constructors and its validation.
use subagent_broker.Common.{
  String, Bool, true, false, Option, none, some, Eq, ◌==◌, String-discrete, is_blank, Result, ok,
  err, ◌>>=◌, ◌>>◌, fail_if, ◌&&◌, not,
}
use subagent_broker.Message.Kinds.{MessageType}

pub data ResolutionKind : Type 0 where
  answer decision : ResolutionKind
  other : String → ResolutionKind

unfoldable pub ResolutionKind-discrete : Discrete ResolutionKind
unfolding String-discrete
ResolutionKind-discrete = hlevel String-discrete

instance abbrev pub resolution_kind_eq : Eq ResolutionKind
resolution_kind_eq = record { eq? = ResolutionKind-discrete }

pub record AnswerPayload : Type 0 where
  pub text : String

pub record DecisionPayload : Type 0 where
  pub allowed : Bool
  pub reason : String
  pub allow_public_interface_change : Bool

-- The pointers are options.
pub record Resolution : Type 0 where
  pub kind : ResolutionKind
  pub answer : Option AnswerPayload
  pub decision : Option DecisionPayload

pub data ResolutionError : Type 0 where
  both_populated : ResolutionError
  wrong_kind : MessageType → ResolutionError
  answer_missing answer_blank question_with_decision : ResolutionError
  decision_missing : MessageType → ResolutionError
  decision_with_answer : MessageType → ResolutionError
  reason_required public_interface_on_permission public_interface_on_denial : ResolutionError
  not_resolvable : MessageType → ResolutionError
  required not_an_object undecodable : ResolutionError
  legacy_ambiguous needs_reconciliation : MessageType → ResolutionError

unfoldable pub new_answer_resolution : String → Resolution
new_answer_resolution text = record {
  kind = ResolutionKind.answer;
  answer = some (record { text = text });
  decision = none;
}

unfoldable pub new_decision_resolution : Bool → String → Bool → Resolution
new_decision_resolution allowed reason public_change = record {
  kind = ResolutionKind.decision;
  answer = none;
  decision = some (record {
    allowed = allowed;
    reason = reason;
    allow_public_interface_change = public_change;
  });
}

abbrev is_set {ℓ} : {A : Type ℓ} → Option A → Bool
is_set none = false
is_set (some a) = true

check_question : Resolution → Result ResolutionError (Unit {0})
check_question r = do
  fail_if (not (r.kind == ResolutionKind.answer)) (wrong_kind MessageType.question)
  elim r.answer [
    | none ↦ err answer_missing
    | some a ↦ do
      fail_if (is_blank a.text) answer_blank
      fail_if (is_set r.decision) question_with_decision
  ]

-- `validateDecisionResolution`; a valid decision is handed on.
unfoldable pub validate_decision : MessageType → Resolution → Result ResolutionError DecisionPayload
validate_decision t r = do
  fail_if (not (r.kind == ResolutionKind.decision)) (wrong_kind t)
  elim r.decision [
    | none ↦ err (decision_missing t)
    | some d ↦ do
      fail_if (is_set r.answer) (decision_with_answer t)
      fail_if (not d.allowed && is_blank d.reason) reason_required
      ok d
  ]

validate_by_type : MessageType → Resolution → Result ResolutionError (Unit {0})
unfolding check_question validate_decision
validate_by_type MessageType.question r = check_question r
validate_by_type MessageType.permission_request r = do
  d ← validate_decision MessageType.permission_request r
  fail_if d.allow_public_interface_change public_interface_on_permission
validate_by_type MessageType.scope_expansion_request r = do
  d ← validate_decision MessageType.scope_expansion_request r
  fail_if (not d.allowed && d.allow_public_interface_change) public_interface_on_denial
validate_by_type t r = err (not_resolvable t)

-- `ValidateResolutionForType`.
unfoldable pub validate_resolution : MessageType → Resolution → Result ResolutionError (Unit {0})
unfolding validate_by_type
validate_resolution t r = do
  fail_if (is_set r.answer && is_set r.decision) both_populated
  validate_by_type t r
