-- ===== src/Message/Kinds.antt =====
-- internal/message/message.go: types, statuses, delivery modes and the message record. Each string
-- type has one more constructor for a string that is none of its constants; `""` is one of those.
use subagent_broker.Common.{
  ℕ, String, Bool, true, false, Eq, ◌==◌, String-discrete, if◌then◌else◌, Result, ok, err, ◌&&◌,
  not,
}
use subagent_broker.Message.Json.{RawMessage}

-- `message.Type`.
pub data MessageType : Type 0 where
  instruction question answer scope_expansion_request scope_expansion_decision : MessageType
  permission_request permission_decision progress_note completion_report : MessageType
  system_notice : MessageType
  other : String → MessageType

pub data Status : Type 0 where
  created validated queued delivered acknowledged answered expired failed : Status
  other : String → Status

pub data DeliveryMode : Type 0 where
  immediate next_turn resume unsupported : DeliveryMode
  other : String → DeliveryMode

unfoldable pub MessageType-discrete : Discrete MessageType
unfolding String-discrete
MessageType-discrete = hlevel String-discrete

unfoldable pub Status-discrete : Discrete Status
unfolding String-discrete
Status-discrete = hlevel String-discrete

unfoldable pub DeliveryMode-discrete : Discrete DeliveryMode
unfolding String-discrete
DeliveryMode-discrete = hlevel String-discrete

instance abbrev pub message_type_eq : Eq MessageType
message_type_eq = record { eq? = MessageType-discrete }

instance abbrev pub status_eq : Eq Status
status_eq = record { eq? = Status-discrete }

instance abbrev pub delivery_mode_eq : Eq DeliveryMode
delivery_mode_eq = record { eq? = DeliveryMode-discrete }

-- `string(t)`.
unfoldable pub type_text : MessageType → String
type_text MessageType.instruction = "instruction"
type_text MessageType.question = "question"
type_text MessageType.answer = "answer"
type_text MessageType.scope_expansion_request = "scope_expansion_request"
type_text MessageType.scope_expansion_decision = "scope_expansion_decision"
type_text MessageType.permission_request = "permission_request"
type_text MessageType.permission_decision = "permission_decision"
type_text MessageType.progress_note = "progress_note"
type_text MessageType.completion_report = "completion_report"
type_text MessageType.system_notice = "system_notice"
type_text (MessageType.other s) = s

-- The empty strings of the three types.
abbrev pub no_type : MessageType
no_type = MessageType.other ""

abbrev pub no_status : Status
no_status = Status.other ""

abbrev pub no_mode : DeliveryMode
no_mode = DeliveryMode.other ""

abbrev pub schema_version : String
schema_version = "v1alpha1"

-- Times are nanoseconds after Go's zero time; the counters are not negative.
pub record Message : Type 0 where
  pub schema : String
  pub message_id : String
  pub run_id : String
  pub task_id : String
  pub worker_id : String
  pub attempt_number : ℕ
  pub type : MessageType
  pub category : String
  pub status : Status
  pub created_at : ℕ
  pub updated_at : ℕ
  pub in_reply_to : String
  pub delivery_mode : DeliveryMode
  pub delivery_attempts : ℕ
  pub error : String
  pub payload : RawMessage
  pub resolution : RawMessage

unfoldable pub is_valid_delivery_mode : DeliveryMode → Bool
is_valid_delivery_mode (DeliveryMode.other s) = false
is_valid_delivery_mode _ = true

unfoldable pub status_transitions : Status → Status → Bool
status_transitions Status.created Status.validated = true
status_transitions Status.created Status.failed = true
status_transitions Status.validated Status.queued = true
status_transitions Status.validated Status.failed = true
status_transitions Status.queued Status.delivered = true
status_transitions Status.queued Status.answered = true
status_transitions Status.queued Status.expired = true
status_transitions Status.queued Status.failed = true
status_transitions Status.delivered Status.acknowledged = true
status_transitions Status.delivered Status.answered = true
status_transitions Status.delivered Status.expired = true
status_transitions Status.delivered Status.failed = true
status_transitions Status.acknowledged Status.answered = true
status_transitions Status.acknowledged Status.expired = true
status_transitions Status.acknowledged Status.failed = true
status_transitions _ _ = false

abbrev pub is_terminal : Status → Bool
is_terminal Status.answered = true
is_terminal Status.expired = true
is_terminal Status.failed = true
is_terminal _ = false

abbrev pub is_pending : Status → Bool
is_pending s = not (is_terminal s)

pub data TransitionError : Type 0 where
  from_terminal : Status → Status → TransitionError
  invalid : Status → Status → TransitionError

unfoldable pub validate_transition : Status → Status → Result TransitionError (Unit {0})
unfolding status_transitions
validate_transition from to =
    if from == to
    then ok tt
    else if is_terminal from
    then err (from_terminal from to)
    else if status_transitions from to
    then ok tt
    else err (invalid from to)

abbrev pub is_decision_type : MessageType → Bool
is_decision_type MessageType.question = true
is_decision_type MessageType.scope_expansion_request = true
is_decision_type MessageType.permission_request = true
is_decision_type _ = false

unfoldable pub is_delivery_pending : Message → Bool
is_delivery_pending m = m.type == MessageType.instruction && m.status == Status.queued

unfoldable pub is_decision_pending : Message → Bool
is_decision_pending m = is_decision_type m.type && not (is_terminal m.status)
