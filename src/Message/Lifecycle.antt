-- ===== src/Message/Lifecycle.antt =====
-- internal/message/store.go: what a journal record must satisfy, alone and after an earlier record
-- of its message.
use subagent_broker.Common.{
  Bool, true, false, ◌==◌, string_eq, nat_eq, ltb, if◌then◌else◌, Result, ok, err, ◌>>◌, fail_if,
  ◌&&◌, ◌||◌, not,
}
use subagent_broker.Message.Json.{RawMessage, raw_eq, is_absent}
use subagent_broker.Message.Kinds.{
  MessageType, Status, DeliveryMode, Message, TransitionError, message_type_eq, status_eq,
  delivery_mode_eq, no_mode, is_valid_delivery_mode, is_decision_type, validate_transition,
}

-- One constructor for each message of the source.
pub data LifecycleError : Type 0 where
  early_resolution : Status → LifecycleError
  queued_resolution : MessageType → LifecycleError
  answered_without_resolution : LifecycleError
  mode_on_type : MessageType → LifecycleError
  invalid_mode : DeliveryMode → LifecycleError
  late_first_mode : Status → LifecycleError
  message_id_drift identity_drift schema_changed category_changed in_reply_to_changed :
      LifecycleError
  created_at_changed payload_changed : LifecycleError
  mode_cleared mode_changed : LifecycleError
  updated_at_backwards attempts_backwards : LifecycleError
  worker_cleared worker_drift attempt_cleared attempt_drift : LifecycleError
  resolution_cleared resolution_rewritten : LifecycleError
  bad_transition : TransitionError → LifecycleError

abbrev pub Validity : Type 0
Validity = Result LifecycleError (Unit {0})

unfoldable pub validate_mode_presence : Message → Validity
validate_mode_presence value =
    if value.delivery_mode == no_mode
    then ok tt
    else if not (value.type == MessageType.instruction)
    then err (mode_on_type value.type)
    else if not (is_valid_delivery_mode value.delivery_mode)
    then err (invalid_mode value.delivery_mode)
    else ok tt

may_first_set_mode : Status → Bool
may_first_set_mode Status.validated = true
may_first_set_mode Status.queued = true
may_first_set_mode _ = false

unfoldable pub validate_mode_first_assignment : Message → Validity
unfolding validate_mode_presence may_first_set_mode
validate_mode_first_assignment value = if value.delivery_mode == no_mode then ok tt else do
  validate_mode_presence value
  fail_if (not (may_first_set_mode value.status)) (late_first_mode value.status)

-- The `switch value.Status`.
resolution_rule : Status → MessageType → RawMessage → Validity
resolution_rule Status.created t r = fail_if (not (is_absent r)) (early_resolution Status.created)
resolution_rule Status.validated t r =
    fail_if (not (is_absent r)) (early_resolution Status.validated)
resolution_rule Status.delivered t r =
    fail_if (not (is_absent r)) (early_resolution Status.delivered)
resolution_rule Status.queued t r =
    fail_if (not (is_absent r) && not (is_decision_type t)) (queued_resolution t)
resolution_rule Status.answered t r = fail_if (is_absent r) answered_without_resolution
resolution_rule _ t r = ok tt

unfoldable pub validate_status_fields : Message → Validity
unfolding validate_mode_presence resolution_rule
validate_status_fields value = do
  validate_mode_presence value
  resolution_rule value.status value.type value.resolution

unfoldable pub check_immutable : Message → Message → Validity
check_immutable previous next = do
  fail_if (not (previous.message_id == next.message_id)) message_id_drift
  fail_if
      (not (previous.run_id == next.run_id)
        || not (previous.task_id == next.task_id)
        || not (previous.type == next.type))
      identity_drift
  fail_if (not (previous.schema == next.schema)) schema_changed
  fail_if (not (previous.category == next.category)) category_changed
  fail_if (not (previous.in_reply_to == next.in_reply_to)) in_reply_to_changed
  fail_if (not (previous.created_at == next.created_at)) created_at_changed
  fail_if (not (previous.payload == next.payload)) payload_changed

-- The one change of a set mode: `next_turn` to `resume` on a queued instruction.
pub may_reclassify : Message → Message → Bool
may_reclassify previous next =
    previous.type == MessageType.instruction
    && previous.status == Status.queued
    && next.status == Status.queued
    && previous.delivery_mode == DeliveryMode.next_turn
    && next.delivery_mode == DeliveryMode.resume

unfoldable pub check_mode : Message → Message → Validity
unfolding may_reclassify validate_mode_first_assignment
check_mode previous next =
    if not (previous.delivery_mode == no_mode)
    then (do
      fail_if (next.delivery_mode == no_mode) mode_cleared
      fail_if
          (not (next.delivery_mode == previous.delivery_mode) && not (may_reclassify previous next))
          mode_changed)
    else if not (next.delivery_mode == no_mode)
    then validate_mode_first_assignment next
    else ok tt

unfoldable pub check_monotone : Message → Message → Validity
check_monotone previous next = do
  fail_if (ltb next.updated_at previous.updated_at) updated_at_backwards
  fail_if (ltb next.delivery_attempts previous.delivery_attempts) attempts_backwards

unfoldable pub check_worker : Message → Message → Validity
check_worker previous next = do
  if not (previous.worker_id == "")
      then (do
        fail_if (next.worker_id == "") worker_cleared
        fail_if (not (previous.worker_id == next.worker_id)) worker_drift)
      else ok tt
  if ltb 0 previous.attempt_number
      then (do
        fail_if (next.attempt_number == 0) attempt_cleared
        fail_if (not (previous.attempt_number == next.attempt_number)) attempt_drift)
      else ok tt

unfoldable pub check_resolution : Message → Message → Validity
check_resolution previous next =
    if not (is_absent previous.resolution)
    then (do
      fail_if (is_absent next.resolution) resolution_cleared
      fail_if (not (previous.resolution == next.resolution)) resolution_rewritten)
    else ok tt

abbrev as_lifecycle : Result TransitionError (Unit {0}) → Validity
as_lifecycle (ok a) = ok a
as_lifecycle (err e) = err (bad_transition e)

unfoldable pub check_status : Message → Message → Validity
check_status previous next =
    if previous.status == next.status
    then ok tt
    else as_lifecycle (validate_transition previous.status next.status)

-- `validateMessageLifecycle`.
unfoldable pub validate_lifecycle : Message → Message → Validity
validate_lifecycle previous next = do
  validate_status_fields next
  check_immutable previous next
  check_mode previous next
  check_monotone previous next
  check_worker previous next
  check_resolution previous next
  check_status previous next
