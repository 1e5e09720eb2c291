-- ===== src/Message/Router/Accepted.antt =====
-- internal/message/router.go: the records that its operations write, as internal/message/store.go
-- reads them.
use subagent_broker.Common.{ℕ, String, ◌≡◌, ◌≤◌, ◌⊎◌, refl, Bool, true, false, ok, arith}
use subagent_broker.Message.Json.{RawMessage, is_absent}
use subagent_broker.Message.Kinds.{
  MessageType, Status, DeliveryMode, Message, is_decision_type, validate_transition,
  is_valid_delivery_mode,
}
use subagent_broker.Message.Lifecycle.{
  validate_lifecycle, validate_status_fields, check_immutable, check_mode, check_monotone,
  check_worker, check_resolution, check_status,
}

-- The source's checks on a copy that keeps its identity and goes on with worker and attempt.
immutable_self :
    (a b : Message)
    → (b.message_id ≡ a.message_id)
      × (b.run_id ≡ a.run_id)
      × (b.task_id ≡ a.task_id)
      × (b.type ≡ a.type)
      × (b.schema ≡ a.schema)
      × (b.category ≡ a.category)
      × (b.in_reply_to ≡ a.in_reply_to)
      × (b.created_at ≡ a.created_at)
      × (b.payload ≡ a.payload)
    → check_immutable a b ≡ ok tt
unfolding check_immutable
immutable_self a b h = ground arith

worker_self :
    (a b : Message)
    → b.worker_id ≡ a.worker_id
    → b.attempt_number ≡ a.attempt_number
    → check_worker a b ≡ ok tt
unfolding check_worker
worker_self a b w n = ground arith

module _ (a : Message) (now : ℕ) (fields : validate_status_fields a ≡ ok tt)
    (clock : a.updated_at ≤ now) where
  pub freeze_accepted :
      (normalized : RawMessage)
      → is_decision_type a.type ≡ true
      → a.status ≡ Status.queued
      → is_absent a.resolution ≡ true
      → let b : Message = record a { resolution = normalized; updated_at = now } in
        validate_lifecycle a b ≡ ok tt
  unfolding validate_lifecycle validate_status_fields check_mode check_monotone check_resolution
      check_status
  freeze_accepted normalized d q n =
      let b : Message = record a { resolution = normalized; updated_at = now } in
      ground (
        arith,
        immutable_self a b (refl, refl, refl, refl, refl, refl, refl, refl, refl),
        worker_self a b refl refl,
      )

  pub reclassify_accepted :
      a.type ≡ MessageType.instruction
      → a.status ≡ Status.queued
      → a.delivery_mode ≡ DeliveryMode.next_turn
      → let b : Message = record a { delivery_mode = DeliveryMode.resume; updated_at = now } in
        validate_lifecycle a b ≡ ok tt
  unfolding validate_lifecycle validate_status_fields check_mode check_monotone check_resolution
      check_status is_valid_delivery_mode
  reclassify_accepted i q m =
      let b : Message = record a { delivery_mode = DeliveryMode.resume; updated_at = now } in
      ground (
        arith,
        immutable_self a b (refl, refl, refl, refl, refl, refl, refl, refl, refl),
        worker_self a b refl refl,
      )

-- A resolution stands on an answered message; on a queued one only if it is a decision; on no
-- message that is created, validated or delivered.
abbrev pub is_early : Status → Bool
is_early Status.created = true
is_early Status.validated = true
is_early Status.delivered = true
is_early _ = false

pub record ResolutionFits (status : Status) (type : MessageType) (resolution : RawMessage)
    : Type 0 where
  pub early : is_early status ≡ true → is_absent resolution ≡ true
  pub queued : status ≡ Status.queued → is_decision_type type ≡ false → is_absent resolution ≡ true
  pub answered : status ≡ Status.answered → is_absent resolution ≡ false

accepted_of_parts :
    (a b : Message)
    → validate_status_fields b ≡ ok tt
    → check_immutable a b ≡ ok tt
    → check_mode a b ≡ ok tt
    → check_monotone a b ≡ ok tt
    → check_worker a b ≡ ok tt
    → check_resolution a b ≡ ok tt
    → check_status a b ≡ ok tt
    → validate_lifecycle a b ≡ ok tt
unfolding validate_lifecycle
accepted_of_parts a b f i m o w r t = ground arith

-- A write that may move the status, add a resolution to a message that has none, count an attempt
-- and set the error.
abbrev pub moved : Message → ℕ → Status → RawMessage → ℕ → String → Message
moved a now status resolution attempts error = record a {
  status = status;
  updated_at = now;
  resolution = resolution;
  delivery_attempts = attempts;
  error = error;
}

moved_fields :
    (a b : Message)
    → validate_status_fields a ≡ ok tt
    → b.type ≡ a.type
    → b.delivery_mode ≡ a.delivery_mode
    → ResolutionFits b.status b.type b.resolution
    → validate_status_fields b ≡ ok tt
unfolding validate_status_fields
moved_fields a b h t m f = ground arith

module _ (a : Message) (now : ℕ) (status : Status) (resolution : RawMessage) (attempts : ℕ)
    (error : String) where
  pub move_accepted :
      validate_status_fields a ≡ ok tt
      → a.updated_at ≤ now
      → validate_transition a.status status ≡ ok tt
      → ((is_absent a.resolution ≡ true) ⊎ (resolution ≡ a.resolution))
      → a.delivery_attempts ≤ attempts
      → ResolutionFits status a.type resolution
      → validate_lifecycle a (moved a now status resolution attempts error) ≡ ok tt
  unfolding check_mode check_monotone check_resolution check_status
  move_accepted h clock t r n f =
      let b : Message = moved a now status resolution attempts error in
      accepted_of_parts a b (moved_fields a b h refl refl f)
        (immutable_self a b (refl, refl, refl, refl, refl, refl, refl, refl, refl)) (ground arith)
        (ground arith) (worker_self a b refl refl) (ground arith) (ground arith)
