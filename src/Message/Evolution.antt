-- ===== src/Message/Evolution.antt =====
-- internal/message/store.go: two records of one message, an earlier and a later one.
use subagent_broker.Common.{◌≡◌, ◌≢◌, ◌≤◌, ◌<◌, ◌⊎◌, true, false, ok, arith}
use subagent_broker.Message.Json.{is_absent}
use subagent_broker.Message.Kinds.{DeliveryMode, Message, no_mode, is_terminal, validate_transition}
use subagent_broker.Message.Lifecycle.{
  validate_lifecycle, validate_status_fields, check_immutable, check_mode, check_monotone,
  check_worker, check_resolution, check_status,
}

-- The identity and the content of a message.
pub record SameMessage (a b : Message) : Type 0 where
  pub message_id : b.message_id ≡ a.message_id
  pub run_id : b.run_id ≡ a.run_id
  pub task_id : b.task_id ≡ a.task_id
  pub type : b.type ≡ a.type
  pub schema : b.schema ≡ a.schema
  pub category : b.category ≡ a.category
  pub in_reply_to : b.in_reply_to ≡ a.in_reply_to
  pub created_at : b.created_at ≡ a.created_at
  pub payload : b.payload ≡ a.payload

-- `b` is a later state of the message `a`.
pub record Evolves (a b : Message) : Type 0 where
  pub same : SameMessage a b
  pub updated : a.updated_at ≤ b.updated_at
  pub attempts : a.delivery_attempts ≤ b.delivery_attempts
  pub worker : a.worker_id ≢ "" → b.worker_id ≡ a.worker_id
  pub attempt : 0 < a.attempt_number → b.attempt_number ≡ a.attempt_number
  pub resolution : is_absent a.resolution ≡ false → b.resolution ≡ a.resolution
  pub mode :
      a.delivery_mode ≢ no_mode
      → (b.delivery_mode ≡ a.delivery_mode)
        ⊎ ((a.delivery_mode ≡ DeliveryMode.next_turn) × (b.delivery_mode ≡ DeliveryMode.resume))
  pub terminal : is_terminal a.status ≡ true → b.status ≡ a.status

immutable_kept : (a b : Message) → check_immutable a b ≡ ok tt → SameMessage a b
unfolding check_immutable
immutable_kept a b h = ground arith

module _ (a b : Message) where
  mode_kept :
      check_mode a b ≡ ok tt
      → a.delivery_mode ≢ no_mode
      → (b.delivery_mode ≡ a.delivery_mode)
        ⊎ ((a.delivery_mode ≡ DeliveryMode.next_turn) × (b.delivery_mode ≡ DeliveryMode.resume))
  unfolding check_mode
  mode_kept h n = ground arith

  monotone_kept :
      check_monotone a b ≡ ok tt
      → (a.updated_at ≤ b.updated_at) × (a.delivery_attempts ≤ b.delivery_attempts)
  unfolding check_monotone
  monotone_kept h = ground arith

  worker_kept :
      check_worker a b ≡ ok tt
      → (a.worker_id ≢ "" → b.worker_id ≡ a.worker_id)
        × (0 < a.attempt_number → b.attempt_number ≡ a.attempt_number)
  unfolding check_worker
  worker_kept h = ground arith

  resolution_kept :
      check_resolution a b ≡ ok tt → is_absent a.resolution ≡ false → b.resolution ≡ a.resolution
  unfolding check_resolution
  resolution_kept h p = ground arith

  terminal_kept : check_status a b ≡ ok tt → is_terminal a.status ≡ true → b.status ≡ a.status
  unfolding check_status validate_transition
  terminal_kept h t = ground arith

  -- The parts of an accepted pair.
  pub accepted_parts :
      validate_lifecycle a b ≡ ok tt
      → (validate_status_fields b ≡ ok tt)
        × (check_immutable a b ≡ ok tt)
        × (check_mode a b ≡ ok tt)
        × (check_monotone a b ≡ ok tt)
        × (check_worker a b ≡ ok tt)
        × (check_resolution a b ≡ ok tt)
        × (check_status a b ≡ ok tt)
  unfolding validate_lifecycle
  accepted_parts h = ground arith

  -- A record that the lifecycle rules accept after another is a later state of the same message.
  pub validate_lifecycle-Evolves : validate_lifecycle a b ≡ ok tt → Evolves a b
  validate_lifecycle-Evolves h =
      let (fields, same, mode, order, worker, resolution, status) = accepted_parts h in
      record {
        same = immutable_kept a b same;
        updated = (monotone_kept order).0;
        attempts = (monotone_kept order).1;
        worker = (worker_kept worker).0;
        attempt = (worker_kept worker).1;
        resolution = resolution_kept resolution;
        mode = mode_kept mode;
        terminal = terminal_kept status;
      }

pub Evolves-refl : (a : Message) → Evolves a a
Evolves-refl a = ground arith

pub Evolves-trans : {a b c : Message} → Evolves a b → Evolves b c → Evolves a c
Evolves-trans {a} {b} {c} p q = ground arith
