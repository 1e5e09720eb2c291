-- ===== src/Message/Router/Durable.antt =====
-- internal/message/router.go: each operation beside the replay of the journal.
use subagent_broker.Common.{
  ℕ, ◌+◌, String, ◌≡◌, ◌≢◌, ◌≤◌, ◌⊎◌, inl, inr, refl, Bool, true, false, Option, none, some, ok,
  arith, Result-cases, Option-cases, ap, ◌∙◌, if◌then◌else◌,
}
use subagent_broker.Dict.{lookup}
use subagent_broker.Message.Json.{RawMessage, is_absent}
use subagent_broker.Message.Kinds.{
  MessageType, Status, DeliveryMode, Message, is_terminal, no_mode, no_status, no_type,
  validate_transition, is_valid_delivery_mode,
}
use subagent_broker.Message.Store.{Disk, lacks_identity}
use subagent_broker.Message.Lifecycle.{
  validate_lifecycle, validate_status_fields, validate_mode_first_assignment,
}
use subagent_broker.Message.Resolution.Decode.{normalize_json}
use subagent_broker.Message.Resolution.RoundTrip.{normalize_decision}
use subagent_broker.Message.Router.Base.{
  Env, Router, persist, enqueue_instruction, enqueue_decision, latest_terminal,
  latest_terminal_other, never, queued_message, instruction_payload,
}
use subagent_broker.Message.Router.Ops.{
  freeze_resolution, reclassify_delivery, record_delivery_attempt, transition, cause_text, or_keep,
}
use subagent_broker.Message.Router.Accepted.{
  freeze_accepted, reclassify_accepted, move_accepted, moved, ResolutionFits,
}
use subagent_broker.Message.Router.Synced.{
  IsSynced, Entry-of, later_line, first_line, persist-IsSynced,
}

-- The clock is not behind the last write of the message.
abbrev pub ClockAfter : Env → String → Router → Type 0
ClockAfter env id r = (m : Message) → lookup id r.index ≡ some m → m.updated_at ≤ env.now

-- `lacks_identity` reads the fields that a rewrite of a message keeps.
pub kept_identity :
    (a b : Message)
    → lacks_identity a ≡ false
    → (b.message_id ≡ a.message_id) × (b.run_id ≡ a.run_id) × (b.type ≡ a.type)
    → b.status ≢ no_status
    → lacks_identity b ≡ false
unfolding lacks_identity
kept_identity a b c h n = ground arith

pub fits_of_fields :
    (a : Message) → validate_status_fields a ≡ ok tt → ResolutionFits a.status a.type a.resolution
unfolding validate_status_fields
fits_of_fields a h = ground arith

pub named_of_complete : (a : Message) → lacks_identity a ≡ false → a.status ≢ no_status
unfolding lacks_identity
named_of_complete a h = ground arith

pub validate_transition_refl : (s : Status) → validate_transition s s ≡ ok tt
unfolding validate_transition
validate_transition_refl s = ground arith

terminal_moves :
    (from to : Status)
    → validate_transition from to ≡ ok tt
    → (from ≡ to) ⊎ (is_terminal from ≡ false)
unfolding validate_transition
terminal_moves from to h = ground arith

module _ (env : Env) (id : String) (r : Router) (s : IsSynced r) (d : env.disk ≢ Disk.unsynced)
    (clock : ClockAfter env id r) where
  rewrite-IsSynced :
      (stale : Option Message → Bool) (a b : Message)
      → lookup id r.index ≡ some a
      → (b.message_id ≡ a.message_id) × (b.run_id ≡ a.run_id) × (b.type ≡ a.type)
      → b.status ≢ no_status
      → stale (some a) ≡ false
      → validate_lifecycle a b ≡ ok tt
      → IsSynced (persist stale env b r).0
  rewrite-IsSynced stale a b e h n f v =
      let entry = Entry-of r s id a e in
      let key : b.message_id ≡ id = h.0 ∙ entry.keyed in
      let at : lookup b.message_id r.index ≡ some a = ap (λ k. lookup k r.index) key ∙ e in
      persist-IsSynced stale env b r s d (ap stale at ∙ f)
        (later_line r.index a b at (kept_identity a b entry.complete h n) v)

  -- From a router whose index is the replay of its journal, freezing a resolution, whether it is
  -- accepted or refused, leads to such a router. The clock is not behind the message's last write,
  -- and the disk does not keep a line whose write it reports as failed.
  pub freeze_resolution-IsSynced :
      (resolution : RawMessage) → IsSynced (freeze_resolution env id resolution r).0
  unfolding freeze_resolution latest_terminal
  freeze_resolution-IsSynced resolution = elim (Option-cases (lookup id r.index)) [
    | inl e ↦ ground arith
    | inr (a, e) ↦ elim (Result-cases (normalize_json a.type resolution)) [
      | inr (x, e') ↦ ground arith
      | inl (c, e') ↦ ground (
        arith,
        normalize_decision a.type resolution c e',
        freeze_accepted a env.now (Entry-of r s id a e).fields (clock a e) c,
        rewrite-IsSynced latest_terminal a (record a { resolution = c; updated_at = env.now }) e
            (refl, refl, refl),
      )
    ]
  ]

  -- From a router whose index is the replay of its journal, reclassifying a delivery, accepted or
  -- refused, leads to such a router. The clock is not behind the message's last write, and the disk
  -- does not keep a line whose write it reports as failed.
  pub reclassify_delivery-IsSynced :
      (mode : DeliveryMode) → IsSynced (reclassify_delivery env id mode r).0
  unfolding reclassify_delivery latest_terminal
  reclassify_delivery-IsSynced mode = elim (Option-cases (lookup id r.index)) [
    | inl e ↦ ground arith
    | inr (a, e) ↦
        let b : Message = record a { delivery_mode = DeliveryMode.resume; updated_at = env.now } in
        ground (
          arith,
          reclassify_accepted a env.now (Entry-of r s id a e).fields (clock a e),
          rewrite-IsSynced latest_terminal a b e (refl, refl, refl),
        )
  ]

  move-IsSynced :
      (stale : Option Message → Bool) (a : Message) (status : Status) (resolution : RawMessage)
      (attempts : ℕ) (error : String)
      → lookup id r.index ≡ some a
      → validate_transition a.status status ≡ ok tt
      → status ≢ no_status
      → ((is_absent a.resolution ≡ true) ⊎ (resolution ≡ a.resolution))
      → a.delivery_attempts ≤ attempts
      → ResolutionFits status a.type resolution
      → stale (some a) ≡ false
      → IsSynced (persist stale env (moved a env.now status resolution attempts error) r).0
  move-IsSynced stale a status resolution attempts error e t n k l f g =
      rewrite-IsSynced stale a (moved a env.now status resolution attempts error) e
        (refl, refl, refl) n g
        (move_accepted a env.now status resolution attempts error (Entry-of r s id a e).fields
          (clock a e) t k l f)

  -- From a router whose index is the replay of its journal, counting a delivery attempt leads to
  -- such a router, if a message with a terminal status is given a next status and the message's
  -- resolution fits a next status that is named. The clock is not behind the message's last write,
  -- and the disk does not keep a line whose write it reports as failed.
  pub record_delivery_attempt-IsSynced :
      (next : Status) (cause : Option String)
      → ((a : Message)
          → lookup id r.index ≡ some a
          → (is_terminal a.status ≡ true → next ≢ no_status)
            × (next ≢ no_status → ResolutionFits next a.type a.resolution))
      → IsSynced (record_delivery_attempt env id next cause r).0
  unfolding record_delivery_attempt latest_terminal_other
  record_delivery_attempt-IsSynced next cause fits = elim (Option-cases (lookup id r.index)) [
    | inl e ↦ ground arith
    | inr (a, e) ↦
        let entry = Entry-of r s id a e in
        let write = λ (status : Status).
          move-IsSynced (latest_terminal_other next) a status a.resolution (a.delivery_attempts + 1)
            (cause_text cause) e in
        ground (
          arith,
          fits a e,
          fits_of_fields a entry.fields,
          named_of_complete a entry.complete,
          validate_transition_refl a.status,
          terminal_moves a.status next,
          write a.status,
          write next,
        )
  ]

  -- From a router whose index is the replay of its journal, a status change that names a status and
  -- no delivery mode leads to such a router, if it replaces no resolution and the new status fits
  -- the resolution that results. The clock is not behind the message's last write, and the disk does
  -- not keep a line whose write it reports as failed.
  pub transition-IsSynced :
      (next : Status) (resolution : RawMessage) (cause : Option String)
      → next ≢ no_status
      → ((a : Message)
          → lookup id r.index ≡ some a
          → ((is_absent resolution ≡ true) ⊎ (is_absent a.resolution ≡ true))
            × ResolutionFits next a.type
                (if is_absent resolution then a.resolution else resolution))
      → IsSynced (transition env id next no_mode resolution cause r).0
  unfolding transition latest_terminal_other
  transition-IsSynced next resolution cause named fits = elim (Option-cases (lookup id r.index)) [
    | inl e ↦ ground arith
    | inr (a, e) ↦
        let kept : RawMessage = if is_absent resolution then a.resolution else resolution in
        ground (
          arith,
          fits a e,
          Entry-of r s id a e,
          terminal_moves a.status next,
          move-IsSynced (latest_terminal_other next) a next kept a.delivery_attempts
              (or_keep cause a.error) e,
        )
  ]

enqueued-IsSynced :
    (env : Env) (id : String) (r : Router)
    → IsSynced r
    → env.disk ≢ Disk.unsynced
    → lookup id r.index ≡ none
    → (m : Message) → m.message_id ≡ id
    → id ≢ ""
    → m.run_id ≢ ""
    → m.type ≢ no_type
    → m.status ≡ Status.queued
    → m.resolution ≡ RawMessage.empty
    → ((m.delivery_mode ≡ no_mode)
        ⊎ ((m.type ≡ MessageType.instruction) × (is_valid_delivery_mode m.delivery_mode ≡ true)))
    → IsSynced (persist never env m r).0
unfolding lacks_identity validate_status_fields validate_mode_first_assignment
enqueued-IsSynced env id r s d new m k i n t q e f =
    persist-IsSynced never env m r s d refl
      (first_line r.index m (rw k new) (ground arith) (ground arith) (ground arith))

-- From a router with a run id whose index is the replay of its journal, enqueueing an instruction
-- leads to such a router, if the id is new and not empty and the delivery mode is known or unset. The
-- disk does not keep a line whose write it reports as failed.
pub enqueue_instruction-IsSynced :
    (env : Env) (id : String) (task_id worker_id : String) (attempt : ℕ) (text : String)
    (mode : DeliveryMode) (r : Router)
    → IsSynced r
    → env.disk ≢ Disk.unsynced
    → lookup id r.index ≡ none
    → id ≢ ""
    → r.run_id ≢ ""
    → ((mode ≡ no_mode) ⊎ (is_valid_delivery_mode mode ≡ true))
    → IsSynced (enqueue_instruction env (some id) task_id worker_id attempt text mode r).0
unfolding enqueue_instruction
enqueue_instruction-IsSynced env id task_id worker_id attempt text mode r s d new i n m = ground (
  arith,
  enqueued-IsSynced env id r s d new
      (queued_message r.run_id id env.now task_id worker_id attempt MessageType.instruction "" mode
        (instruction_payload text))
      refl i n,
)

-- From a router with a run id whose index is the replay of its journal, enqueueing a decision request
-- leads to such a router, if the id is new and not empty. The disk does not keep a line whose write it
-- reports as failed.
pub enqueue_decision-IsSynced :
    (env : Env) (id : String) (task_id worker_id : String) (attempt : ℕ) (type : MessageType)
    (category : String) (payload : RawMessage) (r : Router)
    → IsSynced r
    → env.disk ≢ Disk.unsynced
    → lookup id r.index ≡ none
    → id ≢ ""
    → r.run_id ≢ ""
    → IsSynced (enqueue_decision env (some id) task_id worker_id attempt type category payload r).0
unfolding enqueue_decision
enqueue_decision-IsSynced env id task_id worker_id attempt type category payload r s d new i n =
    ground (
      arith,
      enqueued-IsSynced env id r s d new
          (queued_message r.run_id id env.now task_id worker_id attempt type category no_mode
            payload)
          refl i n,
    )
