-- ===== src/Message/Examples.antt =====
-- Tests and instances for internal/message.
use subagent_broker.Common.{
  String, ◌≡◌, ◌≢◌, ◌≤◌, ◌⊎◌, refl, inr, true, false, none, some, List, [], ◌∷◌, ok, arith,
  String-discrete, ℕ_discrete, if◌then◌else◌,
}
use subagent_broker.Dict.{lookup, insert}
use subagent_broker.Message.Json.{RawMessage, RawMessage-discrete, is_absent}
use subagent_broker.Message.Kinds.{
  Message, MessageType, Status, DeliveryMode, MessageType-discrete, Status-discrete,
  DeliveryMode-discrete, no_mode, is_valid_delivery_mode, validate_transition, no_status,
  is_terminal,
}
use subagent_broker.Message.Lifecycle.{
  check_immutable, check_mode, check_monotone, check_worker, check_resolution, check_status,
  validate_lifecycle, validate_status_fields, validate_mode_first_assignment,
}
use subagent_broker.Message.Evolution.{Evolves, validate_lifecycle-Evolves}
use subagent_broker.Message.Store.{
  is_unencodable, Disk, Store, replay, corrupt, validate_line, lacks_identity,
}
use subagent_broker.Message.Lifecycle.{mode_changed}
use subagent_broker.Message.Resolution.Codec.{encode_resolution}
use subagent_broker.Message.Resolution.Examples.{written_reply}
use subagent_broker.Message.Router.Base.{Env, Router, queued_message, enqueue_instruction}
use subagent_broker.Message.Router.Ops.{
  freeze_resolution, reclassify_delivery, record_delivery_attempt, transition,
}
use subagent_broker.Message.Router.Synced.{IsSynced}
use subagent_broker.Message.Router.Accepted.{ResolutionFits}
use subagent_broker.Message.Router.Durable.{
  ClockAfter, freeze_resolution-IsSynced, reclassify_delivery-IsSynced,
  record_delivery_attempt-IsSynced, transition-IsSynced, enqueue_instruction-IsSynced,
}
use subagent_broker.Message.Router.History.{replay-Evolves}
use subagent_broker.Message.Router.Divergence.{
  failed_with, attempt_on_terminal_diverges, mode_change_corrupts,
}

-- The clock of the calls.
abbrev at_noon : Env
at_noon = record { now = 20; disk = Disk.written }

abbrev store_of : List Message → Store
store_of lines = record {
  journal = lines;
  append_disabled = false;
  disabled_reason = "";
  marker = false;
}

abbrev instruction : Message
instruction =
    queued_message "run-1" "m-1" 10 "task-1" "worker-1" 1 MessageType.instruction ""
      DeliveryMode.next_turn RawMessage.empty

abbrev question : Message
question =
    queued_message "run-1" "m-2" 11 "task-1" "worker-1" 1 MessageType.question "design" no_mode
      RawMessage.empty

abbrev failed : Message
failed = record instruction { message_id = "m-3"; delivery_mode = no_mode; status = Status.failed }

abbrev one_router : Message → Router
one_router m = record {
  run_id = "run-1";
  store = store_of (m ∷ []);
  index = (m.message_id, m) ∷ [];
}

abbrev empty_router : Router
empty_router = record { run_id = "run-1"; store = store_of []; index = [] }

empty_router-IsSynced : IsSynced empty_router
unfolding replay
empty_router-IsSynced = refl

instruction_router-IsSynced : IsSynced (one_router instruction)
unfolding replay validate_line lacks_identity lookup insert validate_status_fields
    validate_mode_first_assignment is_valid_delivery_mode MessageType-discrete Status-discrete
    DeliveryMode-discrete String-discrete
instruction_router-IsSynced = refl

question_router-IsSynced : IsSynced (one_router question)
unfolding replay validate_line lacks_identity lookup insert validate_status_fields
    validate_mode_first_assignment is_valid_delivery_mode MessageType-discrete Status-discrete
    DeliveryMode-discrete String-discrete
question_router-IsSynced = refl

failed_router-IsSynced : IsSynced (one_router failed)
unfolding replay validate_line lacks_identity lookup insert validate_status_fields
    validate_mode_first_assignment is_valid_delivery_mode MessageType-discrete Status-discrete
    DeliveryMode-discrete String-discrete
failed_router-IsSynced = refl

found : (m : Message) → lookup m.message_id (one_router m).index ≡ some m
unfolding lookup
found m = ground arith

only : (m a : Message) → lookup m.message_id (one_router m).index ≡ some a → a ≡ m
unfolding lookup
only m a e = ground arith

clock_after : (m : Message) → m.updated_at ≤ 20 → ClockAfter at_noon m.message_id (one_router m)
clock_after m h a e = rw (only m a e) h

disk_works : at_noon.disk ≢ Disk.unsynced
disk_works e = cc e

resume_valid : is_valid_delivery_mode DeliveryMode.resume ≡ true
unfolding is_valid_delivery_mode
resume_valid = refl

known_mode : (DeliveryMode.resume ≡ no_mode) ⊎ (is_valid_delivery_mode DeliveryMode.resume ≡ true)
known_mode = inr resume_valid

nothing_at : (k : String) → lookup k empty_router.index ≡ none
unfolding lookup
nothing_at k = refl

abbrev delivered : Message
delivered = record instruction { status = Status.delivered; updated_at = 20; delivery_attempts = 1 }

delivered_follows : validate_lifecycle instruction delivered ≡ ok tt
unfolding validate_lifecycle validate_status_fields DeliveryMode-discrete MessageType-discrete
    is_valid_delivery_mode check_immutable ℕ_discrete RawMessage-discrete check_mode check_monotone
    check_worker check_resolution check_status Status-discrete validate_transition
delivered_follows = refl

attempt_fits :
    (a : Message)
    → lookup "m-1" (one_router instruction).index ≡ some a
    → (is_terminal a.status ≡ true → Status.delivered ≢ no_status)
      × (Status.delivered ≢ no_status → ResolutionFits Status.delivered a.type a.resolution)
attempt_fits a e = rw (only instruction a e) (ground arith)

answer_fits :
    (a : Message)
    → lookup "m-2" (one_router question).index ≡ some a
    → ((is_absent written_reply ≡ true) ⊎ (is_absent a.resolution ≡ true))
      × ResolutionFits Status.answered a.type
          (if is_absent written_reply then a.resolution else written_reply)
unfolding encode_resolution
answer_fits a e = rw (only question a e) (ground arith)

validate_lifecycle-Evolves_example : Evolves instruction delivered
validate_lifecycle-Evolves_example =
    validate_lifecycle-Evolves instruction delivered delivered_follows

replay-Evolves_example :
    (b : Message) × (lookup "m-1" (("m-1", instruction) ∷ []) ≡ some b) × Evolves instruction b
replay-Evolves_example =
    replay-Evolves (("m-1", instruction) ∷ []) [] instruction [] instruction_router-IsSynced

freeze_resolution-IsSynced_example :
    IsSynced (freeze_resolution at_noon "m-2" written_reply (one_router question)).0
freeze_resolution-IsSynced_example =
    freeze_resolution-IsSynced at_noon "m-2" (one_router question) question_router-IsSynced
      disk_works (clock_after question (omega arith)) written_reply

reclassify_delivery-IsSynced_example :
    IsSynced (reclassify_delivery at_noon "m-1" DeliveryMode.resume (one_router instruction)).0
reclassify_delivery-IsSynced_example =
    reclassify_delivery-IsSynced at_noon "m-1" (one_router instruction) instruction_router-IsSynced
      disk_works (clock_after instruction (omega arith)) DeliveryMode.resume

record_delivery_attempt-IsSynced_example :
    IsSynced
      (record_delivery_attempt at_noon "m-1" Status.delivered none (one_router instruction)).0
record_delivery_attempt-IsSynced_example =
    record_delivery_attempt-IsSynced at_noon "m-1" (one_router instruction)
      instruction_router-IsSynced disk_works (clock_after instruction (omega arith))
      Status.delivered none attempt_fits

transition-IsSynced_example :
    IsSynced
      (transition at_noon "m-2" Status.answered no_mode written_reply none (one_router question)).0
transition-IsSynced_example =
    transition-IsSynced at_noon "m-2" (one_router question) question_router-IsSynced disk_works
      (clock_after question (omega arith)) Status.answered written_reply none (λ e. cc e)
      answer_fits

enqueue_instruction-IsSynced_example :
    IsSynced
      (enqueue_instruction at_noon
        (some "m-1")
        "task-1"
        "worker-1"
        1
        "go on"
        DeliveryMode.resume
        empty_router).0
enqueue_instruction-IsSynced_example =
    enqueue_instruction-IsSynced at_noon "m-1" "task-1" "worker-1" 1 "go on" DeliveryMode.resume
      empty_router empty_router-IsSynced disk_works (nothing_at "m-1") (λ e. cc e) (λ e. cc e)
      known_mode

attempt_on_terminal_diverges_example :
    ((record_delivery_attempt at_noon "m-3" no_status none (one_router failed)).0.index
      ≡ (one_router failed).index)
    × ¬ IsSynced (record_delivery_attempt at_noon "m-3" no_status none (one_router failed)).0
unfolding is_unencodable
attempt_on_terminal_diverges_example =
    attempt_on_terminal_diverges at_noon "m-3" no_status none (one_router failed)
      failed_router-IsSynced failed (found failed) refl refl (omega arith) refl refl refl refl

mode_change_corrupts_example :
    let q =
      transition at_noon "m-1" Status.failed DeliveryMode.resume RawMessage.empty none
        (one_router instruction) in
    (q.1 ≡ ok (failed_with at_noon instruction DeliveryMode.resume none))
    × (replay q.0.store.journal ≡ (("m-1", instruction) ∷ [], some (corrupt "m-1" mode_changed)))
unfolding is_unencodable
mode_change_corrupts_example =
    mode_change_corrupts at_noon "m-1" DeliveryMode.resume none (one_router instruction) instruction
      instruction_router-IsSynced (found instruction) refl refl (λ e. cc e) (λ e. cc e) (λ e. cc e)
      resume_valid refl refl refl refl
