-- ===== src/Message/Router/Ops.antt =====
-- internal/message/router.go: the operations that change a message. A failed call's message is left
-- out of its reply.
use subagent_broker.Common.{
  ◌+◌, String, Option, none, some, ◌==◌, if◌then◌else◌, Result, ok, err, ◌>>=◌, ◌>>◌, ◌&&◌, not,
}
use subagent_broker.Dict.{lookup}
use subagent_broker.Message.Json.{RawMessage, raw_eq, is_absent}
use subagent_broker.Message.Kinds.{
  MessageType, Status, DeliveryMode, Message, TransitionError, message_type_eq, status_eq,
  delivery_mode_eq, no_status, no_mode, is_terminal, validate_transition,
}
use subagent_broker.Message.Resolution.Types.{ResolutionError}
use subagent_broker.Message.Resolution.Decode.{normalize_json}
use subagent_broker.Message.Router.Base.{
  Env, Router, RouterError, Reply, not_found, resolution_required, already_frozen, bad_resolution,
  terminal_without_resolution, terminal_different, freeze_requires_queued, not_instruction,
  not_queued, cannot_reclassify, bad_transition, same_status_resolution, persist, latest_terminal,
  latest_terminal_other,
}

-- `ResolutionFreezeResult`; a conflict is an error.
pub data FreezeResult : Type 0 where
  frozen already_identical : FreezeResult

abbrev as_router {ℓ} : {A : Type ℓ} → Result ResolutionError A → Result RouterError A
as_router (ok a) = ok a
as_router (err e) = err (bad_resolution e)

-- Whether the stored resolution and the submitted one have one normal form.
compare_resolutions :
    Message → RawMessage → RouterError → Result RouterError (Message × FreezeResult)
compare_resolutions current resolution conflict = do
  normalized ← as_router (normalize_json current.type resolution)
  existing ← as_router (normalize_json current.type current.resolution)
  if existing == normalized then ok (current, already_identical) else err conflict

as_frozen : Result RouterError Message → Result RouterError (Message × FreezeResult)
as_frozen (ok m) = ok (m, frozen)
as_frozen (err e) = err e

with_result : Reply Message → Reply (Message × FreezeResult)
unfolding as_frozen
with_result reply = (reply.0, as_frozen reply.1)

freeze_fresh :
    Env → Message → Result ResolutionError RawMessage → Router → Reply (Message × FreezeResult)
unfolding latest_terminal with_result
freeze_fresh env current (err e) r = (r, err (bad_resolution e))
freeze_fresh env current (ok normalized) r = with_result (
    persist latest_terminal env (record current { resolution = normalized; updated_at = env.now })
      r)

freeze_found : Env → Option Message → String → RawMessage → Router → Reply (Message × FreezeResult)
unfolding compare_resolutions freeze_fresh
freeze_found env none id resolution r = (r, err (not_found id))
freeze_found env (some current) id resolution r =
    if is_terminal current.status
    then (
      r,
      (if is_absent current.resolution
          then err (terminal_without_resolution current.status)
          else compare_resolutions current resolution (terminal_different current.status)),
    )
    else if not (current.status == Status.queued)
    then (r, err (freeze_requires_queued current.status))
    else if not (is_absent current.resolution)
    then (r, compare_resolutions current resolution already_frozen)
    else freeze_fresh env current (normalize_json current.type resolution) r

-- `FreezeResolution`.
unfoldable pub freeze_resolution :
    Env → String → RawMessage → Router → Reply (Message × FreezeResult)
unfolding freeze_found
freeze_resolution env id resolution r =
    if is_absent resolution
    then (r, err resolution_required)
    else freeze_found env (lookup id r.index) id resolution r

reclassify_found : Env → Option Message → String → DeliveryMode → Router → Reply Message
unfolding latest_terminal
reclassify_found env none id mode r = (r, err (not_found id))
reclassify_found env (some current) id mode r =
    if not (current.type == MessageType.instruction)
    then (r, err not_instruction)
    else if not (current.status == Status.queued)
    then (r, err (not_queued current.status))
    else if current.delivery_mode == mode
    then (r, ok current)
    else if not (current.delivery_mode == DeliveryMode.next_turn && mode == DeliveryMode.resume)
    then (r, err (cannot_reclassify current.delivery_mode mode))
    else persist latest_terminal env (record current { delivery_mode = mode; updated_at = env.now })
        r

-- `ReclassifyDelivery`.
unfoldable pub reclassify_delivery : Env → String → DeliveryMode → Router → Reply Message
unfolding reclassify_found
reclassify_delivery env id mode r = reclassify_found env (lookup id r.index) id mode r

abbrev pub cause_text : Option String → String
cause_text none = ""
cause_text (some e) = e

-- The status after a delivery attempt, `next` being optional.
attempt_status : Status → Status → Result TransitionError Status
attempt_status current next =
    if next == no_status
    then ok current
    else if next == current
    then ok current
    else (do validate_transition current next; ok next)

attempt_checked :
    Env → Message → Status → Result TransitionError Status → Option String → Router → Reply Message
unfolding latest_terminal_other
attempt_checked env current next (err e) cause r = (r, err (bad_transition e))
attempt_checked env current next (ok status) cause r =
    persist (latest_terminal_other next) env
      (record current {
        delivery_attempts = current.delivery_attempts + 1;
        updated_at = env.now;
        status = status;
        error = cause_text cause;
      })
      r

attempt_found : Env → Option Message → String → Status → Option String → Router → Reply Message
unfolding attempt_checked attempt_status
attempt_found env none id next cause r = (r, err (not_found id))
attempt_found env (some current) id next cause r =
    attempt_checked env current next (attempt_status current.status next) cause r

-- `RecordDeliveryAttempt`.
unfoldable pub record_delivery_attempt :
    Env → String → Status → Option String → Router → Reply Message
unfolding attempt_found
record_delivery_attempt env id next cause r = attempt_found env (lookup id r.index) id next cause r

abbrev pub or_keep : Option String → String → String
or_keep none e = e
or_keep (some e) old = e

-- The candidate of a status change. No caller passes a resolution that is not nil and has no bytes.
transitioned : Env → Message → Status → DeliveryMode → RawMessage → Option String → Message
transitioned env current next mode resolution cause = record current {
  status = next;
  updated_at = env.now;
  delivery_mode = if mode == no_mode then current.delivery_mode else mode;
  resolution = if is_absent resolution then current.resolution else resolution;
  error = or_keep cause current.error;
}

transition_checked :
    Env
    → Message
    → Status
    → DeliveryMode
    → RawMessage
    → Option String
    → Result TransitionError (Unit {0})
    → Router
    → Reply Message
unfolding latest_terminal_other transitioned
transition_checked env current next mode resolution cause (err e) r = (r, err (bad_transition e))
transition_checked env current next mode resolution cause (ok _) r =
    if current.status == next
    then (
      r,
      (if not (is_absent resolution) && not (current.resolution == resolution)
          then err (same_status_resolution current.status)
          else ok current),
    )
    else persist (latest_terminal_other next) env
        (transitioned env current next mode resolution cause) r

transition_found :
    Env
    → Option Message
    → String
    → Status
    → DeliveryMode
    → RawMessage
    → Option String
    → Router
    → Reply Message
unfolding transition_checked
transition_found env none id next mode resolution cause r = (r, err (not_found id))
transition_found env (some current) id next mode resolution cause r =
    transition_checked env current next mode resolution cause
      (validate_transition current.status next) r

-- `Transition`.
unfoldable pub transition :
    Env → String → Status → DeliveryMode → RawMessage → Option String → Router → Reply Message
unfolding transition_found
transition env id next mode resolution cause r =
    transition_found env (lookup id r.index) id next mode resolution cause r
