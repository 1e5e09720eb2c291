-- ===== src/Message/Router/Base.antt =====
-- internal/message/router.go: the router, how it writes a record, and the two enqueue operations.
-- Each operation runs under the lock of its message
-- (an enqueue makes a new one), so nothing changes that message between the read and the install.
use subagent_broker.Common.{
  ℕ, String, Bool, false, Option, none, some, ◌==◌, string_eq, is_blank, if◌then◌else◌, Result, ok,
  err, ◌&&◌, not,
}
use subagent_broker.Dict.{Dict, lookup, insert}
use subagent_broker.Message.Json.{Json, Fields, RawMessage, raw_eq}
use subagent_broker.Message.Kinds.{
  MessageType, Status, DeliveryMode, Message, TransitionError, message_type_eq, status_eq,
  delivery_mode_eq, no_type, no_mode, schema_version, is_terminal,
}
use subagent_broker.Message.Store.{Store, StoreError, Disk, append}
use subagent_broker.Message.Resolution.Types.{ResolutionError}

-- The clock and the store are fields of the router; what they answer to one call is an argument.
pub record Env : Type 0 where
  pub now : ℕ
  pub disk : Disk

pub record Router : Type 0 where
  pub run_id : String
  pub store : Store
  pub index : Dict Message

pub data RouterError : Type 0 where
  run_id_required task_id_required text_required type_required id_failure : RouterError
  store_failed : StoreError → RouterError
  not_found : String → RouterError
  resolution_required already_frozen : RouterError
  bad_resolution : ResolutionError → RouterError
  terminal_without_resolution terminal_different freeze_requires_queued : Status → RouterError
  not_instruction : RouterError
  not_queued : Status → RouterError
  cannot_reclassify : DeliveryMode → DeliveryMode → RouterError
  bad_transition : TransitionError → RouterError
  same_status_resolution : Status → RouterError
  became_terminal : Status → RouterError
  answered_without_resolution : RouterError

abbrev pub Reply : Type 0 → Type 0
Reply A = Router × Result RouterError A

-- `NewRouter`, for a store that is given.
unfoldable pub new_router : String → Store → Dict Message → Result RouterError Router
new_router run_id store initial =
    if is_blank run_id
    then err run_id_required
    else ok (record { run_id = run_id; store = store; index = initial })

-- The journal first, then the index unless the message has become terminal meanwhile.
install : (Option Message → Bool) → Message → Store × Option StoreError → Router → Reply Message
install stale m (store, some e) r = (record r { store = store }, err (store_failed e))
install stale m (store, none) r =
    if stale (lookup m.message_id r.index)
    then (record r { store = store }, err (became_terminal m.status))
    else (record r { store = store; index = insert m.message_id m r.index }, ok m)

unfoldable pub persist : (Option Message → Bool) → Env → Message → Router → Reply Message
unfolding install
persist stale env m r = install stale m (append env.disk r.store m) r

abbrev pub never : Option Message → Bool
never o = false

-- `ok && IsTerminal(latest.Status)`, and the same but for an equal status.
unfoldable pub latest_terminal : Option Message → Bool
latest_terminal none = false
latest_terminal (some m) = is_terminal m.status

unfoldable pub latest_terminal_other : Status → Option Message → Bool
latest_terminal_other next none = false
latest_terminal_other next (some m) = is_terminal m.status && not (m.status == next)

pub instruction_payload : String → RawMessage
instruction_payload text =
    RawMessage.document (Json.object (Fields.field "text" (Json.text text) Fields.end))

-- The record that an enqueue writes.
abbrev pub queued_message :
    String
    → String
    → ℕ
    → String
    → String
    → ℕ
    → MessageType
    → String
    → DeliveryMode
    → RawMessage
    → Message
queued_message run_id id now task_id worker_id attempt type category mode payload = record {
  schema = schema_version;
  message_id = id;
  run_id = run_id;
  task_id = task_id;
  worker_id = worker_id;
  attempt_number = attempt;
  type = type;
  category = category;
  status = Status.queued;
  created_at = now;
  updated_at = now;
  in_reply_to = "";
  delivery_mode = mode;
  delivery_attempts = 0;
  error = "";
  payload = payload;
  resolution = RawMessage.empty;
}

enqueue : Env → Option String → (String → Message) → Router → Reply Message
enqueue env none make r = (r, err id_failure)
enqueue env (some id) make r = persist never env (make id) r

-- `EnqueueInstructionWithAttempt`; `new_id` is what `newID` returned.
unfoldable pub enqueue_instruction :
    Env → Option String → String → String → ℕ → String → DeliveryMode → Router → Reply Message
unfolding enqueue instruction_payload
enqueue_instruction env new_id task_id worker_id attempt text mode r =
    if is_blank task_id
    then (r, err task_id_required)
    else if is_blank text
    then (r, err text_required)
    else enqueue env new_id
        (λ id.
          queued_message r.run_id id env.now task_id worker_id attempt MessageType.instruction ""
            mode (instruction_payload text))
        r

-- `EnqueueDecisionWithAttempt`.
unfoldable pub enqueue_decision :
    Env
    → Option String
    → String
    → String
    → ℕ
    → MessageType
    → String
    → RawMessage
    → Router
    → Reply Message
unfolding enqueue
enqueue_decision env new_id task_id worker_id attempt type category payload r =
    if is_blank task_id
    then (r, err task_id_required)
    else if type == no_type
    then (r, err type_required)
    else enqueue env new_id
        (λ id.
          queued_message r.run_id id env.now task_id worker_id attempt type category no_mode
            payload)
        r
