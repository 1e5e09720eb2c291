-- ===== src/Message/Router/Divergence.antt =====
-- internal/message/router.go: writes after which the index and the journal part.
use subagent_broker.Common.{
  ◌+◌, ◌≤◌, ◌++◌, ◌∷◌, String, ◌≡◌, refl, true, Option, none, some, [], ok, inr, arith, ap, ◌∙◌,
  sym, false, ◌≢◌, err, Bool, if◌then◌else◌,
}
use subagent_broker.Dict.{Dict, lookup, insert, lookup-insert}
use subagent_broker.Message.Kinds.{
  Message, MessageType, Status, DeliveryMode, is_terminal, no_status, no_mode,
  is_valid_delivery_mode, validate_transition,
}
use subagent_broker.Message.Json.{RawMessage}
use subagent_broker.Message.Lifecycle.{
  validate_lifecycle, validate_status_fields, check_immutable, check_mode, mode_changed,
  LifecycleError,
}
use subagent_broker.Message.Store.{
  is_unencodable, Disk, ReplayError, corrupt, validate_line, lacks_identity, append, replay,
}
use subagent_broker.Message.Router.Base.{
  Env, Router, persist, became_terminal, latest_terminal_other,
}
use subagent_broker.Message.Router.Ops.{record_delivery_attempt, transition, cause_text, or_keep}
use subagent_broker.Message.Router.Accepted.{moved, move_accepted}
use subagent_broker.Message.Router.Entries.{replay_from-snoc, replay_from-snoc_err}
use subagent_broker.Message.Router.Synced.{IsSynced, Entry-of, later_line}
use subagent_broker.Message.Router.Durable.{
  kept_identity, fits_of_fields, named_of_complete, validate_transition_refl,
}

-- Where the store accepts writes, a write lands in the journal whatever becomes of the index.
persist_writes :
    (stale : Option Message → Bool) (env : Env) (m : Message) (r : Router)
    → env.disk ≡ Disk.written
    → r.store.append_disabled ≡ false
    → r.store.marker ≡ false
    → lacks_identity m ≡ false
    → is_unencodable m ≡ false
    → ((persist stale env m r).0.store.journal ≡ r.store.journal ++ m ∷ [])
      × ((persist stale env m r).0.index ≡ (
          if stale (lookup m.message_id r.index) then r.index else insert m.message_id m r.index))
      × ((persist stale env m r).1
          ≡ (if stale (lookup m.message_id r.index) then err (became_terminal m.status) else ok m))
unfolding persist append
persist_writes stale env m r w on un c j = ground arith

attempt_persists :
    (env : Env) (id : String) (next : Status) (cause : Option String) (r : Router) (a : Message)
    → lookup id r.index ≡ some a
    → next ≡ no_status
    → record_delivery_attempt env id next cause r
      ≡ persist
          (latest_terminal_other next)
          env
          (moved a env.now a.status a.resolution (a.delivery_attempts + 1) (cause_text cause))
          r
unfolding record_delivery_attempt
attempt_persists env id next cause r a e n = ground arith

index_differs :
    (a b : Message) (id : String) (r : Router)
    → a.message_id ≡ id
    → lookup id r.index ≡ some a
    → b.message_id ≡ a.message_id
    → b.delivery_attempts ≡ a.delivery_attempts + 1
    → ◌≡◌ {A = Dict Message × Option ReplayError}
        (insert b.message_id b r.index, none)
        (r.index, none)
    → ⊥
index_differs a b id r keyed found same more e = ground (
  arith,
  lookup-insert b.message_id id b r.index,
  ap (λ (p : Dict Message × Option ReplayError). lookup id p.0) e,
)

module _ (env : Env) (id : String) (next : Status) (cause : Option String) (r : Router)
    (s : IsSynced r) (a : Message) (found : lookup id r.index ≡ some a) where
  -- A delivery attempt that names no next status, on a terminal message of a router whose store
  -- accepts writes, appends a record and then leaves the index as it was; a replay of the journal
  -- rebuilds another index. The payload and the resolution of the message are JSON.
  pub attempt_on_terminal_diverges :
      next ≡ no_status
      → is_terminal a.status ≡ true
      → a.updated_at ≤ env.now
      → env.disk ≡ Disk.written
      → r.store.append_disabled ≡ false
      → r.store.marker ≡ false
      → is_unencodable a ≡ false
      → ((record_delivery_attempt env id next cause r).0.index ≡ r.index)
        × ¬ IsSynced (record_delivery_attempt env id next cause r).0
  unfolding latest_terminal_other replay is_unencodable
  attempt_on_terminal_diverges n t clock w on un j =
      let entry = Entry-of r s id a found in
      let b : Message =
        moved a env.now a.status a.resolution (a.delivery_attempts + 1) (cause_text cause) in
      let at : lookup a.message_id r.index ≡ some a =
        ap (λ k. lookup k r.index) entry.keyed ∙ found in
      let named = named_of_complete a entry.complete in
      let complete = kept_identity a b entry.complete (refl, refl, refl) named in
      let line = later_line r.index a b at complete (
        move_accepted a env.now a.status a.resolution (a.delivery_attempts + 1) (cause_text cause)
          entry.fields clock (validate_transition_refl a.status) (inr refl) (omega arith)
          (fits_of_fields a entry.fields)) in
      let rebuilt : replay (r.store.journal ++ b ∷ []) ≡ (insert b.message_id b r.index, none) =
        replay_from-snoc [] r.store.journal b {final = r.index} s line in
      let (wrote, kept, _) =
        persist_writes (latest_terminal_other next) env b r w on un complete j in
      let same : (record_delivery_attempt env id next cause r).0.index ≡ r.index =
        rw (attempt_persists env id next cause r a found n) (kept ∙ ground arith) in
      let journal : (record_delivery_attempt env id next cause r).0.store.journal
          ≡ r.store.journal ++ b ∷ [] =
        rw (attempt_persists env id next cause r a found n) wrote in
      (
        same,
        λ synced. index_differs a b id r entry.keyed found refl refl (
            sym rebuilt
            ∙ ap replay (sym journal)
            ∙ synced
            ∙ ap (λ (d : Dict Message). (d, none)) same),
      )

-- The candidate of `Transition(id, Failed, mode, nil, cause)`.
abbrev pub failed_with : Env → Message → DeliveryMode → Option String → Message
failed_with env a mode cause = record a {
  status = Status.failed;
  updated_at = env.now;
  delivery_mode = mode;
  error = or_keep cause a.error;
}

mode_change_rejected :
    (env : Env) (a : Message) (mode : DeliveryMode) (cause : Option String)
    → a.type ≡ MessageType.instruction
    → a.delivery_mode ≢ no_mode
    → mode ≢ no_mode
    → mode ≢ a.delivery_mode
    → is_valid_delivery_mode mode ≡ true
    → validate_lifecycle a (failed_with env a mode cause) ≡ err mode_changed
unfolding validate_lifecycle validate_status_fields check_immutable check_mode
mode_change_rejected env a mode cause i n n' other valid = ground arith

later_line_err :
    (index : Dict Message) (p m : Message) (x : LifecycleError)
    → lookup m.message_id index ≡ some p
    → lacks_identity m ≡ false
    → validate_lifecycle p m ≡ err x
    → validate_line index m ≡ err (corrupt m.message_id x)
unfolding validate_line
later_line_err index p m x e c h = ground arith

transition_persists :
    (env : Env) (id : String) (mode : DeliveryMode) (cause : Option String) (r : Router)
    (a : Message)
    → lookup id r.index ≡ some a
    → a.status ≡ Status.queued
    → mode ≢ no_mode
    → transition env id Status.failed mode RawMessage.empty cause r
      ≡ persist (latest_terminal_other Status.failed) env (failed_with env a mode cause) r
unfolding transition validate_transition
transition_persists env id mode cause r a e q n = ground arith

-- `Transition(id, Failed, mode, nil, cause)` on a queued instruction that has a delivery mode, with
-- another known mode, is accepted where the store accepts writes, and leaves a journal that a replay
-- refuses as corrupt because the mode changed. `failQueuedResumeInstructions` makes this call with
-- `unsupported` on instructions whose mode is `resume`. The payload and the resolution of the
-- instruction are JSON.
pub mode_change_corrupts :
    (env : Env) (id : String) (mode : DeliveryMode) (cause : Option String) (r : Router)
    (a : Message)
    → IsSynced r
    → lookup id r.index ≡ some a
    → a.type ≡ MessageType.instruction
    → a.status ≡ Status.queued
    → a.delivery_mode ≢ no_mode
    → mode ≢ no_mode
    → mode ≢ a.delivery_mode
    → is_valid_delivery_mode mode ≡ true
    → env.disk ≡ Disk.written
    → r.store.append_disabled ≡ false
    → r.store.marker ≡ false
    → is_unencodable a ≡ false
    → let q = transition env id Status.failed mode RawMessage.empty cause r in
      (q.1 ≡ ok (failed_with env a mode cause))
      × (replay q.0.store.journal ≡ (r.index, some (corrupt id mode_changed)))
unfolding replay latest_terminal_other is_unencodable
mode_change_corrupts env id mode cause r a s found i queued n n' other valid w on un j =
    let entry = Entry-of r s id a found in
    let b : Message = failed_with env a mode cause in
    let at : lookup a.message_id r.index ≡ some a =
      ap (λ k. lookup k r.index) entry.keyed ∙ found in
    let complete = kept_identity a b entry.complete (refl, refl, refl) (λ e. cc e) in
    let line =
      later_line_err r.index a b mode_changed at complete
        (mode_change_rejected env a mode cause i n n' other valid) in
    let refused : replay (r.store.journal ++ b ∷ [])
        ≡ (r.index, some (corrupt a.message_id mode_changed)) =
      replay_from-snoc_err [] r.store.journal b {final = r.index} s line in
    let (wrote, _, answer) =
      persist_writes (latest_terminal_other Status.failed) env b r w on un complete j in
    let live : latest_terminal_other Status.failed (lookup a.message_id r.index) ≡ false =
      rw at (ground arith) in
    rw (transition_persists env id mode cause r a found queued n')
      (answer ∙ rw live, rw (wrote, refused, entry.keyed))
