-- ===== src/Message/Router/Entries.antt =====
-- internal/message/router.go, store.go: the entries of an index that a replay builds.
use subagent_broker.Common.{
  String, ◌≡◌, inl, inr, false, Option, none, some, List, [], ◌∷◌, ◌++◌, ok, err, arith,
  Result-cases, Option-cases, ap,
}
use mathlib.Core.Path.{subst}
use subagent_broker.Dict.{Dict, lookup, insert, lookup-insert}
use subagent_broker.Message.Kinds.{Message}
use subagent_broker.Message.Lifecycle.{validate_status_fields}
use subagent_broker.Message.Evolution.{accepted_parts}
use subagent_broker.Message.Store.{ReplayError, lacks_identity, validate_line, replay_from, replay}

-- An entry stands under its own id, is complete, and obeys the status rules.
pub record Entry (k : String) (m : Message) : Type 0 where
  pub keyed : m.message_id ≡ k
  pub complete : lacks_identity m ≡ false
  pub fields : validate_status_fields m ≡ ok tt

pub record Entries (index : Dict Message) : Type 0 where
  pub at : (k : String) (m : Message) → lookup k index ≡ some m → Entry k m

validate_line-Entry :
    (index : Dict Message) (m : Message) → validate_line index m ≡ ok tt → Entry m.message_id m
unfolding validate_line
validate_line-Entry index m h = elim (Option-cases (lookup m.message_id index)) [
  | inl e ↦ ground arith
  | inr (p, e) ↦ ground (arith, accepted_parts p m)
]

insert-Entries :
    (index : Dict Message) (m : Message)
    → Entries index
    → Entry m.message_id m
    → Entries (insert m.message_id m index)
insert-Entries index m es e = record {
  at = λ k n h. ground (arith, lookup-insert m.message_id k m index, es.at k n);
}

pub replay_from-Entries :
    (index : Dict Message) (lines : List Message) {final : Dict Message}
    → Entries index
    → replay_from index lines ≡ (final, none)
    → Entries final
unfolding replay_from
replay_from-Entries index [] es h =
    subst Entries (ap (λ (p : Dict Message × Option ReplayError). p.0) h) es
replay_from-Entries index (m ∷ rest) es h = elim (Result-cases (validate_line index m)) [
  | inr (x, e) ↦ cc (rw (e, replay_from) at h)
  | inl (_, e) ↦
      replay_from-Entries (insert m.message_id m index) rest
        (insert-Entries index m es (validate_line-Entry index m e)) (rw (e, replay_from) at h)
]

pub replay-Entries :
    (lines : List Message) {final : Dict Message} → replay lines ≡ (final, none) → Entries final
unfolding replay lookup
replay-Entries lines h = replay_from-Entries [] lines (record { at = λ k m e. cc }) h

pub replay_from-snoc :
    (index : Dict Message) (lines : List Message) (m : Message) {final : Dict Message}
    → replay_from index lines ≡ (final, none)
    → validate_line final m ≡ ok tt
    → replay_from index (lines ++ m ∷ []) ≡ (insert m.message_id m final, none)
unfolding replay_from
replay_from-snoc index [] m h v =
    let same : index ≡ _ = ap (λ (p : Dict Message × Option ReplayError). p.0) h in
    rw (same) (rw (v, replay_from))
replay_from-snoc index (n ∷ rest) m h v = elim (Result-cases (validate_line index n)) [
  | inr (x, e) ↦ cc (rw (e, replay_from) at h)
  | inl (_, e) ↦
      rw (e, replay_from)
        (replay_from-snoc (insert n.message_id n index) rest m (rw (e, replay_from) at h) v)
]

pub replay_from-snoc_err :
    (index : Dict Message) (lines : List Message) (m : Message) {final : Dict Message}
    {x : ReplayError}
    → replay_from index lines ≡ (final, none)
    → validate_line final m ≡ err x
    → replay_from index (lines ++ m ∷ []) ≡ (final, some x)
unfolding replay_from
replay_from-snoc_err index [] m h v =
    let same : index ≡ _ = ap (λ (p : Dict Message × Option ReplayError). p.0) h in
    rw same (rw (v, replay_from))
replay_from-snoc_err index (n ∷ rest) m h v = elim (Result-cases (validate_line index n)) [
  | inr (x, e) ↦ cc (rw (e, replay_from) at h)
  | inl (_, e) ↦
      rw (e, replay_from)
        (replay_from-snoc_err (insert n.message_id n index) rest m (rw (e, replay_from) at h) v)
]
