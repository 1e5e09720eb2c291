-- ===== src/Message/Router/History.antt =====
-- internal/message/store.go: the records of one message along a journal.
use subagent_broker.Common.{
  String, ◌≡◌, inl, inr, Option, none, some, List, [], ◌∷◌, ◌++◌, ok, arith, Result-cases, ap,
  String-discrete, ◌∙◌,
}
use mathlib.Core.Path.{subst}
use subagent_broker.Dict.{Dict, lookup, insert, lookup-insert}
use subagent_broker.Message.Kinds.{Message}
use subagent_broker.Message.Lifecycle.{validate_lifecycle}
use subagent_broker.Message.Evolution.{
  Evolves, Evolves-refl, Evolves-trans, validate_lifecycle-Evolves,
}
use subagent_broker.Message.Store.{ReplayError, validate_line, replay_from, replay}

accepted_later :
    (index : Dict Message) (p m : Message)
    → lookup m.message_id index ≡ some p
    → validate_line index m ≡ ok tt
    → validate_lifecycle p m ≡ ok tt
unfolding validate_line
accepted_later index p m e v = ground arith

-- The entry of an id after one more line is a later state of the entry before it.
line-Evolves :
    (index : Dict Message) (m : Message) (k : String) (a : Message)
    → lookup k index ≡ some a
    → validate_line index m ≡ ok tt
    → (b : Message) × (lookup k (insert m.message_id m index) ≡ some b) × Evolves a b
line-Evolves index m k a e v = elim (String-discrete m.message_id k) [
  | yes same ↦ (
    m,
    ground (arith, lookup-insert m.message_id k m index),
    validate_lifecycle-Evolves a m (accepted_later index a m (ap (λ j. lookup j index) same ∙ e) v),
  )
  | no other ↦ (a, ground (arith, lookup-insert m.message_id k m index), Evolves-refl a)
]

lines-Evolves :
    (index final : Dict Message) (lines : List Message) (k : String) (a : Message)
    → lookup k index ≡ some a
    → replay_from index lines ≡ (final, none)
    → (b : Message) × (lookup k final ≡ some b) × Evolves a b
unfolding replay_from
lines-Evolves index final [] k a e h = (
  a,
  subst (λ (d : Dict Message). lookup k d ≡ some a)
      (ap (λ (p : Dict Message × Option ReplayError). p.0) h) e,
  Evolves-refl a,
)
lines-Evolves index final (m ∷ rest) k a e h = elim (Result-cases (validate_line index m)) [
  | inr (x, e') ↦ cc (rw (e', replay_from) at h)
  | inl (_, v) ↦
      let (b, at, ab) = line-Evolves index m k a e v in
      let (c, last, bc) =
        lines-Evolves (insert m.message_id m index) final rest k b at (rw (v, replay_from) at h) in
      (c, last, Evolves-trans ab bc)
]

suffix-Evolves :
    (index final : Dict Message) (before : List Message) (m : Message) (after : List Message)
    → replay_from index (before ++ m ∷ after) ≡ (final, none)
    → (b : Message) × (lookup m.message_id final ≡ some b) × Evolves m b
unfolding replay_from
suffix-Evolves index final [] m after h = elim (Result-cases (validate_line index m)) [
  | inr (x, e') ↦ cc (rw (e', replay_from) at h)
  | inl (_, v) ↦
      lines-Evolves (insert m.message_id m index) final after m.message_id m
        (ground (arith, lookup-insert m.message_id m.message_id m index)) (rw (v, replay_from) at h)
]
suffix-Evolves index final (n ∷ before) m after h = elim (Result-cases (validate_line index n)) [
  | inr (x, e') ↦ cc (rw (e', replay_from) at h)
  | inl (_, v) ↦
      suffix-Evolves (insert n.message_id n index) final before m after (rw (v, replay_from) at h)
]

-- In a journal that replays without an error, the state that the replay gives for a message is a
-- later state of every record of it: the same identity and payload, no smaller counters and times,
-- the worker, the attempt and the resolution as soon as they were set, the delivery mode but for
-- the change from `next_turn` to `resume`, and a terminal status for ever.
pub replay-Evolves :
    (final : Dict Message) (before : List Message) (m : Message) (after : List Message)
    → replay (before ++ m ∷ after) ≡ (final, none)
    → (b : Message) × (lookup m.message_id final ≡ some b) × Evolves m b
unfolding replay
replay-Evolves final before m after h = suffix-Evolves [] final before m after h
