-- ===== src/State/ProtocolPaths.antt =====
-- internal/state/state.go: paths of protocol states, and the check of all four dimensions.
use subagent_broker.Common.{
  ◌≡◌, ◌⊎◌, ◌↔◌, inl, inr, refl, sym, true, false, List, [], ◌∷◌, length, ◌≤◌, All, ok, arith,
}
use mathlib.Core.Path.{subst}
use subagent_broker.State.Kinds.{Protocol, Dimensions, protocol_eq}
use subagent_broker.State.Transitions.{
  validate_protocol_transition, protocol_transitions, validate_dimensions, known_protocol, is_stall,
  may_escalate_to_stall, known_process, known_progress, known_task,
}
use subagent_broker.State.Reach.{Reaches, here, next, Reaches-absorbed}

closed_step :
    (v : Protocol) → validate_protocol_transition Protocol.closed v ≡ ok tt → v ≡ Protocol.closed
unfolding validate_protocol_transition protocol_transitions
closed_step v h = ground arith

step_to_closing :
    (p : Protocol)
    → known_protocol p ≡ true
    → (p ≡ Protocol.closed) ⊎ (validate_protocol_transition p Protocol.closing ≡ ok tt)
unfolding validate_protocol_transition protocol_transitions known_protocol
step_to_closing Protocol.closed k = inl refl
step_to_closing _ k = ground arith

closing_to_closed : validate_protocol_transition Protocol.closing Protocol.closed ≡ ok tt
unfolding validate_protocol_transition protocol_transitions
closing_to_closed = ground arith

-- Every known protocol state is closed already, or can be closed by at most two accepted steps.
pub closing_path :
    (p : Protocol)
    → known_protocol p ≡ true
    → (path : List Protocol) × Reaches validate_protocol_transition p path Protocol.closed
      × (length path ≤ 2)
closing_path p k = elim (step_to_closing p k) [
  | inl at ↦ (
    [],
    subst (λ q. Reaches validate_protocol_transition q [] Protocol.closed) (sym at) here,
    omega arith,
  )
  | inr to_closing ↦ (
    Protocol.closing ∷ Protocol.closed ∷ [],
    next to_closing (next closing_to_closed here),
    omega arith,
  )
]

-- Nothing follows `closed`: every accepted path from it stays at it.
pub closed_stays :
    {t : Protocol} {path : List Protocol}
    → Reaches validate_protocol_transition Protocol.closed path t
    → (t ≡ Protocol.closed) × All (λ u. u ≡ Protocol.closed) path
closed_stays r = Reaches-absorbed validate_protocol_transition Protocol.closed closed_step refl r

-- `ValidateDimensions` accepts exactly the known states in which a stalled or suspected worker is
-- closed or in a state that may escalate to a stall.
pub validate_dimensions_iff :
    (d : Dimensions)
    → (validate_dimensions d ≡ ok tt) ↔ (
        (known_process d.process ≡ true)
        × (known_protocol d.protocol ≡ true)
        × (known_progress d.progress ≡ true)
        × (known_task d.task ≡ true)
        × ((is_stall d.progress ≡ false)
            ⊎ (d.protocol ≡ Protocol.closed)
            ⊎ (may_escalate_to_stall d.protocol ≡ true)))
unfolding validate_dimensions may_escalate_to_stall
validate_dimensions_iff d = ground arith
