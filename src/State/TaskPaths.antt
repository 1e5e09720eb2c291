-- ===== src/State/TaskPaths.antt =====
-- internal/state/state.go: paths of task statuses.
use subagent_broker.Common.{
  ◌≡◌, ◌⊎◌, inl, refl, Bool, true, false, List, contains, All, ok, arith, ◌==◌,
}
use subagent_broker.State.Kinds.{Task, task_eq}
use subagent_broker.State.Transitions.{validate_task_transition, task_transitions}
use subagent_broker.State.Reach.{Reaches, Reaches-absorbed, Reaches-gate}

-- The statuses with an empty row, and the strings with no row at all.
abbrev pub is_final : Task → Bool
is_final Task.verified_success = true
is_final Task.failed = true
is_final Task.cancelled = true
is_final (Task.other s) = true
is_final _ = false

final_step : (u v : Task) → is_final u ≡ true → validate_task_transition u v ≡ ok tt → v ≡ u
unfolding validate_task_transition task_transitions
final_step Task.verified_success v f h = ground arith
final_step _ v f h = ground arith

abbrev is_success : Task → Bool
is_success Task.verified_success = true
is_success _ = false

success_entry :
    (u v : Task)
    → validate_task_transition u v ≡ ok tt
    → is_success v ≡ true
    → (is_success u ≡ true) ⊎ ((u == Task.verifying) ≡ true)
unfolding validate_task_transition task_transitions
success_entry Task.verified_success v h s = inl refl
success_entry _ v h s = ground arith

-- The statuses after a report: they are entered from one another or from `reported_complete`.
abbrev is_verifying : Task → Bool
is_verifying Task.verifying = true
is_verifying Task.verified_success = true
is_verifying _ = false

verifying_entry :
    (u v : Task)
    → validate_task_transition u v ≡ ok tt
    → is_verifying v ≡ true
    → (is_verifying u ≡ true) ⊎ ((u == Task.reported_complete) ≡ true)
unfolding validate_task_transition task_transitions
verifying_entry Task.verifying v h s = inl refl
verifying_entry _ v h s = ground arith

module _ {path : List Task} where
  -- A task that goes from `planned` to `verified_success` by accepted transitions has been
  -- `reported_complete` and `verifying` on the way.
  pub success_is_verified :
      Reaches validate_task_transition Task.planned path Task.verified_success
      → (contains path Task.reported_complete ≡ true) × (contains path Task.verifying ≡ true)
  success_is_verified r = ground (
    arith,
    Reaches-gate validate_task_transition Task.verifying is_success success_entry refl r refl,
    Reaches-gate validate_task_transition Task.reported_complete is_verifying verifying_entry refl r
        refl,
  )

  -- A task that is verified successfully, failed or cancelled, or whose status is no known string,
  -- stays as it is on every accepted path.
  pub final_stays :
      (s : Task) {t : Task}
      → is_final s ≡ true
      → Reaches validate_task_transition s path t
      → (t ≡ s) × All (λ u. u ≡ s) path
  final_stays s f r = Reaches-absorbed validate_task_transition s (λ v h. final_step s v f h) refl r
