-- ===== src/State/Examples.antt =====
-- Tests and instances for internal/state.
use subagent_broker.Common.{◌≡◌, ◌≤◌, refl, true, List, [], ◌∷◌, length, contains, err}
use subagent_broker.State.Kinds.{
  Process, Protocol, Progress, Task, Dimensions, task_eq, Task-discrete, Protocol-discrete,
}
use subagent_broker.State.Transitions.{
  validate_task_transition, task_transitions, validate_protocol_transition, task_transition,
  known_protocol,
}
use subagent_broker.State.Reach.{Reaches, here, next}
use subagent_broker.State.TaskPaths.{success_is_verified}
use subagent_broker.State.ProtocolPaths.{closing_path}

abbrev success_path : List Task
success_path = Task.running ∷ Task.reported_complete ∷ Task.verifying ∷ Task.verified_success ∷ []

success_run : Reaches validate_task_transition Task.planned success_path Task.verified_success
unfolding validate_task_transition task_transitions Task-discrete
success_run = next refl (next refl (next refl (next refl here)))

skip_refused :
    validate_task_transition Task.running Task.verified_success
    ≡ err (task_transition Task.running Task.verified_success)
unfolding validate_task_transition task_transitions Task-discrete
skip_refused = refl

success_is_verified_example :
    (contains success_path Task.reported_complete ≡ true)
    × (contains success_path Task.verifying ≡ true)
success_is_verified_example = success_is_verified success_run

failed_run : Reaches validate_task_transition Task.failed (Task.failed ∷ []) Task.failed
unfolding validate_task_transition Task-discrete
failed_run = next refl here

closing_path_example :
    (path : List Protocol) × Reaches validate_protocol_transition Protocol.waiting_user path
      Protocol.closed
    × (length path ≤ 2)
unfolding known_protocol
closing_path_example = closing_path Protocol.waiting_user refl

closed_run :
    Reaches validate_protocol_transition Protocol.closed (Protocol.closed ∷ []) Protocol.closed
unfolding validate_protocol_transition Protocol-discrete
closed_run = next refl here

abbrev stalled_dimensions : Dimensions
stalled_dimensions = record {
  process = Process.alive;
  protocol = Protocol.waiting_user;
  progress = Progress.stalled;
  task = Task.running;
}
