-- ===== src/State/Transitions.antt =====
-- internal/state/state.go: the transition tables and their validators. A table is a Go map of maps:
-- a missing row or entry reads as false.
use subagent_broker.Common.{
  Bool, true, false, ◌&&◌, ◌||◌, not, ◌==◌, if◌then◌else◌, Result, ok, err, ◌>>◌, fail_if,
}
use subagent_broker.State.Kinds.{
  Process, Protocol, Progress, Task, Dimensions, process_eq, protocol_eq, progress_eq, task_eq,
}

unfoldable pub process_transitions : Process → Process → Bool
process_transitions Process.queued Process.starting = true
process_transitions Process.queued Process.unknown = true
process_transitions Process.starting Process.alive = true
process_transitions Process.starting Process.exited = true
process_transitions Process.starting Process.unknown = true
process_transitions Process.alive Process.exited = true
process_transitions Process.alive Process.orphaned = true
process_transitions Process.alive Process.unknown = true
process_transitions Process.exited Process.unknown = true
process_transitions Process.orphaned Process.exited = true
process_transitions Process.orphaned Process.unknown = true
process_transitions Process.unknown Process.queued = true
process_transitions Process.unknown Process.starting = true
process_transitions Process.unknown Process.alive = true
process_transitions Process.unknown Process.exited = true
process_transitions Process.unknown Process.orphaned = true
process_transitions _ _ = false

-- The rows of the five working states, of idle, and of the three waiting states, one set each.
is_work : Protocol → Bool
is_work Protocol.thinking = true
is_work Protocol.tool_running = true
is_work Protocol.streaming = true
is_work _ = false

unfoldable pub is_waiting : Protocol → Bool
is_waiting Protocol.waiting_permission = true
is_waiting Protocol.waiting_user = true
is_waiting Protocol.waiting_scope = true
is_waiting _ = false

is_idle : Protocol → Bool
is_idle Protocol.idle_between_turns = true
is_idle _ = false

is_end : Protocol → Bool
is_end Protocol.closing = true
is_end Protocol.protocol_error = true
is_end _ = false

unfoldable pub protocol_transitions : Protocol → Protocol → Bool
unfolding is_work is_waiting is_idle is_end
protocol_transitions Protocol.initializing to =
    is_work to || is_waiting to || is_idle to || is_end to
protocol_transitions Protocol.thinking Protocol.thinking = false
protocol_transitions Protocol.thinking to =
    is_work to || to == Protocol.retrying || is_waiting to || is_idle to || is_end to
protocol_transitions Protocol.tool_running Protocol.tool_running = false
protocol_transitions Protocol.tool_running to =
    is_work to || to == Protocol.retrying || is_waiting to || is_idle to || is_end to
protocol_transitions Protocol.streaming Protocol.streaming = false
protocol_transitions Protocol.streaming to =
    is_work to || to == Protocol.retrying || is_waiting to || is_idle to || is_end to
protocol_transitions Protocol.retrying to = is_work to || is_waiting to || is_idle to || is_end to
protocol_transitions Protocol.waiting_permission to = is_work to || is_idle to || is_end to
protocol_transitions Protocol.waiting_user to = is_work to || is_idle to || is_end to
protocol_transitions Protocol.waiting_scope to = is_work to || is_idle to || is_end to
protocol_transitions Protocol.idle_between_turns to = is_work to || is_waiting to || is_end to
protocol_transitions Protocol.closing Protocol.closed = true
protocol_transitions Protocol.closing Protocol.protocol_error = true
protocol_transitions Protocol.protocol_error Protocol.closing = true
protocol_transitions Protocol.protocol_error Protocol.closed = true
protocol_transitions _ _ = false

unfoldable pub progress_transitions : Progress → Progress → Bool
progress_transitions Progress.active Progress.quiet = true
progress_transitions Progress.active Progress.unknown = true
progress_transitions Progress.quiet Progress.active = true
progress_transitions Progress.quiet Progress.suspected_stall = true
progress_transitions Progress.quiet Progress.unknown = true
progress_transitions Progress.suspected_stall Progress.active = true
progress_transitions Progress.suspected_stall Progress.quiet = true
progress_transitions Progress.suspected_stall Progress.stalled = true
progress_transitions Progress.suspected_stall Progress.unknown = true
progress_transitions Progress.stalled Progress.active = true
progress_transitions Progress.stalled Progress.unknown = true
progress_transitions Progress.unknown Progress.active = true
progress_transitions Progress.unknown Progress.quiet = true
progress_transitions Progress.unknown Progress.suspected_stall = true
progress_transitions Progress.unknown Progress.stalled = true
progress_transitions _ _ = false

unfoldable pub task_transitions : Task → Task → Bool
task_transitions Task.planned Task.running = true
task_transitions Task.planned Task.blocked = true
task_transitions Task.planned Task.failed = true
task_transitions Task.planned Task.cancelled = true
task_transitions Task.running Task.blocked = true
task_transitions Task.running Task.reported_complete = true
task_transitions Task.running Task.failed = true
task_transitions Task.running Task.cancelled = true
task_transitions Task.blocked Task.running = true
task_transitions Task.blocked Task.reported_complete = true
task_transitions Task.blocked Task.failed = true
task_transitions Task.blocked Task.cancelled = true
task_transitions Task.reported_complete Task.verifying = true
task_transitions Task.reported_complete Task.failed = true
task_transitions Task.reported_complete Task.cancelled = true
task_transitions Task.verifying Task.verified_success = true
task_transitions Task.verifying Task.verified_partial = true
task_transitions Task.verifying Task.verification_failed = true
task_transitions Task.verifying Task.cancelled = true
task_transitions Task.verification_failed Task.running = true
task_transitions Task.verification_failed Task.failed = true
task_transitions Task.verification_failed Task.cancelled = true
task_transitions Task.verified_partial Task.running = true
task_transitions _ _ = false

-- `TransitionError` carries the two states; `ValidateDimensions` has its own messages.
pub data StateError : Type 0 where
  process_transition : Process → Process → StateError
  protocol_transition : Protocol → Protocol → StateError
  progress_transition : Progress → Progress → StateError
  task_transition : Task → Task → StateError
  unknown_process : Process → StateError
  unknown_protocol : Protocol → StateError
  unknown_progress : Progress → StateError
  unknown_task : Task → StateError
  waiting_stalled : Protocol → Progress → StateError

abbrev pub Checked : Type 0
Checked = Result StateError (Unit {0})

unfoldable pub validate_process_transition : Process → Process → Checked
validate_process_transition from to =
    if from == to
    then ok tt
    else if process_transitions from to
    then ok tt
    else err (process_transition from to)

unfoldable pub validate_protocol_transition : Protocol → Protocol → Checked
validate_protocol_transition from to =
    if from == to
    then ok tt
    else if protocol_transitions from to
    then ok tt
    else err (protocol_transition from to)

unfoldable pub validate_progress_transition : Progress → Progress → Checked
validate_progress_transition from to =
    if from == to
    then ok tt
    else if progress_transitions from to
    then ok tt
    else err (progress_transition from to)

unfoldable pub validate_task_transition : Task → Task → Checked
validate_task_transition from to =
    if from == to
    then ok tt
    else if task_transitions from to
    then ok tt
    else err (task_transition from to)

unfoldable pub may_escalate_to_stall : Protocol → Bool
unfolding is_waiting
may_escalate_to_stall p = not (is_waiting p) && not (p == Protocol.closed)

-- Every constant is a key of its table, and no other string is.
unfoldable pub known_process : Process → Bool
known_process (Process.other s) = false
known_process _ = true

unfoldable pub known_protocol : Protocol → Bool
known_protocol (Protocol.other s) = false
known_protocol _ = true

unfoldable pub known_progress : Progress → Bool
known_progress (Progress.other s) = false
known_progress _ = true

unfoldable pub known_task : Task → Bool
known_task (Task.other s) = false
known_task _ = true

unfoldable pub is_stall : Progress → Bool
is_stall Progress.suspected_stall = true
is_stall Progress.stalled = true
is_stall _ = false

unfoldable pub validate_dimensions : Dimensions → Checked
unfolding known_process known_protocol known_progress known_task is_waiting is_stall
validate_dimensions d = do
  fail_if (not (known_process d.process)) (unknown_process d.process)
  fail_if (not (known_protocol d.protocol)) (unknown_protocol d.protocol)
  fail_if (not (known_progress d.progress)) (unknown_progress d.progress)
  fail_if (not (known_task d.task)) (unknown_task d.task)
  fail_if (is_waiting d.protocol && is_stall d.progress) (waiting_stalled d.protocol d.progress)
