-- ===== src/State/Kinds.antt =====
-- internal/state/state.go: the four string types and their constants. Go's values are strings, so
-- each type has one more constructor for a string that is none of the constants.
use subagent_broker.Common.{String, ◌≡◌, Eq, ◌==◌, string_eq, String-discrete, if◌then◌else◌, arith}

pub data Process : Type 0 where
  queued starting alive exited orphaned unknown : Process
  other : String → Process

pub data Protocol : Type 0 where
  initializing thinking tool_running streaming retrying : Protocol
  waiting_permission waiting_user waiting_scope : Protocol
  idle_between_turns closing closed protocol_error : Protocol
  other : String → Protocol

pub data Progress : Type 0 where
  active quiet suspected_stall stalled unknown : Progress
  other : String → Progress

pub data Task : Type 0 where
  planned running blocked reported_complete verifying : Task
  verified_success verified_partial verification_failed failed cancelled : Task
  other : String → Task

pub record Dimensions : Type 0 where
  pub process : Process
  pub protocol : Protocol
  pub progress : Progress
  pub task : Task

unfoldable pub Process-discrete : Discrete Process
unfolding String-discrete
Process-discrete = hlevel String-discrete

unfoldable pub Protocol-discrete : Discrete Protocol
unfolding String-discrete
Protocol-discrete = hlevel String-discrete

unfoldable pub Progress-discrete : Discrete Progress
unfolding String-discrete
Progress-discrete = hlevel String-discrete

unfoldable pub Task-discrete : Discrete Task
unfolding String-discrete
Task-discrete = hlevel String-discrete

instance abbrev pub process_eq : Eq Process
process_eq = record { eq? = Process-discrete }

instance abbrev pub protocol_eq : Eq Protocol
protocol_eq = record { eq? = Protocol-discrete }

instance abbrev pub progress_eq : Eq Progress
progress_eq = record { eq? = Progress-discrete }

instance abbrev pub task_eq : Eq Task
task_eq = record { eq? = Task-discrete }

-- `string(task)`.
unfoldable pub task_text : Task → String
task_text Task.planned = "planned"
task_text Task.running = "running"
task_text Task.blocked = "blocked"
task_text Task.reported_complete = "reported_complete"
task_text Task.verifying = "verifying"
task_text Task.verified_success = "verified_success"
task_text Task.verified_partial = "verified_partial"
task_text Task.verification_failed = "verification_failed"
task_text Task.failed = "failed"
task_text Task.cancelled = "cancelled"
task_text (Task.other s) = s

-- `state.Task(text)`.
unfoldable pub task_of_text : String → Task
task_of_text s =
    if s == "planned"
    then Task.planned
    else if s == "running"
    then Task.running
    else if s == "blocked"
    then Task.blocked
    else if s == "reported_complete"
    then Task.reported_complete
    else if s == "verifying"
    then Task.verifying
    else if s == "verified_success"
    then Task.verified_success
    else if s == "verified_partial"
    then Task.verified_partial
    else if s == "verification_failed"
    then Task.verification_failed
    else if s == "failed"
    then Task.failed
    else if s == "cancelled"
    then Task.cancelled
    else Task.other s

-- `string(process)` and `string(protocol)`.
unfoldable pub process_text : Process → String
process_text Process.queued = "queued"
process_text Process.starting = "starting"
process_text Process.alive = "alive"
process_text Process.exited = "exited"
process_text Process.orphaned = "orphaned"
process_text Process.unknown = "unknown"
process_text (Process.other s) = s

unfoldable pub protocol_text : Protocol → String
protocol_text Protocol.initializing = "initializing"
protocol_text Protocol.thinking = "thinking"
protocol_text Protocol.tool_running = "tool_running"
protocol_text Protocol.streaming = "streaming"
protocol_text Protocol.retrying = "retrying"
protocol_text Protocol.waiting_permission = "waiting_permission"
protocol_text Protocol.waiting_user = "waiting_user"
protocol_text Protocol.waiting_scope = "waiting_scope"
protocol_text Protocol.idle_between_turns = "idle_between_turns"
protocol_text Protocol.closing = "closing"
protocol_text Protocol.closed = "closed"
protocol_text Protocol.protocol_error = "protocol_error"
protocol_text (Protocol.other s) = s

-- `state.Process(text)`, `state.Protocol(text)` and `state.Progress(text)`.
unfoldable pub process_of_text : String → Process
process_of_text s =
    if s == "queued"
    then Process.queued
    else if s == "starting"
    then Process.starting
    else if s == "alive"
    then Process.alive
    else if s == "exited"
    then Process.exited
    else if s == "orphaned"
    then Process.orphaned
    else if s == "unknown"
    then Process.unknown
    else Process.other s

unfoldable pub protocol_of_text : String → Protocol
protocol_of_text s =
    if s == "initializing"
    then Protocol.initializing
    else if s == "thinking"
    then Protocol.thinking
    else if s == "tool_running"
    then Protocol.tool_running
    else if s == "streaming"
    then Protocol.streaming
    else if s == "retrying"
    then Protocol.retrying
    else if s == "waiting_permission"
    then Protocol.waiting_permission
    else if s == "waiting_user"
    then Protocol.waiting_user
    else if s == "waiting_scope"
    then Protocol.waiting_scope
    else if s == "idle_between_turns"
    then Protocol.idle_between_turns
    else if s == "closing"
    then Protocol.closing
    else if s == "closed"
    then Protocol.closed
    else if s == "protocol_error"
    then Protocol.protocol_error
    else Protocol.other s

unfoldable pub progress_of_text : String → Progress
progress_of_text s =
    if s == "active"
    then Progress.active
    else if s == "quiet"
    then Progress.quiet
    else if s == "suspected_stall"
    then Progress.suspected_stall
    else if s == "stalled"
    then Progress.stalled
    else if s == "unknown"
    then Progress.unknown
    else Progress.other s

-- Converting a text to a task status and back gives the text, known or not.
pub task_text-task_of_text : (s : String) → task_text (task_of_text s) ≡ s
unfolding task_text task_of_text
task_text-task_of_text s = ground arith
