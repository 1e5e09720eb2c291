-- ===== src/Stall/Examples.antt =====
-- Instances for internal/stall/assess.go.
use subagent_broker.Common.{ℕ, String, false, nat_eq}
use subagent_broker.State.Kinds.{Process, Protocol, Progress}
use subagent_broker.Attempts.Types.{pos}
use subagent_broker.Stall.Assess.{Signals}

abbrev seconds : ℕ → String
seconds n = "some time"

abbrev silent : Signals
silent = record {
  protocol = Protocol.thinking;
  progress = Progress.quiet;
  process = Process.alive;
  last_progress_at = 10;
  last_event_at = 0;
  last_protocol_event_at = 10;
  last_stdout_at = 0;
  last_stderr_at = 0;
  last_tool_start_at = 0;
  last_tool_finish_at = 0;
  heartbeat_at = 0;
  turn_started_at = 10;
  turn_ended_at = 0;
  has_pending_message = false;
  waiting = false;
  quiet_after = pos 5;
  stall_after = pos 20;
  now = 90;
}
