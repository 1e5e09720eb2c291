-- ===== src/Outcome/Examples.antt =====
-- Tests and instances for outcomes.
use subagent_broker.Common.{◌≡◌, refl, true, ℕ_discrete, contains_codes, to_lower}
use subagent_broker.Barrier.Types.{BarrierResult}
use subagent_broker.Outcome.Types.{ExitCode, RunStatus, WaveStatus, Wave}
use subagent_broker.Outcome.Convert.{from_run_detailed}

abbrev accepted_wave : Wave
accepted_wave = record {
  wave_id = "wave-1";
  status = WaveStatus.verified;
  barrier_result = BarrierResult.passed_with_warnings;
  barrier_accepted = true;
  barrier_reason = "reviewed";
}

timeout_reason : (from_run_detailed RunStatus.degraded "Worker Timed Out").code ≡ ExitCode.timeout
unfolding from_run_detailed contains_codes ℕ_discrete to_lower
timeout_reason = refl
