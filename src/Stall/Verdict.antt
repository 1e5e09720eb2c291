-- ===== src/Stall/Verdict.antt =====
-- internal/stall/assess.go: when a worker counts as stalled.
use subagent_broker.Common.{
  ℕ, ◌-◌, ◌*◌, ◌≤◌, String, false, List, [], ◌∷◌, ◌≡◌, ◌≢◌, ◌⊎◌, ◌↔◌, string_eq, nat_eq,
}
use subagent_broker.State.Kinds.{Process, process_eq}
use subagent_broker.State.Transitions.{is_waiting}
use subagent_broker.Stall.Assess.{
  Assessment, Signals, positive_or, protocol_at, output_at, tool_at, independent,
}

-- A signal that was seen, and not within the threshold.
abbrev pub IsStale : ℕ → ℕ → ℕ → Type 0
IsStale now threshold at = (at ≢ 0) × (threshold ≤ now - at)

-- The worker runs, does not wait for an answer, has made no progress for two thresholds, and the
-- protocol, the output or the tools have been quiet for one.
abbrev pub IsStalled : ℕ → Signals → Type 0
IsStalled now s =
    let threshold = positive_or 120000000000 s.stall_after in
    (s.last_progress_at ≢ 0)
    × (s.has_pending_message ≡ false)
    × (s.waiting ≡ false)
    × (is_waiting s.protocol ≡ false)
    × (s.process ≡ Process.alive)
    × (positive_or 30000000000 s.quiet_after ≤ now - s.last_progress_at)
    × (2 * threshold ≤ now - s.last_progress_at)
    × (IsStale now threshold (protocol_at s)
        ⊎ IsStale now threshold (output_at s)
        ⊎ IsStale now threshold (tool_at s))

first : List ℕ → ℕ
first [] = 0
first (c ∷ rest) = c

-- An assessment that says one and the same of a stall by its state and by its confidence.
abbrev Says : Assessment → Type 0 → Type 0
Says a P = ((a.state ≡ "stalled") ↔ P) × ((a.confidence ≡ "high") ↔ P)

abbrev verdict : String → String → String → List String → ℕ → ℕ → Assessment
verdict state confidence reason evidence quiet now = record {
  state = state;
  confidence = confidence;
  reason = reason;
  evidence = evidence;
  quiet_for = quiet;
  evaluated_at = now;
}

abbrev Long : ℕ → ℕ → ℕ → Signals → Type 0
Long now quiet threshold s =
    (2 * threshold ≤ quiet) × (s.process ≡ Process.alive) × (1 ≤ independent now threshold s)
