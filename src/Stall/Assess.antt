-- ===== src/Stall/Assess.antt =====
-- internal/stall/assess.go. `Duration.String` of Go's library is the parameter `duration_text`. Times are
-- nanoseconds after Go's zero time.
use subagent_broker.Common.{
  ℕ, zero, suc, ◌+◌, ◌-◌, ◌*◌, String, Bool, true, false, List, [], ◌∷◌, ◌++◌, ◌==◌, ◌||◌, ◌&&◌,
  not, ltb, leb, string_eq, nat_eq, if◌then◌else◌, sprint, sort, text_lt,
}
use subagent_broker.State.Kinds.{
  Process, Protocol, Progress, process_eq, process_text, protocol_text,
}
use subagent_broker.State.Transitions.{is_waiting}
use subagent_broker.Attempts.Types.{ℤ, pos, negsuc}

-- `StallAssessment`; its `EvaluatedAt` is the time of the assessment.
pub record Assessment : Type 0 where
  pub state : String
  pub confidence : String
  pub reason : String
  pub evidence : List String
  pub quiet_for : ℕ
  pub evaluated_at : ℕ

pub record Signals : Type 0 where
  pub protocol : Protocol
  pub progress : Progress
  pub process : Process
  pub last_progress_at : ℕ
  pub last_event_at : ℕ
  pub last_protocol_event_at : ℕ
  pub last_stdout_at : ℕ
  pub last_stderr_at : ℕ
  pub last_tool_start_at : ℕ
  pub last_tool_finish_at : ℕ
  pub heartbeat_at : ℕ
  pub turn_started_at : ℕ
  pub turn_ended_at : ℕ
  pub has_pending_message : Bool
  pub waiting : Bool
  pub quiet_after : ℤ
  pub stall_after : ℤ
  pub now : ℕ

-- A duration that is not positive is replaced.
unfoldable pub positive_or : ℕ → ℤ → ℕ
positive_or default (pos zero) = default
positive_or default (pos (suc n)) = suc n
positive_or default (negsuc n) = default

unfoldable pub age : ℕ → ℕ → ℕ
age now at = if at == 0 then 0 else now - at

unfoldable pub stale_for : ℕ → ℕ → ℕ → Bool
unfolding age
stale_for now at threshold = not (at == 0) && leb threshold (age now at)

unfoldable pub later : ℕ → ℕ → ℕ
later a b = if ltb b a then a else b

abbrev pub bool_string : Bool → String
bool_string true = "true"
bool_string false = "false"

abbrev pub count_true : Bool → ℕ
count_true true = 1
count_true false = 0

-- The times of the three independent signals.
unfoldable pub protocol_at : Signals → ℕ
protocol_at s = if s.last_protocol_event_at == 0 then s.last_event_at else s.last_protocol_event_at

unfoldable pub output_at : Signals → ℕ
unfolding later
output_at s = later s.last_stdout_at s.last_stderr_at

unfoldable pub tool_at : Signals → ℕ
unfolding later
tool_at s = later s.last_tool_start_at s.last_tool_finish_at

-- How many of them are quiet.
unfoldable pub independent : ℕ → ℕ → Signals → ℕ
unfolding stale_for protocol_at output_at tool_at
independent now stall_after s =
    count_true (stale_for now (protocol_at s) stall_after)
    + count_true (stale_for now (output_at s) stall_after)
    + count_true (stale_for now (tool_at s) stall_after)

abbrev assessment : String → String → String → List String → ℕ → ℕ → Assessment
assessment state confidence reason evidence quiet now = record {
  state = state;
  confidence = confidence;
  reason = reason;
  evidence = evidence;
  quiet_for = quiet;
  evaluated_at = now;
}

abbrev evidence_if : Bool → String → List String
evidence_if true text = text ∷ []
evidence_if false text = []

module _ (duration_text : ℕ → String) where
  unfoldable pub about_age : String → ℕ → ℕ → String
  unfolding age
  about_age text now at = sprint (text ∷ duration_text (age now at) ∷ [])

  -- The evidence for a stall, before it is sorted.
  unfoldable pub stall_evidence : ℕ → ℕ → ℕ → Signals → List String
  unfolding about_age stale_for protocol_at output_at tool_at
  stall_evidence now quiet stall_after s =
      sprint ("no progress for " ∷ duration_text quiet ∷ [])
      ∷ (evidence_if (stale_for now (protocol_at s) stall_after)
            (about_age "no protocol event for " now (protocol_at s))
          ++ (evidence_if (stale_for now (output_at s) stall_after)
                (about_age "no stdout/stderr for " now (output_at s))
              ++ (evidence_if (stale_for now (tool_at s) stall_after)
                    (about_age "no tool start/finish for " now (tool_at s))
                  ++ (evidence_if (s.process == Process.alive) "process still alive"
                      ++ (evidence_if (not (s.turn_started_at == 0) && s.turn_ended_at == 0)
                            (about_age "turn still open for " now s.turn_started_at)
                          ++ evidence_if
                              (not (s.heartbeat_at == 0)
                                && stale_for now s.heartbeat_at stall_after)
                              (about_age "harness heartbeat quiet for " now s.heartbeat_at))))))

  -- The end of `Assess`, when the quiet time has reached the stall threshold.
  unfoldable pub assess_stall : ℕ → ℕ → ℕ → Signals → Assessment
  unfolding independent stall_evidence
  assess_stall now quiet stall_after s =
      let n = independent now stall_after s in
      let alive = s.process == Process.alive in
      let evidence = sort text_lt (stall_evidence now quiet stall_after s) in
      if leb (2 * stall_after) quiet && alive && leb 1 n
      then assessment "stalled" "high"
          "no protocol or output progress for an extended period while process is alive" evidence
          quiet now
      else if leb 2 n || (leb 1 n && alive)
      then assessment "suspected_stall" "medium" "multiple independent progress signals are quiet"
          evidence quiet now
      else assessment "suspected_stall" "low" "quiet timeout only" evidence quiet now

  unfoldable pub assess_quiet : ℕ → ℕ → ℕ → ℕ → Signals → Assessment
  unfolding assess_stall
  assess_quiet now quiet quiet_after stall_after s =
      if ltb quiet quiet_after
      then assessment "active" "none" "recent progress" [] quiet now
      else if ltb quiet stall_after
      then assessment "quiet" "low" "quiet timeout only"
          (sprint ("no progress for " ∷ duration_text quiet ∷ []) ∷ []) quiet now
      else assess_stall now quiet stall_after s

  unfoldable pub assess_at : ℕ → Signals → Assessment
  unfolding assess_quiet positive_or
  assess_at now s =
      let quiet = now - s.last_progress_at in
      if s.last_progress_at == 0
      then assessment "none" "none" "no progress timestamp" [] 0 now
      else if s.has_pending_message || s.waiting || is_waiting s.protocol
      then assessment "none" "none" "worker is waiting for main agent or permission"
          (sprint ("protocol=" ∷ protocol_text s.protocol ∷ [])
            ∷ sprint ("pending_message=" ∷ bool_string s.has_pending_message ∷ [])
            ∷ [])
          quiet now
      else if s.process == Process.exited || s.process == Process.orphaned
      then assessment "none" "none" "process lifecycle owns this case"
          (sprint ("process=" ∷ process_text s.process ∷ []) ∷ []) quiet now
      else assess_quiet now quiet (positive_or 30000000000 s.quiet_after)
          (positive_or 120000000000 s.stall_after) s

  -- `Assess`; `clock` is what `time.Now` says.
  unfoldable pub assess : ℕ → Signals → Assessment
  unfolding assess_at
  assess clock s = assess_at (if s.now == 0 then clock else s.now) s

-- `EvidenceSummary`.
unfoldable pub join_evidence : List String → String
join_evidence [] = ""
join_evidence (e ∷ []) = e
join_evidence (e ∷ rest) = sprint (e ∷ "; " ∷ join_evidence rest ∷ [])

unfoldable pub evidence_summary : Assessment → String
unfolding join_evidence
evidence_summary a = join_evidence a.evidence
