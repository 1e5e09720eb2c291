-- ===== src/Supervisor/Recovery.antt =====
-- internal/supervisor/commit.go: a restart after a commit.
use subagent_broker.Common.{
  ℕ, ◌+◌, ◌<◌, ◌≤◌, String, Option, none, some, List, [], ◌∷◌, ◌++◌, ◌≡◌, ◌≢◌, ◌∙◌, ◌⊎◌, nat_eq,
  Result, ok, err, arith, All,
}
use subagent_broker.Message.Json.{Json}
use subagent_broker.Attempts.Types.{WorkerSession}
use subagent_broker.Journal.Lines.{Bytes}
use subagent_broker.Journal.File.{File, ReplayDisk}
use subagent_broker.Journal.Events.{Event, Input, Seen, see, replay_events}
use subagent_broker.Journal.Sequence.{Continues}
use subagent_broker.Supervisor.Types.{TaskRuntime, Snapshot}
use subagent_broker.Supervisor.Apply.{apply_event, replay_snapshot, replay_after}
use subagent_broker.Supervisor.Commit.{Service, CommitError, CommitRequest, candidate_of}
use subagent_broker.Supervisor.Restore.{last_sequence, Restores}
use subagent_broker.Supervisor.Replay.{
  last_sequence-snoc, replay_after-skips, replay_after-snoc, replay-Restores,
}

abbrev pub known : Option ℕ → Option ℕ
known none = none
known (some t) = some 0

-- A snapshot without the times of the run, which a replay takes from the event, and without the
-- checkpoint.
abbrev pub untimed : Snapshot → Snapshot
untimed s = record s {
  run = record s.run { started_at = known s.run.started_at; ended_at = known s.run.ended_at };
  updated_at = 0;
  applied_event_seq = 0;
}

-- The event that an input describes, after the snapshot `at`.
pub record Describes (input : Input) (at : Snapshot) (e : Event) : Type 0 where
  pub payload : input.payload ≡ some e.payload
  pub type : e.type ≡ input.type
  pub task : e.task_id ≡ input.task_id
  pub run : e.run_id ≡ at.run.run_id
  pub seq : e.seq ≡ at.applied_event_seq + 1

pub All-grown :
    (n : ℕ) (es : List Event) (e : Event)
    → All (λ d. d.seq ≤ n) es
    → e.seq ≤ n
    → All (λ d. d.seq ≤ n) (es ++ e ∷ [])
All-grown n [] e h k = (k, tt)
All-grown n (d ∷ es) e (h, t) k = (h, All-grown n es e t k)

pub All-raised :
    (m n : ℕ) → m ≤ n → (es : List Event) → All (λ d. d.seq ≤ m) es → All (λ d. d.seq ≤ n) es
All-raised m n h [] k = tt
All-raised m n h (d ∷ es) (k, t) = (omega (arith, h, k), All-raised m n h es t)

module _ (encode : Event → Option Bytes) (decode : Bytes → Option Event)
    (decode_worker : Json → Option WorkerSession) (decode_runtime : Json → Option TaskRuntime)
    (to_int : String → ℕ) (now : ℕ) where
  -- The reducer does to the event of a request what the request did to the snapshot.
  abbrev pub Rebuilds : CommitRequest → Snapshot → Type 0
  Rebuilds request before =
      (at candidate : Snapshot) (e : Event)
      → untimed at ≡ untimed before
      → candidate_of request before ≡ ok candidate
      → Describes request.event at e
      → (r : Snapshot) × (apply_event decode_worker decode_runtime to_int now at e ≡ ok r)
        × (untimed r ≡ untimed candidate)

  -- The snapshot in memory is what the replay of a restart makes of state.json and the journal, `at`.
  pub record Settled (s : Service) (seen : Seen) (at : Snapshot) : Type 0 where
    pub journal : Continues encode decode s.events seen
    pub run_named : s.events.run_id ≢ ""
    pub same_run : s.snapshot.run.run_id ≡ s.events.run_id
    pub begun : 0 < s.stored.applied_event_seq
    pub behind : s.stored.applied_event_seq ≤ seen.last_seq
    pub last : last_sequence seen.events ≡ seen.last_seq
    pub rising : All (λ e. e.seq ≤ seen.last_seq) seen.events
    pub replayed :
        replay_after decode_worker decode_runtime to_int now s.stored.applied_event_seq s.stored
          seen.events
        ≡ ok at
    pub caught_up : at.applied_event_seq ≡ seen.last_seq
    pub same : untimed at ≡ untimed s.snapshot

  -- What a restart after a commit makes: its replay gives the snapshot before it, if the commit failed,
  -- or that of the commit.
  abbrev pub Recovers : CommitRequest → Service → Service × Result CommitError Event → Type 0
  Recovers request s (after, result) =
      (r : Snapshot) × (Restores encode decode decode_worker decode_runtime to_int ReplayDisk.works
        now after.stored after.events.file r)
      × (((untimed r ≡ untimed s.snapshot) × ((x : CommitError) × (result ≡ err x)))
          ⊎ ((candidate : Snapshot) × (candidate_of request s.snapshot ≡ ok candidate)
              × (untimed r ≡ untimed candidate)))

  replay_snapshot-begun :
      (s : Snapshot) (es : List Event)
      → 0 < s.applied_event_seq
      → replay_snapshot decode_worker decode_runtime to_int now s es
        ≡ replay_after decode_worker decode_runtime to_int now s.applied_event_seq s es
  unfolding replay_snapshot
  replay_snapshot-begun s es h = ground (arith, h)

  -- The events of the journal after the snapshot that was stored.
  pub reads_before :
      (file : File) (s : Service) (seen : Seen) (at : Snapshot)
      → Settled s seen at
      → (let out = replay_events encode decode ReplayDisk.works file in
          (out.2 ≡ none) × (out.1.state ≡ seen))
      → Restores encode decode decode_worker decode_runtime to_int ReplayDisk.works now s.stored
          file at
  reads_before file s seen at h out =
      replay-Restores encode decode decode_worker decode_runtime to_int now file s.stored at seen
        out (omega (arith, h.behind, h.last))
        (replay_snapshot-begun s.stored seen.events h.begun ∙ h.replayed)

  pub reads_one_more :
      (file : File) (s : Service) (seen : Seen) (at r : Snapshot) (e : Event)
      → Settled s seen at
      → e.seq ≡ seen.last_seq + 1
      → (let out = replay_events encode decode ReplayDisk.works file in
          (out.2 ≡ none) × (out.1.state ≡ see e seen))
      → apply_event decode_worker decode_runtime to_int now at e ≡ ok r
      → Restores encode decode decode_worker decode_runtime to_int ReplayDisk.works now s.stored
          file r
  reads_one_more file s seen at r e h next out applied =
      replay-Restores encode decode decode_worker decode_runtime to_int now file s.stored r
        (see e seen) out (omega (arith, h.behind, next, last_sequence-snoc seen.events e))
        (replay_snapshot-begun s.stored (seen.events ++ e ∷ []) h.begun
          ∙ replay_after-snoc encode decode decode_worker decode_runtime to_int now _ seen.events
              s.stored at e h.replayed (omega (arith, h.behind, next))
          ∙ applied)

  -- A stored snapshot that has all events is what the replay of a restart makes.
  pub reads_installed :
      (file : File) (stored : Snapshot) (seen : Seen) (e : Event)
      → All (λ d. d.seq ≤ seen.last_seq) seen.events
      → e.seq ≡ seen.last_seq + 1
      → stored.applied_event_seq ≡ e.seq
      → (let out = replay_events encode decode ReplayDisk.works file in
          (out.2 ≡ none) × (out.1.state ≡ see e seen))
      → Restores encode decode decode_worker decode_runtime to_int ReplayDisk.works now stored file
          stored
  reads_installed file stored seen e rising next applied out =
      replay-Restores encode decode decode_worker decode_runtime to_int now file stored stored
        (see e seen) out (omega (arith, applied, last_sequence-snoc seen.events e))
        (replay_snapshot-begun stored (seen.events ++ e ∷ []) (omega (arith, applied, next))
          ∙ replay_after-skips encode decode decode_worker decode_runtime to_int now _
              (seen.events ++ e ∷ []) stored
              (All-grown _ seen.events e
                (All-raised seen.last_seq _ (omega (arith, applied, next)) seen.events rising)
                (omega (arith, applied))))
