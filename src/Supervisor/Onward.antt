-- ===== src/Supervisor/Onward.antt =====
-- internal/supervisor/commit.go: commits that succeed, one after the other.
use mathlib.Core.Path.{subst}
use subagent_broker.Common.{
  ℕ, ◌+◌, ◌<◌, String, Option, some, [], ◌∷◌, ◌++◌, ◌≡◌, ◌≢◌, refl, sym, ap, ◌∙◌, inl, inr, Result,
  ok, err, arith, Result-cases,
}
use subagent_broker.Message.Json.{Json}
use subagent_broker.Attempts.Types.{WorkerSession}
use subagent_broker.Journal.Lines.{Bytes}
use subagent_broker.Journal.Split.{NoNewline}
use subagent_broker.Journal.Events.{
  Event, EventStore, EventError, Seen, see, append_event, event_of, two_64,
}
use subagent_broker.Journal.Sequence.{Wrote, append_event-Wrote, append_event-Continues}
use subagent_broker.Supervisor.Types.{TaskRuntime, Snapshot}
use subagent_broker.Supervisor.Commit.{
  Service, World, CommitError, CommitRequest, candidate_of, install, checkpointed, journalled,
  commit_candidate, commit,
}
use subagent_broker.Supervisor.Replay.{last_sequence-snoc, replay_after-skips}
use subagent_broker.Supervisor.Recovery.{Settled, All-grown, All-raised}

-- What a commit that succeeds has done to the service.
abbrev committed : World → Snapshot → Event → EventStore → Service → Service
committed world candidate e events s = record s {
  snapshot = checkpointed world e candidate;
  stored = checkpointed world e candidate;
  events = events;
}

module _ (encode : Event → Option Bytes) (decode : Bytes → Option Event) where
  journalled-ok :
      (world : World) (candidate : Snapshot) (s after : Service) (e : Event)
      (written : EventStore × Result EventError Event)
      → journalled encode decode world candidate s written ≡ (after, ok e)
      → (written.1 ≡ ok e) × (after ≡ committed world candidate e written.0 s)
  unfolding journalled install
  journalled-ok world candidate s after e (events, err x) h =
      cc (ap (λ (o : Service × Result CommitError Event). o.1) h)
  journalled-ok world candidate s after e (events, ok d) h = ground (arith, h)

  commit-ok :
      (world : World) (request : CommitRequest) (s after : Service) (e : Event)
      → commit encode decode world request s ≡ (after, ok e)
      → (candidate : Snapshot) × (candidate_of request s.snapshot ≡ ok candidate)
        × (let written =
              append_event encode decode world.append_disk world.append_time world.new_id
                request.event s.events in
            (written.1 ≡ ok e) × (after ≡ committed world candidate e written.0 s))
  unfolding commit commit_candidate
  commit-ok world request s after e h = elim (Result-cases (candidate_of request s.snapshot)) [
    | inr (x, c) ↦ ground (arith, h, c)
    | inl (candidate, c) ↦
        let written =
          append_event encode decode world.append_disk world.append_time world.new_id request.event
            s.events in
        (candidate, c, journalled-ok world candidate s after e written (ground (arith, h, c)))
  ]

module _ (encode : Event → Option Bytes) (decode : Bytes → Option Event)
    (decode_worker : Json → Option WorkerSession) (decode_runtime : Json → Option TaskRuntime)
    (to_int : String → ℕ) (now : ℕ)
    (law : (e : Event) (line : Bytes)
      → encode e ≡ some line
      → (decode line ≡ some e) × NoNewline line) where
  event_fields :
      (s : EventStore) (request : CommitRequest) (world : World) (id : String) (events : EventStore)
      (e : Event)
      → Wrote encode decode world.append_disk world.append_time id request.event s events e
      → (e.seq ≡ s.next_seq) × (events.run_id ≡ s.run_id)
  unfolding event_of
  event_fields s request world id events e wrote = (rw wrote.made refl, rw wrote.store refl)

  committed-Settled :
      (world : World) (request : CommitRequest) (s : Service) (candidate : Snapshot) (seen : Seen)
      (at : Snapshot) (id : String) (events : EventStore) (e : Event)
      → Settled encode decode decode_worker decode_runtime to_int now s seen at
      → id ≢ ""
      → s.events.next_seq + 1 < two_64
      → candidate.run.run_id ≡ s.snapshot.run.run_id
      → append_event encode decode world.append_disk world.append_time
          (some id)
          request.event
          s.events
        ≡ (events, ok e)
      → let after = committed world candidate e events s in
        Settled encode decode decode_worker decode_runtime to_int now after
          (see e seen)
          after.snapshot
  committed-Settled world request s candidate seen at id events e h named bound run done =
      let grown =
        append_event-Continues encode decode law world.append_disk world.append_time id
          request.event s.events events seen e h.journal h.run_named named bound done in
      let (seq, same_run) = event_fields s.events request world id events e (
        append_event-Wrote encode decode world.append_disk world.append_time id request.event
          s.events events e done) in
      let next : e.seq ≡ seen.last_seq + 1 = seq ∙ h.journal.next in
      let rising =
        All-grown e.seq seen.events e
          (All-raised seen.last_seq e.seq (omega (arith, next)) seen.events h.rising)
          (omega arith) in
      record {
        journal = grown;
        run_named = λ z. h.run_named (sym same_run ∙ z);
        same_run = run ∙ h.same_run ∙ sym same_run;
        begun = omega (arith, next);
        behind = omega arith;
        last = last_sequence-snoc seen.events e;
        rising = rising;
        replayed =
            replay_after-skips encode decode decode_worker decode_runtime to_int now e.seq
              (seen.events ++ e ∷ []) (checkpointed world e candidate) rising;
        caught_up = refl;
        same = refl;
      }

  -- After a commit that succeeds, the snapshot in memory is again what the replay of a restart makes of
  -- state.json and the journal, whose last event is the one of the commit, and no event of the
  -- journal has a higher number. It was so before, and the request keeps the id of the run.
  -- `decode` reads what `encode` wrote, in which there is no newline; the event has an id, and the
  -- sequence numbers do not reach their last.
  pub commit-Settled :
      (world : World) (request : CommitRequest) (s after : Service) (seen : Seen) (at : Snapshot)
      (id : String) (e : Event)
      → Settled encode decode decode_worker decode_runtime to_int now s seen at
      → id ≢ ""
      → world.new_id ≡ some id
      → s.events.next_seq + 1 < two_64
      → ((candidate : Snapshot)
          → candidate_of request s.snapshot ≡ ok candidate
          → candidate.run.run_id ≡ s.snapshot.run.run_id)
      → commit encode decode world request s ≡ (after, ok e)
      → Settled encode decode decode_worker decode_runtime to_int now after
          (see e seen)
          after.snapshot
  commit-Settled world request s after seen at id e h named i bound keeps done =
      let (candidate, c, (written, made)) = commit-ok encode decode world request s after e done in
      let append =
        append_event encode decode world.append_disk world.append_time world.new_id request.event
          s.events in
      let appended : append_event encode decode world.append_disk world.append_time (some id)
            request.event s.events
          ≡ (append.0, ok e) =
        ap
          (λ (n : Option String).
            append_event encode decode world.append_disk world.append_time n request.event s.events)
          (sym i)
        ∙ ap (λ (r : Result EventError Event). (append.0, r)) written in
      subst
        (λ (x : Service).
          Settled encode decode decode_worker decode_runtime to_int now x (see e seen) x.snapshot)
        (sym made)
        (committed-Settled world request s candidate seen at id append.0 e h named bound
          (keeps candidate c) appended)
