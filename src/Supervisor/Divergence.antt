-- ===== src/Supervisor/Divergence.antt =====
-- internal/supervisor/reducer.go: events whose commit the reducer does not rebuild.
use subagent_broker.Common.{
  ℕ, String, Option, some, ◌≡◌, ◌≢◌, refl, ap, string_eq, nat_eq, ok, arith, String-discrete,
}
use subagent_broker.Message.Json.{Json, object, document}
use subagent_broker.Attempts.Types.{WorkerSession}
use subagent_broker.Journal.Events.{Event}
use subagent_broker.Supervisor.Types.{Wave, TaskRuntime, Snapshot}
use subagent_broker.Supervisor.Reducer.{event_kind, reduce_wave}
use subagent_broker.Supervisor.Apply.{apply_event, reduce}
use subagent_broker.Supervisor.Status.{
  supervisor_input, wave_input, mutate_selected, find_wave, mutate_wave, mutated_wave,
}
use subagent_broker.Supervisor.Recovery.{Describes}
use subagent_broker.Supervisor.Rebuilt.{apply_event-next}
use subagent_broker.Supervisor.TaskRebuilt.{same_payload}
use subagent_broker.Supervisor.WaveEvents.{
  wave_fields, with_status, waves_with, reduce_wave-selected, reduce_wave-started,
}

module _ (decode_worker : Json → Option WorkerSession) (decode_runtime : Json → Option TaskRuntime)
    (to_int : String → ℕ) where
  wave_applied :
      (later : ℕ) (at next : Snapshot) (e : Event) (id from to reason : String)
      → Describes (wave_input id from to reason) at e
      → at.run.run_id ≢ ""
      → reduce_wave (document (object (wave_fields id from to reason))) at ≡ ok next
      → (r : Snapshot) × (apply_event decode_worker decode_runtime to_int later at e ≡ ok r)
        × (r.wave ≡ next.wave)
        × (r.run ≡ next.run)
        × (r.applied_event_seq ≡ e.seq)
  unfolding reduce wave_input supervisor_input event_kind String-discrete
  wave_applied later at next e id from to reason d named h =
      let read = same_payload e (wave_input id from to reason) _ refl d.payload in
      let applied : reduce decode_worker decode_runtime to_int later (event_kind e.type) e at
          ≡ ok next =
        rw (d.type, read) h in
      (
        _,
        apply_event-next decode_worker decode_runtime to_int later at next e _ d named applied,
        refl,
        refl,
        refl,
      )

  -- The event of `selectWave` is applied without an effect: where the wave that is selected is in the
  -- plan and another one is current, the reducer counts the event as applied and leaves the current wave
  -- and the run as they are, while the commit made the selected wave current.
  pub selection_is_lost :
      (now later : ℕ) (at : Snapshot) (e : Event) (id : String) (w : Wave)
      → Describes (wave_input id at.wave.wave_id id "select_wave") at e
      → at.run.run_id ≢ ""
      → id ≢ ""
      → at.wave.wave_id ≢ ""
      → at.wave.wave_id ≢ id
      → find_wave id at.waves ≡ some w
      → ((r : Snapshot) × (apply_event decode_worker decode_runtime to_int later at e ≡ ok r)
          × (r.wave ≡ at.wave)
          × (r.run ≡ at.run)
          × (r.applied_event_seq ≡ e.seq))
        × ((candidate : Snapshot) × (mutate_selected now id at ≡ ok candidate)
            × (candidate.wave ≡ w)
            × (candidate.run.current_wave ≡ id))
  unfolding mutate_selected
  selection_is_lost now later at e id w d run_named named has other h = (
    wave_applied later at at e id at.wave.wave_id id "select_wave" d run_named
        (reduce_wave-selected id at.wave.wave_id at w named has other h),
    (_, refl, ground (arith, h), refl),
  )

  -- The event that the current wave runs gives it the status and no start: the reducer leaves
  -- `started_at` as it was, while the commit set it to the time of the call.
  pub start_of_wave_is_lost :
      (now later : ℕ) (at : Snapshot) (e : Event)
      → Describes (wave_input at.wave.wave_id at.wave.status "running" "") at e
      → at.run.run_id ≢ ""
      → at.wave.wave_id ≢ ""
      → find_wave at.wave.wave_id at.waves ≡ some at.wave
      → ((r : Snapshot) × (apply_event decode_worker decode_runtime to_int later at e ≡ ok r)
          × (r.wave.status ≡ "running")
          × (r.wave.started_at ≡ at.wave.started_at))
        × ((candidate : Snapshot) × (mutate_wave now "running" "" at ≡ ok candidate)
            × (candidate.wave.status ≡ "running")
            × (candidate.wave.started_at ≡ some now))
  unfolding mutate_wave mutated_wave String-discrete
  start_of_wave_is_lost now later at e d run_named named h =
      let (r, applied, wave, _, _) =
        wave_applied later at
          (record at { wave = with_status "running" at.wave; waves = waves_with at.wave at.waves })
          e at.wave.wave_id at.wave.status "running" "" d run_named
          (reduce_wave-started at named h) in
      (
        (r, applied, ap (λ (w : Wave). w.status) wave, ap (λ (w : Wave). w.started_at) wave),
        (_, refl, refl, refl),
      )
