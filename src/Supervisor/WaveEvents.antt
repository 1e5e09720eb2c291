-- ===== src/Supervisor/WaveEvents.antt =====
-- internal/supervisor/reducer.go: what the reducer makes of the events of a selection and of a start of a wave.
use subagent_broker.Common.{
  String, some, List, [], ◌∷◌, ◌≡◌, ◌≢◌, inl, inr, ◌==◌, string_eq, nat_eq, ok, arith, Bool-cases,
  String-discrete,
}
use subagent_broker.Message.Json.{Fields, object, document, lookup_field}
use subagent_broker.Supervisor.Types.{Wave, Snapshot}
use subagent_broker.Supervisor.Reducer.{
  decode_map, string_field, transition_of, apply_wave, update_wave, with_wave, reduce_wave,
}
use subagent_broker.Supervisor.Status.{text_field, find_wave, replace_wave}

abbrev pub wave_fields : String → String → String → String → Fields
wave_fields id from to reason =
    text_field "from" from
      (text_field "reason" reason (text_field "to" to (text_field "wave_id" id Fields.end)))

wave_transition :
    (id from to reason : String)
    → transition_of (wave_fields id from to reason)
      ≡ record { from = from; to = to; reason = reason }
unfolding transition_of string_field lookup_field String-discrete
wave_transition id from to reason = ground arith

wave_field_id :
    (id from to reason : String) → string_field "wave_id" (wave_fields id from to reason) ≡ id
unfolding string_field lookup_field String-discrete
wave_field_id id from to reason = ground arith

wave_field_result :
    (id from to reason : String)
    → string_field "barrier_result" (wave_fields id from to reason) ≡ ""
unfolding string_field lookup_field String-discrete
wave_field_result id from to reason = ground arith

-- A marker of a selection changes no wave.
selected_wave :
    (id from to : String) (w : Wave)
    → apply_wave id (record { from = from; to = to; reason = "select_wave" }) "" w ≡ ok w
unfolding apply_wave String-discrete
selected_wave id from to w = ground arith

selected_waves :
    (id from to : String) (waves : List Wave) (w : Wave)
    → find_wave id waves ≡ some w
    → update_wave id
        (apply_wave id (record { from = from; to = to; reason = "select_wave" }) "")
        waves
      ≡ ok (waves, some w)
unfolding find_wave update_wave
selected_waves id from to [] w h = cc
selected_waves id from to (v ∷ rest) w h = elim (Bool-cases (v.wave_id == id)) [
  | inl b ↦ ground (arith, b, h, selected_wave id from to v)
  | inr b ↦ ground (arith, b, h, selected_waves id from to rest w)
]

pub reduce_wave-selected :
    (id from : String) (at : Snapshot) (w : Wave)
    → id ≢ ""
    → at.wave.wave_id ≢ ""
    → at.wave.wave_id ≢ id
    → find_wave id at.waves ≡ some w
    → reduce_wave (document (object (wave_fields id from id "select_wave"))) at ≡ ok at
unfolding reduce_wave decode_map with_wave
reduce_wave-selected id from at w named has other h = ground (
  arith,
  named,
  has,
  other,
  wave_transition id from id "select_wave",
  wave_field_id id from id "select_wave",
  wave_field_result id from id "select_wave",
  selected_waves id from id at.waves w h,
)

running_named : let s : String = "running" in s ≢ ""
running_named e = cc e

empty_no_marker : let s : String = "" in (s ≢ "select_wave") × (s ≢ "barrier_result")
empty_no_marker = (λ e. cc e, λ e. cc e)

-- The wave after an event of its status.
abbrev pub with_status : String → Wave → Wave
with_status to w = record w { status = to }

started_wave :
    (w : Wave)
    → w.wave_id ≢ ""
    → apply_wave w.wave_id (record { from = w.status; to = "running"; reason = "" }) "" w
      ≡ ok (with_status "running" w)
unfolding apply_wave
started_wave w h = ground (arith, h, running_named, empty_no_marker)

unfoldable pub waves_with : Wave → List Wave → List Wave
unfolding replace_wave
waves_with w waves = replace_wave (with_status "running" w) waves

started_waves :
    (w : Wave) (waves : List Wave)
    → w.wave_id ≢ ""
    → find_wave w.wave_id waves ≡ some w
    → update_wave w.wave_id
        (apply_wave w.wave_id (record { from = w.status; to = "running"; reason = "" }) "")
        waves
      ≡ ok (waves_with w waves, some (with_status "running" w))
unfolding find_wave update_wave waves_with replace_wave
started_waves w [] named h = cc
started_waves w (v ∷ rest) named h = elim (Bool-cases (v.wave_id == w.wave_id)) [
  | inl b ↦ ground (arith, b, h, started_wave w named)
  | inr b ↦ ground (arith, b, h, started_waves w rest named)
]

pub reduce_wave-started :
    (at : Snapshot)
    → at.wave.wave_id ≢ ""
    → find_wave at.wave.wave_id at.waves ≡ some at.wave
    → reduce_wave (document (object (wave_fields at.wave.wave_id at.wave.status "running" ""))) at
      ≡ ok (record at { wave = with_status "running" at.wave; waves = waves_with at.wave at.waves })
unfolding reduce_wave decode_map with_wave
reduce_wave-started at named h = ground (
  arith,
  named,
  running_named,
  empty_no_marker,
  wave_transition at.wave.wave_id at.wave.status "running" "",
  wave_field_id at.wave.wave_id at.wave.status "running" "",
  wave_field_result at.wave.wave_id at.wave.status "running" "",
  started_wave at.wave named,
  started_waves at.wave at.waves named h,
)
