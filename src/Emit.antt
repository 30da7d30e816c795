-- ===== src/Emit.antt =====
-- packages/core/jarvis_core/engine/emit.py: the emitter of a run gives an event its number, stores it
-- and publishes it. `none` is the IntegrityError of the insert.
pub mod Sequence
pub mod Replay
use jarvis.Prelude.{
  ℕ, suc, ◌+◌, Bool, true, false, Option, none, some, List, [], ◌∷◌, Text, if◌then◌else◌,
}
use jarvis.Proto.Runs.{Run}
use jarvis.Proto.Events.{RunEvent, Body, is_delta, of_run, conversation_updated}
use jarvis.Bus.{EventBus, publish}
use jarvis.Store.{Store, append_event, get_conversation}

abbrev pub event_of : Run → ℕ → Body → RunEvent
event_of run seq body = record {
  run_id = run.id;
  conversation_id = run.conversation_id;
  seq = seq;
  body = body;
}

-- A delta is only fanned out, under the number of the last stored event.
unfoldable pub emit : Run → Body → Store → EventBus → Option (Run × Store × EventBus)
emit run body st bus =
    if is_delta body
    then some (run, st, publish (of_run (event_of run run.last_seq body)) bus)
    else let e = event_of run (suc run.last_seq) body in
      elim (append_event e st) [
        | none ↦ none
        | some st' ↦ some (record run { last_seq = suc run.last_seq }, st', publish (of_run e) bus)
      ]

unfoldable pub emit_all : Run → List Body → Store → EventBus → Option (Run × Store × EventBus)
emit_all run [] st bus = some (run, st, bus)
emit_all run (b ∷ bs) st bus = elim (emit run b st bus) [
  | none ↦ none
  | some (run', st', bus') ↦ emit_all run' bs st' bus'
]

-- The conversation again, with its activity, for every sidebar.
unfoldable pub announce_activity : Run → Store → EventBus → EventBus
announce_activity run st bus = elim (get_conversation run.conversation_id st) [
  | none ↦ bus
  | some conv ↦ publish (conversation_updated conv) bus
]
