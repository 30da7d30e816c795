-- ===== src/Examples/Rings.antt =====
-- Rings of features/callme.py.
use jarvis.Prelude.{
  ◌≡◌, refl, true, false, some, [], ◌∷◌, Text, text, text_eq, arith, is_nil, any, find,
}
use jarvis.Proto.Runs.{Run, RunStatus}
use jarvis.Proto.Events.{RunEvent, Body}
use jarvis.Store.{Store, get_run}
use jarvis.CallMe.{CallMe, Flush, RingKind, ring_of, has_rung, may_ring, on_event, rang}
use jarvis.CallMe.Once.{on_event-once}
use jarvis.CallMe.Gathering.{on_event-left_behind}
use jarvis.Examples.Data.{r1, c1, a_run, a_store, a_bus}

abbrev ringing_run : Run
ringing_run = record (a_run r1 RunStatus.failed) { call_me = true }

abbrev ringing_store : Store
ringing_store = a_store (ringing_run ∷ [])

abbrev failure : RunEvent
failure = record { run_id = r1; conversation_id = c1; seq = 4; body = Body.run_failed c1 }

abbrev at : Flush → CallMe
at f = record { pending = []; flush = f; rung = [] }

abbrev failed_once : Text
failed_once = 102 ∷ 97 ∷ 105 ∷ 108 ∷ 101 ∷ 100 ∷ []

failure_rings : ring_of failure.body ≡ some (RingKind.failed, failed_once, some c1)
failure_rings = unfold ring_of text in refl

run_found : get_run r1 ringing_store ≡ some ringing_run
run_found = unfold get_run find text_eq in refl

rings_at : (f : Flush) → may_ring ringing_run failed_once a_bus (at f) ≡ true
rings_at f = unfold may_ring has_rung any in refl

on_event-once_example :
    on_event failure ringing_store a_bus (on_event failure ringing_store a_bus (at Flush.idle))
    ≡ on_event failure ringing_store a_bus (at Flush.idle)
on_event-once_example =
    on_event-once failure failure ringing_store ringing_store a_bus a_bus (at Flush.idle)
      ringing_run ringing_run RingKind.failed RingKind.failed failed_once (some c1) (some c1)
      failure_rings failure_rings run_found run_found refl (rings_at Flush.idle) (omega arith)

on_event-left_behind_example :
    let me' = on_event failure ringing_store a_bus (at Flush.ringing) in
    (me'.flush ≡ Flush.ringing)
    × ((rang me').flush ≡ Flush.idle)
    × (is_nil (rang me').pending ≡ false)
on_event-left_behind_example =
    on_event-left_behind failure ringing_store a_bus (at Flush.ringing) ringing_run RingKind.failed
      failed_once (some c1) failure_rings run_found (rings_at Flush.ringing) refl
