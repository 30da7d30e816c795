-- ===== src/CallMe/Once.antt =====
-- What rings once (`on_event` of features/callme.py).
use jarvis.Prelude.{
  ◌<◌, ◌≡◌, refl, sym, ap, ◌∙◌, true, false, Option, some, List, Text, text_eq_iff, arith,
  if◌then◌else◌, any, length,
}
use jarvis.Proto.Runs.{Run}
use jarvis.Proto.Events.{RunEvent}
use jarvis.Bus.{EventBus}
use jarvis.Store.{Store, get_run}
use jarvis.CallMe.{CallMe, RingKind, ring_of, has_rung, remembered, may_ring, rung_for, on_event}

has_rung-remembered :
    (run_id once : Text) (rung : List (Text × Text))
    → length rung < 1000
    → has_rung run_id once (remembered (run_id, once) rung) ≡ true
unfolding has_rung remembered any
has_rung-remembered run_id once rung h =
    ground (arith, h, text_eq_iff run_id run_id, text_eq_iff once once)

refused :
    (run : Run) (once : Text) (bus : EventBus) (me : CallMe)
    → has_rung run.id once me.rung ≡ true
    → may_ring run once bus me ≡ false
unfolding may_ring
refused run once bus me h = ground (arith, h)

-- on an event that rings for this run
pub on_event-cases :
    (e : RunEvent) (st : Store) (bus : EventBus) (me : CallMe) (kind : RingKind) (once : Text)
    (said : Option Text) (run : Run)
    → ring_of e.body ≡ some (kind, once, said)
    → get_run e.run_id st ≡ some run
    → on_event e st bus me
      ≡ (if may_ring run once bus me then rung_for run kind once said st me else me)
unfolding on_event
on_event-cases e st bus me kind once said run r g = rw (r, on_event) (rw (g, on_event) refl)

-- One thing rings once: when an event has rung for a run, another about the same end or the same
-- question of that run changes nothing, as long as fewer than a thousand rings were remembered.
pub on_event-once :
    (e later : RunEvent) (st st' : Store) (bus bus' : EventBus) (me : CallMe) (run run' : Run)
    (kind kind' : RingKind) (once : Text) (said said' : Option Text)
    → ring_of e.body ≡ some (kind, once, said)
    → ring_of later.body ≡ some (kind', once, said')
    → get_run e.run_id st ≡ some run
    → get_run later.run_id st' ≡ some run'
    → run'.id ≡ run.id
    → may_ring run once bus me ≡ true
    → length me.rung < 1000
    → on_event later st' bus' (on_event e st bus me) ≡ on_event e st bus me
on_event-once e later st st' bus bus' me run run' kind kind' once said said' r r' g g' i m n =
    let first = on_event-cases e st bus me kind once said run r g in
    let me' = rung_for run kind once said st me in
    let same : on_event e st bus me ≡ me' = first ∙ rw (m) refl in
    let known : has_rung run'.id once me'.rung ≡ true =
      ap (λ id. has_rung id once me'.rung) i
      ∙ unfold rung_for in has_rung-remembered run.id once me.rung n in
    ap (on_event later st' bus') same
    ∙ on_event-cases later st' bus' me' kind' once said' run' r' g'
    ∙ rw (refused run' once bus' me' known) (sym same)
