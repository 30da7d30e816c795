-- ===== src/CallMe/Gathering.antt =====
-- Whether a ring that is pending will be made (`_flush` and `_ring_later` of features/callme.py).
use jarvis.Prelude.{
  ◌≡◌, refl, ap, ◌∙◌, true, false, Option, some, List, [], ◌∷◌, ◌++◌, Text, is_nil,
}
use jarvis.Proto.Runs.{Run}
use jarvis.Proto.Events.{RunEvent}
use jarvis.Bus.{EventBus}
use jarvis.Store.{Store, get_run}
use jarvis.CallMe.{CallMe, Flush, RingKind, ring_of, may_ring, rung_for, on_event, gathered, rang}
use jarvis.CallMe.Once.{on_event-cases}

nil-append {ℓ} : {A : Type ℓ} (xs : List A) (y : A) → is_nil (xs ++ y ∷ []) ≡ false
nil-append [] y = refl
nil-append (x ∷ xs) y = refl

rung_for-pending :
    (run : Run) (kind : RingKind) (once : Text) (said : Option Text) (st : Store) (me : CallMe)
    → is_nil (rung_for run kind once said st me).pending ≡ false
unfolding rung_for
rung_for-pending run kind once said st me = nil-append me.pending _

-- A ring that comes while nothing is being rung is gathered, and made when the wait is over: the task
-- waits, and takes it with all that is pending.
pub on_event-gathers :
    (e : RunEvent) (st : Store) (bus : EventBus) (me : CallMe) (run : Run) (kind : RingKind)
    (once : Text) (said : Option Text)
    → ring_of e.body ≡ some (kind, once, said)
    → get_run e.run_id st ≡ some run
    → may_ring run once bus me ≡ true
    → me.flush ≡ Flush.idle
    → let me' = on_event e st bus me in
      (me'.flush ≡ Flush.gathering)
      × (is_nil (gathered me').0 ≡ false)
      × ((gathered me').1.flush ≡ Flush.ringing)
      × ((gathered me').1.pending ≡ [])
unfolding gathered
on_event-gathers e st bus me run kind once said r g m f =
    let same : on_event e st bus me ≡ rung_for run kind once said st me =
      on_event-cases e st bus me kind once said run r g ∙ rw (m) refl in
    let p =
      ap (λ (x : CallMe). is_nil x.pending) same ∙ rung_for-pending run kind once said st me in
    (ap (λ (x : CallMe). x.flush) same ∙ unfold rung_for in rw (f) refl, p, rw (p) refl, refl)

-- A ring that comes while another is being delivered is left behind: when the delivery returns it is
-- still pending, and no task is waiting to make it.
pub on_event-left_behind :
    (e : RunEvent) (st : Store) (bus : EventBus) (me : CallMe) (run : Run) (kind : RingKind)
    (once : Text) (said : Option Text)
    → ring_of e.body ≡ some (kind, once, said)
    → get_run e.run_id st ≡ some run
    → may_ring run once bus me ≡ true
    → me.flush ≡ Flush.ringing
    → let me' = on_event e st bus me in
      (me'.flush ≡ Flush.ringing)
      × ((rang me').flush ≡ Flush.idle)
      × (is_nil (rang me').pending ≡ false)
unfolding rang
on_event-left_behind e st bus me run kind once said r g m f =
    let same : on_event e st bus me ≡ rung_for run kind once said st me =
      on_event-cases e st bus me kind once said run r g ∙ rw (m) refl in
    (
      ap (λ (x : CallMe). x.flush) same ∙ unfold rung_for in rw (f) refl ∙ f,
      refl,
      ap (λ (x : CallMe). is_nil x.pending) same ∙ rung_for-pending run kind once said st me,
    )
