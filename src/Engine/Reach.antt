-- ===== src/Engine/Reach.antt =====
-- Every engine that run_engine.py can get to: its operations, in any order and number, on an engine
-- that has just been made.
use jarvis.Prelude.{
  ℕ, ◌≡◌, refl, sym, ◌∙◌, subst, Bool, Option, none, some, List, [], ◌∷◌, Text, arith, Option-cases,
  inl, inr,
}
use jarvis.Prelude.Dicts.{get}
use jarvis.Proto.Runs.{Run}
use jarvis.Bus.{EventBus}
use jarvis.Store.{Store}
use jarvis.Engine.{Engine, new_engine, enqueue}
use jarvis.Engine.Books.{Books, enqueue-Books}
use jarvis.Engine.Control.{cancel, steer, set_call_me, confirm, set_task_gate, wake, stop}
use jarvis.Engine.Dispatch.{dispatch}
use jarvis.Engine.Dispatch.Order.{dispatch-Books}
use jarvis.Engine.Execute.{Outcome, begin, finish}
use jarvis.Engine.Same.{Books-Same, finish-Same, begin-Same, steer-Same}
use jarvis.Engine.Kept.{confirm-Books, set_call_me-Books, cancel-Books}

-- A call of the engine, or a stretch of a run's task. A call for a run that was just created hands it
-- to the queue; whoever else writes to the store or the bus is a `meanwhile`.
pub data Op : Type 0 where
  enqueued : Run → Bool → Op
  cancelled : Text → ℕ → Op
  steered : Text → Text → Bool → Op
  called_off : Text → Bool → Op
  confirmed : Text → Text → Bool → Option Text → Op
  gated : Option (ℕ → Bool) → Op
  woken : Op
  stopped : Op
  dispatched : Op
  began : Text → ℕ → Op
  finished : Run → Outcome → ℕ → Op
  meanwhile : Store → EventBus → Op

abbrev pub outcome_of : Option (Bool × Engine) → Option Engine
outcome_of none = none
outcome_of (some (b, eng)) = some eng

unfoldable pub operate : Op → Engine → Option Engine
operate (enqueued run resumed) eng = some (enqueue run resumed eng)
operate (cancelled id now) eng = outcome_of (cancel id now eng)
operate (steered id said by_owner) eng = some (steer id said by_owner eng).1
operate (called_off id on) eng = some (set_call_me id on eng).1
operate (confirmed id call_id approved said) eng = outcome_of (confirm id call_id approved said eng)
operate (gated gate) eng = some (set_task_gate gate eng)
operate woken eng = some (wake eng)
operate stopped eng = some (stop eng)
operate dispatched eng = some (dispatch eng)
operate (began id now) eng = begin id now eng
operate (finished run outcome now) eng = finish run outcome now eng
operate (meanwhile st bus) eng = some (record eng { store = st; bus = bus })

unfoldable pub operate_all : List Op → Engine → Option Engine
unfolding operate
operate_all [] eng = some eng
operate_all (op ∷ ops) eng = elim (operate op eng) [
  | none ↦ none
  | some eng' ↦ operate_all ops eng'
]

new_engine-Books : (st : Store) (bus : EventBus) (n : ℕ) → Books (new_engine st bus n)
unfolding new_engine get
new_engine-Books st bus n = record {
  keyed = λ id q h. cc;
  live = λ id q h. cc;
  entered = λ id h. cc;
  sorted = tt;
}

outcome_some :
    (r : Option (Bool × Engine)) (eng : Engine)
    → outcome_of r ≡ some eng
    → (b : Bool) × (r ≡ some (b, eng))
outcome_some none eng h = ground (arith, h)
outcome_some (some (b, eng')) eng h = (b, ground (arith, h))

operate-Books : (op : Op) (eng eng' : Engine) → Books eng → operate op eng ≡ some eng' → Books eng'
unfolding operate set_task_gate wake stop
operate-Books (enqueued run resumed) eng eng' k h =
    subst Books (ground (arith, h)) (enqueue-Books run resumed eng k)
operate-Books (cancelled id now) eng eng' k h =
    let (b, e) = outcome_some (cancel id now eng) eng' h in cancel-Books id now b eng eng' k e
operate-Books (steered id said by_owner) eng eng' k h =
    let s = steer-Same id said by_owner eng in
    subst Books (ground (arith, h)) (Books-Same eng (steer id said by_owner eng).1 k s.0 s.1)
operate-Books (called_off id on) eng eng' k h =
    subst Books (ground (arith, h)) (set_call_me-Books id on eng k)
operate-Books (confirmed id call_id approved said) eng eng' k h =
    let (b, e) = outcome_some (confirm id call_id approved said eng) eng' h in
    confirm-Books id call_id approved b said eng eng' k e
operate-Books (gated gate) eng eng' k h =
    subst Books (ground (arith, h)) (Books-Same eng (set_task_gate gate eng) k refl refl)
operate-Books woken eng eng' k h =
    subst Books (ground (arith, h)) (Books-Same eng (wake eng) k refl refl)
operate-Books stopped eng eng' k h =
    subst Books (ground (arith, h)) (Books-Same eng (stop eng) k refl refl)
operate-Books dispatched eng eng' k h = subst Books (ground (arith, h)) (dispatch-Books eng k)
operate-Books (began id now) eng eng' k h =
    let s = begin-Same id now eng eng' h in Books-Same eng eng' k s.0 s.1
operate-Books (finished run outcome now) eng eng' k h =
    let s = finish-Same run outcome now eng eng' h in Books-Same eng eng' k s.0 s.1
operate-Books (meanwhile st bus) eng eng' k h =
    subst Books (ground (arith, h))
      (Books-Same eng (record eng { store = st; bus = bus }) k refl refl)

operate_all_from :
    (ops : List Op) (eng eng' : Engine) → Books eng → operate_all ops eng ≡ some eng' → Books eng'
unfolding operate_all
operate_all_from [] eng eng' k h = subst Books (ground (arith, h)) k
operate_all_from (op ∷ ops) eng eng' k h = elim (Option-cases (operate op eng)) [
  | inl e ↦ ground (arith, h, e)
  | inr (mid, e) ↦
      operate_all_from ops mid eng' (operate-Books op eng mid k e)
        (sym (rw (e, operate_all) refl) ∙ h)
]

-- The books are in order in every engine that any of these calls lead to from a new one, whatever gate
-- holds tasks back and whatever else writes to the store meanwhile: each queued run stands under its own id, has not ended and has an entry in
-- the heap, so the dispatcher comes to it, and the heap is sorted by priority, age and id.
pub operate_all-Books :
    (ops : List Op) (st : Store) (bus : EventBus) (n : ℕ) (eng : Engine)
    → operate_all ops (new_engine st bus n) ≡ some eng
    → Books eng
operate_all-Books ops st bus n eng h =
    operate_all_from ops (new_engine st bus n) eng (new_engine-Books st bus n) h
