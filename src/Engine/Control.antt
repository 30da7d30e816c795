-- ===== src/Engine/Control.antt =====
-- The public operations of run_engine.py on runs that exist (cancel, steer, set_call_me and confirm), and
-- those on the dispatcher.
-- `none` is an IntegrityError out of the store.
pub mod Saving
pub mod Laws
use jarvis.Prelude.{
  ℕ, Bool, true, false, not, ◌&&◌, ◌||◌, Option, none, some, List, [], ◌∷◌, ◌++◌, Text, text_eq,
  if◌then◌else◌, keep, is_nil, strip,
}
use jarvis.Prelude.Dicts.{get, put, remove}
use jarvis.Proto.Runs.{Run, RunStatus, terminal, is_waiting}
use jarvis.Proto.Events.{Body, run_cancelled, tool_confirm_resolved, run_updated}
use jarvis.Bus.{publish}
use jarvis.Store.{get_run, save_run}
use jarvis.Emit.{emit}
use jarvis.Control.{RunControl, resolve_confirmation}
use jarvis.Engine.{Engine, Queued, enqueue}

unfoldable pub set_task_gate : Option (ℕ → Bool) → Engine → Engine
set_task_gate gate eng = record eng { task_gate = gate }

unfoldable pub wake : Engine → Engine
wake eng = record eng { wake = true }

-- The beginning of `stop`: from here on the dispatcher starts nothing. The tasks that it cancels then end
-- one by one, each by its own `finish`.
unfoldable pub stop : Engine → Engine
stop eng = record eng { stopping = true }

-- Save the run, then emit one event of it: the run as it is after that, and the engine.
unfoldable pub save_and_emit : Run → Body → Engine → Option (Run × Engine)
save_and_emit run body eng = elim (emit run body (save_run run eng.store) eng.bus) [
  | none ↦ none
  | some (run', st, bus) ↦ some (run', record eng { store = st; bus = bus })
]

abbrev pub cancelled_at : ℕ → Run → Run
cancelled_at now run = record run { status = RunStatus.cancelled; finished_at = some now }

unfoldable pub end_cancelled : Run → ℕ → Engine → Option (Bool × Engine)
unfolding save_and_emit
end_cancelled run now eng = elim (save_and_emit (cancelled_at now run) (run_cancelled none) eng) [
  | none ↦ none
  | some (run', eng') ↦ some (true, eng')
]

-- A run that is working is asked to stop, and ends when its task has seen it.
unfoldable pub ask_cancel : Text → RunControl → Engine → Engine
ask_cancel run_id ctl eng =
    let run = record ctl.run { status = RunStatus.cancelling } in
    record eng {
      store = save_run run eng.store;
      bus = publish (run_updated run) eng.bus;
      active = put run_id (record ctl { run = run; cancel = true }) eng.active;
    }

unfoldable pub cancel_parked : Option Run → ℕ → Engine → Option (Bool × Engine)
unfolding end_cancelled
cancel_parked none now eng = some (false, eng)
cancel_parked (some run) now eng =
    if is_waiting run.status then end_cancelled run now eng else some (false, eng)

unfoldable pub cancel : Text → ℕ → Engine → Option (Bool × Engine)
unfolding end_cancelled ask_cancel cancel_parked
cancel run_id now eng = elim (get run_id eng.queued) [
  | some q ↦ end_cancelled q.run now (record eng {
    queued = remove run_id eng.queued;
    heap = keep (λ h. not (text_eq h.run_id run_id)) eng.heap;
  })
  | none ↦ elim (get run_id eng.active) [
    | none ↦ cancel_parked (get_run run_id eng.store) now eng
    | some ctl ↦ some (true, ask_cancel run_id ctl eng)
  ]
]

unfoldable pub steer : Text → Text → Bool → Engine → Bool × Engine
steer run_id said by_owner eng = elim (get run_id eng.active) [
  | none ↦ (false, eng)
  | some ctl ↦ if terminal ctl.run.status || is_nil (strip said) then (false, eng) else (
    true,
    record eng {
      active =
          put run_id
            (record ctl {
              steers = ctl.steers ++ strip said ∷ [];
              steered_by_other = not by_owner || ctl.steered_by_other;
            })
            eng.active;
    },
  )
]

unfoldable pub steered_by_other : Text → Engine → Bool
steered_by_other run_id eng = elim (get run_id eng.active) [
  | none ↦ false
  | some ctl ↦ ctl.steered_by_other
]

abbrev pub ring : Bool → Run → Run
ring on run = record run { call_me = on; call_me_default = false }

-- Saved and announced.
unfoldable pub tell : Run → Engine → Engine
tell run eng = record eng {
  store = save_run run eng.store;
  bus = publish (run_updated run) eng.bus;
}

-- The live object is changed where there is one, and the row in any case.
unfoldable pub set_call_me : Text → Bool → Engine → Bool × Engine
unfolding tell
set_call_me run_id on eng = elim (get run_id eng.active) [
  | some ctl ↦ if terminal ctl.run.status then (false, eng) else (
    true,
    tell (ring on ctl.run)
        (record eng { active = put run_id (record ctl { run = ring on ctl.run }) eng.active }),
  )
  | none ↦ elim (get run_id eng.queued) [
    | some q ↦ if terminal q.run.status then (false, eng) else (
      true,
      tell (ring on q.run)
          (record eng { queued = put run_id (record q { run = ring on q.run }) eng.queued }),
    )
    | none ↦ elim (get_run run_id eng.store) [
      | none ↦ (false, eng)
      | some run ↦ if terminal run.status then (false, eng) else (true, tell (ring on run) eng)
    ]
  ]
]

-- The run is parked and the engine no longer holds its question: the answer is recorded as an event,
-- and the run is queued again.
unfoldable pub confirm_parked : Option Run → Body → Engine → Option (Bool × Engine)
confirm_parked none body eng = some (false, eng)
confirm_parked (some run) body eng =
    if not (is_waiting run.status)
    then some (false, eng)
    else elim (emit run body eng.store eng.bus) [
      | none ↦ none
      | some (run', st, bus) ↦
          some (true, enqueue run' true (record eng { store = save_run run' st; bus = bus }))
    ]

-- The live question first.
unfoldable pub answer_live :
    Text → Text → Bool → Option Text → Option RunControl → Engine → Bool × Engine
answer_live run_id call_id approved _ none eng = (false, eng)
answer_live run_id call_id approved n (some ctl) eng =
    let (done, ctl') = resolve_confirmation call_id approved n ctl in
    if done then (true, record eng { active = put run_id ctl' eng.active }) else (false, eng)

unfoldable pub confirm : Text → Text → Bool → Option Text → Engine → Option (Bool × Engine)
unfolding confirm_parked answer_live
confirm run_id call_id approved note eng =
    let (answered, eng') = answer_live run_id call_id approved note (get run_id eng.active) eng in
    if answered
    then some (true, eng')
    else confirm_parked (get_run run_id eng.store) (tool_confirm_resolved call_id approved note) eng
