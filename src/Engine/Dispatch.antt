-- ===== src/Engine/Dispatch.antt =====
-- The dispatcher of run_engine.py. Nothing in its loop awaits, so one wake-up is one step.
pub mod Loop
pub mod Order
pub mod Slots
pub mod Begun
pub mod Calls
pub mod Fate
use jarvis.Prelude.{
  ℕ, suc, Bool, true, false, not, ◌&&◌, ◌||◌, Option, none, some, List, [], ◌∷◌, ◌++◌, Text, ltb,
  if◌then◌else◌, insert_by,
}
use jarvis.Prelude.Dicts.{get, put, remove}
use jarvis.Proto.Runs.{Run, is_voice, is_task}
use jarvis.Control.{new_control}
use jarvis.Engine.{
  Engine, Entry, Queued, entry_le, beside_a_call, on_a_call, running_count, running_tasks,
}

-- Nothing starts beside a call but what is typed, and the system's own runs.
unfoldable pub held_by_call : Run → Engine → Bool
held_by_call run eng = not (is_voice run.channel) && not (beside_a_call run.kind) && on_a_call eng

-- A task waits on a rule of its own.
unfoldable pub held_by_gate : Run → Engine → Bool
held_by_gate run eng =
    is_task run.kind
    && elim eng.task_gate [ none ↦ false | some gate ↦ not (gate (running_tasks none eng)) ]

unfoldable pub start_run : Queued → Engine → Engine
unfolding new_control
start_run q eng = record eng { active = put q.run.id (new_control q.run q.resumed) eng.active }

-- One entry taken off the heap: the entries that are held back with it, and the engine.
unfoldable pub consider : Entry → Option Queued → List Entry → Engine → List Entry × Engine
unfolding held_by_call held_by_gate start_run
consider e none held eng = (held, eng)
consider e (some q) held eng =
    let popped = record eng { queued = remove e.run_id eng.queued } in
    if held_by_call q.run eng || held_by_gate q.run eng
    then (held ++ e ∷ [], record eng { queued = put e.run_id q popped.queued })
    else (held, start_run q popped)

unfoldable pub may_start : Engine → Bool
may_start eng = ltb (running_count eng) eng.max && not eng.stopping

-- The inner `while`, on the heap that is left: what stays in the heap, what is held, the engine.
unfoldable pub start_loop : List Entry → List Entry → Engine → List Entry × List Entry × Engine
unfolding consider may_start
start_loop [] held eng = ([], held, eng)
start_loop (e ∷ heap) held eng = elim (may_start eng) [
  | false ↦ (e ∷ heap, held, eng)
  | true ↦
      start_loop heap (consider e (get e.run_id eng.queued) held eng).0
        (consider e (get e.run_id eng.queued) held eng).1
]

unfoldable pub push_all : List Entry → List Entry → List Entry
unfolding entry_le
push_all [] heap = heap
push_all (e ∷ held) heap = push_all held (insert_by entry_le e heap)

-- One round of the outer loop, after the wake-up.
unfoldable pub dispatch : Engine → Engine
unfolding start_loop push_all
dispatch eng =
    let (heap, held, eng') = start_loop eng.heap [] (record eng { wake = false }) in
    record eng' { heap = push_all held heap }
