-- ===== src/Engine/Boot.antt =====
-- `_resume_on_boot` of run_engine.py, on an engine with nothing in its books yet.
pub mod Rows
pub mod Interrupt
pub mod Queue
pub mod Complete
use jarvis.Prelude.{
  Bool, true, false, Option, none, some, List, [], ◌∷◌, Text, is_some, if◌then◌else◌,
}
use jarvis.Prelude.Dicts.{get}
use jarvis.Proto.Runs.{Run, RunStatus, is_interrupted}
use jarvis.Proto.Events.{run_interrupted}
use jarvis.Store.{runs_with_status}
use jarvis.Engine.{Engine, enqueue}
use jarvis.Engine.Control.{save_and_emit}

unfoldable pub was_working : RunStatus → Bool
was_working RunStatus.running = true
was_working RunStatus.cancelling = true
was_working _ = false

unfoldable pub was_waiting_its_turn : RunStatus → Bool
was_waiting_its_turn RunStatus.queued = true
was_waiting_its_turn RunStatus.interrupted = true
was_waiting_its_turn _ = false

-- The first loop: what was working is marked interrupted, and queued as resumed.
unfoldable pub interrupt_all : List Run → Engine → Option Engine
unfolding save_and_emit
interrupt_all [] eng = some eng
interrupt_all (run ∷ runs) eng =
    elim (save_and_emit (record run { status = RunStatus.interrupted }) run_interrupted eng) [
      | none ↦ none
      | some (run', eng') ↦ interrupt_all runs (enqueue run' true eng')
    ]

-- The second loop: what is queued or interrupted in the table, unless the first loop took it.
unfoldable pub queue_all : List Run → Engine → Engine
queue_all [] eng = eng
queue_all (run ∷ runs) eng =
    queue_all runs
      (if is_some (get run.id eng.queued) then eng else enqueue run (is_interrupted run.status) eng)

unfoldable pub resume_on_boot : Engine → Option Engine
unfolding interrupt_all queue_all was_working was_waiting_its_turn
resume_on_boot eng = elim (interrupt_all (runs_with_status was_working eng.store) eng) [
  | none ↦ none
  | some eng' ↦ some (queue_all (runs_with_status was_waiting_its_turn eng'.store) eng')
]
