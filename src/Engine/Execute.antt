-- ===== src/Engine/Execute.antt =====
-- The life of a run task in run_engine.py: what `AgentLoop.run` (engine/loop.py) does first, and what
-- `_execute` makes of the way in which the loop ends. The loop between the two is an outcome here,
-- and of `_after_run` the titler, which only renames the chat, and the hooks on a finished run are left
-- out: the features' own, of which Tasks/Reports has that of tasks (`after_run`) and CallMe the calls.
pub mod Outcomes
use jarvis.Prelude.{
  ℕ, Bool, true, false, not, ◌&&◌, Option, none, some, List, [], ◌∷◌, ◌++◌, Text, text, is_some,
  or_else, if◌then◌else◌,
}
use jarvis.Prelude.Dicts.{get, put, remove}
use jarvis.Proto.Runs.{Run, RunStatus, terminal, is_waiting, is_task}
use jarvis.Proto.Events.{
  Body, run_started, run_resumed, run_cancelled, run_failed, run_interrupted, run_updated,
  conversation_updated,
}
use jarvis.Bus.{EventBus, publish, has_subscribers}
use jarvis.Store.{Store, save_run, get_conversation}
use jarvis.Store.Conversations.{update_conversation, new_unread}
use jarvis.Emit.{emit}
use jarvis.Control.{RunControl}
use jarvis.Engine.{Engine}
use jarvis.Engine.Control.{save_and_emit}

-- The run object as the loop takes it up.
unfoldable pub begun : ℕ → Run → Run
begun now run = record run {
  status = RunStatus.running;
  started_at = some (or_else run.started_at now);
  waiting_reason = none;
}

unfoldable pub begin_body : Bool → Run → Body
begin_body true run = run_resumed run.last_seq
begin_body false run = run_started

-- The task's first stretch, up to its first event.
unfoldable pub begin : Text → ℕ → Engine → Option Engine
unfolding begun begin_body save_and_emit
begin run_id now eng = elim (get run_id eng.active) [
  | none ↦ some eng
  | some ctl ↦ elim (save_and_emit (begun now ctl.run) (begin_body ctl.resumed ctl.run) eng) [
    | none ↦ none
    | some (run, eng') ↦
        some (record eng' { active = put run_id (record ctl { run = run }) eng'.active })
  ]
]

-- How `AgentLoop.run` ends. A cancel carries its partial message, and what `wrap_up_cancelled` gives;
-- an error carries the text that is kept.
pub data Outcome : Type 0 where
  returned : Outcome
  was_cancelled : Option Text → Option Text → Outcome
  shutdown : Outcome
  model_error : Text → Outcome
  crashed : Text → Text → Outcome

-- `_fail`
unfoldable pub fail : Run → Text → ℕ → Engine → Option (Run × Engine)
unfolding save_and_emit
fail run error now eng =
    save_and_emit
      (record run { status = RunStatus.failed; error = some error; finished_at = some now })
      (run_failed error) eng

-- A cancelled task reports the work it got to.
unfoldable pub partial_of : Run → Option Text → Option Text → Option Text
partial_of run partial wrap =
    if is_task run.kind then (if is_some wrap then wrap else partial) else partial

-- The `try` and its handlers: the run as they leave it.
unfoldable pub settle : Run → Outcome → ℕ → Engine → Option (Run × Engine)
unfolding fail partial_of save_and_emit text
settle run returned now eng = some (run, eng)
settle run (was_cancelled partial wrap) now eng =
    save_and_emit (record run { status = RunStatus.cancelled; finished_at = some now })
      (run_cancelled (partial_of run partial wrap)) eng
settle run shutdown now eng =
    if is_waiting run.status
    then some (run, eng)
    else save_and_emit (record run { status = RunStatus.interrupted }) run_interrupted eng
settle run (model_error message) now eng = fail run (text "model: " ++ message) now eng
settle run (crashed name message) now eng = fail run (name ++ text ": " ++ message) now eng

unfoldable pub marks_unread : Run → Engine → Bool
marks_unread run eng =
    terminal run.status
    && not (is_task run.kind)
    && not (has_subscribers run.conversation_id eng.bus)

-- The conversation and the run announced, once the run is out of the books.
unfoldable pub after_run : Run → ℕ → Engine → Engine
unfolding marks_unread
after_run run now eng =
    let (conv, st) =
      if marks_unread run eng
      then update_conversation run.conversation_id (new_unread true ∷ []) now eng.store
      else (get_conversation run.conversation_id eng.store, eng.store) in
    let bus : EventBus = elim conv [
      | none ↦ eng.bus
      | some c ↦ publish (conversation_updated c) eng.bus
    ] in
    record eng { store = st; bus = publish (run_updated run) bus }

-- The `finally`: the run leaves the books, whatever happened.
unfoldable pub leave : Run → ℕ → Engine → Engine
unfolding after_run
leave run now eng = record (after_run run now (record eng { active = remove run.id eng.active })) {
  wake = true;
}

-- The end of a task, given the run object as the loop left it.
unfoldable pub finish : Run → Outcome → ℕ → Engine → Option Engine
unfolding settle leave
finish run outcome now eng = elim (settle run outcome now eng) [
  | none ↦ none
  | some (run', eng') ↦ some (leave run' now eng')
]
