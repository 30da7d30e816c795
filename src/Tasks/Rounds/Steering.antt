-- ===== src/Tasks/Rounds/Steering.antt =====
-- Making a task, and steering it from the chat or the card (`create`, `asked_words`, `cancel`, `allow_tool`,
-- `steer` and `unreachable` of features/tasks.py).
pub mod Kept
use jarvis.Prelude.{
  ℕ, Bool, true, false, not, ◌&&◌, ◌||◌, Option, none, some, List, [], ◌∷◌, ◌++◌, map, Text, text,
  text_eq, if◌then◌else◌, is_some, or_else, any, keep, is_nil, strip, take,
}
use jarvis.Prelude.Dicts.{Dict, get, put}
use jarvis.Proto.Runs
use jarvis.Proto.Runs.{Run}
use jarvis.Proto.Messages.{Message}
use jarvis.Proto.Tasks.{
  Task, TaskState, TaskBrief, TaskWaiting, terminal, is_noted, is_waiting, is_dropped,
}
use jarvis.Proto.Settings.{TasksSettings, denies, frees}
use jarvis.Store.{Store, get_run, get_conversation}
use jarvis.Store.Conversations.{list_run_messages}
use jarvis.Engine.{Engine}
use jarvis.Engine.Control
use jarvis.Tasks
use jarvis.Tasks.{by_run}
use jarvis.Tasks.Evidence.{is_in}
use jarvis.Tasks.Service.{Service, World, save_task, save_and_publish, publish_task, fresh_id}
use jarvis.Tasks.Reports.Ending.{end_task, ended}
use jarvis.Tasks.Rounds.{start, stopped_by, is_user}
use jarvis.Tasks.Rounds.Ended.{words_of}

-- His own words in a run, as stored.
unfoldable pub asked_words : Text → Store → List Text
unfolding strip
asked_words run_id st =
    map (λ (m : Message). m.content)
      (keep
        (λ (m : Message). is_user m.role && not (is_some m.name) && not (is_nil (strip m.content)))
        (list_run_messages run_id st))

unfoldable pub title_for : Text → Text
unfolding strip text
title_for title = let short = take 80 (strip title) in if is_nil short then text "Task" else short

unfoldable pub new_task : Text → Run → Text → TaskBrief → TaskState → Bool → ℕ → Task
unfolding title_for
new_task id run title brief state incognito now = record {
  id = id;
  title = title_for title;
  state = state;
  brief = brief;
  origin_conversation_id = run.conversation_id;
  origin_run_id = some run.id;
  call_id = if is_noted state then run.call_id else none;
  conversation_id = none;
  run_id = none;
  depth = 0;
  outcome = none;
  waiting = none;
  report_message_id = none;
  incognito = incognito;
  note = none;
  created_at = now;
  started_at = none;
  finished_at = none;
  updated_at = now;
}

-- A task is as private as the chat that asked for it.
unfoldable pub is_private : Text → Store → Bool
unfolding get_conversation
is_private conversation_id st = elim (get_conversation conversation_id st) [
  | none ↦ false
  | some c ↦ c.incognito
]

-- The task of the key, and whether it was made now.
unfoldable pub create :
    World → Run → Text → Text → TaskBrief → TaskState → ℕ → Service → Option (Task × Bool × Service)
unfolding fresh_id new_task is_private Tasks.create publish_task
create w run origin_key title brief state now svc =
    let (id, svc1) = fresh_id w svc in
    let private = is_private run.conversation_id svc1.engine.store in
    let (stored, rows) =
      Tasks.create (new_task id run title brief state private now) origin_key svc1.rows in
    let svc2 = record svc1 { rows = rows } in
    elim stored [
      | none ↦ none
      | some task ↦
          let made = text_eq task.id id in
          some (task, made, if made then publish_task task svc2 else svc2)
    ]

-- A task of which a needed machine is down says so when it ends.
unfoldable pub unreachable : Text → Text → Text → ℕ → Service → Bool × Service
unfolding by_run save_task
unreachable run_id namespace reason now svc = elim (by_run run_id svc.rows) [
  | none ↦ (false, svc)
  | some task ↦
      if is_in namespace task.brief.needs
      then (true, save_task (stopped_by reason task) now svc)
      else (false, svc)
]

unfoldable pub working_run : Task → Store → Option Run
unfolding get_run
working_run task st = elim task.run_id [
  | none ↦ none
  | some id ↦ elim (get_run id st) [
    | none ↦ none
    | some run ↦ if Runs.terminal run.status then none else some run
  ]
]

unfoldable pub cancel_run : Text → ℕ → Service → Option Service
unfolding Control.cancel
cancel_run run_id now svc = elim (Control.cancel run_id now svc.engine) [
  | none ↦ none
  | some (done, eng) ↦ some (record svc { engine = eng })
]

-- A noted task is dropped, a working one is cancelled by its run's end, any other ends now.
unfoldable pub cancel : World → Text → ℕ → Service → Option Service
unfolding terminal end_task cancel_run working_run text
cancel w task_id now svc = elim (Tasks.get task_id svc.rows) [
  | none ↦ some svc
  | some task ↦
      if terminal task.state
      then some svc
      else if is_noted task.state
      then end_task w (record task { note = some (text "dropped before it started") })
          TaskState.dropped now svc
      else elim (working_run task svc.engine.store) [
        | some run ↦ cancel_run run.id now svc
        | none ↦
            end_task w (stopped_by (text "cancelled by Arsen") task) TaskState.cancelled now svc
      ]
]

-- Why a tool is not let into tasks by its approval card.
pub data AllowRefusal : Type 0 where
  no_such_task not_waiting_on_it never_offered : AllowRefusal

abbrev pub awaits : Text → Option TaskWaiting → Option TaskWaiting
awaits call_id none = none
awaits call_id (some w) = if text_eq w.call_id call_id then some w else none

-- The tool joins those that need no approval in tasks.
unfoldable pub with_tool : Text → TasksSettings → TasksSettings
unfolding frees
with_tool name s = if frees s name then s else record s { no_approval = s.no_approval ++ name ∷ [] }

unfoldable pub with_engine :
    TasksSettings → Service → Option (Bool × Engine) → Option (Option AllowRefusal × Service)
with_engine s svc none = none
with_engine s svc (some (answered, eng)) = some (none, record svc { settings = s; engine = eng })

-- The call goes ahead, and its tool needs no approval in tasks from now on.
unfoldable pub allow_waiting : TaskWaiting → Service → Option (Option AllowRefusal × Service)
unfolding denies with_tool with_engine Control.confirm text
allow_waiting wait svc =
    if denies svc.settings wait.name
    then some (some AllowRefusal.never_offered, svc)
    else with_engine (with_tool wait.name svc.settings) svc (
        Control.confirm wait.run_id wait.call_id true
          (some (text "always allowed in tasks from now on")) svc.engine)

unfoldable pub allow_tool : Text → Text → Service → Option (Option AllowRefusal × Service)
unfolding allow_waiting
allow_tool task_id call_id svc = elim (Tasks.get task_id svc.rows) [
  | none ↦ some (some AllowRefusal.no_such_task, svc)
  | some task ↦
      if not (is_waiting task.state)
      then some (some AllowRefusal.not_waiting_on_it, svc)
      else elim (awaits call_id task.waiting) [
        | none ↦ some (some AllowRefusal.not_waiting_on_it, svc)
        | some wait ↦ allow_waiting wait svc
      ]
]

abbrev pub asked_more : Text → Task → Task
asked_more said task = record task {
  brief = record task.brief { asked = task.brief.asked ++ said ∷ [] };
}

-- Into the working run where there is one: whether it took the words.
unfoldable pub steer_run : Task → Text → Service → Bool × Service
unfolding Control.steer
steer_run task said svc = elim task.run_id [
  | none ↦ (false, svc)
  | some run_id ↦
      let (taken, eng) = Control.steer run_id said true svc.engine in
      if taken
      then (
        true,
        record svc {
          engine = eng;
          steered = put task.id (words_of task.id svc.steered ++ said ∷ []) svc.steered;
        },
      )
      else (false, svc)
]

unfoldable pub steer : World → Text → Text → ℕ → Service → Option Service
unfolding strip save_and_publish steer_run start
steer w task_id said now svc = elim (Tasks.get task_id svc.rows) [
  | none ↦ some svc
  | some task ↦
      if is_nil (strip said) || is_dropped task.state
      then some svc
      else if is_noted task.state
      then some (save_and_publish (asked_more (strip said) task) now svc)
      else let (taken, svc') = steer_run task (strip said) svc in
        if taken then some svc' else elim (start w task (some (strip said)) now svc') [
          | none ↦ none
          | some (task', svc'') ↦ some svc''
        ]
]
