-- ===== src/Tasks/Rounds/Sweeping.antt =====
-- The sweeper, the start of the core and the deletion of a chat (`sweep`, `reconcile` and `removed` of
-- features/tasks.py).
use jarvis.Prelude.{
  ℕ, ◌-◌, ◌*◌, Bool, true, false, ◌&&◌, Option, none, some, List, [], ◌∷◌, ◌++◌, Text, text, leb,
  if◌then◌else◌, is_some, or_else, any, last?,
}
use jarvis.Prelude.Dicts.{Dict, put, remove}
use jarvis.Proto.Runs
use jarvis.Proto.Runs.{Run}
use jarvis.Proto.Events.{
  RunEvent, run_resumed, tool_confirm_requested, tool_confirm_resolved, task_removed,
}
use jarvis.Proto.Tasks.{Task, TaskState, TaskWaiting, terminal, is_waiting}
use jarvis.Bus.{publish, EventBus}
use jarvis.Store.{get_run, list_events, micros}
use jarvis.Engine.Control
use jarvis.Tasks
use jarvis.Tasks.{TaskStore, claim_noted, everything}
use jarvis.Tasks.Wording.{truthy}
use jarvis.Tasks.Service.{Service, World, CallRow, save_task, save_and_publish}
use jarvis.Tasks.Reports.{owes_report}
use jarvis.Tasks.Reports.Ending.{end_task, report}
use jarvis.Tasks.Rounds.{stopped_by}
use jarvis.Tasks.Rounds.Ended.{round_ended, waiting_for}
use jarvis.Tasks.Rounds.Calls.{sweep_calls, start_noted}

unfoldable pub expired_note : World → ℕ → Text
unfolding text
expired_note w ttl =
    text "approval expired after "
    ++ w.hours ttl
    ++ text
        " h with no answer - re-read the source (the thread, the page) before you ask again, it may have changed"

-- An approval that nobody answered in time is turned down.
unfoldable pub turn_down : World → Task → TaskWaiting → ℕ → Service → Option Service
unfolding save_task expired_note text
turn_down w task wait at svc =
    let noted = record task { note = some (text "an approval expired unanswered") } in
    let svc' = save_task noted at svc in
    elim (Control.confirm wait.run_id wait.call_id false
      (some (expired_note w svc.settings.approval_ttl_s)) svc'.engine) [
        | none ↦ none
        | some (answered, eng) ↦ some (record svc' { engine = eng })
      ]

abbrev pub has_expired : ℕ → ℕ → TaskWaiting → Bool
has_expired ttl at wait = leb (ttl * micros) (at - wait.since)

unfoldable pub sweep_approvals : World → List Task → ℕ → Service → Option Service
unfolding turn_down
sweep_approvals w [] at svc = some svc
sweep_approvals w (task ∷ tasks) at svc = elim task.waiting [
  | none ↦ sweep_approvals w tasks at svc
  | some wait ↦
      if has_expired svc.settings.approval_ttl_s at wait
      then elim (turn_down w task wait at svc) [
        | none ↦ none
        | some svc' ↦ sweep_approvals w tasks at svc'
      ]
      else sweep_approvals w tasks at svc
]

unfoldable pub sweep : World → ℕ → Service → Option Service
unfolding sweep_calls sweep_approvals Tasks.list
sweep w at svc = elim (sweep_calls w svc.calls at svc) [
  | none ↦ none
  | some svc' ↦
      sweep_approvals w (Tasks.list (record everything { states = some is_waiting }) svc'.rows) at
        svc'
]

-- The questions of a run that are not answered, by call, in the order in which they were first asked.
unfoldable pub unanswered : Text → List RunEvent → Dict TaskWaiting → ℕ → Dict TaskWaiting
unfolding waiting_for
unanswered run_id [] asked now = asked
unanswered run_id (e ∷ es) asked now = elim e.body [
  | tool_confirm_requested call_id name arguments reason ↦
      unanswered run_id es
        (put call_id (waiting_for run_id call_id name arguments reason now) asked) now
  | tool_confirm_resolved call_id approved n ↦ unanswered run_id es (remove call_id asked) now
  | _ ↦ unanswered run_id es asked now
]

abbrev pub is_resumed : RunEvent → Bool
is_resumed e = elim e.body [ run_resumed n ↦ true | _ ↦ false ]

unfoldable pub mirror_waiting : Task → Run → ℕ → Service → Service
unfolding unanswered save_and_publish text
mirror_waiting task run now svc =
    let events = list_events run.id 0 svc.engine.store in
    elim (last? (unanswered run.id events [] now)) [
      | none ↦ svc
      | some (call_id, wait) ↦
          save_and_publish
            (record task {
              waiting = some wait;
              state = TaskState.waiting;
              note =
                  if any is_resumed events
                  then some (text "resumed after a restart of the core")
                  else task.note;
            })
            now svc
    ]

-- What a restart finds of one open task.
unfoldable pub reconcile_run : World → Task → Option Run → ℕ → Service → Option Service
unfolding end_task round_ended mirror_waiting text
reconcile_run w task none now svc =
    end_task w (stopped_by (text "its run was lost in a restart") task) TaskState.failed now svc
reconcile_run w task (some run) now svc =
    if Runs.terminal run.status
    then round_ended w task run none now svc
    else if Runs.is_waiting run.status
    then some (mirror_waiting task run now svc)
    else some svc

abbrev pub awaits_him : TaskState → Bool
awaits_him TaskState.noted = true
awaits_him TaskState.needs_input = true
awaits_him _ = false

unfoldable pub reconcile_all : World → List Task → ℕ → Service → Option Service
unfolding reconcile_run
reconcile_all w [] now svc = some svc
reconcile_all w (task ∷ tasks) now svc =
    elim (if awaits_him task.state then none else task.run_id) [
      | none ↦ reconcile_all w tasks now svc
      | some run_id ↦ elim (reconcile_run w task (get_run run_id svc.engine.store) now svc) [
        | none ↦ none
        | some svc' ↦ reconcile_all w tasks now svc'
      ]
    ]

unfoldable pub report_all : World → List Task → ℕ → Service → Option Service
unfolding owes_report report
report_all w [] now svc = some svc
report_all w (task ∷ tasks) now svc =
    elim (if owes_report task then report w task now svc else some svc) [
      | none ↦ none
      | some svc' ↦ report_all w tasks now svc'
    ]

-- The calls that have ended with tasks noted on them, each once.
unfoldable pub ended_with_notes : TaskStore → List CallRow → List Text
ended_with_notes rows [] = []
ended_with_notes rows (c ∷ cs) =
    let rest = ended_with_notes rows cs in
    if is_some c.ended_at && any (λ r. Tasks.noted_on c.id r.task) rows then c.id ∷ rest else rest

unfoldable pub start_calls : World → List Text → ℕ → Service → Option Service
unfolding start_noted
start_calls w [] now svc = some svc
start_calls w (id ∷ ids) now svc = elim (start_noted w id now svc) [
  | none ↦ none
  | some (started, svc') ↦ start_calls w ids now svc'
]

unfoldable pub open_calls : List CallRow → Dict ℕ → Dict ℕ
open_calls [] calls = calls
open_calls (c ∷ cs) calls =
    open_calls cs (if is_some c.ended_at then calls else put c.id c.last_seen_at calls)

unfoldable pub reconcile : World → ℕ → Service → Option Service
unfolding open_calls ended_with_notes start_calls reconcile_all report_all terminal Tasks.list
reconcile w now svc =
    let svc1 = record svc { calls = open_calls svc.call_rows svc.calls } in
    elim (start_calls w (ended_with_notes svc1.rows svc1.call_rows) now svc1) [
      | none ↦ none
      | some svc2 ↦
          elim (reconcile_all w (Tasks.list (record everything { open_only = true }) svc2.rows) now
            svc2) [
              | none ↦ none
              | some svc3 ↦
                  report_all w
                    (Tasks.list (record everything { states = some terminal; limit = 50 })
                      svc3.rows)
                    now svc3
            ]
    ]

-- The conversations of the tasks of a chat that is being deleted.
unfoldable pub conversations_of : List Task → List Text
conversations_of [] = []
conversations_of (t ∷ ts) =
    if truthy t.conversation_id
    then or_else t.conversation_id [] ∷ conversations_of ts
    else conversations_of ts

unfoldable pub tell_removed : List Task → EventBus → EventBus
tell_removed [] bus = bus
tell_removed (t ∷ ts) bus = tell_removed ts (publish (task_removed t.id) bus)

unfoldable pub removed : Text → Service → List Text × Service
unfolding conversations_of tell_removed Tasks.list
removed conversation_id svc =
    let tasks = Tasks.list (record everything { origin = some conversation_id }) svc.rows in
    (
      conversations_of tasks,
      record svc { engine = record svc.engine { bus = tell_removed tasks svc.engine.bus } },
    )
