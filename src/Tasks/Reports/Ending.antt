-- ===== src/Tasks/Reports/Ending.antt =====
-- How a task ends and when its report is written (`_end`, `_report`, `_settle_call` and `after_run` of
-- features/tasks.py).
use jarvis.Prelude.{
  ℕ, Bool, true, false, not, ◌&&◌, Option, none, some, List, [], ◌∷◌, Text, text_eq, if◌then◌else◌,
  is_some,
}
use jarvis.Proto.Runs.{Run}
use jarvis.Proto.Tasks.{Task, TaskState, terminal, settled}
use jarvis.Store.{get_conversation}
use jarvis.Engine.{working_run_in}
use jarvis.Tasks
use jarvis.Tasks.{claim_report}
use jarvis.Tasks.Wording.{truthy}
use jarvis.Tasks.Service.{Service, World, save_and_publish, fresh_id, with_member, without}
use jarvis.Tasks.Reports.{owes_report, write_report}
use jarvis.Tasks.Reports.AfterCall.{call_report}

-- While a run works in the chat that asked, a report waits for it to end.
unfoldable pub is_busy : Task → Service → Bool
unfolding working_run_in
is_busy task svc = is_some (working_run_in task.origin_conversation_id svc.engine)

unfoldable pub defer : Task → Service → Service
unfolding with_member
defer task svc = record svc { deferred = with_member task.id svc.deferred }

-- The report of one task, once the right to write it is granted.
unfoldable pub own_report : World → Task → ℕ → Service → Option Service
unfolding fresh_id claim_report write_report
own_report w task now svc =
    let (report_id, svc1) = fresh_id w svc in
    let (granted, rows) = claim_report task.id report_id svc1.rows in
    let (note_id, svc2) = fresh_id w (record svc1 { rows = rows }) in
    if granted
    then write_report w task report_id note_id now svc2
    else some (record svc1 { rows = rows })

-- The task's own report, unless the call's is already seen to.
unfoldable pub if_taken : Option (Bool × Service) → (Service → Option Service) → Option Service
if_taken none own = none
if_taken (some (taken, svc)) own = if taken then some svc else own svc

unfoldable pub report : World → Task → ℕ → Service → Option Service
unfolding owes_report is_busy defer get_conversation call_report own_report if_taken
report w task now svc =
    if not (owes_report task)
    then some svc
    else if is_busy task svc
    then some (defer task svc)
    else if not (is_some (get_conversation task.origin_conversation_id svc.engine.store))
    then some svc
    else if_taken (if truthy task.call_id then call_report w task now svc else some (false, svc))
        (own_report w task now)

unfoldable pub settle_call : World → Task → ℕ → Service → Option Service
unfolding is_busy defer call_report
settle_call w task now svc =
    if is_busy task svc
    then some (defer task svc)
    else elim (call_report w task now svc) [ none ↦ none | some (taken, svc') ↦ some svc' ]

abbrev pub ended : TaskState → ℕ → Task → Task
ended state now task = record task { state = state; finished_at = some now; waiting = none }

unfoldable pub wake : Service → Service
wake svc = record svc { engine = record svc.engine { wake = true } }

unfoldable pub woken : Option Service → Option Service
unfolding wake
woken none = none
woken (some svc) = some (wake svc)

-- The task is over: saved, announced, and reported if a report is owed.
unfoldable pub end_task : World → Task → TaskState → ℕ → Service → Option Service
unfolding save_and_publish report woken
end_task w task state now svc =
    woken (report w (ended state now task) now (save_and_publish (ended state now task) now svc))

-- A run has ended: the reports that waited for its chat to fall quiet go in.
unfoldable pub after_one : World → Run → Text → ℕ → Service → Option Service
unfolding without terminal settled report settle_call
after_one w run task_id now svc = elim (Tasks.get task_id svc.rows) [
  | none ↦ some svc
  | some task ↦
      if not (text_eq task.origin_conversation_id run.conversation_id)
      then some svc
      else let svc' = record svc { deferred = without task_id svc.deferred } in
        if terminal task.state
        then report w task now svc'
        else if truthy task.call_id && settled task.state
        then settle_call w task now svc'
        else some svc'
]

unfoldable pub after_all : World → Run → List Text → ℕ → Service → Option Service
unfolding after_one
after_all w run [] now svc = some svc
after_all w run (id ∷ ids) now svc = elim (after_one w run id now svc) [
  | none ↦ none
  | some svc' ↦ after_all w run ids now svc'
]

unfoldable pub after_run : World → Run → ℕ → Service → Option Service
unfolding after_all
after_run w run now svc = after_all w run svc.deferred now svc
