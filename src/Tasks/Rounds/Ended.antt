-- ===== src/Tasks/Rounds/Ended.antt =====
-- What the end of a run makes of its task, and the other events of the run (`_round_ended`, `on_event` and
-- `_unread_steers` of features/tasks.py).
pub mod Fate
use jarvis.Prelude.{
  ℕ, Bool, true, false, not, ◌&&◌, ◌||◌, Option, none, some, List, [], ◌∷◌, ◌++◌, map, Text, text,
  text_eq, if◌then◌else◌, is_some, or_else, any, keep, is_nil, strip, join,
}
use jarvis.Prelude.Dicts.{Dict, get, remove}
use jarvis.Proto.Runs.{Run, RunStatus, is_done}
use jarvis.Proto.Messages.{Message}
use jarvis.Proto.Events.{
  RunEvent, Body, run_started, run_resumed, run_waiting_user, run_done, run_failed, run_cancelled,
  tool_confirm_requested, tool_confirm_resolved,
}
use jarvis.Proto.Tasks.{
  Task, TaskState, TaskOutcome, TaskWaiting, DodResult, is_under_way, is_waiting, terminal,
}
use jarvis.Store.{Store, get_run}
use jarvis.Store.Conversations.{list_run_messages}
use jarvis.Tasks.{by_run, opt_eq}
use jarvis.Tasks.Evidence.{ledger_of, judge, state_of, is_in}
use jarvis.Tasks.Wording.{truthy, blank_line}
use jarvis.Tasks.Service.{
  Service, World, save_task, save_and_publish, publish_task, push_notice, without,
}
use jarvis.Tasks.Reports.Ending.{end_task, settle_call}
use jarvis.Tasks.Rounds.{start, outcome_of, is_user}

abbrev pub words_of : Text → Dict (List Text) → List Text
words_of id steered = or_else (get id steered) []

-- The words steered into the run that it never read; they are forgotten here.
unfoldable pub unread_steers : Task → Run → Service → List Text × Service
unfolding strip
unread_steers task run svc =
    let read =
      map (λ (m : Message). strip m.content)
        (keep (λ (m : Message). is_user m.role) (list_run_messages run.id svc.engine.store)) in
    (
      keep (λ t. not (is_in t read)) (words_of task.id svc.steered),
      record svc { steered = remove task.id svc.steered },
    )

-- A task with an outcome that says how the round went.
abbrev pub with_outcome : TaskOutcome → Task → Task
with_outcome o task = record task { outcome = some o }

unfoldable pub cancelled_outcome : World → Task → Service → TaskOutcome
unfolding judge ledger_of text
cancelled_outcome w task svc =
    let o = outcome_of task in
    record o {
      stopped_reason = some (
          if truthy o.stopped_reason
          then or_else o.stopped_reason []
          else text "cancelled by Arsen");
      dod =
          judge w.arguments_of task.brief (if o.finished then o.dod else [])
            (ledger_of svc.engine.store svc.attachments task);
    }

unfoldable pub failed_outcome : Task → Run → TaskOutcome
unfolding text
failed_outcome task run = record (outcome_of task) {
  stopped_reason = some (if truthy run.error then or_else run.error [] else text "the run failed");
}

-- It asked him something; his answer continues it.
unfoldable pub ask_him : World → Task → ℕ → Service → Option Service
unfolding save_and_publish push_notice settle_call text
ask_him w task now svc =
    let o = outcome_of task in
    let asks = record (with_outcome o task) { state = TaskState.needs_input } in
    let svc' =
      push_notice asks (text "Task needs your answer · " ++ task.title) (or_else o.question [])
        (save_and_publish asks now svc) in
    if truthy task.call_id then settle_call w asks now svc' else some svc'

-- Whether the task has said how it went, in this round or an earlier one.
unfoldable pub has_said : TaskOutcome → Bool
has_said o = o.finished || any (λ (d : DodResult). is_some d.met) o.dod

-- The outcome of a round that ended by itself, and the state that it leaves the task in.
unfoldable pub judged : World → Task → Option Text → Service → TaskOutcome × TaskState
unfolding has_said judge ledger_of state_of text
judged w task summary svc =
    let o = outcome_of task in
    let ledger = ledger_of svc.engine.store svc.attachments task in
    let dod = judge w.arguments_of task.brief o.dod ledger in
    if has_said o then (record o { dod = dod }, state_of dod) else (
      record o {
        dod = judge w.arguments_of task.brief [] ledger;
        stopped_reason = some (
            if truthy o.stopped_reason
            then or_else o.stopped_reason []
            else if truthy summary
            then or_else summary []
            else text "it ended without reporting on its DoD");
      },
      TaskState.not_done,
    )

abbrev pub is_cancelled : RunStatus → Bool
is_cancelled RunStatus.cancelled = true
is_cancelled _ = false

abbrev pub is_failed : RunStatus → Bool
is_failed RunStatus.failed = true
is_failed _ = false

-- The task, its run that ended and the words that it did not read.
unfoldable pub conclude :
    World → Task → Run → Option Text → List Text → ℕ → Service → Option Service
unfolding cancelled_outcome failed_outcome ask_him judged end_task start join
conclude w task run summary unread now svc =
    let o = outcome_of task in
    if is_cancelled run.status
    then end_task w (with_outcome (cancelled_outcome w task svc) task) TaskState.cancelled now svc
    else if not (is_nil unread) && is_done run.status && not o.finished
    then elim (start w task (some (join blank_line unread)) now svc) [
      | none ↦ none
      | some (task', svc') ↦ some svc'
    ]
    else if is_failed run.status
    then end_task w (with_outcome (failed_outcome task run) task) TaskState.failed now svc
    else if truthy o.question && not o.finished
    then ask_him w task now svc
    else let (o', state) = judged w task summary svc in
      end_task w (with_outcome o' task) state now svc

unfoldable pub round_ended : World → Task → Run → Option Text → ℕ → Service → Option Service
unfolding terminal unread_steers without conclude
round_ended w task run summary now svc =
    if terminal task.state || not (opt_eq task.run_id run.id)
    then some svc
    else let (unread, svc') =
        unread_steers task run (record svc { paused = without task.id svc.paused }) in
      conclude w (record task { waiting = none }) run summary unread now svc'

-- The events.

unfoldable pub on_started : Task → Bool → ℕ → Service → Service
unfolding save_and_publish text
on_started task resumed now svc =
    if not (is_under_way task.state)
    then svc
    else save_and_publish
        (record task {
          state = TaskState.running;
          started_at = some (or_else task.started_at now);
          note = if resumed then some (text "resumed after a restart of the core") else task.note;
        })
        now svc

unfoldable pub waiting_for : Text → Text → Text → Text → Text → ℕ → TaskWaiting
waiting_for run_id call_id name arguments reason now = record {
  run_id = run_id;
  call_id = call_id;
  name = name;
  arguments = arguments;
  reason = reason;
  since = now;
}

abbrev pub name_of_waiting : Option TaskWaiting → Text
name_of_waiting none = text "a step"
name_of_waiting (some w) = w.name

-- The notice names the tool; its first arguments, which the code adds, are left out.
unfoldable pub push_waiting : Task → Service → Service
unfolding push_notice text
push_waiting task svc =
    push_notice task (text "Task waits for your approval · " ++ task.title)
      (name_of_waiting task.waiting) svc

unfoldable pub has_asked : Text → Text → List (Text × Text) → Bool
unfolding text_eq
has_asked task_id call_id asked = any (λ k. text_eq k.0 task_id && text_eq k.1 call_id) asked

-- Parked on him: the slot is free for another task, and one push says so.
unfoldable pub on_waiting : World → Task → Text → Option Text → ℕ → Service → Option Service
unfolding save_and_publish has_asked push_waiting settle_call without
on_waiting w task run_id call_id now svc =
    let parked = record task { state = TaskState.waiting } in
    let key = or_else call_id [] in
    let svc1 = save_and_publish parked now (record svc { slots = without run_id svc.slots }) in
    let svc2 =
      if has_asked task.id key svc1.asked
      then svc1
      else push_waiting parked (record svc1 { asked = (task.id, key) ∷ svc1.asked }) in
    if truthy task.call_id then settle_call w parked now svc2 else some svc2

unfoldable pub on_resolved : Task → ℕ → Service → Service
unfolding save_and_publish
on_resolved task now svc =
    save_and_publish
      (record task {
        waiting = none;
        state = if is_waiting task.state then TaskState.running else task.state;
      })
      now svc

unfoldable pub on_ended : World → Task → Text → Option Text → ℕ → Service → Option Service
unfolding round_ended
on_ended w task run_id summary now svc = elim (get_run run_id svc.engine.store) [
  | none ↦ some svc
  | some run ↦ round_ended w task run summary now svc
]

-- The event of a task's run; the events of other kinds are passed over.
unfoldable pub on_task_event : World → Task → RunEvent → ℕ → Service → Option Service
unfolding on_started waiting_for on_waiting on_resolved on_ended save_task
on_task_event w task e now svc = elim e.body [
  | run_started ↦ some (on_started task false now svc)
  | run_resumed n ↦ some (on_started task true now svc)
  | tool_confirm_requested call_id name arguments reason ↦ some (
      save_task
        (record task { waiting = some (waiting_for e.run_id call_id name arguments reason now) })
        now svc)
  | run_waiting_user reason call_id ↦ on_waiting w task e.run_id call_id now svc
  | tool_confirm_resolved call_id approved n ↦ some (on_resolved task now svc)
  | run_done message usage steps n ↦ on_ended w task e.run_id n now svc
  | run_failed error ↦ on_ended w task e.run_id none now svc
  | run_cancelled n ↦ on_ended w task e.run_id none now svc
  | _ ↦ some svc
]

unfoldable pub on_event : World → RunEvent → ℕ → Service → Option Service
unfolding on_task_event
on_event w e now svc = elim (by_run e.run_id svc.rows) [
  | none ↦ some svc
  | some task ↦ on_task_event w task e now svc
]
