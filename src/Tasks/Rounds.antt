-- ===== src/Tasks/Rounds.antt =====
-- A task's rounds (`_start`, `_round_ended` and `on_event` of features/tasks.py): each is a run in the
-- task's own conversation. The lock makes an event one step.
pub mod Ended
pub mod Steering
pub mod Calls
pub mod Sweeping
use jarvis.Prelude.{
  ℕ, suc, ◌-◌, Bool, true, false, not, ◌&&◌, ◌||◌, Option, none, some, List, [], ◌∷◌, ◌++◌, map,
  Text, text, text_eq, ltb, if◌then◌else◌, is_some, or_else, any, keep, is_nil, strip, take, drop,
  length, join,
}
use jarvis.Proto.Runs.{Run, RunKind, RunStatus, Conversation, ConversationKind, Channel}
use jarvis.Proto.Messages.{Message, Role}
use jarvis.Proto.Events.{conversation_updated}
use jarvis.Proto.Tasks.{Task, TaskState, TaskOutcome, no_outcome}
use jarvis.Bus.{publish}
use jarvis.Store.{Store, get_conversation}
use jarvis.Store.Conversations.{
  create_conversation, update_conversation, new_title_auto, list_messages, list_run_messages,
}
use jarvis.Engine.{Engine}
use jarvis.Engine.Create.{create_run, Request, Fresh}
use jarvis.Tasks.{runs_of_call}
use jarvis.Tasks.Wording.{brief_text, new_line, truthy}
use jarvis.Tasks.Service.{Service, World, save_and_publish, fresh_id}
use jarvis.Tasks.Reports.Ending.{end_task, ended}

-- The first namespace that the task needs whose machine is down.
unfoldable pub down_for : World → List Text → Option (Text × Text × ℕ)
down_for w [] = none
down_for w (n ∷ ns) = elim (w.down n) [
  | some (error, since) ↦ some (n, error, since)
  | none ↦ down_for w ns
]

abbrev pub outcome_of : Task → TaskOutcome
outcome_of task = or_else task.outcome no_outcome

abbrev pub stopped_by : Text → Task → Task
stopped_by reason task = record task {
  outcome = some (record (outcome_of task) { stopped_reason = some reason });
}

unfoldable pub down_reason : World → Text → Text → ℕ → Text
unfolding text
down_reason w namespace error since =
    text "not started: "
    ++ namespace
    ++ text " is down since "
    ++ w.clock since
    ++ text " ("
    ++ error
    ++ text ")"

-- What was said, copied: on a call, and in the chat up to the turn that handed the task off.
abbrev pub is_user : Role → Bool
is_user Role.user = true
is_user _ = false

abbrev pub is_reply : Role → Bool
is_reply Role.assistant = true
is_reply _ = false

unfoldable pub call_lines : Text → List Message → List Text
unfolding strip text
call_lines user [] = []
call_lines user (m ∷ ms) =
    let rest = call_lines user ms in
    if is_nil (strip m.content) || is_some m.name
    then rest
    else if is_user m.role
    then (user ++ text ": " ++ strip m.content) ∷ rest
    else if is_reply m.role && is_nil m.tool_calls
    then (text "Jarvis: " ++ strip m.content) ∷ rest
    else rest

unfoldable pub lines_of_runs : Text → Store → List Text → List Text
unfolding call_lines
lines_of_runs user st [] = []
lines_of_runs user st (id ∷ ids) =
    call_lines user (list_run_messages id st) ++ lines_of_runs user st ids

unfoldable pub call_transcript : World → Task → Store → Text
unfolding lines_of_runs runs_of_call join
call_transcript w task st =
    if truthy task.call_id
    then join new_line (lines_of_runs w.user_name st (runs_of_call (or_else task.call_id []) st))
    else []

abbrev pub same_run : Option Text → Option Text → Bool
same_run none none = true
same_run (some a) (some b) = text_eq a b
same_run _ _ = false

-- The lines said, and how many there were at the last of the handing-off turn's own words.
unfoldable pub origin_lines :
    Text → Task → List Message → List Text → Option ℕ → List Text × Option ℕ
unfolding strip text
origin_lines user task [] said upto = (said, upto)
origin_lines user task (m ∷ ms) said upto =
    let heard = said ++ (user ++ text ": " ++ strip m.content) ∷ [] in
    let answered = said ++ (text "Jarvis: " ++ take 1500 (strip m.content)) ∷ [] in
    let own = same_run m.run_id task.origin_run_id in
    if is_some m.task_id || is_nil (strip m.content) || is_some m.name
    then origin_lines user task ms said upto
    else if is_user m.role
    then origin_lines user task ms heard (if own then some (length heard) else upto)
    else if is_reply m.role && is_nil m.tool_calls && not own
    then origin_lines user task ms answered upto
    else origin_lines user task ms said upto

-- The last entries of a list.
abbrev pub last_of {ℓ} : {A : Type ℓ} → ℕ → List A → List A
last_of n xs = drop (length xs - n) xs

unfoldable pub origin_transcript : World → Task → Store → ℕ → Text
unfolding origin_lines join
origin_transcript w task st limit =
    let (said, upto) =
      origin_lines w.user_name task (last_of 400 (list_messages task.origin_conversation_id st)) []
        none in
    join new_line (last_of limit (take (or_else upto (length said)) said))

abbrev pub title_of : Option Conversation → Option Text
title_of none = none
title_of (some c) = some c.title

-- The task's conversation, made with the task's first round.
unfoldable pub with_conversation : World → Task → ℕ → Service → Text × Service
unfolding fresh_id create_conversation update_conversation
with_conversation w task now svc = elim task.conversation_id [
  | some id ↦ (id, svc)
  | none ↦
      let (id, svc1) = fresh_id w svc in
      let title = title_of (get_conversation task.origin_conversation_id svc1.engine.store) in
      let (conv, st1) =
        create_conversation id ConversationKind.task task.title (some task.origin_conversation_id)
          title task.incognito none now svc1.engine.store in
      let (_, st2) = update_conversation id (new_title_auto false ∷ []) now st1 in
      (
        id,
        record svc1 {
          engine = record svc1.engine {
            store = st2;
            bus = publish (conversation_updated conv) svc1.engine.bus;
          };
        },
      )
]

unfoldable pub source_of : World → Task → Store → Text
unfolding call_transcript origin_transcript
source_of w task st =
    if task.brief.written
    then []
    else if truthy task.call_id
    then call_transcript w task st
    else origin_transcript w task st 20

abbrev pub task_request : Text → Text → Request
task_request input conversation_id = record {
  input = input;
  conversation_id = some conversation_id;
  kind = RunKind.task;
  conversation_kind = none;
  folder_key = none;
  folder_label = none;
  title = none;
  think = none;
  think_level = none;
  budget_kind = none;
  attachment_ids = [];
  channel = Channel.typed;
  call_me = some false;
  timezone = none;
  from_owner = false;
  call_id = none;
}

-- What was claimed and shown before stays claimed; the new round's result is its own.
unfoldable pub renewed : TaskOutcome → TaskOutcome
renewed o = record o { question = none; stopped_reason = none; finished = false; summary = [] }

unfoldable pub round_of : Text → Text → Task → Task
unfolding renewed
round_of conversation_id run_id task = record task {
  conversation_id = some conversation_id;
  run_id = some run_id;
  state = TaskState.queued;
  finished_at = none;
  report_message_id = none;
  note = none;
  waiting = none;
  outcome = elim task.outcome [ none ↦ none | some o ↦ some (renewed o) ];
}

-- The task with its new run, saved and announced.
unfoldable pub in_round :
    Task → Text → ℕ → Service → Option (Run × Conversation × Engine) → Option (Task × Service)
unfolding round_of save_and_publish
in_round task conversation_id now svc none = none
in_round task conversation_id now svc (some (run, conv, eng)) =
    let task' = round_of conversation_id run.id task in
    some (task', save_and_publish task' now (record svc { engine = eng }))

-- The run of a new round, in the task's conversation.
unfoldable pub new_round : World → Task → Option Text → ℕ → Service → Option (Task × Service)
unfolding with_conversation source_of brief_text fresh_id in_round
new_round w task words now svc =
    let (conv_id, svc1) = with_conversation w task now svc in
    let input = or_else words (brief_text task w.user_name (source_of w task svc1.engine.store)) in
    let (c, svc2) = fresh_id w svc1 in
    let (m, svc3) = fresh_id w svc2 in
    let (r, svc4) = fresh_id w svc3 in
    in_round task conv_id now svc4 (
      create_run (task_request input conv_id) w.run_settings none
        (record { conversation = c; message = m; run = r; now = now }) svc4.engine)

unfoldable pub not_started : Task → Option Service → Option (Task × Service)
not_started task none = none
not_started task (some svc) = some (task, svc)

-- A round starts, or the task ends at once because a machine that it needs is down.
unfoldable pub start : World → Task → Option Text → ℕ → Service → Option (Task × Service)
unfolding down_for down_reason new_round not_started
start w task words now svc = elim (down_for w task.brief.needs) [
  | some (namespace, error, since) ↦
      let stopped = stopped_by (down_reason w namespace error since) task in
      not_started (ended TaskState.not_done now stopped)
        (end_task w stopped TaskState.not_done now svc)
  | none ↦ new_round w task words now svc
]
