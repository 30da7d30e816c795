-- ===== src/Tasks/Reports.antt =====
-- The report of a task in the chat that asked (`_report`, `_call_report`, `_end` of features/tasks.py).
-- `none` is an exception out of the store or the attachments.
pub mod AfterCall
pub mod Ending
pub mod Owed
pub mod Quiet
use jarvis.Prelude.{
  ℕ, suc, ◌+◌, Bool, true, false, not, ◌&&◌, ◌||◌, Option, none, some, List, [], ◌∷◌, ◌++◌, map,
  Text, text, text_eq, ltb, leb, decimal, if◌then◌else◌, is_some, or_else, any, all, keep, find,
  sort_by, is_nil, strip, contains, join, last?,
}
use jarvis.Prelude.Dicts.{Dict}
use jarvis.Prelude.Dicts
use jarvis.Proto.Runs.{Channel}
use jarvis.Proto.Messages.{Message, ToolCall, Role}
use jarvis.Proto.Events.{message_created, conversation_updated}
use jarvis.Proto.Tasks.{Task, TaskState, TaskOutcome, no_outcome, terminal, settled, is_dropped}
use jarvis.Bus.{publish, has_subscribers}
use jarvis.Store.{Store, get_conversation}
use jarvis.Store.Conversations.{add_message, list_run_messages, update_conversation, new_unread}
use jarvis.Attachments.{Attachment, AttachmentStore, for_conversation, add_text, bind}
use jarvis.Engine.{Engine, working_run_in}
use jarvis.Tasks
use jarvis.Tasks.{TaskStore, claim_report}
use jarvis.Tasks.Wording.{
  state_words, render_report, split_result, report_answer_chars, file_stem, head_line, waiting_line,
  truthy, blank_line, new_line,
}
use jarvis.Tasks.Service.{
  Service, World, CallRow, save_and_publish, publish_task, push_notice, fresh_id, with_member,
}

unfoldable pub owes_report : Task → Bool
unfolding terminal
owes_report task =
    terminal task.state && not (is_dropped task.state) && not (is_some task.report_message_id)

-- The final answer of a run.

abbrev pub is_assistant : Role → Bool
is_assistant Role.assistant = true
is_assistant _ = false

unfoldable pub is_said : Message → Bool
unfolding strip
is_said m = is_assistant m.role && not (is_nil (strip m.content)) && not (is_some m.name)

unfoldable pub finishes : Message → Bool
unfolding text text_eq
finishes m = any (λ (c : ToolCall). text_eq c.name (text "task.finish")) m.tool_calls

abbrev pub gave_up : TaskState → Bool
gave_up TaskState.cancelled = true
gave_up TaskState.failed = true
gave_up _ = false

abbrev pub content_of : Option Message → Option Text
content_of none = none
content_of (some m) = some m.content

unfoldable pub answer_in : List Message → TaskState → Option Text
unfolding finishes strip contains
answer_in said state =
    let final = last? (keep (λ (m : Message). is_nil m.tool_calls) said) in
    let finishing = find finishes said in
    let alone : Option Text = elim final [
      | some m ↦ some m.content
      | none ↦ if gave_up state then content_of (last? said) else none
    ] in
    elim final [
      | none ↦ alone
      | some m ↦ elim finishing [
        | none ↦ alone
        | some f ↦
            if contains (strip f.content) m.content
            then alone
            else some (strip f.content ++ blank_line ++ strip m.content)
      ]
    ]

unfoldable pub final_answer : Task → Store → Option Text
unfolding answer_in is_said
final_answer task st = elim task.run_id [
  | none ↦ none
  | some run_id ↦ answer_in (keep is_said (list_run_messages run_id st)) task.state
]

-- The note and the report as messages.
unfoldable pub core_message : Role → Text → Text → Option Text → Text → Text → ℕ → Message
core_message role content id name origin task_id now = record {
  id = some id;
  conversation_id = some origin;
  run_id = none;
  role = role;
  content = content;
  reasoning = none;
  tool_calls = [];
  tool_call_id = none;
  name = name;
  partial = false;
  attachments = [];
  channel = Channel.typed;
  task_id = some task_id;
  created_at = now;
}

unfoldable pub outgoing_of : AttachmentStore → List Task → List Text
unfolding for_conversation
outgoing_of attachments [] = []
outgoing_of attachments (t ∷ ts) =
    elim t.conversation_id [
      | none ↦ []
      | some id ↦
          map (λ (a : Attachment). a.id)
            (keep (λ (a : Attachment). a.outgoing) (for_conversation id attachments))
    ]
    ++ outgoing_of attachments ts

-- The files that the tasks attached are bound to the report.
unfoldable pub with_files : Text → Message → List Text → Service → Message × Service
unfolding bind
with_files origin report [] svc = (report, svc)
with_files origin report (f ∷ fs) svc =
    let (bound, attachments) =
      bind (f ∷ fs) (or_else report.id []) origin svc.engine.store svc.attachments in
    (
      record report { attachments = map (λ (a : Attachment). a.id) bound },
      record svc { attachments = attachments },
    )

-- Both are announced, and the chat is marked unread when nobody is looking at it.
unfoldable pub announce : Text → Message → Message → ℕ → Service → Service
unfolding has_subscribers
announce origin note report now svc =
    let bus = publish (message_created report) (publish (message_created note) svc.engine.bus) in
    let (conv, st) =
      if has_subscribers origin bus
      then (get_conversation origin svc.engine.store, svc.engine.store)
      else update_conversation origin (new_unread true ∷ []) now svc.engine.store in
    record svc {
      engine = record svc.engine {
        store = st;
        bus = elim conv [ none ↦ bus | some c ↦ publish (conversation_updated c) bus ];
      };
    }

unfoldable pub post :
    Text → Message → Message → List Task → List Text → ℕ → Service → Option Service
unfolding outgoing_of with_files announce
post origin note report tasks extra now svc =
    elim (add_message note (or_else note.id []) now svc.engine.store) [
      | none ↦ none
      | some (note', st1) ↦ elim (add_message report (or_else report.id []) now st1) [
        | none ↦ none
        | some (report', st2) ↦
            let svc' = record svc { engine = record svc.engine { store = st2 } } in
            let (report'', svc'') =
              with_files origin report' (outgoing_of svc'.attachments tasks ++ extra) svc' in
            some (announce origin note' report'' now svc'')
      ]
    ]

unfoldable pub attach_whole :
    World → Task → Option Text → Option Text → ℕ → Service → Option (List Text × Service)
unfolding fresh_id
attach_whole w task whole name now svc =
    if not (truthy whole) || not (truthy name)
    then some ([], svc)
    else let (id, svc') = fresh_id w svc in
      elim (add_text id (or_else whole []) (or_else name []) (some task.origin_conversation_id) true
        task.incognito now svc'.engine.store svc'.attachments) [
          | none ↦ none
          | some (att, attachments) ↦ some (att.id ∷ [], record svc' { attachments = attachments })
        ]

-- The name of the file for a result that does not fit.
unfoldable pub file_name : World → Task → Option Text → Option Text
unfolding file_stem text
file_name w task whole =
    if truthy whole then some (file_stem w.is_alnum task.title ++ text ".md") else none

unfoldable pub note_text : World → Task → Text
unfolding text state_words
note_text w task =
    text "[core note, not from "
    ++ w.user_name
    ++ text "] The delegated task \""
    ++ task.title
    ++ text "\" is "
    ++ state_words task.state
    ++ text "; its report follows."

-- The note and the report go in, with the files attached for them, and a notice says so.
unfoldable pub deliver_report :
    Task → Message → Message → Text → ℕ → Option (List Text × Service) → Option Service
unfolding post push_notice publish_task state_words text
deliver_report task note report said now none = none
deliver_report task note report said now (some (extra, svc)) =
    elim (post task.origin_conversation_id note report (task ∷ []) extra now svc) [
      | none ↦ none
      | some svc' ↦ some (
          push_notice task (text "Task " ++ state_words task.state ++ text " · " ++ task.title) said
            (publish_task task svc'))
    ]

unfoldable pub said_of : TaskOutcome → Text → Text
said_of outcome answer =
    if not (is_nil answer)
    then answer
    else if not (is_nil outcome.summary)
    then outcome.summary
    else or_else outcome.stopped_reason []

-- One task's own report, once the right to write it is claimed.
unfoldable pub write_report : World → Task → Text → Text → ℕ → Service → Option Service
unfolding final_answer split_result file_name note_text core_message attach_whole deliver_report
    said_of text
write_report w task report_id note_id now svc =
    let answer = or_else (final_answer task svc.engine.store) [] in
    let (shown, whole) = split_result answer report_answer_chars in
    let name = file_name w task whole in
    let report =
      core_message Role.assistant (render_report task shown name) report_id none
        task.origin_conversation_id task.id now in
    let note =
      core_message Role.user (note_text w task) note_id (some (text "task"))
        task.origin_conversation_id task.id now in
    deliver_report (record task { report_message_id = some report_id }) note report
      (said_of (or_else task.outcome no_outcome) answer) now
      (attach_whole w task whole name now svc)
