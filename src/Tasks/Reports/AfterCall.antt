-- ===== src/Tasks/Reports/AfterCall.antt =====
-- One report for all the tasks of a call (`_call_report` of features/tasks.py).
use jarvis.Prelude.{
  ℕ, suc, Bool, true, false, not, ◌&&◌, Option, none, some, List, [], ◌∷◌, ◌++◌, map, Text, text,
  text_eq, leb, decimal, if◌then◌else◌, is_some, or_else, any, keep, find, sort_by, join, length,
}
use jarvis.Prelude.Dicts.{Dict}
use jarvis.Prelude.Dicts
use jarvis.Proto.Messages.{Role}
use jarvis.Proto.Tasks.{Task, terminal, settled, is_dropped}
use jarvis.Tasks
use jarvis.Tasks.{TaskStore, claim_report, everything}
use jarvis.Tasks.Wording.{
  state_words, render_report, split_result, report_answer_chars, head_line, waiting_line, truthy,
  blank_line, new_line,
}
use jarvis.Tasks.Service.{Service, World, CallRow, publish_task, push_notice, fresh_id}
use jarvis.Tasks.Reports.{final_answer, file_name, attach_whole, core_message, post}

-- `UPDATE calls SET report_message_id = ? WHERE id = ? AND report_message_id IS NULL RETURNING id`
abbrev pub unreported_call : Text → CallRow → Bool
unreported_call call_id c =
    if text_eq c.id call_id then not (is_some c.report_message_id) else false

unfoldable pub set_report : Text → Text → List CallRow → List CallRow
set_report call_id report_id [] = []
set_report call_id report_id (c ∷ cs) =
    (if unreported_call call_id c then record c { report_message_id = some report_id } else c)
    ∷ set_report call_id report_id cs

-- Each task that has ended is claimed; one whose claim is granted has the report's id from then on.
unfoldable pub claim_all : Text → List Task → TaskStore → List Task × TaskStore
unfolding terminal claim_report
claim_all report_id [] rows = ([], rows)
claim_all report_id (t ∷ ts) rows =
    let (granted, rows') =
      if terminal t.state then claim_report t.id report_id rows else (false, rows) in
    let (ts', rows'') = claim_all report_id ts rows' in
    ((if granted then record t { report_message_id = some report_id } else t) ∷ ts', rows'')

-- A section, and the files attached for a result that is too long.
unfoldable pub with_words :
    Text → Option (List Text × Service) → Option (Text × List Text × Service)
with_words t none = none
with_words t (some (extra, svc)) = some (t, extra, svc)

unfoldable pub section : World → Task → ℕ → Service → Option (Text × List Text × Service)
unfolding terminal final_answer split_result file_name attach_whole render_report head_line
    waiting_line with_words
section w t now svc =
    let (shown, whole) =
      split_result (or_else (final_answer t svc.engine.store) []) report_answer_chars in
    let name = file_name w t whole in
    if terminal t.state
    then with_words (render_report t shown name) (attach_whole w t whole name now svc)
    else some (head_line t ++ new_line ++ waiting_line t, [], svc)

unfoldable pub sections : World → List Task → ℕ → Service → Option (List Text × List Text × Service)
unfolding section
sections w [] now svc = some ([], [], svc)
sections w (t ∷ ts) now svc = elim (section w t now svc) [
  | none ↦ none
  | some (words, extra, svc') ↦ elim (sections w ts now svc') [
    | none ↦ none
    | some (rest, more, svc'') ↦ some (words ∷ rest, extra ++ more, svc'')
  ]
]

unfoldable pub counts : List Task → Dict ℕ → Dict ℕ
unfolding state_words
counts [] d = d
counts (t ∷ ts) d =
    counts ts
      (Dicts.put (state_words t.state) (suc (or_else (Dicts.get (state_words t.state) d) 0)) d)

unfoldable pub tally : List Task → Text
unfolding counts decimal join text
tally ts = join (text ", ") (map (λ (e : Text × ℕ). decimal e.1 ++ text " " ++ e.0) (counts ts []))

unfoldable pub publish_all : List Task → Service → Service
unfolding publish_task
publish_all [] svc = svc
publish_all (t ∷ ts) svc = publish_all ts (publish_task t svc)

-- The tasks of the call that were not dropped, oldest first.
unfoldable pub of_the_call : Text → TaskStore → List Task
unfolding Tasks.list
of_the_call call_id rows =
    sort_by (λ (a b : Task). leb a.created_at b.created_at)
      (keep (λ (t : Task). not (is_dropped t.state))
        (Tasks.list (record everything { call_id = some call_id }) rows))

unfoldable pub call_heading : List Task → List Text → Text
unfolding tally text join
call_heading tasks parts =
    text "**After the call — " ++ tally tasks ++ text "**\n\n" ++ join blank_line parts

unfoldable pub call_note : World → List Task → Text
unfolding tally text
call_note w tasks =
    text "[core note, not from "
    ++ w.user_name
    ++ text "] The tasks noted on the call are through ("
    ++ tally tasks
    ++ text "); the after-call report follows."

-- All the tasks of the call are announced, and one notice says so.
unfoldable pub call_told : Task → List Task → Option Service → Option Service
unfolding tally publish_all push_notice text decimal
call_told task tasks none = none
call_told task tasks (some svc) = some (
    push_notice task (text "After the call: " ++ tally tasks)
      (decimal (length tasks) ++ text " task(s) from the call.") (publish_all tasks svc))

-- The tasks with their claims, the ids of the report and of its note, and the sections.
unfoldable pub post_call_report :
    World
    → Task
    → List Task
    → Text
    → Text
    → ℕ
    → Option (List Text × List Text × Service)
    → Option Service
unfolding call_heading call_note core_message post call_told text terminal
post_call_report w task tasks report_id note_id now none = none
post_call_report w task tasks report_id note_id now (some (parts, extra, svc)) =
    let origin = task.origin_conversation_id in
    call_told task tasks (
      post origin
        (core_message Role.user (call_note w tasks) note_id (some (text "task")) origin task.id now)
        (core_message Role.assistant (call_heading tasks parts) report_id none origin task.id now)
        (keep (λ (t : Task). terminal t.state) tasks) extra now svc)

unfoldable pub write_call_report :
    World → Task → List Task → Text → Text → ℕ → Service → Option Service
unfolding claim_all sections post_call_report
write_call_report w task tasks report_id note_id now svc =
    let (tasks', rows) = claim_all report_id tasks svc.rows in
    post_call_report w task tasks' report_id note_id now
      (sections w tasks' now (record svc { rows = rows }))

abbrev pub report_of : Option CallRow → Option Text
report_of none = none
report_of (some c) = c.report_message_id

abbrev pub taken_by : Option Service → Option (Bool × Service)
taken_by none = none
taken_by (some svc) = some (true, svc)

-- Whether the task's report is taken care of: false when the call's report has already gone out, true
-- when it is written now or the last task of the call to settle will write it.
unfoldable pub call_report : World → Task → ℕ → Service → Option (Bool × Service)
unfolding of_the_call settled fresh_id set_report write_call_report
call_report w task now svc =
    let call_id = or_else task.call_id [] in
    let row = find (λ (c : CallRow). text_eq c.id call_id) svc.call_rows in
    let tasks = of_the_call call_id svc.rows in
    if truthy (report_of row)
    then some (false, svc)
    else if any (λ (t : Task). not (settled t.state)) tasks
    then some (true, svc)
    else let (report_id, svc1) = fresh_id w svc in
      let claimed = any (unreported_call call_id) svc1.call_rows in
      let svc2 = record svc1 { call_rows = set_report call_id report_id svc1.call_rows } in
      let (note_id, svc3) = fresh_id w svc2 in
      if is_some row && not claimed
      then some (true, svc2)
      else taken_by (write_call_report w task tasks report_id note_id now svc3)
