-- ===== src/Tasks.antt =====
-- packages/core/jarvis_core/features/tasks.py: delegated tasks. Here the table (`TaskStore`, migration
-- 0019): its rows in the order of insertion, each with the key of the tool call that made it.
pub mod Rows
pub mod Evidence
pub mod Rules
pub mod Wording
pub mod Service
pub mod Reports
pub mod Rounds
use jarvis.Prelude.{
  ℕ, Bool, true, false, not, ◌&&◌, ◌||◌, Option, none, some, List, [], ◌∷◌, ◌++◌, map, Text,
  text_eq, ltb, ◌==◌, if◌then◌else◌, is_some, any, keep, find, take, sort_by, is_nil,
}
use jarvis.Proto.Runs.{Run}
use jarvis.Proto.Tasks.{Task, TaskState, terminal, is_noted}
use jarvis.Store.{Store}

pub record TaskRow : Type 0 where
  pub task : Task
  pub origin_key : Text

abbrev pub TaskStore : Type 0
TaskStore = List TaskRow

abbrev pub opt_eq : Option Text → Text → Bool
opt_eq none b = false
opt_eq (some a) b = text_eq a b

abbrev pub row_is : Text → TaskRow → Bool
row_is task_id r = text_eq r.task.id task_id

-- The columns of a row that is inserted; the others are NULL.
unfoldable pub inserted : Task → Task
inserted task = record task {
  outcome = none;
  waiting = none;
  report_message_id = none;
  note = none;
  started_at = none;
  finished_at = none;
}

unfoldable pub task_of : Option TaskRow → Option Task
task_of none = none
task_of (some r) = some r.task

unfoldable pub find_row : (TaskRow → Bool) → TaskStore → Option Task
unfolding task_of
find_row p rows = task_of (find p rows)

unfoldable pub get : Text → TaskStore → Option Task
unfolding find_row
get task_id rows = find_row (row_is task_id) rows

unfoldable pub by_run : Text → TaskStore → Option Task
unfolding find_row
by_run run_id rows = find_row (λ r. opt_eq r.task.run_id run_id) rows

unfoldable pub by_conversation : Text → TaskStore → Option Task
unfolding find_row
by_conversation conversation_id rows =
    find_row (λ r. opt_eq r.task.conversation_id conversation_id) rows

abbrev pub key_is : Text → TaskRow → Bool
key_is origin_key r = text_eq r.origin_key origin_key

-- Whether a UNIQUE or PRIMARY KEY column of the new row is taken.
unfoldable pub clashes : Task → Text → TaskRow → Bool
clashes task origin_key r =
    key_is origin_key r
    || row_is task.id r
    || elim task.conversation_id [ none ↦ false | some c ↦ opt_eq r.task.conversation_id c ]

-- INSERT OR IGNORE, and the row of the key: `none` is the assertion that there is one. The chat that
-- asks is one that the caller has just read, so its foreign key holds.
unfoldable pub create : Task → Text → TaskStore → Option Task × TaskStore
unfolding inserted clashes find_row
create task origin_key rows =
    let rows' =
      if any (clashes task origin_key) rows
      then rows
      else rows ++ record { task = inserted task; origin_key = origin_key } ∷ [] in
    (find_row (key_is origin_key) rows', rows')

-- The columns that `save` writes; the others keep what the row had.
unfoldable pub saved : Task → ℕ → Task → Task
saved task now row = record row {
  title = task.title;
  brief = task.brief;
  state = task.state;
  conversation_id = task.conversation_id;
  run_id = task.run_id;
  outcome = task.outcome;
  waiting = task.waiting;
  report_message_id = task.report_message_id;
  note = task.note;
  started_at = task.started_at;
  finished_at = task.finished_at;
  updated_at = now;
}

-- `UPDATE tasks SET ... WHERE ...`
unfoldable pub update_where : (Task → Bool) → (Task → Task) → TaskStore → TaskStore
update_where p f [] = []
update_where p f (r ∷ rs) =
    (if p r.task then record r { task = f r.task } else r) ∷ update_where p f rs

abbrev pub task_is : Text → Task → Bool
task_is task_id t = text_eq t.id task_id

unfoldable pub save : Task → ℕ → TaskStore → TaskStore
unfolding saved update_where
save task now rows = update_where (task_is task.id) (saved task now) rows

-- What `list` is asked for.
pub record Wanted : Type 0 where
  pub origin : Option Text
  pub open_only : Bool
  pub call_id : Option Text
  pub states : Option (TaskState → Bool)
  pub limit : ℕ

abbrev pub everything : Wanted
everything = record { origin = none; open_only = false; call_id = none; states = none; limit = 200 }

abbrev pub asked_for : Option Text → Text → Bool
asked_for none b = true
asked_for (some a) b = text_eq b a

unfoldable pub state_wanted : Wanted → TaskState → Bool
unfolding terminal
state_wanted w state =
    if w.open_only then not (terminal state) else elim w.states [ none ↦ true | some p ↦ p state ]

unfoldable pub is_wanted : Wanted → Task → Bool
unfolding state_wanted
is_wanted w t =
    asked_for w.origin t.origin_conversation_id
    && elim w.call_id [ none ↦ true | some c ↦ opt_eq t.call_id c ]
    && state_wanted w t.state

unfoldable pub newest_first : Task → Task → Bool
newest_first a b = ltb b.created_at a.created_at || a.created_at == b.created_at

unfoldable pub list : Wanted → TaskStore → List Task
unfolding is_wanted newest_first
list w rows =
    take w.limit (sort_by newest_first (keep (is_wanted w) (map (λ (r : TaskRow). r.task) rows)))

-- `UPDATE tasks SET report_message_id = ? WHERE id = ? AND report_message_id IS NULL RETURNING id`
abbrev pub unreported : Text → Task → Bool
unreported task_id t = text_eq t.id task_id && not (is_some t.report_message_id)

unfoldable pub claim_report : Text → Text → TaskStore → Bool × TaskStore
unfolding update_where
claim_report task_id message_id rows = (
  any (λ r. unreported task_id r.task) rows,
  update_where (unreported task_id) (λ t. record t { report_message_id = some message_id }) rows,
)

abbrev pub noted_on : Text → Task → Bool
noted_on call_id t = opt_eq t.call_id call_id && is_noted t.state

-- Every task noted on the call is queued by one statement, and their ids are what it returns.
unfoldable pub claim_noted : Text → ℕ → TaskStore → List Text × TaskStore
unfolding update_where
claim_noted call_id now rows = (
  map (λ (r : TaskRow). r.task.id) (keep (λ r. noted_on call_id r.task) rows),
  update_where (noted_on call_id) (λ t. record t { state = TaskState.queued; updated_at = now })
      rows,
)

unfoldable pub runs_of_call : Text → Store → List Text
runs_of_call call_id st =
    map (λ (r : Run). r.id)
      (sort_by (λ (a b : Run). not (ltb b.created_at a.created_at))
        (keep (λ (r : Run). opt_eq r.call_id call_id) st.runs))
