-- ===== src/Tasks/Rounds/Calls/Once.antt =====
-- What was noted on a call starts once, when the call ends (features/tasks.py).
use jarvis.Prelude.{◌≡◌, true, map, keep, any, text_eq, List, Text}
use jarvis.Engine.{Engine}
use jarvis.Tasks
use jarvis.Tasks.{TaskStore, TaskRow, noted_on, row_is, update_where}
use jarvis.Tasks.Service.{Service}
use jarvis.Tasks.Reports.Quiet.{Kept, Quiet}

abbrev StartedKept : {A : Type 0} → Kept → A × Service → Type 0
StartedKept k r = k.holds r.1.rows

-- The id is one of the table's.
abbrev pub Listed : List Text → Text → Type 0
Listed ids id = any (λ i. text_eq i id) ids ≡ true

-- The tasks noted on the call, as they stand in the table.
abbrev pub noted_ids : Text → TaskStore → List Text
noted_ids call_id rows = map (λ (r : TaskRow). r.task.id) (keep (λ r. noted_on call_id r.task) rows)
