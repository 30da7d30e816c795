-- ===== src/Tasks/Service.antt =====
-- The state of `TaskService` (features/tasks.py), its slots, and the notices that it pushes. Each operation
-- reads the clock once. `plain`, `sentences` and `clip`, which shorten the words of a notice, are left out.
pub mod Slots
use jarvis.Prelude.{
  ℕ, suc, ◌+◌, ◌-◌, ◌*◌, Bool, true, false, not, ◌&&◌, ◌||◌, Option, none, some, List, [], ◌∷◌,
  ◌++◌, Text, text, text_eq, ltb, leb, if◌then◌else◌, is_some, any, all, keep, length, is_nil,
}
use jarvis.Prelude.Dicts.{Dict, get}
use jarvis.Proto.Runs.{Run}
use jarvis.Proto.Tasks.{Task}
use jarvis.Proto.Events.{task_changed}
use jarvis.Proto.Settings.{TasksSettings}
use jarvis.Bus.{publish}
use jarvis.Attachments.{AttachmentStore}
use jarvis.Engine
use jarvis.Engine.{Engine}
use jarvis.Engine.Create
use jarvis.Tasks
use jarvis.Tasks.{TaskStore, by_run}

-- A row of the table `calls`.
pub record CallRow : Type 0 where
  pub id : Text
  pub conversation_id : Option Text
  pub started_at : ℕ
  pub last_seen_at : ℕ
  pub ended_at : Option ℕ
  pub end_reason : Option Text
  pub report_message_id : Option Text

-- A push: whose it is, its heading and what it says.
pub record Notice : Type 0 where
  pub task_id : Text
  pub heading : Text
  pub said : Text

-- What the service asks others: the reading of JSON arguments, the registry's word on a namespace that
-- is down, a time on the clock, seconds as
-- hours, the user's name, fresh ids, `str.isalnum` and what `create_run` reads.
pub record World : Type 0 where
  pub arguments_of : Text → Dict Bool
  pub down : Text → Option (Text × ℕ)
  pub clock : ℕ → Text
  pub hours : ℕ → Text
  pub user_name : Text
  pub new_id : ℕ → Text
  pub is_alnum : ℕ → Bool
  pub run_settings : Create.Settings

pub record Service : Type 0 where
  pub engine : Engine
  pub rows : TaskStore
  pub attachments : AttachmentStore
  pub settings : TasksSettings
  pub call_rows : List CallRow
  pub deferred : List Text
  pub paused : List Text
  pub slots : List Text
  pub steered : Dict (List Text)
  pub asked : List (Text × Text)
  pub calls : Dict ℕ
  pub notices : List Notice
  pub ids : ℕ

-- `set.add` and `set.discard`.
unfoldable pub with_member : Text → List Text → List Text
with_member t ts = if any (text_eq t) ts then ts else ts ++ t ∷ []

unfoldable pub without : Text → List Text → List Text
without t ts = keep (λ u. not (text_eq t u)) ts

unfoldable pub publish_task : Task → Service → Service
publish_task task svc = record svc {
  engine = record svc.engine { bus = publish (task_changed task) svc.engine.bus };
}

unfoldable pub save_task : Task → ℕ → Service → Service
save_task task now svc = record svc { rows = Tasks.save task now svc.rows }

-- `save` stamps the task that is published after it.
unfoldable pub save_and_publish : Task → ℕ → Service → Service
unfolding save_task publish_task
save_and_publish task now svc =
    publish_task (record task { updated_at = now }) (save_task task now svc)

unfoldable pub call_open : Service → Bool
call_open svc = Engine.on_a_call svc.engine || not (is_nil svc.calls)

unfoldable pub is_active : Engine → Text → Bool
is_active eng run_id = is_some (get run_id eng.active)

-- Whether the task waits before its next step; a run that may go on holds a slot from now on.
unfoldable pub should_hold : Text → Service → Bool × Service
unfolding call_open is_active
should_hold run_id svc =
    if call_open svc
    then (true, svc)
    else let slots = keep (is_active svc.engine) svc.slots in
      if any (text_eq run_id) slots
      then (false, record svc { slots = slots })
      else if ltb (length slots) svc.settings.max_running
      then (false, record svc { slots = slots ++ run_id ∷ [] })
      else (true, record svc { slots = slots })

unfoldable pub may_start : ℕ → Service → Bool
unfolding call_open
may_start running svc = ltb running svc.settings.max_running && not (call_open svc)

unfoldable pub set_paused : Text → Bool → Service → Service
unfolding publish_task with_member without by_run
set_paused run_id on svc = elim (by_run run_id svc.rows) [
  | none ↦ svc
  | some task ↦ publish_task task (record svc {
    paused = if on then with_member task.id svc.paused else without task.id svc.paused;
  })
]

-- An incognito task's notice carries no words from it.
unfoldable pub push_notice : Task → Text → Text → Service → Service
unfolding text
push_notice task heading said svc = record svc {
  notices =
      svc.notices
      ++ record {
        task_id = task.id;
        heading = if task.incognito then text "Jarvis: a private task" else heading;
        said = if task.incognito then text "Open the chat to see it." else said;
      }
        ∷ [];
}

unfoldable pub fresh_id : World → Service → Text × Service
fresh_id w svc = (w.new_id svc.ids, record svc { ids = suc svc.ids })
