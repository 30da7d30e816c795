-- ===== src/Proto/Tasks.antt =====
-- packages/proto/jarvis_proto/tasks.py: delegated tasks. The arguments of a tool call are their JSON
-- text, and a `datetime` is its number of microseconds. `paused` is never stored and is left out.
use jarvis.Prelude.{ℕ, Bool, true, false, ◌||◌, Option, none, List, [], Text}

pub data TaskState : Type 0 where
  noted queued running waiting needs_input done partial not_done failed cancelled dropped :
      TaskState

unfoldable pub terminal : TaskState → Bool
terminal TaskState.done = true
terminal TaskState.partial = true
terminal TaskState.not_done = true
terminal TaskState.failed = true
terminal TaskState.cancelled = true
terminal TaskState.dropped = true
terminal _ = false

-- `state is TaskState.NOTED`, and the other tests on one state.
abbrev pub is_noted : TaskState → Bool
is_noted TaskState.noted = true
is_noted _ = false

abbrev pub is_waiting : TaskState → Bool
is_waiting TaskState.waiting = true
is_waiting _ = false

abbrev pub is_dropped : TaskState → Bool
is_dropped TaskState.dropped = true
is_dropped _ = false

-- `state in (QUEUED, RUNNING)`
abbrev pub is_under_way : TaskState → Bool
is_under_way TaskState.queued = true
is_under_way TaskState.running = true
is_under_way _ = false

abbrev pub needs_him : TaskState → Bool
needs_him TaskState.waiting = true
needs_him TaskState.needs_input = true
needs_him _ = false

unfoldable pub settled : TaskState → Bool
unfolding terminal
settled state = terminal state || needs_him state

pub record DodItem : Type 0 where
  pub item : Text
  pub outward : Bool

pub record TaskBrief : Type 0 where
  pub goal : Text
  pub context : Text
  pub constraints : List Text
  pub dod : List DodItem
  pub approvals : List Text
  pub needs : List Text
  pub assumptions : List Text
  pub asked : List Text
  pub written : Bool

pub record DodResult : Type 0 where
  pub item : Text
  pub outward : Bool
  pub met : Option Bool
  pub refs : List Text
  pub verified : Bool
  pub why : Option Text
  pub note : Option Text

pub record TaskOutcome : Type 0 where
  pub summary : Text
  pub dod : List DodResult
  pub question : Option Text
  pub stopped_reason : Option Text
  pub finished : Bool

unfoldable pub no_outcome : TaskOutcome
no_outcome = record {
  summary = [];
  dod = [];
  question = none;
  stopped_reason = none;
  finished = false;
}

pub record TaskWaiting : Type 0 where
  pub run_id : Text
  pub call_id : Text
  pub name : Text
  pub arguments : Text
  pub reason : Text
  pub since : ℕ

pub record Task : Type 0 where
  pub id : Text
  pub title : Text
  pub state : TaskState
  pub brief : TaskBrief
  pub origin_conversation_id : Text
  pub origin_run_id : Option Text
  pub call_id : Option Text
  pub conversation_id : Option Text
  pub run_id : Option Text
  pub depth : ℕ
  pub outcome : Option TaskOutcome
  pub waiting : Option TaskWaiting
  pub report_message_id : Option Text
  pub incognito : Bool
  pub note : Option Text
  pub created_at : ℕ
  pub started_at : Option ℕ
  pub finished_at : Option ℕ
  pub updated_at : ℕ
