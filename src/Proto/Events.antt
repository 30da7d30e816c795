-- ===== src/Proto/Events.antt =====
-- packages/proto/jarvis_proto/events.py: the events of a run, and what the bus carries. An event's
-- time stamp is left out, and so are `ModelCall`'s context breakdown and the events of features that
-- the model does not reach, which stand together as `other`.
use jarvis.Prelude.{ℕ, Bool, true, false, Option, List, Text}
use jarvis.Proto.Runs.{RunKind, ThinkLevel, ModelUsage, Plan, Run, Conversation}
use jarvis.Proto.Messages.{Message, ToolResult}
use jarvis.Proto.Tasks.{Task}

pub data Advice : Type 0 where
  continue nudge stop : Advice

-- The subclasses of `RunEvent`, with the fields that each adds.
pub data Body : Type 0 where
  run_queued : RunKind → Text → Option Text → Body
  run_started : Body
  run_resumed : ℕ → Body
  run_steered : Text → Body
  run_waiting_user : Text → Option Text → Body
  run_done : Option Text → ModelUsage → ℕ → Option Text → Body
  run_failed : Text → Body
  run_cancelled : Option Text → Body
  run_interrupted : Body
  plan_created : Plan → Body
  plan_step_started : ℕ → Text → Body
  plan_step_done : ℕ → Body
  model_call : Text → Text → Text → ℕ → ℕ → Bool → Option ThinkLevel → Body
  model_delta : Bool → Text → Body
  model_done : ModelUsage → Option Text → ℕ → Body
  tool_call : Text → Text → Text → Bool → Text → Body
  tool_result : Text → Text → ToolResult → ℕ → Body
  tool_confirm_requested : Text → Text → Text → Text → Body
  tool_confirm_resolved : Text → Bool → Option Text → Body
  guard_armed : Text → Text → Body
  guard_consumed : Text → Advice → Body
  judge_verdict : Advice → Text → Body
  context_skills : List Text → Body

abbrev pub is_delta : Body → Bool
is_delta (model_delta k t) = true
is_delta _ = false

pub record RunEvent : Type 0 where
  pub run_id : Text
  pub conversation_id : Text
  pub seq : ℕ
  pub body : Body

pub data Event : Type 0 where
  of_run : RunEvent → Event
  message_created : Message → Event
  run_updated : Run → Event
  conversation_updated : Conversation → Event
  conversation_deleted : Text → Event
  task_changed : Task → Event
  task_removed : Text → Event
  other : Text → Event
