-- ===== src/Proto/Messages.antt =====
-- packages/proto/jarvis_proto/messages.py: chat messages and tool results. The arguments of a tool
-- call are their JSON text, and an attachment is its id.
use jarvis.Prelude.{ℕ, Bool, Option, List, Text}
use jarvis.Proto.Runs.{Channel}

pub data Role : Type 0 where
  system user assistant tool : Role

pub record ToolCall : Type 0 where
  pub id : Text
  pub name : Text
  pub arguments : Text

pub record Message : Type 0 where
  pub id : Option Text
  pub conversation_id : Option Text
  pub run_id : Option Text
  pub role : Role
  pub content : Text
  pub reasoning : Option Text
  pub tool_calls : List ToolCall
  pub tool_call_id : Option Text
  pub name : Option Text
  pub partial : Bool
  pub attachments : List Text
  pub channel : Channel
  pub task_id : Option Text
  pub created_at : ℕ

pub data ToolResultKind : Type 0 where
  found empty partial error : ToolResultKind

pub record ToolResult : Type 0 where
  pub kind : ToolResultKind
  pub body : Text
  pub count : Option ℕ
  pub total : Option ℕ
  pub cursor : Option Text
  pub error_text : Option Text
  pub ends_turn : Bool
