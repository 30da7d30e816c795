-- ===== src/Examples/Data.antt =====
-- A few runs, a chat and a store with them.
use jarvis.Prelude.{true, false, none, some, List, [], ◌∷◌, Text}
use jarvis.Proto.Runs.{
  Run, RunKind, RunStatus, RunBudget, ModelUsage, Channel, Conversation, ConversationKind,
  ConversationActivity,
}
use jarvis.Proto.Messages.{Message, Role}
use jarvis.Store.{Store}
use jarvis.Bus.{EventBus, Subscriber}
use jarvis.Engine.{Engine}
use jarvis.Control.{RunControl}

abbrev pub r1 : Text
r1 = 114 ∷ 49 ∷ []

abbrev pub r2 : Text
r2 = 114 ∷ 50 ∷ []

abbrev pub c1 : Text
c1 = 99 ∷ 49 ∷ []

abbrev pub a_budget : RunBudget
a_budget = record { max_steps = 25; max_tokens = 200_000; max_seconds = 600 }

abbrev pub a_usage : ModelUsage
a_usage = record {
  prompt_tokens = 900;
  completion_tokens = 100;
  calls = 1;
  ttft_ms = none;
  duration_ms = 0;
  cached_tokens = 0;
}

abbrev pub a_run : Text → RunStatus → Run
a_run id status = record {
  id = id;
  conversation_id = c1;
  kind = RunKind.chat;
  status = status;
  input_text = 104 ∷ 105 ∷ [];
  plan = none;
  budget = a_budget;
  priority = 0;
  steps_used = 1;
  usage = a_usage;
  last_seq = 3;
  error = none;
  waiting_reason = none;
  think = none;
  think_level = none;
  channel = Channel.typed;
  call_me = false;
  call_me_default = false;
  timezone = none;
  from_owner = true;
  call_id = none;
  created_at = 5;
  started_at = none;
  finished_at = none;
}

abbrev pub a_chat : Conversation
a_chat = record {
  id = c1;
  kind = ConversationKind.chat;
  title = 104 ∷ 105 ∷ [];
  folder_key = none;
  folder_label = none;
  folder_id = none;
  archived = false;
  unread = false;
  pinned = false;
  title_auto = true;
  instructions = [];
  preview = none;
  message_count = 0;
  activity = ConversationActivity.idle;
  incognito = false;
  ttl_seconds = some 3_600;
  expires_at = none;
  created_at = 1;
  updated_at = 1;
}

abbrev pub a_message : Message
a_message = record {
  id = none;
  conversation_id = some c1;
  run_id = none;
  role = Role.user;
  content = 104 ∷ 105 ∷ [];
  reasoning = none;
  tool_calls = [];
  tool_call_id = none;
  name = none;
  partial = false;
  attachments = [];
  channel = Channel.typed;
  task_id = none;
  created_at = 7;
}

abbrev pub a_store : List Run → Store
a_store runs = record {
  conversations = a_chat ∷ [];
  messages = [];
  runs = runs;
  events = [];
  claims = [];
}

abbrev pub a_client : Subscriber
a_client = record {
  ident = 0;
  name = [];
  queue = [];
  conversations = c1 ∷ [];
  everything = false;
  dead = false;
  visible = true;
}

abbrev pub a_bus : EventBus
a_bus = record { subs = a_client ∷ []; published = 0 }

abbrev pub a_control : Run → RunControl
a_control run = record {
  run = run;
  cancel = false;
  confirmations = [];
  resumed = false;
  steers = [];
  steered_by_other = false;
}

abbrev pub an_engine : List Run → Engine
an_engine runs = record {
  store = a_store runs;
  bus = a_bus;
  max = 2;
  heap = [];
  queued = [];
  active = [];
  wake = false;
  stopping = false;
  task_gate = none;
}
