-- ===== src/Proto/Runs.antt =====
-- packages/proto/jarvis_proto/runs.py: runs, plans and conversations. A `datetime` is its number of
-- microseconds in UTC.
use jarvis.Prelude.{
  ℕ, suc, ◌+◌, ◌-◌, Bool, true, false, Option, none, some, List, [], ◌∷◌, Text, text, is_some,
  if◌then◌else◌,
}

pub data ThinkLevel : Type 0 where
  low medium high : ThinkLevel

pub data RunKind : Type 0 where
  chat scheduled collab triage meeting mail system task : RunKind

pub data RunStatus : Type 0 where
  queued running waiting_user cancelling done failed cancelled interrupted : RunStatus

unfoldable pub terminal : RunStatus → Bool
terminal done = true
terminal failed = true
terminal cancelled = true
terminal _ = false

-- `status is RunStatus.WAITING_USER`, and the other tests on one status.
abbrev pub is_waiting : RunStatus → Bool
is_waiting waiting_user = true
is_waiting _ = false

abbrev pub is_interrupted : RunStatus → Bool
is_interrupted interrupted = true
is_interrupted _ = false

abbrev pub is_done : RunStatus → Bool
is_done done = true
is_done _ = false

abbrev pub is_task : RunKind → Bool
is_task task = true
is_task _ = false

pub record RunBudget : Type 0 where
  pub max_steps : ℕ
  pub max_tokens : ℕ
  pub max_seconds : ℕ

unfoldable pub default_budget : RunBudget
default_budget = record { max_steps = 25; max_tokens = 200_000; max_seconds = 600 }

pub record ModelUsage : Type 0 where
  pub prompt_tokens : ℕ
  pub completion_tokens : ℕ
  pub calls : ℕ
  pub ttft_ms : Option ℕ
  pub duration_ms : ℕ
  pub cached_tokens : ℕ

unfoldable pub no_usage : ModelUsage
no_usage = record {
  prompt_tokens = 0;
  completion_tokens = 0;
  calls = 0;
  ttft_ms = none;
  duration_ms = 0;
  cached_tokens = 0;
}

unfoldable pub add : ModelUsage → ModelUsage → ModelUsage
add u other = record {
  prompt_tokens = u.prompt_tokens + other.prompt_tokens;
  completion_tokens = u.completion_tokens + other.completion_tokens;
  calls = u.calls + other.calls;
  ttft_ms = if is_some u.ttft_ms then u.ttft_ms else other.ttft_ms;
  duration_ms = u.duration_ms + other.duration_ms;
  cached_tokens = u.cached_tokens + other.cached_tokens;
}

unfoldable pub total_tokens : ModelUsage → ℕ
total_tokens u = u.prompt_tokens + u.completion_tokens

-- `-` on ℕ stops at 0, as `max(0, ...)` does.
unfoldable pub prefilled_tokens : ModelUsage → ℕ
prefilled_tokens u = u.prompt_tokens - u.cached_tokens

unfoldable pub processed_tokens : ModelUsage → ℕ
unfolding prefilled_tokens
processed_tokens u = prefilled_tokens u + u.completion_tokens

pub data PlanStepStatus : Type 0 where
  pending in_progress finished skipped : PlanStepStatus

pub record PlanStep : Type 0 where
  pub title : Text
  pub status : PlanStepStatus
  pub note : Option Text

pub record Plan : Type 0 where
  pub goal : Text
  pub steps : List PlanStep

unfoldable pub is_open : PlanStepStatus → Bool
is_open pending = true
is_open in_progress = true
is_open _ = false

-- The `for` loop of `current_index`, from index `i`.
unfoldable pub index_from : ℕ → List PlanStep → Option ℕ
unfolding is_open
index_from i [] = none
index_from i (s ∷ steps) =
    let rest = index_from (suc i) steps in if is_open s.status then some i else rest

unfoldable pub current_index : Plan → Option ℕ
unfolding index_from
current_index p = index_from 0 p.steps

pub data Channel : Type 0 where
  typed voice : Channel

abbrev pub is_voice : Channel → Bool
is_voice voice = true
is_voice typed = false

pub record Run : Type 0 where
  pub id : Text
  pub conversation_id : Text
  pub kind : RunKind
  pub status : RunStatus
  pub input_text : Text
  pub plan : Option Plan
  pub budget : RunBudget
  pub priority : ℕ
  pub steps_used : ℕ
  pub usage : ModelUsage
  pub last_seq : ℕ
  pub error : Option Text
  pub waiting_reason : Option Text
  pub think : Option Bool
  pub think_level : Option ThinkLevel
  pub channel : Channel
  pub call_me : Bool
  pub call_me_default : Bool
  pub timezone : Option Text
  pub from_owner : Bool
  pub call_id : Option Text
  pub created_at : ℕ
  pub started_at : Option ℕ
  pub finished_at : Option ℕ

pub data ConversationKind : Type 0 where
  chat scheduled collab triage meeting mail archive task : ConversationKind

pub data ConversationActivity : Type 0 where
  idle running waiting : ConversationActivity

pub record Conversation : Type 0 where
  pub id : Text
  pub kind : ConversationKind
  pub title : Text
  pub folder_key : Option Text
  pub folder_label : Option Text
  pub folder_id : Option Text
  pub archived : Bool
  pub unread : Bool
  pub pinned : Bool
  pub title_auto : Bool
  pub instructions : Text
  pub preview : Option Text
  pub message_count : ℕ
  pub activity : ConversationActivity
  pub incognito : Bool
  pub ttl_seconds : Option ℕ
  pub expires_at : Option ℕ
  pub created_at : ℕ
  pub updated_at : ℕ

unfoldable pub ttl_choices : List ℕ
ttl_choices = 3_600 ∷ 86_400 ∷ 604_800 ∷ []

unfoldable pub new_chat : Text
unfolding text
new_chat = text "New chat"
