-- ===== src/Ledger.antt =====
-- packages/core/jarvis_core/models/ledger.py: one record for each model call, from its queueing to its
-- end. A record is an object that the adapter and the ledger share, so the ledger keeps the objects by
-- id beside the keys of `live`; a write to the sink is its record's id in `written`. `in_loop` says whether
-- calls end under a running event loop: where none runs, the record of a call is dropped. The context
-- variables of a call, its token estimate and the pattern of overflow messages are arguments.
pub mod Closing
use jarvis.Prelude.{
  ℕ, suc, ◌+◌, ◌*◌, ◌/◌, max, Bool, true, false, not, ◌&&◌, ◌||◌, Option, none, some, List, [], ◌∷◌,
  ◌++◌, Text, text, text_eq, ltb, leb, ◌==◌, if◌then◌else◌, keep, length, is_some, is_nil, take,
}
use jarvis.Prelude.Dicts.{Dict, get, put}
use jarvis.Proto.Runs.{RunKind, ModelUsage}

pub data CallOutcome : Type 0 where
  running ok failed cancelled : CallOutcome

pub data CallState : Type 0 where
  waiting : CallState
  in_state : CallOutcome → CallState

pub record CallRecord : Type 0 where
  pub id : Text
  pub endpoint : Text
  pub model : Text
  pub role : Option Text
  pub source : Text
  pub label : Option Text
  pub run_id : Option Text
  pub conversation_id : Option Text
  pub window : Option ℕ
  pub queued_ms : ℕ
  pub started_ms : Option ℕ
  pub ended_ms : Option ℕ
  pub prompt_estimate : ℕ
  pub prompt_tokens : ℕ
  pub completion_tokens : ℕ
  pub cached_tokens : ℕ
  pub estimated : Bool
  pub streamed_chars : ℕ
  pub outcome : CallOutcome
  pub trimmed_tokens : ℕ
  pub shrunk : Bool
  pub rejected : Bool
  pub cut : Bool
  pub error : Option Text

unfoldable pub is_running : CallOutcome → Bool
is_running CallOutcome.running = true
is_running _ = false

-- `int(chars / 3.2)`
unfoldable pub tokens_written : ℕ → ℕ
tokens_written chars = chars * 5 / 16

unfoldable pub state : CallRecord → CallState
state rec = elim rec.started_ms [
  | none ↦ CallState.waiting
  | some t ↦ CallState.in_state rec.outcome
]

unfoldable pub tokens : CallRecord → ℕ
unfolding is_running tokens_written
tokens rec =
    if is_running rec.outcome
    then max rec.prompt_tokens rec.prompt_estimate + tokens_written rec.streamed_chars
    else rec.prompt_tokens + rec.completion_tokens

pub record ContextLedger : Type 0 where
  pub calls : Dict CallRecord
  pub live : List Text
  pub written : List Text
  pub has_sink : Bool
  pub in_loop : Bool
  pub labels : Dict (Option Text)

unfoldable pub kind_value : RunKind → Text
unfolding text
kind_value RunKind.chat = text "chat"
kind_value RunKind.scheduled = text "scheduled"
kind_value RunKind.collab = text "collab"
kind_value RunKind.triage = text "triage"
kind_value RunKind.meeting = text "meeting"
kind_value RunKind.mail = text "mail"
kind_value RunKind.system = text "system"
kind_value RunKind.task = text "task"

unfoldable pub source_of : Option RunKind → Bool → Text
unfolding text kind_value text_eq
source_of none voice = text "housekeeping"
source_of (some kind) voice =
    if text_eq (kind_value kind) (text "chat") && voice then text "voice" else kind_value kind

-- The name of the schedule behind a conversation, remembered. `schedule_of` gives none where it is not
-- set, knows none or raises.
unfoldable pub schedule_name :
    (Text → Option Text) → Text → ContextLedger → Option Text × ContextLedger
schedule_name schedule_of conversation_id ledger = elim (get conversation_id ledger.labels) [
  | some name ↦ (name, ledger)
  | none ↦
      let name = schedule_of conversation_id in
      let labels : Dict (Option Text) =
        if ltb 2000 (length ledger.labels) then [] else ledger.labels in
      (name, record ledger { labels = put conversation_id name labels })
]

-- What a call is made in, the spec that it is for, and the fresh id and time.
pub record CallContext : Type 0 where
  pub purpose : Option Text
  pub kind : Option RunKind
  pub voice : Bool
  pub role : Option Text
  pub run_id : Option Text
  pub conversation_id : Option Text
  pub base_url : Text
  pub model : Text
  pub num_ctx : Option ℕ
  pub served_window : Option ℕ
  pub prompt_estimate : ℕ
  pub pending_trim : ℕ
  pub id : Text
  pub now : ℕ

unfoldable pub truthy : Option Text → Bool
truthy none = false
truthy (some []) = false
truthy (some (c ∷ cs)) = true

-- The source and the label of a call.
unfoldable pub booked_to :
    (Text → Option Text) → CallContext → ContextLedger → Text × Option Text × ContextLedger
unfolding truthy source_of schedule_name text text_eq
booked_to schedule_of c ledger =
    let source = source_of c.kind c.voice in
    if truthy c.purpose
    then (text "housekeeping", c.purpose, ledger)
    else if text_eq source (text "scheduled") && truthy c.conversation_id
    then elim c.conversation_id [
      | none ↦ (source, none, ledger)
      | some conv ↦
          let (name, ledger') = schedule_name schedule_of conv ledger in (source, name, ledger')
    ]
    else (source, if text_eq source (text "housekeeping") then c.role else none, ledger)

-- The window is the spec's, else the one that is served.
unfoldable pub new_call : Text → Option Text → CallContext → CallRecord
new_call source label c = record {
  id = c.id;
  endpoint = c.base_url;
  model = c.model;
  role = c.role;
  source = source;
  label = label;
  run_id = c.run_id;
  conversation_id = c.conversation_id;
  window = if is_some c.num_ctx then c.num_ctx else c.served_window;
  queued_ms = c.now;
  started_ms = none;
  ended_ms = none;
  prompt_estimate = c.prompt_estimate;
  prompt_tokens = 0;
  completion_tokens = 0;
  cached_tokens = 0;
  estimated = false;
  streamed_chars = 0;
  outcome = CallOutcome.running;
  trimmed_tokens = c.pending_trim;
  shrunk = false;
  rejected = false;
  cut = false;
  error = none;
}

unfoldable pub begin_call : (Text → Option Text) → CallContext → ContextLedger → ContextLedger
unfolding booked_to new_call
begin_call schedule_of c ledger =
    let (source, label, ledger') = booked_to schedule_of c ledger in
    record ledger' {
      calls = put c.id (new_call source label c) ledger'.calls;
      live = keep (λ k. not (text_eq k c.id)) ledger'.live ++ c.id ∷ [];
    }

unfoldable pub started : ℕ → CallRecord → CallRecord
started now rec = if is_some rec.started_ms then rec else record rec { started_ms = some now }

unfoldable pub saw : Text → CallRecord → CallRecord
saw t rec = record rec { streamed_chars = rec.streamed_chars + length t }

unfoldable pub estimate : CallRecord → CallRecord
unfolding tokens_written
estimate rec = record rec {
  estimated = true;
  prompt_tokens = rec.prompt_estimate;
  completion_tokens = tokens_written rec.streamed_chars;
}

unfoldable pub is_cut : ModelUsage → Option Text → Option ℕ → Bool
unfolding text text_eq
is_cut usage finish_reason max_tokens =
    (elim finish_reason [ none ↦ false | some r ↦ text_eq r (text "length") ])
    || (elim max_tokens [ none ↦ false | some n ↦ ltb 0 n && leb n usage.completion_tokens ])

-- The record as `finish` leaves it before it closes it.
unfoldable pub used : ModelUsage → Option Text → Option ℕ → CallRecord → CallRecord
unfolding estimate is_cut
used usage finish_reason max_tokens rec =
    let counted : CallRecord = record rec {
      prompt_tokens = usage.prompt_tokens;
      completion_tokens = usage.completion_tokens;
      cached_tokens = usage.cached_tokens;
    } in
    let settled =
      if usage.prompt_tokens == 0 && usage.completion_tokens == 0
      then estimate counted
      else counted in
    record settled { cut = is_cut usage finish_reason max_tokens }

-- An exception: whether it is one of those that cancel, its class and its message.
pub record Failure : Type 0 where
  pub cancels : Bool
  pub name : Text
  pub message : Text

unfoldable pub broken : (Text → Bool) → Failure → CallRecord → CallRecord
unfolding estimate text
broken is_context_overflow exc rec =
    let noted : CallRecord = if exc.cancels then rec else record rec {
      error = some (take 500 (exc.name ++ text ": " ++ exc.message));
      rejected = rec.rejected || is_context_overflow exc.message;
    } in
    if noted.prompt_tokens == 0 then estimate noted else noted

-- `_close`
unfoldable pub close : CallRecord → CallOutcome → ℕ → ContextLedger → ContextLedger
unfolding is_running
close rec outcome now ledger =
    if not (is_running rec.outcome)
    then record ledger { calls = put rec.id rec ledger.calls }
    else record ledger {
      calls = put rec.id (record rec { outcome = outcome; ended_ms = some now }) ledger.calls;
      live = keep (λ k. not (text_eq k rec.id)) ledger.live;
      written =
          if ledger.has_sink && ledger.in_loop
          then ledger.written ++ rec.id ∷ []
          else ledger.written;
    }

-- What an adapter does with the record of its call.
pub data CallStep : Type 0 where
  starts : ℕ → CallStep
  sees : Text → CallStep
  finishes : ModelUsage → Option Text → Option ℕ → ℕ → CallStep
  fails : Failure → ℕ → CallStep

unfoldable pub call_step : (Text → Bool) → Text → CallStep → ContextLedger → ContextLedger
unfolding started saw used broken close
call_step overflow id step ledger = elim (get id ledger.calls) [
  | none ↦ ledger
  | some rec ↦ elim step [
    | starts now ↦ record ledger { calls = put id (started now rec) ledger.calls }
    | sees t ↦ record ledger { calls = put id (saw t rec) ledger.calls }
    | finishes usage reason max_tokens now ↦
        close (used usage reason max_tokens rec) CallOutcome.ok now ledger
    | fails exc now ↦
        close (broken overflow exc rec)
          (if exc.cancels then CallOutcome.cancelled else CallOutcome.failed) now ledger
  ]
]

unfoldable pub call_steps : (Text → Bool) → Text → List CallStep → ContextLedger → ContextLedger
unfolding call_step
call_steps overflow id [] ledger = ledger
call_steps overflow id (s ∷ ss) ledger = call_steps overflow id ss (call_step overflow id s ledger)
