-- ===== src/Engine/Create.antt =====
-- `create_run` of run_engine.py. The settings that it reads are a record, the attachment store is a
-- function that binds ids to a message, and the fresh ids and the time are arguments.
use native.Mathlib.Nat.{le_trans}
use jarvis.Prelude.{
  ℕ, ◌+◌, ◌<◌, ◌≤◌, min, ◌≡◌, Bool, false, not, ◌&&◌, Option, none, some, List, [], ◌∷◌, ◌++◌, Text,
  text_eq, ltb, ◌==◌, if◌then◌else◌, is_some, or_else, is_nil, strip, first_line, length, take,
  arith, length-take, length-append, Bool-cases, inl, inr,
}
use jarvis.Proto.Runs.{
  Run, RunKind, RunStatus, RunBudget, default_budget, no_usage, ThinkLevel, Channel, is_voice,
  Conversation, ConversationKind, new_chat,
}
use jarvis.Proto.Messages.{Message, user}
use jarvis.Proto.Events.{run_queued, message_created, conversation_updated}
use jarvis.Bus.{publish}
use jarvis.Store
use jarvis.Store.{Store, get_conversation}
use jarvis.Store.Conversations.{create_conversation, update_conversation, new_title, add_message}
use jarvis.Engine.{Engine, enqueue, priority_of}
use jarvis.Emit.{emit}

-- What `create_run` reads of the settings.
pub record Settings : Type 0 where
  pub voice_think : Bool
  pub call_me_default : RunKind → Bool
  pub budgets : RunKind → Option RunBudget
  pub max_turn_s : ℕ

-- Its keyword arguments.
pub record Request : Type 0 where
  pub input : Text
  pub conversation_id : Option Text
  pub kind : RunKind
  pub conversation_kind : Option ConversationKind
  pub folder_key : Option Text
  pub folder_label : Option Text
  pub title : Option Text
  pub think : Option Bool
  pub think_level : Option ThinkLevel
  pub budget_kind : Option RunKind
  pub attachment_ids : List Text
  pub channel : Channel
  pub call_me : Option Bool
  pub timezone : Option Text
  pub from_owner : Bool
  pub call_id : Option Text

-- `new_id` for the conversation, the message and the run, and the clock.
pub record Fresh : Type 0 where
  pub conversation : Text
  pub message : Text
  pub run : Text
  pub now : ℕ

-- The attachment store: the ids given, the message and the conversation, to the ids bound.
abbrev pub Binder : Type 0
Binder = Option (List Text → Text → Text → List Text)

abbrev pub ellipsis : Text
ellipsis = 0x2026 ∷ []

unfoldable pub clip_title : Text → Text
clip_title line = if ltb 60 (length line) then take 57 line ++ ellipsis else line

unfoldable pub title_from : Text → Text
unfolding clip_title new_chat strip first_line
title_from t = clip_title (if is_nil (strip t) then new_chat else first_line (strip t))

length-clipped : (n : ℕ) (line : Text) → length (take n line ++ ellipsis) ≤ n + 1
length-clipped n line = omega (arith, length-append (take n line) ellipsis, length-take n line)

clip_title-le : (line : Text) → length (clip_title line) ≤ 60
unfolding clip_title
clip_title-le line = elim (Bool-cases (ltb 60 (length line))) [
  | inl long ↦ rw long (le_trans (length-clipped 57 line) (omega arith))
  | inr short ↦ rw short (ground (arith, short))
]

-- A chat named after what was typed never has a title of more than sixty characters.
pub length-title_from : (t : Text) → length (title_from t) ≤ 60
unfolding title_from
length-title_from t = clip_title-le (if is_nil (strip t) then new_chat else first_line (strip t))

unfoldable pub conversation_kind_of : RunKind → ConversationKind
conversation_kind_of RunKind.chat = ConversationKind.chat
conversation_kind_of RunKind.scheduled = ConversationKind.scheduled
conversation_kind_of RunKind.collab = ConversationKind.collab
conversation_kind_of RunKind.triage = ConversationKind.triage
conversation_kind_of RunKind.meeting = ConversationKind.meeting
conversation_kind_of RunKind.mail = ConversationKind.mail
conversation_kind_of RunKind.system = ConversationKind.chat
conversation_kind_of RunKind.task = ConversationKind.task

unfoldable pub is_untitled : Conversation → Bool
unfolding new_chat
is_untitled conv = text_eq conv.title new_chat && conv.message_count == 0 && not conv.incognito

unfoldable pub find_named : Option Text → Store → Option Conversation
find_named none st = none
find_named (some []) st = none
find_named (some (c ∷ cs)) st = get_conversation (c ∷ cs) st

-- `title or _title_from(text)`
unfoldable pub or_title : Option Text → Text → Text
or_title none d = d
or_title (some []) d = d
or_title (some (c ∷ cs)) d = c ∷ cs

unfoldable pub rename : Conversation → Request → Fresh → Engine → Conversation × Engine
unfolding title_from
rename conv req ids eng =
    let (updated, st) =
      update_conversation conv.id (new_title (title_from req.input) ∷ []) ids.now eng.store in
    let conv' = or_else updated conv in
    (conv', record eng { store = st; bus = publish (conversation_updated conv') eng.bus })

-- The first stretch: the conversation, new, renamed or as it was.
unfoldable pub conversation_for : Request → Fresh → Engine → Conversation × Engine
unfolding conversation_kind_of is_untitled find_named title_from or_title rename
conversation_for req ids eng = elim (find_named req.conversation_id eng.store) [
  | none ↦
      let (conv, st) =
        create_conversation ids.conversation
          (or_else req.conversation_kind (conversation_kind_of req.kind))
          (or_title req.title (title_from req.input)) req.folder_key req.folder_label false none
          ids.now eng.store in
      (conv, record eng { store = st; bus = publish (conversation_updated conv) eng.bus })
  | some conv ↦ if is_untitled conv then rename conv req ids eng else (conv, eng)
]

unfoldable pub think_of : Request → Settings → Option Bool
think_of req s =
    if is_voice req.channel && not (is_some req.think) && not s.voice_think
    then some false
    else req.think

-- Not asked either way, the settings say whether this kind of run rings; a call's own turns do not.
unfoldable pub rings : Request → Settings → Bool
rings req s = or_else req.call_me (not (is_voice req.channel) && s.call_me_default req.kind)

unfoldable pub budget_of : Request → Settings → RunBudget
unfolding default_budget
budget_of req s =
    let b = or_else (s.budgets (or_else req.budget_kind req.kind)) default_budget in
    if is_voice req.channel && ltb 0 s.max_turn_s
    then record b { max_seconds = min b.max_seconds s.max_turn_s }
    else b

unfoldable pub run_of : Request → Settings → Fresh → Conversation → Run
unfolding think_of rings budget_of priority_of no_usage
run_of req s ids conv = record {
  id = ids.run;
  conversation_id = conv.id;
  kind = req.kind;
  status = RunStatus.queued;
  input_text = req.input;
  plan = none;
  budget = budget_of req s;
  priority = priority_of req.kind;
  steps_used = 0;
  usage = no_usage;
  last_seq = 0;
  error = none;
  waiting_reason = none;
  think = think_of req s;
  think_level = req.think_level;
  channel = req.channel;
  call_me = rings req s;
  call_me_default = not (is_some req.call_me) && rings req s;
  timezone = req.timezone;
  from_owner = req.from_owner;
  call_id = if is_voice req.channel then req.call_id else none;
  created_at = ids.now;
  started_at = none;
  finished_at = none;
}

-- `Message.user(text, conversation_id=..., channel=...)`
unfoldable pub user_message : Request → Fresh → Conversation → Message
user_message req ids conv = record {
  id = none;
  conversation_id = some conv.id;
  run_id = none;
  role = user;
  content = req.input;
  reasoning = none;
  tool_calls = [];
  tool_call_id = none;
  name = none;
  partial = false;
  attachments = [];
  channel = req.channel;
  task_id = none;
  created_at = ids.now;
}

unfoldable pub bind_attachments : Request → Binder → Conversation → Message → Message
bind_attachments req none conv m = m
bind_attachments req (some bind) conv m =
    if is_nil req.attachment_ids
    then m
    else record m { attachments = bind req.attachment_ids (or_else m.id []) conv.id }

-- `UPDATE messages SET run_id = ? WHERE id = ?`
unfoldable pub give_run : Text → Option Text → List Message → List Message
give_run run_id message_id [] = []
give_run run_id none (m ∷ ms) = m ∷ ms
give_run run_id (some id) (m ∷ ms) =
    let rest = give_run run_id (some id) ms in
    (if elim m.id [ none ↦ false | some i ↦ text_eq i id ]
      then record m { run_id = some run_id }
      else m)
    ∷ rest

-- The last stretch: the run is stored, tied to its message, announced and queued.
unfoldable pub queue_new :
    Run → Message → Conversation → Engine → Option (Run × Conversation × Engine)
unfolding give_run
queue_new run msg conv eng = elim (Store.create_run run eng.store) [
  | none ↦ none
  | some st ↦
      let tied = record eng {
        store = record st { messages = give_run run.id msg.id st.messages };
      } in
      elim (emit run (run_queued run.kind (take 120 run.input_text) msg.id) tied.store tied.bus) [
        | none ↦ none
        | some (run', st', bus') ↦
            let saved = record tied { store = Store.save_run run' st'; bus = bus' } in
            let queued = enqueue run' false saved in
            let conv' = or_else (get_conversation conv.id queued.store) conv in
            some
              (run', conv', record queued { bus = publish (conversation_updated conv') queued.bus })
      ]
]

unfoldable pub create_run :
    Request → Settings → Binder → Fresh → Engine → Option (Run × Conversation × Engine)
unfolding conversation_for user_message bind_attachments run_of queue_new
create_run req s binder ids eng =
    let (conv, eng1) = conversation_for req ids eng in
    elim (add_message (user_message req ids conv) ids.message ids.now eng1.store) [
      | none ↦ none
      | some (m, st) ↦
          let msg = bind_attachments req binder conv m in
          let told = record eng1 { store = st; bus = publish (message_created msg) eng1.bus } in
          queue_new (run_of req s ids conv) msg conv told
    ]

-- A spoken turn never has longer than the settings allow one, where they set a limit.
pub voice_turn_bounded :
    (req : Request) (s : Settings) (ids : Fresh) (conv : Conversation)
    → req.channel ≡ Channel.voice
    → 0 < s.max_turn_s
    → (run_of req s ids conv).budget.max_seconds ≤ s.max_turn_s
unfolding run_of
voice_turn_bounded req s ids conv v p = ground arith
