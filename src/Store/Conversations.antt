-- ===== src/Store/Conversations.antt =====
-- The conversations and messages of db/store.py. `none` is an exception: a message without a
-- conversation, or SQLite's IntegrityError. The id of a new conversation is fresh.
use jarvis.Prelude.{
  ℕ, ◌+◌, ◌*◌, ◌/◌, Bool, true, false, not, ◌&&◌, Option, none, some, List, [], ◌∷◌, ◌++◌, map,
  Text, text_eq, leb, if◌then◌else◌, is_some, or_else, length, take, any, keep, sort_by,
}
use jarvis.Proto.Runs.{Conversation, ConversationKind, idle}
use jarvis.Proto.Messages.{Message, Role, user, assistant}
use jarvis.Store.{Store, expires, with_activity, get_conversation, micros}

unfoldable pub create_conversation :
    Text
    → ConversationKind
    → Text
    → Option Text
    → Option Text
    → Bool
    → Option ℕ
    → ℕ
    → Store
    → Conversation × Store
create_conversation id kind title folder_key folder_label incognito ttl_seconds now st =
    let conv : Conversation = record {
      id = id;
      kind = kind;
      title = title;
      folder_key = folder_key;
      folder_label = folder_label;
      folder_id = none;
      archived = false;
      unread = false;
      pinned = false;
      title_auto = true;
      instructions = [];
      preview = none;
      message_count = 0;
      activity = idle;
      incognito = incognito;
      ttl_seconds = ttl_seconds;
      expires_at = expires ttl_seconds now;
      created_at = now;
      updated_at = now;
    } in
    (conv, record st { conversations = st.conversations ++ conv ∷ [] })

-- `UPDATE conversations SET ... WHERE id = ?`
unfoldable pub update_where :
    Text → (Conversation → Conversation) → List Conversation → List Conversation
update_where id f [] = []
update_where id f (c ∷ cs) = (if text_eq c.id id then f c else c) ∷ update_where id f cs

-- A keyword argument of `update_conversation`: the fields that it allows.
pub data Field : Type 0 where
  new_preview new_folder_key new_folder_label new_folder_id : Option Text → Field
  new_title new_instructions : Text → Field
  new_archived new_unread new_pinned new_title_auto : Bool → Field
  new_kind : ConversationKind → Field
  new_ttl_seconds new_expires_at : Option ℕ → Field

unfoldable pub set_field : Conversation → Field → Conversation
set_field c (new_preview v) = record c { preview = v }
set_field c (new_folder_key v) = record c { folder_key = v }
set_field c (new_folder_label v) = record c { folder_label = v }
set_field c (new_folder_id v) = record c { folder_id = v }
set_field c (new_title v) = record c { title = v }
set_field c (new_instructions v) = record c { instructions = v }
set_field c (new_archived v) = record c { archived = v }
set_field c (new_unread v) = record c { unread = v }
set_field c (new_pinned v) = record c { pinned = v }
set_field c (new_title_auto v) = record c { title_auto = v }
set_field c (new_kind v) = record c { kind = v }
set_field c (new_ttl_seconds v) = record c { ttl_seconds = v }
set_field c (new_expires_at v) = record c { expires_at = v }

unfoldable pub set_fields : Conversation → List Field → Conversation
unfolding set_field
set_fields c [] = c
set_fields c (f ∷ fs) = set_fields (set_field c f) fs

unfoldable pub ttl_of : List Field → Option (Option ℕ)
ttl_of [] = none
ttl_of (new_ttl_seconds v ∷ fs) = some v
ttl_of (_ ∷ fs) = ttl_of fs

unfoldable pub sets_expiry : List Field → Bool
sets_expiry [] = false
sets_expiry (new_expires_at v ∷ fs) = true
sets_expiry (_ ∷ fs) = sets_expiry fs

-- A (new) idle time starts its clock now, unless the caller sets the expiry too.
unfoldable pub with_expiry : List Field → ℕ → List Field
unfolding ttl_of sets_expiry
with_expiry fields now = elim (ttl_of fields) [
  | none ↦ fields
  | some ttl ↦
      if sets_expiry fields then fields else fields ++ new_expires_at (expires ttl now) ∷ []
]

unfoldable pub update_conversation : Text → List Field → ℕ → Store → Option Conversation × Store
unfolding update_where set_fields with_expiry
update_conversation id [] now st = (get_conversation id st, st)
update_conversation id (f ∷ fs) now st =
    let fields = with_expiry (f ∷ fs) now in
    let st' = record st {
      conversations =
          update_where id (λ c. record (set_fields c fields) { updated_at = now }) st.conversations;
    } in
    (get_conversation id st', st')

-- `(preview or "")[:160] or None`
unfoldable pub clip_preview : Option Text → Option Text
clip_preview none = none
clip_preview (some []) = none
clip_preview (some (c ∷ cs)) = some (take 160 (c ∷ cs))

-- SQLite's `strftime` of a time cut to the millisecond, some seconds later.
unfoldable pub strftime_later : ℕ → ℕ → ℕ
strftime_later now ttl = now / 1000 * 1000 + ttl * micros

unfoldable pub touched : ℕ → Option Text → ℕ → Conversation → Conversation
unfolding clip_preview strftime_later
touched now preview count c = record c {
  updated_at = now;
  preview =
      if c.incognito
      then none
      else if is_some (clip_preview preview)
      then clip_preview preview
      else c.preview;
  message_count = count;
  expires_at = elim c.ttl_seconds [ none ↦ none | some ttl ↦ some (strftime_later now ttl) ];
}

unfoldable pub in_conversation : Text → Message → Bool
in_conversation id m = elim m.conversation_id [ none ↦ false | some c ↦ text_eq c id ]

unfoldable pub touch_conversation : Text → Option Text → ℕ → Store → Store
unfolding touched update_where in_conversation
touch_conversation id preview now st = record st {
  conversations =
      update_where id (touched now preview (length (keep (in_conversation id) st.messages)))
        st.conversations;
}

unfoldable pub is_due : ℕ → Conversation → Bool
is_due now c = elim c.expires_at [ none ↦ false | some at ↦ leb at now ]

unfoldable pub due_first : Conversation → Conversation → Bool
due_first a b = leb (or_else a.expires_at 0) (or_else b.expires_at 0)

unfoldable pub expired_conversations : ℕ → Store → List Conversation
unfolding is_due due_first
expired_conversations now st =
    map (with_activity st.runs) (sort_by due_first (keep (is_due now) st.conversations))

-- The row goes, and with it (ON DELETE CASCADE) its messages, its runs and their events.
unfoldable pub delete_conversation : Text → Store → Store
unfolding in_conversation
delete_conversation id st = record st {
  conversations = keep (λ c. not (text_eq c.id id)) st.conversations;
  messages = keep (λ m. not (in_conversation id m)) st.messages;
  runs = keep (λ r. not (text_eq r.conversation_id id)) st.runs;
  events =
      keep (λ e. not (any (λ r. text_eq r.id e.run_id && text_eq r.conversation_id id) st.runs))
        st.events;
}

unfoldable pub is_spoken : Role → Bool
is_spoken user = true
is_spoken assistant = true
is_spoken _ = false

-- Named messages are the machine's notes, and never the preview.
unfoldable pub preview_of : Message → Option Text
unfolding is_spoken
preview_of m = if is_spoken m.role && not (is_some m.name) then some m.content else none

abbrev pub message_is : Text → Message → Bool
message_is id m = elim m.id [ none ↦ false | some i ↦ text_eq i id ]

-- The conversation that a message refers to is there, and its id is not.
unfoldable pub insertable : Text → Text → Store → Bool
insertable id conv st =
    any (λ c. text_eq c.id conv) st.conversations && not (any (message_is id) st.messages)

-- `id` is the fresh id of a message that has none.
unfoldable pub add_message : Message → Text → ℕ → Store → Option (Message × Store)
unfolding preview_of touch_conversation insertable
add_message m id now st = elim m.conversation_id [
  | none ↦ none
  | some conv ↦
      let m' = record m { id = some (or_else m.id id) } in
      if insertable (or_else m.id id) conv st
      then some (
        m',
        touch_conversation conv (preview_of m) now
            (record st { messages = st.messages ++ m' ∷ [] }),
      )
      else none
]

unfoldable pub list_messages : Text → Store → List Message
unfolding in_conversation
list_messages id st = keep (in_conversation id) st.messages

unfoldable pub of_this_run : Text → Message → Bool
of_this_run run_id m = elim m.run_id [ none ↦ false | some r ↦ text_eq r run_id ]

unfoldable pub list_run_messages : Text → Store → List Message
unfolding of_this_run
list_run_messages run_id st = keep (of_this_run run_id) st.messages
