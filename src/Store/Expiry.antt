-- ===== src/Store/Expiry.antt =====
-- What a message does to its conversation's row (db/store.py), and when a disappearing chat is due.
use jarvis.Prelude.{
  ℕ, ◌+◌, ◌*◌, ◌/◌, ◌≡◌, refl, ap, Bool, true, Option, false, none, some, List, [], ◌∷◌, ◌++◌, Text,
  text_eq, text_eq_iff, arith, length, keep, if◌then◌else◌, any, is_some, Holds, ◌&&◌, false, All,
  Bool-cases, inl, inr, not, leb, or_else,
}
use jarvis.Proto.Runs.{Conversation}
use jarvis.Proto.Messages.{Message}
use jarvis.Store.{Store, expires, micros}
use jarvis.Store.Conversations.{
  update_where, touched, strftime_later, touch_conversation, add_message, is_due, list_messages,
  in_conversation, preview_of, insertable,
}

-- The two ways in which the store computes an expiry never disagree.
pub expires-eq-strftime : (now ttl : ℕ) → expires (some ttl) now ≡ some (strftime_later now ttl)
unfolding expires strftime_later
expires-eq-strftime now ttl = ap some (omega arith)

All-update_where :
    (P : Conversation → Type 0) (id : Text) (f : Conversation → Conversation)
    → ((c : Conversation) → P (f c))
    → (cs : List Conversation) → All (λ c. text_eq c.id id ≡ true → P c) (update_where id f cs)
unfolding update_where
All-update_where P id f h [] = tt
All-update_where P id f h (c ∷ cs) = elim (Bool-cases (text_eq c.id id)) [
  | inl e ↦ rw e ((λ _. h c), All-update_where P id f h cs)
  | inr e ↦ rw e ((λ q. cc), All-update_where P id f h cs)
]

-- What holds of a conversation's row once a message has landed in it.
pub record Landed (now count : ℕ) (c : Conversation) : Type 0 where
  pub counted : c.message_count ≡ count
  pub bumped : c.updated_at ≡ now
  pub rearmed : c.expires_at ≡ expires c.ttl_seconds now
  pub quiet : c.incognito ≡ true → c.preview ≡ none

touched-Landed :
    (now count : ℕ) (preview : Option Text) (c : Conversation)
    → Landed now count (touched now preview count c)
unfolding touched expires
touched-Landed now count preview c = ground (arith, λ (ttl : ℕ). expires-eq-strftime now ttl)

keep-append :
    (p : Message → Bool) (xs : List Message) (m : Message)
    → p m ≡ true
    → keep p (xs ++ m ∷ []) ≡ keep p xs ++ m ∷ []
unfolding keep
keep-append p [] m h = ground arith
keep-append p (x ∷ xs) m h = ground (arith, keep-append p xs m h)

keep-update_where :
    (id : Text) (f : Conversation → Conversation)
    → ((c : Conversation) → (f c).id ≡ c.id)
    → (cs : List Conversation)
    → keep (λ c. not (text_eq c.id id)) (update_where id f cs)
      ≡ keep (λ c. not (text_eq c.id id)) cs
unfolding keep update_where
keep-update_where id f h [] = refl
keep-update_where id f h (c ∷ cs) = elim (Bool-cases (text_eq c.id id)) [
  | inl e ↦ ground (arith, h c, keep-update_where id f h cs)
  | inr e ↦ ground (arith, keep-update_where id f h cs)
]

id-touched :
    (now count : ℕ) (preview : Option Text) (c : Conversation)
    → (touched now preview count c).id ≡ c.id
unfolding touched
id-touched now count preview c = refl

-- What holds of the message and the store after a message was added to a conversation.
abbrev pub Added : Message → Text → Text → ℕ → Store → Message × Store → Type 0
Added m id conv now st r =
    (r.0 ≡ record m { id = some (or_else m.id id) })
    × (list_messages conv r.1 ≡ list_messages conv st ++ r.0 ∷ [])
    × All (λ c. text_eq c.id conv ≡ true → Landed now (length (list_messages conv r.1)) c)
        r.1.conversations
    × (keep (λ c. not (text_eq c.id conv)) r.1.conversations
        ≡ keep (λ c. not (text_eq c.id conv)) st.conversations)

touch_conversation-Added :
    (m : Message) (id conv : Text) (now : ℕ) (st : Store)
    → m.conversation_id ≡ some conv
    → let m' : Message = record m { id = some (or_else m.id id) } in
      Added m id conv now st (
        m',
        touch_conversation conv
            (preview_of m)
            now
            (record st { messages = st.messages ++ m' ∷ [] }),
      )
unfolding touch_conversation list_messages
touch_conversation-Added m id conv now st h =
    let m' : Message = record m { id = some (or_else m.id id) } in
    let here : in_conversation conv m' ≡ true =
      unfold in_conversation in ground (arith, h, text_eq_iff conv conv) in
    let count = length (keep (in_conversation conv) (st.messages ++ m' ∷ [])) in
    (
      refl,
      keep-append (in_conversation conv) st.messages m' here,
      All-update_where _ conv _ (λ c. touched-Landed now count (preview_of m) c) st.conversations,
      keep-update_where conv _ (λ c. id-touched now count (preview_of m) c) st.conversations,
    )

some_if {ℓ} :
    {A : Type ℓ} (b : Bool) (a : A) (P : A → Type 0)
    → P a
    → (is_some (if b then some a else none) ≡ b) × Holds P (if b then some a else none)
some_if true a P p = (refl, p)
some_if false a P p = (refl, tt)

-- Adding a message to a conversation succeeds exactly when the conversation is there and no message has
-- its id. It is the conversation's last message from then on; the rows of that conversation carry the
-- new count and time, their expiry is the idle time counted from now, and an incognito one quotes
-- nothing; every other conversation is as it was.
pub add_message-Landed :
    (m : Message) (id conv : Text) (now : ℕ) (st : Store)
    → m.conversation_id ≡ some conv
    → (is_some (add_message m id now st) ≡ (
        any (λ c. text_eq c.id conv) st.conversations
        && not (
            any
              (λ x. elim x.id [ none ↦ false | some i ↦ text_eq i (or_else m.id id) ])
              st.messages)))
      × Holds (Added m id conv now st) (add_message m id now st)
unfolding add_message insertable
add_message-Landed m id conv now st h =
    let m' : Message = record m { id = some (or_else m.id id) } in
    let r : Message × Store = (
      m',
      touch_conversation conv (preview_of m) now (record st { messages = st.messages ++ m' ∷ [] }),
    ) in
    let e : add_message m id now st
        ≡ (if insertable (or_else m.id id) conv st then some r else none) =
      ground (arith, h) in
    rw e (
      some_if (insertable (or_else m.id id) conv st) r (Added m id conv now st)
        (touch_conversation-Added m id conv now st h))

-- A chat that a message has just reached is due exactly when its idle time is up, counted from the
-- millisecond of the message.
pub touched-is_due :
    (now ttl later count : ℕ) (preview : Option Text) (c : Conversation)
    → c.ttl_seconds ≡ some ttl
    → is_due later (touched now preview count c) ≡ leb (now / 1000 * 1000 + ttl * micros) later
unfolding is_due touched strftime_later
touched-is_due now ttl later count preview c h = ground arith
