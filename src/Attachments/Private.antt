-- ===== src/Attachments/Private.antt =====
-- The rows of a private chat's attachments have neither a path nor a text (attachments.py).
use jarvis.Prelude.{
  ℕ, ◌≡◌, ◌⊎◌, refl, subst, Bool, true, false, not, ◌&&◌, ◌||◌, Option, none, some, List, [], ◌∷◌,
  Text, text_eq, text_eq_iff, arith, if◌then◌else◌, is_some, any, find, is_nil, strip, All,
  All-append, inl, inr, Bool-cases, Option-cases,
}
use jarvis.Prelude.Dicts.{Dict, get, put, get-put}
use jarvis.Store.{Store}
use jarvis.Attachments.{
  Attachment, AttachmentStore, Held, conversation_is_private, keep_file, insert_row, add_text,
  keep_text, new_text, trim, take_off_disk, bind_one, bind_all, bind, scrub_private, left_on_disk,
  update_rows, erased, bound, id_is, unlink,
}

unfoldable pub is_bare : Attachment → Bool
is_bare a = not (is_some a.path) && not (is_some a.body)

-- The row of an attachment that is private, by its chat or by what is kept in memory, has neither a
-- path nor a text.
unfoldable pub is_clean : Store → Dict Held → Attachment → Bool
unfolding is_bare
is_clean st held a =
    if is_some (get a.id held) || conversation_is_private a.conversation_id st
    then is_bare a
    else true

abbrev pub Clean : Store → AttachmentStore → Type 0
Clean st s = All (λ a. is_clean st s.held a ≡ true) s.rows

-- Rows with other ids do not see what is put in memory.
Clean-put :
    (st : Store) (id : Text) (h : Held) (held : Dict Held) (rows : List Attachment)
    → any (id_is id) rows ≡ false
    → All (λ a. is_clean st held a ≡ true) rows
    → All (λ a. is_clean st (put id h held) a ≡ true) rows
unfolding any is_clean
Clean-put st id h held [] free c = tt
Clean-put st id h held (a ∷ rows) free c =
    let e : text_eq a.id id ≡ false = ground (arith, free) in
    let free' : any (id_is id) rows ≡ false = ground (arith, free) in
    let same : get a.id (put id h held) ≡ get a.id held =
      ground (arith, get-put id a.id h held, text_eq_iff a.id id, text_eq_iff id a.id, e) in
    (ground (arith, same, c.0), Clean-put st id h held rows free' c.1)

insert_row-Clean :
    (st : Store) (a : Attachment) (s : AttachmentStore)
    → is_clean st s.held a ≡ true
    → Clean st s
    → Clean st (insert_row a s)
unfolding insert_row
insert_row-Clean st a s e c =
    All-append (λ x. is_clean st s.held x ≡ true) s.rows (a ∷ []) c (e, tt)

-- A new attachment is kept clean, whether its chat is private or not, as long as its id is new and the
-- caller's word on privacy is the chat's own or stricter.
keep_file-Clean :
    (st : Store) (a : Attachment) (path bytes : Text) (incognito : Bool) (s : AttachmentStore)
    → any (id_is a.id) s.rows ≡ false
    → get a.id s.held ≡ none
    → Clean st s
    → Clean st
        (keep_file a path bytes (incognito || conversation_is_private a.conversation_id st) s)
unfolding keep_file
keep_file-Clean st a path bytes incognito s free unheld c =
    elim (Bool-cases (incognito || conversation_is_private a.conversation_id st)) [
      | inl e ↦ rw e (
          insert_row-Clean st (record a { path = none; body = none; message_id = none })
            (record s { held = put a.id (record { bytes = some bytes; body = a.body }) s.held })
            (unfold is_clean is_bare in ground arith)
            (Clean-put st a.id (record { bytes = some bytes; body = a.body }) s.held s.rows free c))
      | inr e ↦ rw e (
          insert_row-Clean st (record a { path = some path; message_id = none })
            (record s { disk = put path bytes s.disk })
            (unfold is_clean in ground (arith, e, unheld)) c)
    ]

-- What `bind` does to one row leaves it clean, and the others as they were.
erased-Clean :
    (st : Store) (id : Text) (h : Held) (held : Dict Held) (rows : List Attachment)
    → All (λ a. is_clean st held a ≡ true) rows
    → All (λ a. is_clean st (put id h held) a ≡ true) (update_rows id erased rows)
unfolding update_rows is_clean is_bare
erased-Clean st id h held [] c = tt
erased-Clean st id h held (a ∷ rows) c = (
  ground (arith, c.0, get-put id a.id h held, text_eq_iff a.id id, text_eq_iff id a.id),
  erased-Clean st id h held rows c.1,
)

bound-Clean :
    (st : Store) (id message conv : Text) (held : Dict Held) (rows : List Attachment)
    → (conversation_is_private (some conv) st ≡ false) ⊎ (is_some (get id held) ≡ true)
    → All (λ a. is_clean st held a ≡ true) rows
    → All (λ a. is_clean st held a ≡ true) (update_rows id (bound message conv) rows)
unfolding update_rows is_clean bound
bound-Clean st id message conv held [] p c = tt
bound-Clean st id message conv held (a ∷ rows) (inl p) c =
    (ground (arith, c.0, p), bound-Clean st id message conv held rows (inl p) c.1)
bound-Clean st id message conv held (a ∷ rows) (inr p) c = (
  ground (arith, c.0, p, text_eq_iff a.id id),
  bound-Clean st id message conv held rows (inr p) c.1,
)

pub find-holds :
    (id : Text) (rows : List Attachment) (a : Attachment)
    → find (id_is id) rows ≡ some a
    → a.id ≡ id
unfolding find
find-holds id [] a h = cc
find-holds id (x ∷ rows) a h = elim (Bool-cases (text_eq x.id id)) [
  | inl e ↦
      let p : x ≡ a = ground (arith, h, e) in
      subst (λ (y : Attachment). y.id ≡ id) p ((text_eq_iff x.id id).0 e)
  | inr e ↦ find-holds id rows a (ground (arith, h, e))
]

get-put_same : (id : Text) (h : Held) (held : Dict Held) → is_some (get id (put id h held)) ≡ true
get-put_same id h held = ground (arith, get-put id id h held, text_eq_iff id id)

taken-Clean :
    (st : Store) (id message conv : Text) (s : AttachmentStore) (row : Attachment)
    → row.id ≡ id
    → Clean st s
    → Clean st (record (take_off_disk row s) {
      rows = update_rows id (bound message conv) (take_off_disk row s).rows;
    })
unfolding take_off_disk
taken-Clean st id message conv s row same c =
    bound-Clean st id message conv (take_off_disk row s).held (take_off_disk row s).rows
      (inr (
        subst (λ k. is_some (get k (take_off_disk row s).held) ≡ true) same
          (get-put_same row.id _ s.held)))
      (erased-Clean st row.id _ s.held s.rows c)

bind_one-Clean :
    (st : Store) (id message conv : Text) (s : AttachmentStore)
    → Clean st s
    → Clean st (bind_one (conversation_is_private (some conv) st) id message conv s).1
unfolding bind_one
bind_one-Clean st id message conv s c = elim (Option-cases (find (id_is id) s.rows)) [
  | inl e ↦ rw (bind_one, e) c
  | inr (row, e) ↦
      let same : row.id ≡ id = find-holds id s.rows row e in
      elim (Bool-cases (conversation_is_private (some conv) st)) [
        | inr open' ↦
            rw (bind_one, e, open') (bound-Clean st id message conv s.held s.rows (inl open') c)
        | inl private ↦ elim (Bool-cases (is_some (get id s.held))) [
          | inl held ↦
              rw (bind_one, e, private, held)
                (bound-Clean st id message conv s.held s.rows (inr held) c)
          | inr unheld ↦
              rw (bind_one, e, private, unheld) (taken-Clean st id message conv s row same c)
        ]
      ]
]

bind_all-Clean :
    (st : Store) (ids : List Text) (message conv : Text) (s : AttachmentStore)
    → Clean st s
    → Clean st (bind_all (conversation_is_private (some conv) st) ids message conv s).1
unfolding bind_all
bind_all-Clean st [] message conv s c = c
bind_all-Clean st (id ∷ ids) message conv s c =
    bind_all-Clean st ids message conv
      (bind_one (conversation_is_private (some conv) st) id message conv s).1
      (bind_one-Clean st id message conv s c)

-- At start-up nothing is in memory yet.
pub scrub-Clean :
    (st : Store) (rows : List Attachment) (disk : Dict Text)
    → All (λ a. is_clean st [] a ≡ true) (scrub_private st rows disk).0
unfolding scrub_private is_clean is_bare get left_on_disk
scrub-Clean st [] disk = tt
scrub-Clean st (a ∷ rows) disk =
    (ground arith, scrub-Clean st rows (if left_on_disk st a then unlink a.path disk else disk))

keep_text-Clean :
    (st : Store) (a : Attachment) (trimmed : Text) (incognito : Bool) (s : AttachmentStore)
    → a.path ≡ none
    → any (id_is a.id) s.rows ≡ false
    → get a.id s.held ≡ none
    → Clean st s
    → Clean st (keep_text a trimmed (incognito || conversation_is_private a.conversation_id st) s)
unfolding keep_text
keep_text-Clean st a trimmed incognito s bare free unheld c =
    elim (Bool-cases (incognito || conversation_is_private a.conversation_id st)) [
      | inl e ↦ rw e (
          insert_row-Clean st (record a { body = none })
            (record s { held = put a.id (record { bytes = none; body = some trimmed }) s.held })
            (unfold is_clean is_bare in ground (arith, bare))
            (Clean-put st a.id (record { bytes = none; body = some trimmed }) s.held s.rows free c))
      | inr e ↦ rw e (insert_row-Clean st a s (unfold is_clean in ground (arith, e, unheld)) c)
    ]

add_text-Clean :
    (st : Store) (id body name : Text) (conv : Option Text) (outgoing incognito : Bool) (now : ℕ)
    (att : Attachment) (s s' : AttachmentStore)
    → any (id_is id) s.rows ≡ false
    → get id s.held ≡ none
    → add_text id body name conv outgoing incognito now st s ≡ some (att, s')
    → Clean st s
    → Clean st s'
unfolding add_text new_text
add_text-Clean st id body name conv outgoing incognito now att s s' free unheld h c =
    elim (Bool-cases (is_nil (strip body))) [
      | inl e ↦ ground (arith, h, e)
      | inr e ↦
          let trimmed = trim (strip body) in
          let a = new_text id trimmed name conv outgoing now in
          let p : keep_text a trimmed (incognito || conversation_is_private conv st) s ≡ s' =
            ground (arith, h, e) in
          subst (Clean st) p (keep_text-Clean st a trimmed incognito s refl free unheld c)
    ]

-- What happens to the table after the start: a file or a text is attached under an id that is new, or
-- uploads are bound to a message.
pub data Step (st : Store) : AttachmentStore → AttachmentStore → Type 0 where
  files :
      (a : Attachment) (path bytes : Text) (incognito : Bool) (s : AttachmentStore)
      → any (id_is a.id) s.rows ≡ false
      → get a.id s.held ≡ none
      → Step st s
          (keep_file a path bytes (incognito || conversation_is_private a.conversation_id st) s)
  texts :
      (id body name : Text) (conv : Option Text) (outgoing incognito : Bool) (now : ℕ)
      (att : Attachment) (s s' : AttachmentStore)
      → any (id_is id) s.rows ≡ false
      → get id s.held ≡ none
      → add_text id body name conv outgoing incognito now st s ≡ some (att, s')
      → Step st s s'
  binds :
      (ids : List Text) (message conv : Text) (s : AttachmentStore)
      → Step st s (bind ids message conv st s).1

pub data Reached (st : Store) (s : AttachmentStore) : AttachmentStore → Type 0 where
  start : Reached st s s
  next : (u v : AttachmentStore) → Reached st s u → Step st u v → Reached st s v

pub Step-Clean : (st : Store) (s s' : AttachmentStore) → Step st s s' → Clean st s → Clean st s'
unfolding bind
Step-Clean st s _ (Step.files a path bytes incognito _ free unheld) c =
    keep_file-Clean st a path bytes incognito s free unheld c
Step-Clean st s s' (Step.texts id body name conv outgoing incognito now att _ _ free unheld h) c =
    add_text-Clean st id body name conv outgoing incognito now att s s' free unheld h c
Step-Clean st s _ (Step.binds ids message conv _) c = bind_all-Clean st ids message conv s c

pub reached-Clean : (st : Store) (s t : AttachmentStore) → Reached st s t → Clean st s → Clean st t
reached-Clean st s _ Reached.start c = c
reached-Clean st s t (Reached.next u _ r k) c = Step-Clean st u t k (reached-Clean st s u r c)
