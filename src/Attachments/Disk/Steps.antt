-- ===== src/Attachments/Disk/Steps.antt =====
-- What attaching, binding and the scrub at the start leave on the disk (attachments.py).
use jarvis.Prelude.{
  ℕ, ◌≡◌, ◌∙◌, refl, sym, subst, Bool, true, false, not, ◌&&◌, ◌||◌, Option, none, some, List, [],
  ◌∷◌, ◌++◌, Text, text_eq_refl, arith, is_some, any, find, is_nil, strip, All-map, inl, inr,
  Bool-cases, Option-cases,
}
use jarvis.Prelude.Dicts.{get, put}
use jarvis.Store.{Store}
use jarvis.Attachments.{
  Attachment, AttachmentStore, conversation_is_private, keep_file, insert_row, add_text, keep_text,
  new_text, trim, take_off_disk, bind_one, bind_all, bind, update_rows, erased, bound, id_is,
}
use jarvis.Attachments.Private.{Step, Reached, find-holds}
use jarvis.Attachments.Disk.{
  has_path, Owned, any-append, All-put, All-unlink, insert-UniqueIds, any-update_rows,
  update-UniqueIds, erased-Owned, Kept,
}

insert-Owned :
    (a : Attachment) (rows : List Attachment) (path : Text)
    → Owned rows path
    → Owned (rows ++ a ∷ []) path
insert-Owned a rows path o = any-append (has_path path) rows (a ∷ []) ∙ rw o refl

inserted-Owned :
    (a : Attachment) (rows : List Attachment) (path : Text)
    → has_path path a ≡ true
    → Owned (rows ++ a ∷ []) path
unfolding any
inserted-Owned a rows path h = any-append (has_path path) rows (a ∷ []) ∙ rw h (ground arith)

insert_row-Kept :
    (a : Attachment) (s : AttachmentStore)
    → any (id_is a.id) s.rows ≡ false
    → Kept s
    → Kept (insert_row a s)
unfolding insert_row
insert_row-Kept a s free k = record {
  ids = insert-UniqueIds a s.rows free k.ids;
  files = All-map _ _ (λ e o. insert-Owned a s.rows e.0 o) s.disk k.files;
}

keep_file-Kept :
    (a : Attachment) (path bytes : Text) (private : Bool) (s : AttachmentStore)
    → any (id_is a.id) s.rows ≡ false
    → Kept s
    → Kept (keep_file a path bytes private s)
unfolding keep_file insert_row
keep_file-Kept a path bytes true s free k =
    insert_row-Kept (record a { path = none; body = none; message_id = none })
      (record s { held = put a.id (record { bytes = some bytes; body = a.body }) s.held }) free
      (record { ids = k.ids; files = k.files })
keep_file-Kept a path bytes false s free k =
    let row : Attachment = record a { path = some path; message_id = none } in
    record {
      ids = insert-UniqueIds row s.rows free k.ids;
      files =
          All-put (Owned (s.rows ++ row ∷ [])) path bytes s.disk
            (inserted-Owned row s.rows path (text_eq_refl path))
            (All-map _ _ (λ e o. insert-Owned row s.rows e.0 o) s.disk k.files);
    }

keep_text-Kept :
    (a : Attachment) (trimmed : Text) (private : Bool) (s : AttachmentStore)
    → any (id_is a.id) s.rows ≡ false
    → Kept s
    → Kept (keep_text a trimmed private s)
unfolding keep_text
keep_text-Kept a trimmed true s free k =
    insert_row-Kept (record a { body = none })
      (record s { held = put a.id (record { bytes = none; body = some trimmed }) s.held }) free
      (record { ids = k.ids; files = k.files })
keep_text-Kept a trimmed false s free k = insert_row-Kept a s free k

add_text-Kept :
    (st : Store) (id body name : Text) (conv : Option Text) (outgoing incognito : Bool) (now : ℕ)
    (att : Attachment) (s s' : AttachmentStore)
    → any (id_is id) s.rows ≡ false
    → add_text id body name conv outgoing incognito now st s ≡ some (att, s')
    → Kept s
    → Kept s'
unfolding add_text new_text
add_text-Kept st id body name conv outgoing incognito now att s s' free h k =
    elim (Bool-cases (is_nil (strip body))) [
      | inl e ↦ ground (arith, h, e)
      | inr e ↦
          let trimmed = trim (strip body) in
          let a = new_text id trimmed name conv outgoing now in
          let p : keep_text a trimmed (incognito || conversation_is_private conv st) s ≡ s' =
            ground (arith, h, e) in
          subst Kept p (keep_text-Kept a trimmed _ s free k)
    ]

bound-Kept :
    (id message conv : Text) (s : AttachmentStore)
    → Kept s
    → Kept (record s { rows = update_rows id (bound message conv) s.rows })
unfolding bound
bound-Kept id message conv s k = record {
  ids = update-UniqueIds id (bound message conv) (λ a. refl) s.rows k.ids;
  files =
      All-map _ _
        (λ e o. any-update_rows (has_path e.0) id (bound message conv) (λ a. refl) s.rows ∙ o)
        s.disk k.files;
}

take_off_disk-Kept :
    (id : Text) (row : Attachment) (s : AttachmentStore)
    → find (id_is id) s.rows ≡ some row
    → row.id ≡ id
    → Kept s
    → Kept (take_off_disk row s)
unfolding take_off_disk
take_off_disk-Kept id row s f same k = record {
  ids = update-UniqueIds row.id erased (λ a. refl) s.rows k.ids;
  files =
      All-unlink (Owned s.rows) (Owned (update_rows row.id erased s.rows)) row
        (λ path n o.
          erased-Owned row.id path row s.rows k.ids
            (subst (λ i. find (id_is i) s.rows ≡ some row) (sym same) f) n o)
        s.disk k.files;
}

bind_one-Kept :
    (private : Bool) (id message conv : Text) (s : AttachmentStore)
    → Kept s
    → Kept (bind_one private id message conv s).1
unfolding bind_one
bind_one-Kept private id message conv s k = elim (Option-cases (find (id_is id) s.rows)) [
  | inl e ↦ rw (bind_one, e) k
  | inr (row, e) ↦ elim (Bool-cases (private && not (is_some (get id s.held)))) [
    | inl b ↦
        rw (bind_one, e, b)
          (bound-Kept id message conv (take_off_disk row s)
            (take_off_disk-Kept id row s e (find-holds id s.rows row e) k))
    | inr b ↦ rw (bind_one, e, b) (bound-Kept id message conv s k)
  ]
]

bind_all-Kept :
    (private : Bool) (ids : List Text) (message conv : Text) (s : AttachmentStore)
    → Kept s
    → Kept (bind_all private ids message conv s).1
unfolding bind_all
bind_all-Kept private [] message conv s k = k
bind_all-Kept private (id ∷ ids) message conv s k =
    bind_all-Kept private ids message conv (bind_one private id message conv s).1
      (bind_one-Kept private id message conv s k)

Step-Kept : (st : Store) (s s' : AttachmentStore) → Step st s s' → Kept s → Kept s'
unfolding bind
Step-Kept st s _ (Step.files a path bytes incognito _ free unheld) k =
    keep_file-Kept a path bytes _ s free k
Step-Kept st s s' (Step.texts id body name conv outgoing incognito now att _ _ free unheld h) k =
    add_text-Kept st id body name conv outgoing incognito now att s s' free h k
Step-Kept st s _ (Step.binds ids message conv _) k = bind_all-Kept _ ids message conv s k

pub reached-Kept : (st : Store) (s t : AttachmentStore) → Reached st s t → Kept s → Kept t
reached-Kept st s _ Reached.start k = k
reached-Kept st s t (Reached.next u _ r step) k = Step-Kept st u t step (reached-Kept st s u r k)
