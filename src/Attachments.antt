-- ===== src/Attachments.antt =====
-- packages/core/jarvis_core/features/attachments.py: where what is attached to a message is kept. A row of
-- the table is its id, its chat, its message, its path and text, and whether it is a file that goes out;
-- the disk is the files by their path. What an attachment is made of (its kind, the text in a document,
-- the frames of a clip, thumbnails) is left out, and new ids are arguments.
pub mod Private
pub mod Disk
pub mod Scrubbed
use jarvis.Prelude.{
  ℕ, ◌+◌, ◌-◌, Bool, true, false, not, ◌&&◌, ◌||◌, Option, none, some, List, [], ◌∷◌, ◌++◌, map,
  Text, text, text_eq, ltb, leb, decimal, if◌then◌else◌, is_some, any, keep, find, take, sort_by,
  length, is_nil, strip,
}
use jarvis.Prelude.Dicts.{Dict, get, put, remove}
use jarvis.Store.{Store, get_conversation}

pub record Attachment : Type 0 where
  pub id : Text
  pub conversation_id : Option Text
  pub message_id : Option Text
  pub name : Text
  pub path : Option Text
  pub body : Option Text
  pub outgoing : Bool
  pub created_at : ℕ

pub record Held : Type 0 where
  pub bytes : Option Text
  pub body : Option Text

pub record AttachmentStore : Type 0 where
  pub rows : List Attachment
  pub held : Dict Held
  pub disk : Dict Text

unfoldable pub conversation_is_private : Option Text → Store → Bool
conversation_is_private none st = false
conversation_is_private (some id) st = elim (get_conversation id st) [
  | none ↦ false
  | some conv ↦ conv.incognito
]

abbrev pub id_is : Text → Attachment → Bool
id_is att_id a = text_eq a.id att_id

unfoldable pub insert_row : Attachment → AttachmentStore → AttachmentStore
insert_row a s = record s { rows = s.rows ++ a ∷ [] }

-- The end of `add_file` and of `add_outgoing`: the row and its bytes, in memory in a private chat and in
-- a file of their own otherwise. The attachment has the path that the file would get.
unfoldable pub keep_file : Attachment → Text → Text → Bool → AttachmentStore → AttachmentStore
unfolding insert_row
keep_file a path bytes private s =
    if private
    then insert_row (record a { path = none; body = none; message_id = none })
        (record s { held = put a.id (record { bytes = some bytes; body = a.body }) s.held })
    else insert_row (record a { path = some path; message_id = none })
        (record s { disk = put path bytes s.disk })

unfoldable pub max_text_chars : ℕ
max_text_chars = 60_000

unfoldable pub trim : Text → Text
unfolding text decimal max_text_chars
trim body =
    if leb (length body) max_text_chars
    then body
    else take max_text_chars body
      ++ text "\n\n[…"
      ++ decimal (length body - max_text_chars)
      ++ text " more characters were not included]"

-- The end of `add_text`: a private chat's text is in memory only.
unfoldable pub keep_text : Attachment → Text → Bool → AttachmentStore → AttachmentStore
unfolding insert_row
keep_text att trimmed private s =
    if private
    then insert_row (record att { body = none })
        (record s { held = put att.id (record { bytes = none; body = some trimmed }) s.held })
    else insert_row att s

unfoldable pub new_text : Text → Text → Text → Option Text → Bool → ℕ → Attachment
unfolding text
new_text id trimmed name conversation_id outgoing now = record {
  id = id;
  conversation_id = conversation_id;
  message_id = none;
  name = if is_nil name then text "pasted text" else name;
  path = none;
  body = some trimmed;
  outgoing = outgoing;
  created_at = now;
}

-- `none` is the error that there is nothing to attach.
unfoldable pub add_text :
    Text
    → Text
    → Text
    → Option Text
    → Bool
    → Bool
    → ℕ
    → Store
    → AttachmentStore
    → Option (Attachment × AttachmentStore)
unfolding conversation_is_private keep_text new_text trim strip
add_text id body name conversation_id outgoing incognito now st s =
    if is_nil (strip body)
    then none
    else let trimmed = trim (strip body) in
      let private = incognito || conversation_is_private conversation_id st in
      let att = new_text id trimmed name conversation_id outgoing now in
      some (att, keep_text att trimmed private s)

-- `UPDATE attachments SET ... WHERE id = ?`
unfoldable pub update_rows : Text → (Attachment → Attachment) → List Attachment → List Attachment
update_rows id f [] = []
update_rows id f (a ∷ as') = (if text_eq a.id id then f a else a) ∷ update_rows id f as'

unfoldable pub unlink : Option Text → Dict Text → Dict Text
unlink none disk = disk
unlink (some path) disk = remove path disk

abbrev pub erased : Attachment → Attachment
erased a = record a { path = none; body = none }

-- A file that cannot be read gives no bytes.
unfoldable pub take_off_disk : Attachment → AttachmentStore → AttachmentStore
unfolding unlink update_rows
take_off_disk row s = record s {
  rows = update_rows row.id erased s.rows;
  held =
      put row.id
        (record {
          bytes = elim row.path [ none ↦ none | some path ↦ get path s.disk ];
          body = row.body;
        })
        s.held;
  disk = unlink row.path s.disk;
}

-- An incognito attachment's text lives in memory.
unfoldable pub hydrate : Dict Held → Attachment → Attachment
hydrate held a = elim (get a.id held) [
  | none ↦ a
  | some h ↦ if is_some h.body && not (is_some a.body) then record a { body = h.body } else a
]

unfoldable pub bound : Text → Text → Attachment → Attachment
bound message_id conversation_id a = record a {
  message_id = some message_id;
  conversation_id = some conversation_id;
}

-- One round of the loop of `bind`: the table, and the attachment as it was read.
unfoldable pub bind_one :
    Bool → Text → Text → Text → AttachmentStore → Option Attachment × AttachmentStore
unfolding take_off_disk update_rows bound hydrate
bind_one private att_id message_id conversation_id s = elim (find (id_is att_id) s.rows) [
  | none ↦ (none, s)
  | some row ↦
      let s' = if private && not (is_some (get att_id s.held)) then take_off_disk row s else s in
      (
        some (hydrate s'.held row),
        record s' { rows = update_rows att_id (bound message_id conversation_id) s'.rows },
      )
]

unfoldable pub bind_all :
    Bool → List Text → Text → Text → AttachmentStore → List Attachment × AttachmentStore
unfolding bind_one
bind_all private [] message_id conversation_id s = ([], s)
bind_all private (id ∷ ids) message_id conversation_id s =
    let (att, s') = bind_one private id message_id conversation_id s in
    let (atts, s'') = bind_all private ids message_id conversation_id s' in
    (elim att [ none ↦ atts | some a ↦ a ∷ atts ], s'')

unfoldable pub bind :
    List Text → Text → Text → Store → AttachmentStore → List Attachment × AttachmentStore
unfolding bind_all
bind ids message_id conversation_id st s =
    bind_all (conversation_is_private (some conversation_id) st) ids message_id conversation_id s

-- At start-up: what a private chat still has on the disk.
unfoldable pub left_on_disk : Store → Attachment → Bool
unfolding conversation_is_private
left_on_disk st a =
    conversation_is_private a.conversation_id st && (is_some a.path || is_some a.body)

unfoldable pub scrub_private : Store → List Attachment → Dict Text → List Attachment × Dict Text
unfolding left_on_disk unlink
scrub_private st [] disk = ([], disk)
scrub_private st (a ∷ as') disk =
    let (rows, disk') =
      scrub_private st as' (if left_on_disk st a then unlink a.path disk else disk) in
    ((if left_on_disk st a then erased a else a) ∷ rows, disk')

unfoldable pub oldest_first : Attachment → Attachment → Bool
oldest_first a b = leb a.created_at b.created_at

unfoldable pub for_conversation : Text → AttachmentStore → List Attachment
unfolding oldest_first hydrate
for_conversation conversation_id s = map (hydrate s.held) (
    sort_by oldest_first (
      keep (λ a. elim a.conversation_id [ none ↦ false | some c ↦ text_eq c conversation_id ])
        s.rows))
