-- ===== src/Attachments/Scrubbed.antt =====
-- What is on the disk of a private chat after the scrub at the start (attachments.py).
use jarvis.Prelude.{◌≡◌, Bool, true, not, ◌&&◌, ◌||◌, List, Text, is_some, any, All}
use jarvis.Prelude.Dicts.{Dict, get}
use jarvis.Store.{Store}
use jarvis.Attachments.{Attachment, AttachmentStore, Held, conversation_is_private}
use jarvis.Attachments.Disk.{has_path}

-- Every file is that of a row seen already or of one to come.
abbrev Either : List Attachment → List Attachment → Text → Type 0
Either done rows path = (any (has_path path) done || any (has_path path) rows) ≡ true

-- Not of a private chat, and not kept in memory.
abbrev pub is_open : Store → Dict Held → Attachment → Bool
is_open st held a =
    not (is_some (get a.id held)) && not (conversation_is_private a.conversation_id st)

-- Every file on the disk is that of an attachment that is not private.
abbrev pub OnDisk : Store → AttachmentStore → Type 0
OnDisk st s = All (λ e. any (λ a. has_path e.0 a && is_open st s.held a) s.rows ≡ true) s.disk
