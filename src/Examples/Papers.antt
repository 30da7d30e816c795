-- ===== src/Examples/Papers.antt =====
-- Attachments, settings and the wording of reports.
use jarvis.Prelude.{◌≡◌, true, false, none, some, List, [], ◌∷◌, ◌++◌, starts}
use jarvis.Store.{Store}
use jarvis.Attachments.{Attachment, AttachmentStore, scrub_private, bind}
use jarvis.Proto.Settings.{tool_matches}
use jarvis.Proto.Settings.Asking.{tool_matches-starts}
use jarvis.Examples.Data.{r1, r2, c1, a_chat, a_store}

-- An incognito chat, with an upload that another version left on the disk.

abbrev a_private_store : Store
a_private_store = record (a_store []) { conversations = record a_chat { incognito = true } ∷ [] }

abbrev left : List Attachment
left =
    record {
      id = r1;
      conversation_id = some c1;
      message_id = none;
      name = r1;
      path = some r2;
      body = some r1;
      outgoing = false;
      created_at = 2;
    }
    ∷ []

abbrev scrubbed : AttachmentStore
scrubbed = record {
  rows = (scrub_private a_private_store left ((r2, r1) ∷ [])).0;
  held = [];
  disk = (scrub_private a_private_store left ((r2, r1) ∷ [])).1;
}

abbrev bound_after : AttachmentStore
bound_after = (bind (r1 ∷ []) r2 c1 a_private_store scrubbed).1

-- `r1.*` and `r1.r2`.

tool_matches-starts_example :
    tool_matches (r1 ++ 46 ∷ r2) (r1 ++ 46 ∷ 42 ∷ []) ≡ starts (r1 ++ 46 ∷ []) (r1 ++ 46 ∷ r2)
tool_matches-starts_example = tool_matches-starts (r1 ++ 46 ∷ r2) r1
