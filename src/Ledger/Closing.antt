-- ===== src/Ledger/Closing.antt =====
-- How a call's record is closed (`_close` of models/ledger.py).
use jarvis.Prelude.{ℕ, ◌≡◌, Bool, ◌&&◌, some, List, Text, text_eq, if◌then◌else◌, any, count_of}
use jarvis.Prelude.Dicts.{get}
use jarvis.Ledger.{CallRecord, ContextLedger, is_running}

abbrev pub listed : Text → List Text → Bool
listed id live = any (λ k. text_eq k id) live

abbrev pub times : Text → List Text → ℕ
times id written = count_of (λ k. text_eq k id) written

-- A record is either open (listed as live and not written) or closed (not listed, and written once
-- where there is a sink and an event loop).
pub record Kept (id : Text) (ledger : ContextLedger) : Type 0 where
  pub rec : CallRecord
  pub there : get id ledger.calls ≡ some rec
  pub own : rec.id ≡ id
  pub is_listed : listed id ledger.live ≡ is_running rec.outcome
  pub times_written :
      times id ledger.written
      ≡ (if is_running rec.outcome then 0 else if ledger.has_sink && ledger.in_loop then 1 else 0)
