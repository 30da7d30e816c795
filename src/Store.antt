-- ===== src/Store.antt =====
-- packages/core/jarvis_core/db/store.py over the tables of db/migrations: a table is the list of its
-- rows in the order of insertion, a statement is a function on it, and `none` is the IntegrityError
-- that a primary or foreign key raises. Times and fresh ids are arguments. A time is a number of
-- microseconds, which orders as the ISO texts of the columns do.
pub mod Rows
pub mod Conversations
pub mod Expiry
pub mod Claims
use jarvis.Prelude.{
  ℕ, zero, suc, ◌+◌, ◌-◌, ◌*◌, ◌/◌, ◌%◌, max, Bool, true, false, not, ◌&&◌, ◌||◌, Option, none,
  some, List, [], ◌∷◌, ◌++◌, map, Text, text_eq, ltb, leb, ◌==◌, if◌then◌else◌, is_some, or_else,
  length, take, drop, any, keep, find, sort_by,
}
use jarvis.Prelude.Dicts.{Dict, get, put}
use jarvis.Proto.Runs.{
  RunStatus, terminal, is_waiting, Run, Conversation, ConversationKind, ConversationActivity, idle,
  running, waiting,
}
use jarvis.Proto.Runs
use jarvis.Proto.Messages.{Message, Role}
use jarvis.Proto.Events.{RunEvent}

pub record Store : Type 0 where
  pub conversations : List Conversation
  pub messages : List Message
  pub runs : List Run
  pub events : List RunEvent
  pub claims : Dict (Option Text)

unfoldable pub empty_store : Store
empty_store = record { conversations = []; messages = []; runs = []; events = []; claims = [] }

-- The columns of a run: `think` and `think_level` have none, so a run read back has lost them.
unfoldable pub stored : Run → Run
stored r = record r { think = none; think_level = none }

abbrev pub has_id : Text → Run → Bool
has_id run_id r = text_eq r.id run_id

unfoldable pub get_run : Text → Store → Option Run
get_run run_id st = find (has_id run_id) st.runs

unfoldable pub create_run : Run → Store → Option Store
unfolding stored
create_run run st =
    if any (has_id run.id) st.runs
      || not (any (λ c. text_eq c.id run.conversation_id) st.conversations)
    then none
    else some (record st { runs = st.runs ++ stored run ∷ [] })

-- The columns that `save_run` writes; the others keep what the row had.
unfoldable pub saved : Run → Run → Run
saved run row = record row {
  status = run.status;
  plan = run.plan;
  steps_used = run.steps_used;
  usage = run.usage;
  last_seq = run.last_seq;
  error = run.error;
  waiting_reason = run.waiting_reason;
  call_me = run.call_me;
  call_me_default = run.call_me_default;
  started_at = run.started_at;
  finished_at = run.finished_at;
}

-- `UPDATE runs SET ... WHERE id = ?`
unfoldable pub update_rows : Text → (Run → Run) → List Run → List Run
update_rows run_id f [] = []
update_rows run_id f (r ∷ rs) = (if text_eq r.id run_id then f r else r) ∷ update_rows run_id f rs

unfoldable pub save_run : Run → Store → Store
unfolding saved update_rows
save_run run st = record st { runs = update_rows run.id (saved run) st.runs }

unfoldable pub newest_first : Run → Run → Bool
newest_first a b = ltb b.created_at a.created_at || a.created_at == b.created_at

unfoldable pub list_runs : Text → ℕ → Store → List Run
unfolding newest_first
list_runs conversation_id limit st =
    take limit
      (sort_by newest_first (keep (λ r. text_eq r.conversation_id conversation_id) st.runs))

unfoldable pub by_priority : Run → Run → Bool
by_priority a b =
    ltb a.priority b.priority || (a.priority == b.priority && leb a.created_at b.created_at)

unfoldable pub runs_with_status : (RunStatus → Bool) → Store → List Run
unfolding by_priority
runs_with_status statuses st = sort_by by_priority (keep (λ r. statuses r.status) st.runs)

abbrev pub is_event : Text → ℕ → RunEvent → Bool
is_event run_id seq e = text_eq e.run_id run_id && e.seq == seq

-- The row of the event, and then `last_seq = MAX(last_seq, seq)` on its run. The primary key is
-- (run, seq), and the run has to exist.
unfoldable pub append_event : RunEvent → Store → Option Store
unfolding update_rows
append_event e st =
    if any (is_event e.run_id e.seq) st.events || not (any (has_id e.run_id) st.runs)
    then none
    else some (record st {
      events = st.events ++ e ∷ [];
      runs = update_rows e.run_id (λ r. record r { last_seq = max r.last_seq e.seq }) st.runs;
    })

unfoldable pub by_seq : RunEvent → RunEvent → Bool
by_seq a b = leb a.seq b.seq

unfoldable pub list_events : Text → ℕ → Store → List RunEvent
unfolding by_seq
list_events run_id after_seq st =
    sort_by by_seq (keep (λ e. text_eq e.run_id run_id && ltb after_seq e.seq) st.events)

-- Conversations.

-- A run that has not ended makes its conversation run; one that waits for an answer wins.
unfoldable pub activity_of : Text → List Run → ConversationActivity
activity_of conversation_id runs =
    let open' =
      keep (λ r. text_eq r.conversation_id conversation_id && not (terminal r.status)) runs in
    if any (λ r. is_waiting r.status) open'
    then waiting
    else if any (λ r. true) open'
    then running
    else idle

unfoldable pub find_conversation : Text → List Conversation → Option Conversation
find_conversation conversation_id cs = find (λ c. text_eq c.id conversation_id) cs

unfoldable pub with_activity : List Run → Conversation → Conversation
unfolding activity_of
with_activity runs c = record c { activity = activity_of c.id runs }

unfoldable pub get_conversation : Text → Store → Option Conversation
unfolding with_activity find_conversation
get_conversation conversation_id st = elim (find_conversation conversation_id st.conversations) [
  | none ↦ none
  | some c ↦ some (with_activity st.runs c)
]

abbrev pub micros : ℕ
micros = 1_000_000

-- `_expires`: down to the millisecond.
unfoldable pub expires : Option ℕ → ℕ → Option ℕ
expires none now = none
expires (some ttl) now =
    let at = now + ttl * micros in some (at - at % micros + at % micros / 1000 * 1000)
