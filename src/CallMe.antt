-- ===== src/CallMe.antt =====
-- packages/core/jarvis_core/features/callme.py: a phone call when a run ends, or stops on a question.
-- What a ring says is kept as it was said: `plain`, which takes its Markdown out, and the delivery by
-- `notify.reach` are not modelled.
pub mod Once
pub mod Gathering
use jarvis.Prelude.{
  ℕ, ◌+◌, Bool, true, false, not, ◌&&◌, ◌||◌, Option, none, some, List, [], ◌∷◌, ◌++◌, Text, text,
  text_eq, ltb, if◌then◌else◌, any, is_nil, strip, length,
}
use mathlib.Core.List.{reverse}
use jarvis.Proto.Runs.{Run, Conversation}
use jarvis.Proto.Messages.{Message, Role}
use jarvis.Proto.Events.{RunEvent, Body, run_done, run_failed, run_waiting_user}
use jarvis.Bus.{EventBus, has_viewers}
use jarvis.Store.{Store, get_run, get_conversation}
use jarvis.Store.Conversations.{list_run_messages}

pub data RingKind : Type 0 where
  done failed waiting : RingKind

pub record Ring : Type 0 where
  pub run_id : Text
  pub conversation_id : Text
  pub kind : RingKind
  pub chat : Text
  pub said : Text

-- `_flush`: no task or one that is done; one that waits for other rings; one that is ringing.
pub data Flush : Type 0 where
  idle gathering ringing : Flush

pub record CallMe : Type 0 where
  pub pending : List Ring
  pub flush : Flush
  pub rung : List (Text × Text)

unfoldable pub new_call_me : CallMe
new_call_me = record { pending = []; flush = Flush.idle; rung = [] }

-- The kind of ring, what rings once, and the words: a done run's are its reply.
unfoldable pub ring_of : Body → Option (RingKind × Text × Option Text)
unfolding text
ring_of (run_done message usage steps reason) = some (RingKind.done, text "done", none)
ring_of (run_failed error) = some (RingKind.failed, text "failed", some error)
ring_of (run_waiting_user reason none) = some (RingKind.waiting, text "waiting:None", some reason)
ring_of (run_waiting_user reason (some call_id)) =
    some (RingKind.waiting, text "waiting:" ++ call_id, some reason)
ring_of _ = none

unfoldable pub has_rung : Text → Text → List (Text × Text) → Bool
unfolding text_eq
has_rung run_id once rung = any (λ k. text_eq k.0 run_id && text_eq k.1 once) rung

unfoldable pub is_assistant : Role → Bool
is_assistant Role.assistant = true
is_assistant _ = false

-- The last reply that is not blank, from the newest.
unfoldable pub reply_in : List Message → Text
unfolding is_assistant strip
reply_in [] = []
reply_in (m ∷ ms) =
    let rest = reply_in ms in
    if is_assistant m.role && not (is_nil (strip m.content)) then m.content else rest

unfoldable pub remembered : Text × Text → List (Text × Text) → List (Text × Text)
remembered key rung = if ltb 1000 (length (key ∷ rung)) then [] else key ∷ rung

abbrev pub is_idle : Flush → Bool
is_idle Flush.idle = true
is_idle _ = false

unfoldable pub title_of : Option Conversation → Text
title_of none = []
title_of (some conv) = conv.title

unfoldable pub rung_for : Run → RingKind → Text → Option Text → Store → CallMe → CallMe
unfolding remembered reply_in title_of
rung_for run kind once said st me = record {
  pending =
      me.pending
      ++ record {
        run_id = run.id;
        conversation_id = run.conversation_id;
        kind = kind;
        chat = title_of (get_conversation run.conversation_id st);
        said = elim said [ none ↦ reply_in (reverse (list_run_messages run.id st)) | some s ↦ s ];
      }
        ∷ [];
  flush = if is_idle me.flush then Flush.gathering else me.flush;
  rung = remembered (run.id, once) me.rung;
}

-- Whether the run rings for this: asked for, not yet rung, and not open before him unasked.
unfoldable pub may_ring : Run → Text → EventBus → CallMe → Bool
unfolding has_rung has_viewers
may_ring run once bus me =
    run.call_me
    && not (has_rung run.id once me.rung)
    && not (run.call_me_default && has_viewers run.conversation_id bus)

unfoldable pub on_event : RunEvent → Store → EventBus → CallMe → CallMe
unfolding ring_of may_ring rung_for get_run
on_event e st bus me = elim (ring_of e.body) [
  | none ↦ me
  | some (kind, once, said) ↦ elim (get_run e.run_id st) [
    | none ↦ me
    | some run ↦ if may_ring run once bus me then rung_for run kind once said st me else me
  ]
]

-- `_ring_later`, when it has waited: the rings that it takes, and what is left.
unfoldable pub gathered : CallMe → List Ring × CallMe
gathered me = (
  me.pending,
  record me { pending = []; flush = if is_nil me.pending then Flush.idle else Flush.ringing },
)

-- `ring` has returned, and the task is done.
unfoldable pub rang : CallMe → CallMe
rang me = record me { flush = Flush.idle }
