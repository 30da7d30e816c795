-- ===== src/Bus.antt =====
-- packages/core/jarvis_core/engine/bus.py: the in-process fan-out. A subscriber's queue is the list
-- of events not yet read, oldest first; `set` order is the order of attaching. A subscriber is known
-- by its number, which stands for the identity of the object.
pub mod Delivery
use jarvis.Prelude.{
  ℕ, suc, ◌+◌, Bool, true, false, not, ◌&&◌, ◌||◌, Option, none, some, List, [], ◌∷◌, ◌++◌, map,
  Text, text_eq, ltb, ◌==◌, if◌then◌else◌, length, any, keep, or_else,
}
use jarvis.Proto.Runs.{Run, Conversation}
use jarvis.Proto.Messages.{Message}
use jarvis.Proto.Events.{
  RunEvent, Event, of_run, message_created, run_updated, conversation_updated, conversation_deleted,
  task_changed, task_removed, other,
}

abbrev pub queue_limit : ℕ
queue_limit = 2000

pub record Subscriber : Type 0 where
  pub ident : ℕ
  pub name : Text
  pub queue : List Event
  pub conversations : List Text
  pub everything : Bool
  pub dead : Bool
  pub visible : Bool

unfoldable pub subscriber : ℕ → Text → Bool → Subscriber
subscriber ident name everything = record {
  ident = ident;
  name = name;
  queue = [];
  conversations = [];
  everything = everything;
  dead = false;
  visible = true;
}

-- A full queue kills the subscriber, and the event is lost with it.
unfoldable pub deliver : Event → Subscriber → Subscriber
deliver event sub =
    if sub.dead
    then sub
    else if ltb (length sub.queue) queue_limit
    then record sub { queue = sub.queue ++ event ∷ [] }
    else record sub { dead = true }

pub record EventBus : Type 0 where
  pub subs : List Subscriber
  pub published : ℕ

unfoldable pub empty_bus : EventBus
empty_bus = record { subs = []; published = 0 }

-- `set.add`: one that is there already is not added again.
unfoldable pub attach : Subscriber → EventBus → EventBus
attach sub bus =
    if any (λ s. s.ident == sub.ident) bus.subs
    then bus
    else record bus { subs = bus.subs ++ sub ∷ [] }

-- The bus without the subscriber, and the subscriber, which is dead from now on.
unfoldable pub detach : Subscriber → EventBus → EventBus × Subscriber
detach sub bus = (
  record bus { subs = keep (λ s. not (s.ident == sub.ident)) bus.subs },
  record sub { dead = true },
)

unfoldable pub subscribed : Text → Subscriber → Bool
subscribed conversation_id s = any (text_eq conversation_id) s.conversations

unfoldable pub has_subscribers : Text → EventBus → Bool
has_subscribers conversation_id bus = any (λ s. subscribed conversation_id s && not s.dead) bus.subs

unfoldable pub has_viewers : Text → EventBus → Bool
has_viewers conversation_id bus =
    any (λ s. subscribed conversation_id s && not s.dead && s.visible) bus.subs

-- The conversation that an event belongs to, or `none` for the events that everybody is sent.
unfoldable pub conversation_of : Event → Option Text
conversation_of (of_run e) = some e.conversation_id
conversation_of (message_created m) = m.conversation_id
conversation_of (run_updated r) = some r.conversation_id
conversation_of (conversation_updated c) = none
conversation_of (conversation_deleted id) = none
conversation_of (task_changed t) = none
conversation_of (task_removed id) = none
conversation_of (other t) = none

unfoldable pub wants : Option Text → Subscriber → Bool
wants none s = true
wants (some conv) s = s.everything || subscribed conv s

-- The loop of `publish`: the dead leave, and the others are sent what concerns them.
unfoldable pub fan_out : Event → List Subscriber → List Subscriber
unfolding wants deliver conversation_of
fan_out event [] = []
fan_out event (s ∷ subs) =
    let rest = fan_out event subs in
    if s.dead then rest else (if wants (conversation_of event) s then deliver event s else s) ∷ rest

unfoldable pub publish : Event → EventBus → EventBus
unfolding fan_out
publish event bus = record { subs = fan_out event bus.subs; published = bus.published + 1 }
