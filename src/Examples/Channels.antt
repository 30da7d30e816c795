-- ===== src/Examples/Channels.antt =====
-- The bus, the store and the emitter.
use mathlib.Core.List.{Memᴰ}
use jarvis.Prelude.{
  is_some, ◌&&◌, or_else, Holds, any, not, false, ◌≡◌, refl, true, false, not, none, some, List, [],
  ◌∷◌, ◌++◌, text_eq, All, arith, keep, any,
}
use jarvis.Prelude.Dicts.{get}
use jarvis.Proto.Runs.{Run, RunStatus}
use jarvis.Proto.Events.{Event, Body}
use jarvis.Bus.{Subscriber, publish, wants, conversation_of, fan_out, deliver, subscribed}
use jarvis.Bus.Delivery.{Bounded, publish-Bounded, publish_all, publish_all-exact}
use jarvis.Store.{list_events}
use jarvis.Store.Conversations.{add_message}
use jarvis.Store.Expiry.{Added, add_message-Landed}
use jarvis.Store.Claims.{ClaimStep, claim_idempotency, claim_steps, claimed_once}
use jarvis.Emit.Sequence.{Numbered, Emitted, max_seq, emit_all_total, number_from, stored_bodies}
use jarvis.Emit.Replay.{replay_exact}
use jarvis.Control.{RunControl, resolve_confirmation, resolve_all, Answer, answered_once}
use jarvis.Examples.Data.{r1, r2, c1, a_run, a_message, a_store, a_client, a_bus, a_control}

abbrev an_event : Event
an_event = Event.run_updated (a_run r1 RunStatus.running)

publish-Bounded_example : All Bounded (publish an_event a_bus).subs
publish-Bounded_example = publish-Bounded an_event a_bus (omega arith, tt)

abbrev told_client : Subscriber
told_client = record a_client { queue = an_event ∷ [] }

publish_all-exact_example :
    (s : Subscriber) × Memᴰ s a_bus.subs
    × (told_client.ident ≡ s.ident)
    × (told_client.queue ≡ s.queue ++ keep (λ e. wants (conversation_of e) s) (an_event ∷ []))
publish_all-exact_example =
    publish_all-exact (an_event ∷ []) a_bus told_client
      (unfold publish_all publish fan_out wants subscribed any text_eq deliver in Memᴰ.head refl)
      refl

add_message-Landed_example :
    (is_some (add_message a_message r2 1_234_567 (a_store [])) ≡ (
      any (λ c. text_eq c.id c1) (a_store []).conversations
      && not (
          any
            (λ x. elim x.id [ none ↦ false | some i ↦ text_eq i (or_else a_message.id r2) ])
            (a_store []).messages)))
    × Holds
        (Added a_message r2 c1 1_234_567 (a_store []))
        (add_message a_message r2 1_234_567 (a_store []))
add_message-Landed_example = add_message-Landed a_message r2 c1 1_234_567 (a_store []) refl

-- It succeeds.
a_message_added : is_some (add_message a_message r2 1_234_567 (a_store [])) ≡ true
unfolding add_message any text_eq
a_message_added = refl

claimed_once_example :
    let later =
      claim_steps
        (claim_idempotency r1 (a_store [])).1
        (ClaimStep.finish r1 r2 ∷ ClaimStep.claim r2 ∷ []) in
    claim_idempotency r1 later ≡ (false, later)
claimed_once_example =
    claimed_once r1 (a_store []) (ClaimStep.finish r1 r2 ∷ ClaimStep.claim r2 ∷ [])

working : Run
working = a_run r1 RunStatus.running

numbered : Numbered (a_run r1 RunStatus.running) (a_store (a_run r1 RunStatus.running ∷ []))
numbered = record { there = unfold any text_eq in refl; ahead = unfold max_seq in omega arith }

abbrev two_bodies : List Body
two_bodies = Body.run_started ∷ Body.model_delta true c1 ∷ Body.run_steered r2 ∷ []

emit_all_total_example :
    Emitted
      (a_run r1 RunStatus.running)
      two_bodies
      (a_store (a_run r1 RunStatus.running ∷ []))
      a_bus
emit_all_total_example =
    emit_all_total (a_run r1 RunStatus.running) two_bodies
      (a_store (a_run r1 RunStatus.running ∷ [])) a_bus numbered

replay_exact_example :
    list_events r1 3
      (emit_all_total
        (a_run r1 RunStatus.running)
        two_bodies
        (a_store (a_run r1 RunStatus.running ∷ []))
        a_bus
        numbered).store
    ≡ number_from (a_run r1 RunStatus.running) 4 (stored_bodies two_bodies)
replay_exact_example =
    let g =
      emit_all_total (a_run r1 RunStatus.running) two_bodies
        (a_store (a_run r1 RunStatus.running ∷ [])) a_bus numbered in
    replay_exact (a_run r1 RunStatus.running) _ two_bodies
      (a_store (a_run r1 RunStatus.running ∷ [])) g.store a_bus g.bus' numbered g.succeeds

abbrev asking : RunControl
asking = record (a_control (a_run r1 RunStatus.waiting_user)) { confirmations = (c1, none) ∷ [] }

answered_once_example :
    let others : List Answer =
      record { call_id = r1; approved = true; note = none }
      ∷ record { call_id = c1; approved = false; note = none }
      ∷ [] in
    let later = resolve_all others (resolve_confirmation c1 true none asking).1 in
    (get c1 later.confirmations ≡ some (some (true, none)))
    × (resolve_confirmation c1 false none later ≡ (false, later))
answered_once_example =
    answered_once c1 true false none none
      (record { call_id = r1; approved = true; note = none }
        ∷ record { call_id = c1; approved = false; note = none }
        ∷ [])
      asking (resolve_confirmation c1 true none asking).1
      (unfold resolve_confirmation get text_eq in refl)
