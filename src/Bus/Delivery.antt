-- ===== src/Bus/Delivery.antt =====
-- What `publish` of engine/bus.py does to each subscriber over any sequence of events.
use mathlib.Core.List.{Memᴰ, append_assoc, append-nil}
use jarvis.Prelude.{
  ◌≤◌, ◌≡◌, refl, sym, ◌∙◌, subst, true, false, List, [], ◌∷◌, ◌++◌, arith, length, All,
  length-append, keep, Bool-cases, inl, inr, if◌then◌else◌,
}
use jarvis.Proto.Events.{Event}
use jarvis.Bus.{
  Subscriber, EventBus, queue_limit, deliver, wants, conversation_of, fan_out, publish, subscribed,
}

abbrev pub Bounded : Subscriber → Type 0
Bounded s = length s.queue ≤ queue_limit

fan_out-Bounded :
    (event : Event) (subs : List Subscriber) → All Bounded subs → All Bounded (fan_out event subs)
unfolding fan_out
fan_out-Bounded event [] h = tt
fan_out-Bounded event (s ∷ subs) h =
    ground (arith, length-append s.queue (event ∷ []), fan_out-Bounded event subs h.1)

-- No queue ever holds more than `queue_limit` events: publishing keeps every queue within it.
pub publish-Bounded :
    (event : Event) (bus : EventBus) → All Bounded bus.subs → All Bounded (publish event bus).subs
unfolding publish
publish-Bounded event bus h = fan_out-Bounded event bus.subs h

unfoldable pub publish_all : List Event → EventBus → EventBus
publish_all [] bus = bus
publish_all (e ∷ es) bus = publish_all es (publish e bus)

-- `t` is what became of `s` after the events: the same connection, and if it is alive its queue has
-- grown by what it wanted, in order.
record Followed (es : List Event) (s t : Subscriber) : Type 0 where
  ident : t.ident ≡ s.ident
  conversations : t.conversations ≡ s.conversations
  everything : t.everything ≡ s.everything
  queue : t.dead ≡ false → t.queue ≡ s.queue ++ keep (λ e. wants (conversation_of e) s) es
  alive : t.dead ≡ false → s.dead ≡ false

step : Event → Subscriber → Subscriber
step e s = if wants (conversation_of e) s then deliver e s else s

step-Followed : (e : Event) (s : Subscriber) → s.dead ≡ false → Followed (e ∷ []) s (step e s)
unfolding step deliver keep
step-Followed e s h = ground (arith, append-nil s.queue)

Followed-refl : (s : Subscriber) → Followed [] s s
unfolding keep
Followed-refl s = ground (arith, append-nil s.queue)

wants_same :
    (e : Event) (s t : Subscriber)
    → t.conversations ≡ s.conversations
    → t.everything ≡ s.everything
    → wants (conversation_of e) t ≡ wants (conversation_of e) s
unfolding wants subscribed
wants_same e s t p q = ground arith

keep_same :
    (es : List Event) (s t : Subscriber)
    → t.conversations ≡ s.conversations
    → t.everything ≡ s.everything
    → keep (λ e. wants (conversation_of e) t) es ≡ keep (λ e. wants (conversation_of e) s) es
unfolding keep
keep_same [] s t p q = refl
keep_same (e ∷ es) s t p q = ground (arith, wants_same e s t p q, keep_same es s t p q)

Followed-trans :
    (e : Event) (es : List Event) (s t u : Subscriber)
    → Followed (e ∷ []) s t
    → Followed es t u
    → Followed (e ∷ es) s u
unfolding keep
Followed-trans e es s t u f g = record {
  ident = g.ident ∙ f.ident;
  conversations = g.conversations ∙ f.conversations;
  everything = g.everything ∙ f.everything;
  queue = λ live. ground (
    arith,
    g.queue live,
    f.queue (g.alive live),
    append-nil s.queue,
    append_assoc s.queue (e ∷ []) (keep (λ e'. wants (conversation_of e') s) es),
    keep_same es s t f.conversations f.everything,
  );
  alive = λ live. f.alive (g.alive live);
}

fan_out_dead :
    (e : Event) (s : Subscriber) (subs : List Subscriber)
    → s.dead ≡ true
    → fan_out e (s ∷ subs) ≡ fan_out e subs
unfolding fan_out
fan_out_dead e s subs h = rw h

fan_out_live :
    (e : Event) (s : Subscriber) (subs : List Subscriber)
    → s.dead ≡ false
    → fan_out e (s ∷ subs) ≡ step e s ∷ fan_out e subs
unfolding fan_out step
fan_out_live e s subs h = rw h

Memᴰ_nil : {t : Subscriber} → Memᴰ t [] → ⊥
Memᴰ_nil m = elim m [ ]

abbrev From : Event → List Subscriber → Subscriber → Type 0
From e subs t = (s : Subscriber) × Memᴰ s subs × Followed (e ∷ []) s t

From-tail :
    (e : Event) (s : Subscriber) {subs : List Subscriber} {t : Subscriber}
    → From e subs t
    → From e (s ∷ subs) t
From-tail e s f = (f.0, Memᴰ.tail f.1, f.2)

From-head :
    (e : Event) (s : Subscriber) {subs : List Subscriber} {t : Subscriber}
    → s.dead ≡ false
    → t ≡ step e s
    → From e (s ∷ subs) t
From-head e s h p = (s, Memᴰ.head refl, subst (Followed (e ∷ []) s) (sym p) (step-Followed e s h))

fan_out_cons-Followed :
    (e : Event) (s : Subscriber) (subs : List Subscriber) (t : Subscriber)
    → s.dead ≡ false
    → Memᴰ t (step e s ∷ fan_out e subs)
    → (Memᴰ t (fan_out e subs) → From e subs t)
    → From e (s ∷ subs) t
fan_out_cons-Followed e s subs t h (Memᴰ.head p) ih = From-head e s h p
fan_out_cons-Followed e s subs t h (Memᴰ.tail m) ih = From-tail e s (ih m)

fan_out-Followed :
    (e : Event) (subs : List Subscriber) (t : Subscriber) → Memᴰ t (fan_out e subs) → From e subs t
fan_out-Followed e [] t m = absurd (Memᴰ_nil {t = t} (unfold fan_out in m))
fan_out-Followed e (s ∷ subs) t m = elim (Bool-cases s.dead) [
  | inl d ↦ From-tail e s (fan_out-Followed e subs t (subst (Memᴰ t) (fan_out_dead e s subs d) m))
  | inr l ↦
      fan_out_cons-Followed e s subs t l (subst (Memᴰ t) (fan_out_live e s subs l) m)
        (fan_out-Followed e subs t)
]

all_from :
    (es : List Event) (bus : EventBus) (t : Subscriber)
    → Memᴰ t (publish_all es bus).subs
    → (s : Subscriber) × Memᴰ s bus.subs × Followed es s t
unfolding publish_all publish
all_from [] bus t m = (t, m, Followed-refl t)
all_from (e ∷ es) bus t m =
    let (u, mu, fu) = all_from es (publish e bus) t m in
    let (s, ms, fs) = fan_out-Followed e bus.subs u mu in (s, ms, Followed-trans e es s u t fs fu)

-- A connection that is still alive after any sequence of events is one that was attached before
-- them, and its queue is what it held then followed by exactly the events that are its business, in
-- the order in which they were published: it has missed none and been sent no other.
pub publish_all-exact :
    (es : List Event) (bus : EventBus) (t : Subscriber)
    → Memᴰ t (publish_all es bus).subs
    → t.dead ≡ false
    → (s : Subscriber) × Memᴰ s bus.subs
      × (t.ident ≡ s.ident)
      × (t.queue ≡ s.queue ++ keep (λ e. wants (conversation_of e) s) es)
publish_all-exact es bus t m alive =
    let f = all_from es bus t m in (f.0, f.1, f.2.ident, f.2.queue alive)
