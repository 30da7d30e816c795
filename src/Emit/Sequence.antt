-- ===== src/Emit/Sequence.antt =====
-- The numbers of a run's events: no insert of engine/emit.py ever collides, and what a client has not
-- seen yet is what it is sent.
use mathlib.Core.List.{append_assoc, append-nil}
use jarvis.Prelude.{
  ℕ, suc, ◌+◌, ◌≤◌, ◌<◌, max, ◌≡◌, refl, sym, ap, subst, ◌∙◌, true, false, not, Option, some, List,
  [], ◌∷◌, ◌++◌, Text, text_eq, arith, if◌then◌else◌, any, keep, Bool-cases, inl, inr, length,
}
use jarvis.Proto.Runs.{Run}
use jarvis.Proto.Events.{RunEvent, Body, is_delta, of_run}
use jarvis.Bus.{EventBus, publish}
use jarvis.Store.{Store, has_id, update_rows, is_event, append_event}
use jarvis.Store.Rows.{any-update_rows}
use jarvis.Emit.{event_of, emit, emit_all}

-- The highest number that an event of the run has, or 0.
unfoldable pub max_seq : Text → List RunEvent → ℕ
max_seq id [] = 0
max_seq id (e ∷ es) =
    let rest = max_seq id es in if text_eq e.run_id id then max e.seq rest else rest

-- The run object may number the next event: its row exists and no stored event is ahead of it.
pub record Numbered (run : Run) (st : Store) : Type 0 where
  pub there : any (has_id run.id) st.runs ≡ true
  pub ahead : max_seq run.id st.events ≤ run.last_seq

fresh :
    (id : Text) (seq : ℕ) (es : List RunEvent)
    → max_seq id es < seq
    → any (is_event id seq) es ≡ false
unfolding max_seq any
fresh id seq [] h = refl
fresh id seq (e ∷ es) h = ground (arith, fresh id seq es)

pub max_seq-append :
    (id : Text) (es : List RunEvent) (e : RunEvent)
    → max_seq id (es ++ e ∷ [])
      ≡ (if text_eq e.run_id id then max e.seq (max_seq id es) else max_seq id es)
unfolding max_seq
max_seq-append id [] e = refl
max_seq-append id (x ∷ es) e = ground (arith, max_seq-append id es e)

unfoldable pub after_append : RunEvent → Store → Store
after_append e st = record st {
  events = st.events ++ e ∷ [];
  runs = update_rows e.run_id (λ r. record r { last_seq = max r.last_seq e.seq }) st.runs;
}

append_event-some :
    (run : Run) (body : Body) (st : Store)
    → Numbered run st
    → append_event (event_of run (suc run.last_seq) body) st
      ≡ some (after_append (event_of run (suc run.last_seq) body) st)
unfolding append_event after_append
append_event-some run body st n =
    ground (arith, n.there, n.ahead, fresh run.id (suc run.last_seq) st.events)

pub after_append-Numbered :
    (run : Run) (body : Body) (st : Store)
    → Numbered run st
    → Numbered
        (record run { last_seq = suc run.last_seq })
        (after_append (event_of run (suc run.last_seq) body) st)
unfolding after_append
after_append-Numbered run body st n = record {
  there = ground (
    arith,
    any-update_rows run.id run.id (λ r. record r { last_seq = max r.last_seq (suc run.last_seq) })
        (λ r. refl) st.runs,
    n.there,
  );
  ahead =
      ground
        (arith, max_seq-append run.id st.events (event_of run (suc run.last_seq) body), n.ahead);
}

unfoldable pub after_stored : Run → Run
after_stored run = record run { last_seq = suc run.last_seq }

-- The bodies numbered one after the other.
unfoldable pub number_from : Run → ℕ → List Body → List RunEvent
number_from run n [] = []
number_from run n (b ∷ bs) = event_of run n b ∷ number_from run (suc n) bs

unfoldable pub stored_bodies : List Body → List Body
stored_bodies bs = keep (λ b. not (is_delta b)) bs

abbrev pub advanced : Run → List Body → Run
advanced run bs = record run { last_seq = run.last_seq + length (stored_bodies bs) }

-- What a sequence of emits comes to.
pub record Emitted (run : Run) (bs : List Body) (st : Store) (bus : EventBus) : Type 0 where
  pub store : Store
  pub bus' : EventBus
  pub succeeds : emit_all run bs st bus ≡ some (advanced run bs, store, bus')
  pub appended : store.events ≡ st.events ++ number_from run (suc run.last_seq) (stored_bodies bs)
  pub numbered : Numbered (advanced run bs) store

emit_delta :
    (run : Run) (b : Body) (st : Store) (bus : EventBus)
    → is_delta b ≡ true
    → emit run b st bus ≡ some (run, st, publish (of_run (event_of run run.last_seq b)) bus)
unfolding emit
emit_delta run b st bus h = rw h

pub emit_stored :
    (run : Run) (b : Body) (st : Store) (bus : EventBus)
    → is_delta b ≡ false
    → Numbered run st
    → emit run b st bus
      ≡ some (
        after_stored run,
        after_append (event_of run (suc run.last_seq) b) st,
        publish (of_run (event_of run (suc run.last_seq) b)) bus,
      )
unfolding emit after_stored
emit_stored run b st bus h n = rw (h, append_event-some run b st n)

Emitted-nil : (run : Run) (st : Store) (bus : EventBus) → Numbered run st → Emitted run [] st bus
unfolding emit_all stored_bodies keep number_from
Emitted-nil run st bus n = record {
  store = st;
  bus' = bus;
  succeeds = ground arith;
  appended = sym (append-nil st.events);
  numbered = record { there = n.there; ahead = omega (arith, n.ahead) };
}

stored_delta :
    (b : Body) (bs : List Body) → is_delta b ≡ true → stored_bodies (b ∷ bs) ≡ stored_bodies bs
unfolding stored_bodies keep
stored_delta b bs h = rw h

stored_other :
    (b : Body) (bs : List Body) → is_delta b ≡ false → stored_bodies (b ∷ bs) ≡ b ∷ stored_bodies bs
unfolding stored_bodies keep
stored_other b bs h = rw h

number_from-after_stored :
    (run : Run) (n : ℕ) (bs : List Body)
    → number_from (after_stored run) n bs ≡ number_from run n bs
unfolding number_from after_stored
number_from-after_stored run n [] = refl
number_from-after_stored run n (b ∷ bs) =
    ap (λ es. event_of run n b ∷ es) (number_from-after_stored run (suc n) bs)

emit_all_cons :
    (run run' : Run) (b : Body) (bs : List Body) (st st' : Store) (bus bus' : EventBus)
    → emit run b st bus ≡ some (run', st', bus')
    → emit_all run (b ∷ bs) st bus ≡ emit_all run' bs st' bus'
unfolding emit_all
emit_all_cons run run' b bs st st' bus bus' e = rw (e, emit_all)

advanced_delta :
    (run : Run) (b : Body) (bs : List Body)
    → is_delta b ≡ true
    → advanced run bs ≡ advanced run (b ∷ bs)
advanced_delta run b bs h =
    ap (λ n. record run { last_seq = n })
      (omega (arith, ap (length {A = Body}) (stored_delta b bs h)))

finish_with :
    (run run' : Run) {r : Option (Run × Store × EventBus)} {st : Store} {bus : EventBus}
    → run ≡ run'
    → r ≡ some (run, st, bus)
    → r ≡ some (run', st, bus)
finish_with run run' {st = st} {bus = bus} p q = q ∙ ap (λ x. some (x, st, bus)) p

Emitted-delta :
    (run : Run) (b : Body) (bs : List Body) (st : Store) (bus : EventBus)
    → is_delta b ≡ true
    → Emitted run bs st (publish (of_run (event_of run run.last_seq b)) bus)
    → Emitted run (b ∷ bs) st bus
Emitted-delta run b bs st bus h g = record {
  store = g.store;
  bus' = g.bus';
  succeeds =
      emit_all_cons run run b bs st st bus _ (emit_delta run b st bus h)
      ∙ finish_with (advanced run bs) (advanced run (b ∷ bs)) (advanced_delta run b bs h)
          g.succeeds;
  appended = rw (stored_delta b bs h) g.appended;
  numbered = subst (λ r. Numbered r g.store) (advanced_delta run b bs h) g.numbered;
}

advanced_stored :
    (run : Run) (b : Body) (bs : List Body)
    → is_delta b ≡ false
    → advanced (after_stored run) bs ≡ advanced run (b ∷ bs)
unfolding after_stored
advanced_stored run b bs h =
    ap (λ n. record run { last_seq = n })
      (omega (arith, ap (length {A = Body}) (stored_other b bs h)))

Emitted-stored :
    (run : Run) (b : Body) (bs : List Body) (st : Store) (bus : EventBus)
    → is_delta b ≡ false
    → Numbered run st
    → Emitted
        (after_stored run)
        bs
        (after_append (event_of run (suc run.last_seq) b) st)
        (publish (of_run (event_of run (suc run.last_seq) b)) bus)
    → Emitted run (b ∷ bs) st bus
Emitted-stored run b bs st bus h n g = record {
  store = g.store;
  bus' = g.bus';
  succeeds =
      emit_all_cons run (after_stored run) b bs st _ bus _ (emit_stored run b st bus h n)
      ∙ finish_with (advanced (after_stored run) bs) (advanced run (b ∷ bs))
          (advanced_stored run b bs h) g.succeeds;
  appended =
      g.appended
      ∙ unfold after_append after_stored in
        append_assoc st.events (event_of run (suc run.last_seq) b ∷ []) _
        ∙ unfold number_from after_stored in rw (stored_other b bs h, number_from-after_stored);
  numbered = subst (λ r. Numbered r g.store) (advanced_stored run b bs h) g.numbered;
}

-- Emitting never fails on a run whose number is not behind its stored events: every body but a delta
-- is stored under the next number, in order, and the run may number on.
pub emit_all_total :
    (run : Run) (bs : List Body) (st : Store) (bus : EventBus)
    → Numbered run st
    → Emitted run bs st bus
emit_all_total run [] st bus n = Emitted-nil run st bus n
emit_all_total run (b ∷ bs) st bus n = elim (Bool-cases (is_delta b)) [
  | inl d ↦ Emitted-delta run b bs st bus d (emit_all_total run bs st _ n)
  | inr o ↦ Emitted-stored run b bs st bus o n (
      emit_all_total (after_stored run) bs _ _
        (unfold after_stored in after_append-Numbered run b st n))
]
