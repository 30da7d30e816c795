-- ===== src/Engine/Dispatch/Fate.antt =====
-- What becomes of a queued run when the dispatcher of run_engine.py wakes up.
use jarvis.Prelude.{
  ◌≡◌, refl, sym, ◌∙◌, subst, true, false, Option, none, some, List, [], Text, text_eq_iff, arith,
  ◌⊎◌, inl, is_some,
}
use jarvis.Prelude.Dicts.{get, put, remove, get-put, get-remove, get-remove_cases, get-put-remove}
use jarvis.Control.{RunControl, new_control}
use jarvis.Engine.{Engine, Entry, Queued}
use jarvis.Engine.Books.{Books}
use jarvis.Engine.Dispatch.{dispatch, start_loop, consider, may_start, start_run}
use jarvis.Engine.Dispatch.Loop.{start_loop_keeps, consider_cases, popped}
use jarvis.Engine.Dispatch.Calls.{Apart}
use jarvis.Engine.Dispatch.Order.{dispatch-Books}

abbrev control_of : Queued → RunControl
control_of q = new_control q.run q.resumed

-- since the dispatcher woke up
record Since (before : Engine) (eng : Engine) : Type 0 where
  apart : Apart eng
  keyed : (id : Text) (q : Queued) → get id eng.queued ≡ some q → q.run.id ≡ id
  kept :
      (id : Text) (q : Queued)
      → get id before.queued ≡ some q
      → (get id eng.queued ≡ some q) ⊎ (get id eng.active ≡ some (control_of q))
  others :
      (id : Text)
      → get id before.queued ≡ none
      → (get id eng.queued ≡ none) × (get id eng.active ≡ get id before.active)

module _ (before : Engine) (e : Entry) (eng : Engine) (s : Since before eng) (q : Queued)
    (o : get e.run_id eng.queued ≡ some q) where
  back : (id : Text) → get id (put e.run_id q (remove e.run_id eng.queued)) ≡ get id eng.queued
  back id = get-put-remove e.run_id id q eng.queued o

  back-Since : Since before (record eng { queued = put e.run_id q (remove e.run_id eng.queued) })
  back-Since = record {
    apart = λ id h. s.apart id (subst (λ (r : Option Queued). is_some r ≡ true) (back id) h);
    keyed = λ id r h. s.keyed id r (sym (back id) ∙ h);
    kept = λ id r h. ground (arith, s.kept id r h, back id);
    others = λ id h. (back id ∙ (s.others id h).0, (s.others id h).1);
  }

  start-Since : Since before (start_run q (popped e eng))
  unfolding start_run
  start-Since =
      let own : q.run.id ≡ e.run_id = s.keyed e.run_id q o in
      record {
        apart = λ id h. ground (
          arith,
          h,
          own,
          s.apart id,
          get-remove e.run_id id eng.queued,
          get-put q.run.id id (control_of q) eng.active,
        );
        keyed = λ id r h. s.keyed id r (get-remove_cases e.run_id id r eng.queued h).1;
        kept = λ id r h. ground (
          arith,
          s.kept id r h,
          o,
          own,
          s.apart id,
          get-remove e.run_id id eng.queued,
          get-put q.run.id id (control_of q) eng.active,
          text_eq_iff e.run_id id,
        );
        others = λ id h. ground (
          arith,
          s.others id h,
          o,
          own,
          get-remove e.run_id id eng.queued,
          get-put q.run.id id (control_of q) eng.active,
          text_eq_iff e.run_id id,
        );
      }

step-Since :
    (before : Engine) (e : Entry) (heap held : List Entry) (eng : Engine)
    → may_start eng ≡ true
    → Since before eng
    → Since before (consider e (get e.run_id eng.queued) held eng).1
step-Since before e heap held eng go s =
    consider_cases (λ _. Since before) e (get e.run_id eng.queued) held eng (λ _. s)
      (λ q o _. back-Since before e eng s q o) (λ q o _. start-Since before e eng s q o)

-- What holds after one round of the dispatcher.
pub record Dispatched (before after : Engine) : Type 0 where
  pub books : Books after
  pub apart : Apart after
  pub kept :
      (id : Text) (q : Queued)
      → get id before.queued ≡ some q
      → (get id after.queued ≡ some q) ⊎ (get id after.active ≡ some (new_control q.run q.resumed))
  pub others :
      (id : Text)
      → get id before.queued ≡ none
      → (get id after.queued ≡ none) × (get id after.active ≡ get id before.active)

-- When the books are in order and no queued run is working, the dispatcher loses no run and starts
-- none twice: every run that was queued is queued still, as it
-- was and with its entry in the heap, or is working now under a fresh control; a run that was not
-- queued is left alone; and no queued run is working.
pub dispatch-Dispatched : (eng : Engine) → Books eng → Apart eng → Dispatched eng (dispatch eng)
unfolding dispatch
dispatch-Dispatched eng b a =
    let s : Since eng (start_loop eng.heap [] (record eng { wake = false })).2 =
      start_loop_keeps (λ _ _. Since eng) (step-Since eng) eng.heap [] (record eng { wake = false })
        (record {
          apart = a;
          keyed = b.keyed;
          kept = λ id q h. inl h;
          others = λ id h. (h, refl);
        }) in
    record {
      books = unfold dispatch in dispatch-Books eng b;
      apart = s.apart;
      kept = s.kept;
      others = s.others;
    }
