-- ===== src/Engine/Dispatch/Order.antt =====
-- The dispatcher of run_engine.py keeps the engine's books.
use jarvis.Prelude.{
  ◌≡◌, refl, sym, ◌∙◌, true, false, ◌||◌, none, some, List, [], ◌∷◌, ◌++◌, Text, text_eq,
  text_eq_iff, arith, is_some, any, IsSorted, insert_by,
}
use jarvis.Prelude.Dicts.{get, put, remove, get-remove, get-remove_cases, get-put-remove}
use jarvis.Proto.Runs.{terminal}
use jarvis.Engine.{Engine, Entry, Queued, entry_le}
use jarvis.Engine.Books.{Books, covered, covered-insert, insert-IsSorted}
use jarvis.Engine.Dispatch.{dispatch, start_loop, consider, may_start, start_run, push_all}
use jarvis.Engine.Dispatch.Loop.{start_loop_keeps, consider_cases, popped}

-- the books while the loop is at work: an entry is left in the heap, or it is held
pub record Order (heap held : List Entry) (eng : Engine) : Type 0 where
  pub keyed : (id : Text) (q : Queued) → get id eng.queued ≡ some q → q.run.id ≡ id
  pub live : (id : Text) (q : Queued) → get id eng.queued ≡ some q → terminal q.run.status ≡ false
  pub entered :
      (id : Text) → is_some (get id eng.queued) ≡ true → (covered id heap || covered id held) ≡ true
  pub sorted : IsSorted entry_le heap

covered-append :
    (id : Text) (held : List Entry) (e : Entry)
    → covered id (held ++ e ∷ []) ≡ (covered id held || text_eq e.run_id id)
unfolding any
covered-append id [] e = ground arith
covered-append id (h ∷ held) e = ground (arith, covered-append id held e)

covered-cons :
    (id : Text) (e : Entry) (heap : List Entry)
    → covered id (e ∷ heap) ≡ (text_eq e.run_id id || covered id heap)
unfolding any
covered-cons id e heap = refl

module _ (e : Entry) (heap held : List Entry) (eng : Engine) (s : Order (e ∷ heap) held eng) where
  gone-Order : get e.run_id eng.queued ≡ none → Order heap held eng
  gone-Order o = record {
    keyed = s.keyed;
    live = s.live;
    entered = λ id h.
        ground (arith, h, o, s.entered id h, covered-cons id e heap, text_eq_iff e.run_id id);
    sorted = s.sorted.1;
  }

  module _ (q : Queued) (o : get e.run_id eng.queued ≡ some q) where
    -- putting a run back changes nothing that is read
    back : (id : Text) → get id (put e.run_id q (remove e.run_id eng.queued)) ≡ get id eng.queued
    back id = get-put-remove e.run_id id q eng.queued o

    back-Order :
        Order heap
          (held ++ e ∷ [])
          (record eng { queued = put e.run_id q (remove e.run_id eng.queued) })
    back-Order = record {
      keyed = λ id r h. s.keyed id r (sym (back id) ∙ h);
      live = λ id r h. s.live id r (sym (back id) ∙ h);
      entered = λ id h.
          ground
            (arith, h, back id, s.entered id, covered-cons id e heap, covered-append id held e);
      sorted = s.sorted.1;
    }

    start-Order : Order heap held (start_run q (popped e eng))
    unfolding start_run
    start-Order = record {
      keyed = λ id r h. s.keyed id r (get-remove_cases e.run_id id r eng.queued h).1;
      live = λ id r h. s.live id r (get-remove_cases e.run_id id r eng.queued h).1;
      entered = λ id h.
          ground
            (arith, h, s.entered id, get-remove e.run_id id eng.queued, covered-cons id e heap);
      sorted = s.sorted.1;
    }

pub step-Order :
    (e : Entry) (heap held : List Entry) (eng : Engine)
    → may_start eng ≡ true
    → Order (e ∷ heap) held eng
    → Order heap
        (consider e (get e.run_id eng.queued) held eng).0
        (consider e (get e.run_id eng.queued) held eng).1
step-Order e heap held eng go s =
    consider_cases (Order heap) e (get e.run_id eng.queued) held eng
      (λ o. gone-Order e heap held eng s o) (λ q o _. back-Order e heap held eng s q o)
      (λ q o _. start-Order e heap held eng s q o)

covered-push_all :
    (id : Text) (held heap : List Entry)
    → covered id (push_all held heap) ≡ (covered id heap || covered id held)
unfolding push_all any
covered-push_all id [] heap = ground arith
covered-push_all id (h ∷ held) heap =
    ground (arith, covered-push_all id held (insert_by entry_le h heap), covered-insert id h heap)

push_all-IsSorted :
    (held heap : List Entry) → IsSorted entry_le heap → IsSorted entry_le (push_all held heap)
unfolding push_all
push_all-IsSorted [] heap h = h
push_all-IsSorted (e ∷ held) heap h = push_all-IsSorted held _ (insert-IsSorted e heap h)

-- A round of the dispatcher keeps the books.
pub dispatch-Books : (eng : Engine) → Books eng → Books (dispatch eng)
unfolding dispatch
dispatch-Books eng b =
    let r = start_loop eng.heap [] (record eng { wake = false }) in
    let start : Order eng.heap [] (record eng { wake = false }) = record {
      keyed = b.keyed;
      live = b.live;
      entered = λ id h. ground (arith, b.entered id h);
      sorted = b.sorted;
    } in
    let s : Order r.0 r.1 r.2 =
      start_loop_keeps Order step-Order eng.heap [] (record eng { wake = false }) start in
    record {
      keyed = s.keyed;
      live = s.live;
      entered = λ id h. covered-push_all id r.1 r.0 ∙ s.entered id h;
      sorted = push_all-IsSorted r.1 r.0 s.sorted;
    }
