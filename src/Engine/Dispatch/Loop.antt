-- ===== src/Engine/Dispatch/Loop.antt =====
-- The rule for the dispatcher's inner loop (run_engine.py), and what one entry of it does.
use jarvis.Prelude.{
  ◌≡◌, refl, Bool, true, false, ◌||◌, Option, none, some, List, [], ◌∷◌, ◌++◌, Bool-cases, inl, inr,
}
use jarvis.Prelude.Dicts.{get, put, remove}
use jarvis.Engine.{Engine, Entry, Queued}
use jarvis.Engine.Dispatch.{start_loop, consider, may_start, held_by_call, held_by_gate, start_run}

-- What holds of the entries left, the entries held and the engine holds after the loop, if every
-- entry that is taken keeps it.
pub start_loop_keeps {ℓ} :
    (P : List Entry → List Entry → Engine → Type ℓ)
    → ((e : Entry) (heap held : List Entry) (eng : Engine)
        → may_start eng ≡ true
        → P (e ∷ heap) held eng
        → P heap
            (consider e (get e.run_id eng.queued) held eng).0
            (consider e (get e.run_id eng.queued) held eng).1)
    → (heap held : List Entry) (eng : Engine) → P heap held eng
    → P (start_loop heap held eng).0 (start_loop heap held eng).1 (start_loop heap held eng).2
unfolding start_loop
start_loop_keeps P step [] held eng h = h
start_loop_keeps P step (e ∷ heap) held eng h = elim (Bool-cases (may_start eng)) [
  | inl go ↦
      rw (go, start_loop)
        (start_loop_keeps P step heap (consider e (get e.run_id eng.queued) held eng).0
          (consider e (get e.run_id eng.queued) held eng).1 (step e heap held eng go h))
  | inr full ↦ rw (full, start_loop) h
]

abbrev pub is_held : Queued → Engine → Bool
is_held q eng = held_by_call q.run eng || held_by_gate q.run eng

abbrev pub popped : Entry → Engine → Engine
popped e eng = record eng { queued = remove e.run_id eng.queued }

-- The three things that can happen to an entry.
pub consider_held :
    (e : Entry) (q : Queued) (held : List Entry) (eng : Engine)
    → is_held q eng ≡ true
    → consider e (some q) held eng
      ≡ (held ++ e ∷ [], record eng { queued = put e.run_id q (remove e.run_id eng.queued) })
unfolding consider
consider_held e q held eng h = rw h

pub consider_started :
    (e : Entry) (q : Queued) (held : List Entry) (eng : Engine)
    → is_held q eng ≡ false
    → consider e (some q) held eng ≡ (held, start_run q (popped e eng))
unfolding consider
consider_started e q held eng h = rw h

-- A property of the engine that putting back keeps, and starting a run that is not held keeps.
pub consider_cases {ℓ} :
    (P : List Entry → Engine → Type ℓ) (e : Entry) (o : Option Queued) (held : List Entry)
    (eng : Engine)
    → (o ≡ none → P held eng)
    → ((q : Queued)
        → o ≡ some q
        → is_held q eng ≡ true
        → P (held ++ e ∷ []) (record eng { queued = put e.run_id q (remove e.run_id eng.queued) }))
    → ((q : Queued) → o ≡ some q → is_held q eng ≡ false → P held (start_run q (popped e eng)))
    → P (consider e o held eng).0 (consider e o held eng).1
consider_cases P e none held eng gone back start = unfold consider in gone refl
consider_cases P e (some q) held eng gone back start = elim (Bool-cases (is_held q eng)) [
  | inl h ↦ rw (consider_held e q held eng h) (back q refl h)
  | inr h ↦ rw (consider_started e q held eng h) (start q refl h)
]
