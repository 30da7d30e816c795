-- ===== src/Engine/Same.antt =====
-- Calls of run_engine.py that leave the heap and the queued runs as they are.
use jarvis.Prelude.{
  ℕ, ◌≡◌, refl, sym, ap, ◌∙◌, subst, Bool, Option, none, some, Text, arith, is_some, IsSorted,
  Bool-cases, Option-cases, inl, inr,
}
use jarvis.Prelude.Dicts.{get}
use jarvis.Proto.Runs.{Run, is_waiting}
use jarvis.Proto.Events.{Body}
use jarvis.Store.{get_run}
use jarvis.Control.{RunControl}
use jarvis.Engine.{Engine, entry_le}
use jarvis.Engine.Books.{Books, covered}
use jarvis.Engine.Control.{
  save_and_emit, end_cancelled, ask_cancel, cancel_parked, cancel, steer, answer_live,
}
use jarvis.Engine.Execute.{Outcome, begin, finish, settle, fail, leave, after_run}

-- The books are in `queued` and `heap` alone.
abbrev pub Same : Engine → Engine → Type 0
Same a b = (b.heap ≡ a.heap) × (b.queued ≡ a.queued)

pub Books-Same : (a b : Engine) → Books a → b.heap ≡ a.heap → b.queued ≡ a.queued → Books b
Books-Same a b k h q = record {
  keyed = λ id e g. k.keyed id e (sym (ap (get id) q) ∙ g);
  live = λ id e g. k.live id e (sym (ap (get id) q) ∙ g);
  entered = λ id g. ap (covered id) h ∙ k.entered id (sym (ap (λ d. is_some (get id d)) q) ∙ g);
  sorted = subst (IsSorted entry_le) (sym h) k.sorted;
}

pub save_and_emit-Same :
    (run run' : Run) (body : Body) (eng eng' : Engine)
    → save_and_emit run body eng ≡ some (run', eng')
    → Same eng eng'
unfolding save_and_emit
save_and_emit-Same run run' body eng eng' h = ground (arith, h)

pub settle-Same :
    (run run' : Run) (o : Outcome) (now : ℕ) (eng eng' : Engine)
    → settle run o now eng ≡ some (run', eng')
    → Same eng eng'
unfolding settle fail save_and_emit
settle-Same run run' Outcome.returned now eng eng' h = ground (arith, h)
settle-Same run run' (Outcome.was_cancelled p w) now eng eng' h = ground (arith, h)
settle-Same run run' Outcome.shutdown now eng eng' h = ground (arith, h)
settle-Same run run' (Outcome.model_error m) now eng eng' h = ground (arith, h)
settle-Same run run' (Outcome.crashed n m) now eng eng' h = ground (arith, h)

pub leave-Same : (run : Run) (now : ℕ) (eng : Engine) → Same eng (leave run now eng)
unfolding leave after_run
leave-Same run now eng = (refl, refl)

pub finish-Same :
    (run : Run) (o : Outcome) (now : ℕ) (eng eng' : Engine)
    → finish run o now eng ≡ some eng'
    → Same eng eng'
unfolding finish
finish-Same run o now eng eng' h = elim (Option-cases (settle run o now eng)) [
  | inl e ↦ ground (arith, h, e)
  | inr ((run', mid), e) ↦
      let s = settle-Same run run' o now eng mid e in
      let l = leave-Same run' now mid in ground (arith, h, e, s, l)
]

pub begin-Same :
    (id : Text) (now : ℕ) (eng eng' : Engine) → begin id now eng ≡ some eng' → Same eng eng'
unfolding begin save_and_emit
begin-Same id now eng eng' h = ground (arith, h)

pub steer-Same :
    (id said : Text) (by_owner : Bool) (eng : Engine) → Same eng (steer id said by_owner eng).1
unfolding steer
steer-Same id said by_owner eng = ground arith

pub end_cancelled-Same :
    (run : Run) (now : ℕ) (b : Bool) (eng eng' : Engine)
    → end_cancelled run now eng ≡ some (b, eng')
    → Same eng eng'
unfolding end_cancelled save_and_emit
end_cancelled-Same run now b eng eng' h = ground (arith, h)

pub answer_live-Same :
    (id call_id : Text) (approved : Bool) (said : Option Text) (r : Option RunControl)
    (eng : Engine)
    → Same eng (answer_live id call_id approved said r eng).1
unfolding answer_live
answer_live-Same id call_id approved said none eng = (refl, refl)
answer_live-Same id call_id approved said (some ctl) eng = ground arith

pub cancel_parked-Same :
    (r : Option Run) (now : ℕ) (b : Bool) (eng eng' : Engine)
    → cancel_parked r now eng ≡ some (b, eng')
    → Same eng eng'
unfolding cancel_parked
cancel_parked-Same none now b eng eng' h = ground (arith, h)
cancel_parked-Same (some run) now b eng eng' h = elim (Bool-cases (is_waiting run.status)) [
  | inl w ↦ end_cancelled-Same run now b eng eng' (ground (arith, h, w))
  | inr w ↦ ground (arith, h, w)
]

pub cancel-Same :
    (id : Text) (now : ℕ) (b : Bool) (eng eng' : Engine)
    → get id eng.queued ≡ none
    → cancel id now eng ≡ some (b, eng')
    → Same eng eng'
unfolding cancel ask_cancel
cancel-Same id now b eng eng' e h = elim (Option-cases (get id eng.active)) [
  | inl a ↦ cancel_parked-Same (get_run id eng.store) now b eng eng' (ground (arith, h, e, a))
  | inr (ctl, a) ↦ ground (arith, h, e, a)
]
