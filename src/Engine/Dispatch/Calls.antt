-- ===== src/Engine/Dispatch/Calls.antt =====
-- Nothing starts beside a call (run_engine.py).
use jarvis.Prelude.{
  ◌≡◌, subst, Bool, true, false, ◌||◌, none, some, List, [], ◌∷◌, Text, text_eq_iff, arith, ◌⊎◌,
  inl, inr, is_some,
}
use jarvis.Prelude.Dicts.{
  Dict, get, put, remove, get-put, get-put_cases, get-remove, get-remove_cases,
}
use jarvis.Proto.Runs.{Run, is_voice}
use jarvis.Control.{RunControl, new_control}
use jarvis.Engine.{Engine, Entry, Queued, any_active, on_a_call, beside_a_call}
use jarvis.Engine.Books.{Books}
use jarvis.Engine.Dispatch.{dispatch, consider, may_start, held_by_call, start_run}
use jarvis.Engine.Dispatch.Loop.{start_loop_keeps, consider_cases, is_held, popped}

-- No queued run is working.
abbrev pub Apart : Engine → Type 0
Apart eng = (id : Text) → is_some (get id eng.queued) ≡ true → get id eng.active ≡ none

-- a new entry hides nothing
any_active-put :
    (p : RunControl → Bool) (k : Text) (v : RunControl) (d : Dict RunControl)
    → get k d ≡ none
    → any_active p d ≡ true
    → any_active p (put k v d) ≡ true
unfolding any_active put get
any_active-put p k v [] h a = cc
any_active-put p k v ((j, w) ∷ d) h a = ground (arith, any_active-put p k v d)

abbrev allowed : Run → Bool
allowed run = is_voice run.channel || beside_a_call run.kind

-- since the dispatcher was woken beside a call
record Beside (before : Engine) (eng : Engine) : Type 0 where
  call : on_a_call eng ≡ true
  apart : Apart eng
  keyed : (id : Text) (q : Queued) → get id eng.queued ≡ some q → q.run.id ≡ id
  started :
      (id : Text) (ctl : RunControl)
      → get id eng.active ≡ some ctl
      → (get id before.active ≡ some ctl) ⊎ (allowed ctl.run ≡ true)

held_or_allowed :
    (q : Queued) (eng : Engine)
    → on_a_call eng ≡ true
    → is_held q eng ≡ false
    → allowed q.run ≡ true
unfolding held_by_call
held_or_allowed q eng c h = ground arith

back-Beside :
    (before : Engine) (e : Entry) (q : Queued) (eng : Engine)
    → Beside before eng
    → get e.run_id eng.queued ≡ some q
    → Beside before (record eng { queued = put e.run_id q (remove e.run_id eng.queued) })
back-Beside before e q eng b o = record {
  call = unfold on_a_call in b.call;
  apart = λ id h. b.apart id (
      ground (
        arith,
        h,
        o,
        get-put e.run_id id q (remove e.run_id eng.queued),
        get-remove e.run_id id eng.queued,
        text_eq_iff e.run_id id,
      ));
  keyed = λ id r h. b.keyed id r (
      ground (
        arith,
        h,
        o,
        get-put e.run_id id q (remove e.run_id eng.queued),
        get-remove e.run_id id eng.queued,
        text_eq_iff e.run_id id,
      ));
  started = b.started;
}

start-Beside :
    (before : Engine) (e : Entry) (q : Queued) (eng : Engine)
    → Beside before eng
    → get e.run_id eng.queued ≡ some q
    → is_held q eng ≡ false
    → Beside before (start_run q (popped e eng))
unfolding start_run
start-Beside before e q eng b o h =
    let own : q.run.id ≡ e.run_id = b.keyed e.run_id q o in
    let free : get q.run.id eng.active ≡ none = b.apart q.run.id (ground (arith, o, own)) in
    record {
      call =
          unfold on_a_call in
          any_active-put _ q.run.id (new_control q.run q.resumed) eng.active free b.call;
      apart = λ id there. ground (
        arith,
        there,
        own,
        b.apart id,
        get-remove e.run_id id eng.queued,
        get-put q.run.id id (new_control q.run q.resumed) eng.active,
      );
      keyed = λ id r there. b.keyed id r (get-remove_cases e.run_id id r eng.queued there).1;
      started = λ id ctl there.
          elim (get-put_cases q.run.id id (new_control q.run q.resumed) ctl eng.active there) [
            | inl (k, same) ↦ inr (
                subst (λ (c : RunControl). allowed c.run ≡ true) same
                  (unfold new_control in held_or_allowed q eng b.call h))
            | inr old ↦ b.started id ctl old
          ];
    }

step-Beside :
    (before : Engine) (e : Entry) (heap held : List Entry) (eng : Engine)
    → may_start eng ≡ true
    → Beside before eng
    → Beside before (consider e (get e.run_id eng.queued) held eng).1
step-Beside before e heap held eng go b =
    consider_cases (λ _. Beside before) e (get e.run_id eng.queued) held eng (λ _. b)
      (λ q o _. back-Beside before e q eng b o) (λ q o h. start-Beside before e q eng b o h)

-- When the books are in order and no queued run is working: while a call is going, the dispatcher starts nothing but voice turns, typed chats and the system's
-- own runs: whatever works afterwards worked before, or is one of these.
pub dispatch-beside_a_call :
    (eng : Engine) (id : Text) (ctl : RunControl)
    → Books eng
    → Apart eng
    → on_a_call eng ≡ true
    → get id (dispatch eng).active ≡ some ctl
    → (get id eng.active ≡ some ctl)
      ⊎ ((is_voice ctl.run.channel || beside_a_call ctl.run.kind) ≡ true)
unfolding dispatch
dispatch-beside_a_call eng id ctl books apart call there =
    (start_loop_keeps (λ _ _. Beside eng) (step-Beside eng) eng.heap []
        (record eng { wake = false })
        (record {
          call = unfold on_a_call in call;
          apart = apart;
          keyed = books.keyed;
          started = λ _ _ h. inl h;
        })).started
      id ctl there
