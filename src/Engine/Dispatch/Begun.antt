-- ===== src/Engine/Dispatch/Begun.antt =====
-- How many runs work once those that the dispatcher of run_engine.py started have begun.
use jarvis.Prelude.{
  ℕ, ◌≤◌, ◌≡◌, refl, sym, ◌∙◌, subst, Bool, true, false, not, ◌&&◌, ◌||◌, none, some, List, [], ◌∷◌,
  Text, text_eq_refl, arith, ltb, is_some, All, All-map,
}
use jarvis.Prelude.Dicts.{Dict, get, put, get-put-remove, get-remove_cases}
use jarvis.Proto.Runs.{is_waiting, is_task}
use jarvis.Control.{RunControl, new_control}
use jarvis.Engine.{Engine, Entry, Queued, count_active, running_count, running_tasks, holds_slot}
use jarvis.Engine.Dispatch.{dispatch, consider, may_start, start_run}
use jarvis.Engine.Dispatch.Loop.{start_loop_keeps, consider_cases}
use jarvis.Engine.Dispatch.Slots.{running_count-dispatch, running_tasks-dispatch}

-- A run works that holds a slot, or has been started since: the loop sets its status when it begins.
abbrev pub works_after : Engine → Text → RunControl → Bool
works_after before id ctl = holds_slot ctl || not (is_some (get id before.active))

abbrev Counted : Engine → Dict RunControl → Type 0
Counted before active = All (λ e. works_after before e.0 e.1 ≡ holds_slot e.1) active

put-Counted :
    (before : Engine) (k : Text) (v : RunControl) (d : Dict RunControl)
    → holds_slot v ≡ true
    → Counted before d
    → Counted before (put k v d)
unfolding put
put-Counted before k v [] h c = (ground (arith, h), tt)
put-Counted before k v ((j, w) ∷ d) h c = ground (arith, h, c, put-Counted before k v d h c.1)

keys_there : (d : Dict RunControl) → All (λ e. is_some (get e.0 d) ≡ true) d
unfolding get
keys_there [] = tt
keys_there ((j, w) ∷ d) =
    (ground (arith, text_eq_refl j), All-map _ _ (λ e h. ground (arith, h)) d (keys_there d))

active-Counted : (eng : Engine) → Counted eng eng.active
active-Counted eng = All-map _ _ (λ e h. ground (arith, h)) eng.active (keys_there eng.active)

-- Among the runs of a kind, those that work are those that the engine counts.
count-Counted :
    (before : Engine) (kind : RunControl → Bool) (d : Dict RunControl)
    → Counted before d
    → count_active (λ id ctl. kind ctl && works_after before id ctl) d
      ≡ count_active (λ id ctl. kind ctl && holds_slot ctl) d
unfolding count_active
count-Counted before kind [] c = refl
count-Counted before kind ((j, w) ∷ d) c = rw (c.0, count-Counted before kind d c.1) refl

-- No queued run waits for an answer.
abbrev pub NoneWaits : Engine → Type 0
NoneWaits eng =
    (id : Text) (q : Queued) → get id eng.queued ≡ some q → is_waiting q.run.status ≡ false

record Fresh (before eng : Engine) : Type 0 where
  fresh : NoneWaits eng
  counted : Counted before eng.active

step-Fresh :
    (before : Engine) (e : Entry) (heap held : List Entry) (eng : Engine)
    → may_start eng ≡ true
    → Fresh before eng
    → Fresh before (consider e (get e.run_id eng.queued) held eng).1
step-Fresh before e heap held eng go f =
    consider_cases (λ _. Fresh before) e (get e.run_id eng.queued) held eng (λ _. f)
      (λ q there _. record {
        fresh = λ id q' h. f.fresh id q' (sym (get-put-remove e.run_id id q eng.queued there) ∙ h);
        counted = f.counted;
      })
      (λ q there _. record {
        fresh =
            unfold start_run in
            λ id q' h. f.fresh id q' (get-remove_cases e.run_id id q' eng.queued h).1;
        counted =
            unfold start_run new_control in
            put-Counted before q.run.id (new_control q.run q.resumed) eng.active
              (rw (f.fresh e.run_id q there) refl) f.counted;
      })

dispatch-Counted : (eng : Engine) → NoneWaits eng → Counted eng (dispatch eng).active
unfolding dispatch
dispatch-Counted eng fresh =
    (start_loop_keeps (λ _ _. Fresh eng) (step-Fresh eng) eng.heap [] (record eng { wake = false })
      (record { fresh = fresh; counted = active-Counted eng })).counted

-- The dispatcher never makes more runs work than the limit, if no more hold a slot before and no run in
-- the queue has the status that it waits for an answer: those that hold one after and those that have
-- been started, whatever their status, are no more than that. (A run that was answered while it was
-- parked keeps that status in the queue.)
pub dispatch-slots :
    (eng : Engine)
    → ((id : Text) (q : Queued) → get id eng.queued ≡ some q → is_waiting q.run.status ≡ false)
    → running_count eng ≤ eng.max
    → count_active
        (λ id ctl. holds_slot ctl || not (is_some (get id eng.active)))
        (dispatch eng).active
      ≤ eng.max
unfolding running_count
dispatch-slots eng fresh h =
    subst (λ n. n ≤ eng.max)
      (sym (count-Counted eng (λ ctl. true) (dispatch eng).active (dispatch-Counted eng fresh)))
      (running_count-dispatch eng h)

-- With a gate that lets a task start while the engine counts fewer than `limit` tasks at work, the
-- dispatcher never makes more than `limit` tasks work, if no more did before and no run in the queue has
-- the status that it waits for an answer.
pub dispatch-task_limit :
    (limit : ℕ) (eng : Engine)
    → ((id : Text) (q : Queued) → get id eng.queued ≡ some q → is_waiting q.run.status ≡ false)
    → eng.task_gate ≡ some (λ n. ltb n limit)
    → running_tasks none eng ≤ limit
    → count_active
        (λ id ctl. is_task ctl.run.kind && (holds_slot ctl || not (is_some (get id eng.active))))
        (dispatch eng).active
      ≤ limit
unfolding running_tasks
dispatch-task_limit limit eng fresh g h =
    subst (λ n. n ≤ limit)
      (sym (
        count-Counted eng (λ ctl. is_task ctl.run.kind) (dispatch eng).active
          (dispatch-Counted eng fresh)))
      (running_tasks-dispatch limit eng g h)
