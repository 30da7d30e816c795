-- ===== src/Engine/Dispatch/Slots.antt =====
-- How many runs the dispatcher of run_engine.py lets work at once.
use native.Mathlib.Nat.{le_trans}
use jarvis.Prelude.{
  ℕ, suc, ◌≤◌, ◌<◌, ◌≡◌, refl, Bool, true, false, ◌&&◌, none, some, List, [], ◌∷◌, Text, arith, ltb,
  ◌⊎◌, inl, inr,
}
use jarvis.Prelude.Dicts.{Dict, get, put}
use jarvis.Proto.Runs.{is_task, is_waiting}
use jarvis.Control.{RunControl, new_control}
use jarvis.Engine.{Engine, Entry, Queued, count_active, running_count, running_tasks, holds_slot}
use jarvis.Engine.Dispatch.{dispatch, consider, may_start, held_by_gate, start_run}
use jarvis.Engine.Dispatch.Loop.{start_loop_keeps, consider_cases, is_held, popped}

-- one more entry counts for at most one more
count_active-put :
    (p : RunControl → Bool) (k : Text) (v : RunControl) (d : Dict RunControl)
    → count_active (λ id ctl. p ctl) (put k v d) ≤ suc (count_active (λ id ctl. p ctl) d)
unfolding count_active put
count_active-put p k v [] = ground arith
count_active-put p k v ((j, w) ∷ d) = ground (arith, count_active-put p k v d)

-- one that does not count adds nothing
count_active-put_other :
    (p : RunControl → Bool) (k : Text) (v : RunControl) (d : Dict RunControl)
    → p v ≡ false
    → count_active (λ id ctl. p ctl) (put k v d) ≤ count_active (λ id ctl. p ctl) d
unfolding count_active put
count_active-put_other p k v [] h = ground arith
count_active-put_other p k v ((j, w) ∷ d) h = ground (arith, count_active-put_other p k v d h)

running_count-start :
    (q : Queued) (e : Entry) (eng : Engine)
    → running_count (start_run q (popped e eng)) ≤ suc (running_count eng)
unfolding running_count start_run
running_count-start q e eng =
    count_active-put holds_slot q.run.id (new_control q.run q.resumed) eng.active

may_start-lt : (eng : Engine) → may_start eng ≡ true → running_count eng < eng.max
unfolding may_start
may_start-lt eng h = ground arith

record Within (m : ℕ) (eng : Engine) : Type 0 where
  limit : eng.max ≡ m
  within : running_count eng ≤ m

step-Within :
    (m : ℕ) (e : Entry) (heap held : List Entry) (eng : Engine)
    → may_start eng ≡ true
    → Within m eng
    → Within m (consider e (get e.run_id eng.queued) held eng).1
unfolding running_count
step-Within m e heap held eng go w =
    consider_cases (λ _. Within m) e (get e.run_id eng.queued) held eng (λ _. w)
      (λ q _ _. record { limit = w.limit; within = w.within })
      (λ q _ _. record {
        limit = unfold start_run in w.limit;
        within = omega (arith, running_count-start q e eng, may_start-lt eng go, w.limit, w.within);
      })

-- A run that was parked on a question is queued with the status that it waits, and is not counted when it
-- starts: any number of such runs start, whatever the limit.
start_run-uncounted :
    (q : Queued) (eng : Engine)
    → is_waiting q.run.status ≡ true
    → running_count (start_run q eng) ≤ running_count eng
unfolding running_count start_run
start_run-uncounted q eng h =
    count_active-put_other holds_slot q.run.id (new_control q.run q.resumed) eng.active
      (unfold new_control in rw h refl)

-- By the dispatcher's own count, at the time when it starts runs, the limit is kept: if no more runs
-- than that hold a slot before, no more do after. The count leaves out each run whose status is that it
-- waits for an answer, also one that was answered while parked and starts now.
pub running_count-dispatch :
    (eng : Engine) → running_count eng ≤ eng.max → running_count (dispatch eng) ≤ eng.max
unfolding dispatch running_count
running_count-dispatch eng h =
    (start_loop_keeps (λ _ _. Within eng.max) (step-Within eng.max) eng.heap []
      (record eng { wake = false }) (record { limit = refl; within = h })).within

abbrev is_task_running : RunControl → Bool
is_task_running ctl = is_task ctl.run.kind && holds_slot ctl

running_tasks-count :
    (eng : Engine)
    → running_tasks none eng ≡ count_active (λ id ctl. is_task_running ctl) eng.active
unfolding running_tasks
running_tasks-count eng = refl

gate_open :
    (limit : ℕ) (q : Queued) (eng : Engine)
    → eng.task_gate ≡ some (λ n. ltb n limit)
    → is_held q eng ≡ false
    → (is_task q.run.kind ≡ false) ⊎ (running_tasks none eng < limit)
unfolding held_by_gate
gate_open limit q eng g h = ground arith

record FewTasks (limit : ℕ) (eng : Engine) : Type 0 where
  gate : eng.task_gate ≡ some (λ n. ltb n limit)
  few : running_tasks none eng ≤ limit

start-FewTasks :
    (limit : ℕ) (e : Entry) (q : Queued) (eng : Engine)
    → FewTasks limit eng
    → is_held q eng ≡ false
    → running_tasks none (start_run q (popped e eng)) ≤ limit
unfolding running_tasks start_run
start-FewTasks limit e q eng f h = elim (gate_open limit q eng f.gate h) [
  | inl other ↦
      le_trans
        (count_active-put_other is_task_running q.run.id (new_control q.run q.resumed) eng.active
          (unfold new_control in rw other))
        f.few
  | inr below ↦
      le_trans (count_active-put is_task_running q.run.id (new_control q.run q.resumed) eng.active)
        below
]

step-FewTasks :
    (limit : ℕ) (e : Entry) (heap held : List Entry) (eng : Engine)
    → may_start eng ≡ true
    → FewTasks limit eng
    → FewTasks limit (consider e (get e.run_id eng.queued) held eng).1
step-FewTasks limit e heap held eng go f =
    consider_cases (λ _. FewTasks limit) e (get e.run_id eng.queued) held eng (λ _. f)
      (λ q _ _. record { gate = f.gate; few = unfold running_tasks in f.few })
      (λ q _ h. record {
        gate = unfold start_run in f.gate;
        few = start-FewTasks limit e q eng f h;
      })

-- With a gate that lets a task start while the engine counts fewer than `limit` tasks at work, the engine
-- counts no more than `limit` after the dispatcher has started runs, if it did not before. The count
-- leaves out each task whose status is that it waits for an answer, also one that was answered while
-- parked and starts now.
pub running_tasks-dispatch :
    (limit : ℕ) (eng : Engine)
    → eng.task_gate ≡ some (λ n. ltb n limit)
    → running_tasks none eng ≤ limit
    → running_tasks none (dispatch eng) ≤ limit
unfolding dispatch running_tasks
running_tasks-dispatch limit eng g h =
    (start_loop_keeps (λ _ _. FewTasks limit) (step-FewTasks limit) eng.heap []
      (record eng { wake = false }) (record { gate = g; few = h })).few
