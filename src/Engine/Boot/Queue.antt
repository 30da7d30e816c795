-- ===== src/Engine/Boot/Queue.antt =====
-- The second loop of `_resume_on_boot` (run_engine.py): what was waiting for its turn is queued.
use jarvis.Prelude.{
  ◌≡◌, sym, ap, ◌∙◌, Bool, true, false, some, List, [], ◌∷◌, Text, text_eq, text_eq_iff, arith,
  if◌then◌else◌, is_some, any, keep, inl, inr, Bool-cases, Option-cases,
}
use jarvis.Prelude.Dicts.{get, get-put}
use jarvis.Proto.Runs.{Run, RunStatus, is_interrupted}
use jarvis.Store.{Store, has_id, get_run, runs_with_status}
use jarvis.Engine.{Engine, Queued, enqueue, queue_status}
use jarvis.Engine.Boot.{queue_all}
use jarvis.Engine.Boot.Rows.{any-sort, any-keep}
use jarvis.Engine.Boot.Interrupt.{cons_cases}

enqueue_keeps :
    (run : Run) (resumed : Bool) (eng : Engine) (id : Text) (q : Queued)
    → is_some (get run.id eng.queued) ≡ false
    → get id eng.queued ≡ some q
    → get id (enqueue run resumed eng).queued ≡ some q
unfolding enqueue
enqueue_keeps run resumed eng id q t h = ground (
  arith,
  h,
  t,
  get-put run.id id
      (record { run = record run { status = queue_status run.status }; resumed = resumed })
      eng.queued,
  text_eq_iff run.id id,
)

pub queue_all_keeps :
    (runs : List Run) (eng : Engine) (id : Text) (q : Queued)
    → get id eng.queued ≡ some q
    → get id (queue_all runs eng).queued ≡ some q
unfolding queue_all
queue_all_keeps [] eng id q h = h
queue_all_keeps (run ∷ runs) eng id q h = elim (Bool-cases (is_some (get run.id eng.queued))) [
  | inl t ↦ rw (t, queue_all) (queue_all_keeps runs eng id q h)
  | inr t ↦
      rw (t, queue_all)
        (queue_all_keeps runs (enqueue run (is_interrupted run.status) eng) id q
          (enqueue_keeps run (is_interrupted run.status) eng id q t h))
]

enqueue_here :
    (run : Run) (resumed : Bool) (eng : Engine) (id : Text)
    → text_eq run.id id ≡ true
    → get id (enqueue run resumed eng).queued
      ≡ some (record { run = record run { status = queue_status run.status }; resumed = resumed })
unfolding enqueue
enqueue_here run resumed eng id h = ground (
  arith,
  h,
  get-put run.id id
      (record { run = record run { status = queue_status run.status }; resumed = resumed })
      eng.queued,
)

taken_here :
    (run : Run) (runs : List Run) (eng : Engine) (id : Text)
    → text_eq run.id id ≡ true
    → is_some (get id (queue_all (run ∷ runs) eng).queued) ≡ true
unfolding queue_all
taken_here run runs eng id here = elim (Option-cases (get run.id eng.queued)) [
  | inr (q, e) ↦
      rw (e, queue_all)
        (ap is_some (
          queue_all_keeps runs eng id q
            (ap (λ k. get k eng.queued) (sym ((text_eq_iff run.id id).0 here)) ∙ e)))
  | inl e ↦
      rw (e, queue_all)
        (ap is_some (
          queue_all_keeps runs (enqueue run (is_interrupted run.status) eng) id _
            (enqueue_here run (is_interrupted run.status) eng id here)))
]

pub queue_all_takes :
    (runs : List Run) (eng : Engine) (id : Text)
    → any (has_id id) runs ≡ true
    → is_some (get id (queue_all runs eng).queued) ≡ true
unfolding queue_all
queue_all_takes [] eng id h = absurd (unfold any in cc)
queue_all_takes (run ∷ runs) eng id h = elim (cons_cases id run runs h) [
  | inl later ↦
      queue_all_takes runs
        (if is_some (get run.id eng.queued)
          then eng
          else enqueue run (is_interrupted run.status) eng)
        id later
  | inr (none', here) ↦ taken_here run runs eng id here
]

pub any_status :
    (id : Text) (p : RunStatus → Bool) (st : Store) (r : Run)
    → get_run id st ≡ some r
    → p r.status ≡ true
    → any (has_id id) (runs_with_status p st) ≡ true
unfolding get_run runs_with_status
any_status id p st r h k =
    any-sort id (keep (λ x. p x.status) st.runs) ∙ any-keep id (λ x. p x.status) st.runs r h k
