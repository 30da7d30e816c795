-- ===== src/Engine/Boot/Complete.antt =====
-- No run is left behind by a restart (`_resume_on_boot` of run_engine.py).
use jarvis.Prelude.{
  ◌≡◌, refl, sym, ap, ◌∙◌, true, false, Option, some, is_some, any, All, All-sort_by, All-keep, inl,
  inr, Bool-cases,
}
use jarvis.Prelude.Dicts.{get}
use jarvis.Proto.Runs.{Run}
use jarvis.Store.{has_id, get_run, by_priority, runs_with_status}
use jarvis.Emit.Sequence.{Numbered}
use jarvis.Engine.{Engine}
use jarvis.Engine.Boot.{was_working, was_waiting_its_turn, interrupt_all, queue_all, resume_on_boot}
use jarvis.Engine.Boot.Rows.{Distinct, Distinct-sort, Distinct-keep}
use jarvis.Engine.Boot.Interrupt.{Resumed, Resumed-same, interrupt_all-Interrupted}
use jarvis.Engine.Boot.Queue.{queue_all_keeps, queue_all_takes, any_status}

-- What a restart leaves of the run `id`, whose row was `run`.
pub record Picked (run : Run) (eng : Engine) : Type 0 where
  pub working : was_working run.status ≡ true → Resumed run.id eng
  pub waiting : was_waiting_its_turn run.status ≡ true → is_some (get run.id eng.queued) ≡ true

pub record Booted (eng : Engine) (r : Option Engine) : Type 0 where
  pub engine : Engine
  pub succeeds : r ≡ some engine
  pub picked : (run : Run) → get_run run.id eng.store ≡ some run → Picked run engine

boots :
    (eng eng' : Engine)
    → interrupt_all (runs_with_status was_working eng.store) eng ≡ some eng'
    → resume_on_boot eng ≡ some (queue_all (runs_with_status was_waiting_its_turn eng'.store) eng')
unfolding resume_on_boot
boots eng eng' h = rw (h, resume_on_boot) refl

waiting_taken :
    (run : Run) (eng eng' : Engine)
    → get_run run.id eng.store ≡ some run
    → was_waiting_its_turn run.status ≡ true
    → ((any (has_id run.id) (runs_with_status was_working eng.store) ≡ true) → Resumed run.id eng')
    → ((any (has_id run.id) (runs_with_status was_working eng.store) ≡ false)
        → get_run run.id eng'.store ≡ get_run run.id eng.store)
    → is_some
        (get run.id (queue_all (runs_with_status was_waiting_its_turn eng'.store) eng').queued)
      ≡ true
waiting_taken run eng eng' f w t o =
    elim (Bool-cases (any (has_id run.id) (runs_with_status was_working eng.store))) [
      | inl e ↦ ap is_some (
          queue_all_keeps (runs_with_status was_waiting_its_turn eng'.store) eng' run.id (t e).entry
            (t e).queued)
      | inr e ↦
          queue_all_takes (runs_with_status was_waiting_its_turn eng'.store) eng' run.id
            (any_status run.id was_waiting_its_turn eng'.store run (o e ∙ f) w)
    ]

resume_on_boot-Booted :
    (eng : Engine)
    → Distinct eng.store.runs
    → All (λ r. Numbered r eng.store) eng.store.runs
    → Booted eng (resume_on_boot eng)
resume_on_boot-Booted eng d n =
    let left = runs_with_status was_working eng.store in
    let s =
      interrupt_all-Interrupted left eng
        (unfold runs_with_status in Distinct-sort _ (Distinct-keep _ eng.store.runs d))
        (unfold runs_with_status in All-sort_by _ by_priority _ (All-keep _ _ eng.store.runs n)) in
    let waiting = runs_with_status was_waiting_its_turn s.engine.store in
    record {
      engine = queue_all waiting s.engine;
      succeeds = boots eng s.engine s.succeeds;
      picked = λ run f. record {
        working = λ w.
            let t = s.taken run.id (any_status run.id was_working eng.store run f w) in
            Resumed-same run.id s.engine (queue_all waiting s.engine) t
              (queue_all_keeps waiting s.engine run.id t.entry t.queued ∙ sym t.queued);
        waiting =
            λ w. waiting_taken run eng s.engine f w (s.taken run.id) (λ e. (s.others run.id e).1);
      };
    }

-- When the ids of the table are distinct and the rows carry their own event numbers, boot succeeds
-- and leaves no run that was working behind: it is queued, marked interrupted and flagged as resumed.
pub resume_on_boot-working :
    (eng : Engine) (run : Run)
    → Distinct eng.store.runs
    → All (λ r. Numbered r eng.store) eng.store.runs
    → get_run run.id eng.store ≡ some run
    → was_working run.status ≡ true
    → (eng' : Engine) × (resume_on_boot eng ≡ some eng') × Resumed run.id eng'
resume_on_boot-working eng run d n f w =
    let b = resume_on_boot-Booted eng d n in (b.engine, b.succeeds, (b.picked run f).working w)

-- Under the same conditions no run that was queued or interrupted is left behind: it is queued.
pub resume_on_boot-waiting :
    (eng : Engine) (run : Run)
    → Distinct eng.store.runs
    → All (λ r. Numbered r eng.store) eng.store.runs
    → get_run run.id eng.store ≡ some run
    → was_waiting_its_turn run.status ≡ true
    → (eng' : Engine) × (resume_on_boot eng ≡ some eng') × (is_some (get run.id eng'.queued) ≡ true)
resume_on_boot-waiting eng run d n f w =
    let b = resume_on_boot-Booted eng d n in (b.engine, b.succeeds, (b.picked run f).waiting w)
