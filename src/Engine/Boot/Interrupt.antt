-- ===== src/Engine/Boot/Interrupt.antt =====
-- The first loop of `_resume_on_boot` (run_engine.py): what was working is interrupted and queued.
use jarvis.Prelude.{
  suc, ◌≡◌, refl, ap, ◌∙◌, true, false, Option, some, List, [], ◌∷◌, Text, text_eq, text_eq_iff,
  arith, ◌⊎◌, any, All, inl, inr,
}
use jarvis.Prelude.Dicts.{get, get-put}
use jarvis.Proto.Runs.{Run, RunStatus}
use jarvis.Proto.Events.{run_interrupted}
use jarvis.Store.{Store, has_id, get_run}
use jarvis.Emit.Sequence.{Numbered}
use jarvis.Engine.{Engine, Queued, enqueue, queue_status}
use jarvis.Engine.Control.{save_and_emit}
use jarvis.Engine.Control.Saving.{save_and_emit-Saved}
use jarvis.Engine.Boot.{interrupt_all}
use jarvis.Engine.Boot.Rows.{Distinct, found}

abbrev interrupted_run : Run → Run
interrupted_run r = record r { status = RunStatus.interrupted }

-- queued to be resumed
pub record Resumed (id : Text) (eng : Engine) : Type 0 where
  pub entry : Queued
  pub queued : get id eng.queued ≡ some entry
  pub resumed : entry.resumed ≡ true
  pub status : entry.run.status ≡ RunStatus.interrupted

pub record Interrupted (runs : List Run) (eng : Engine) (r : Option Engine) : Type 0 where
  pub engine : Engine
  pub succeeds : r ≡ some engine
  pub taken : (id : Text) → any (has_id id) runs ≡ true → Resumed id engine
  pub others :
      (id : Text)
      → any (has_id id) runs ≡ false
      → (get id engine.queued ≡ get id eng.queued)
        × (get_run id engine.store ≡ get_run id eng.store)

interrupt_cons :
    (run run' : Run) (runs : List Run) (eng eng' : Engine)
    → save_and_emit (interrupted_run run) run_interrupted eng ≡ some (run', eng')
    → interrupt_all (run ∷ runs) eng ≡ interrupt_all runs (enqueue run' true eng')
unfolding interrupt_all
interrupt_cons run run' runs eng eng' h = rw (h, interrupt_all)

-- the queue and the table after one run of the first loop
one_taken :
    (run : Run) (eng : Engine) (id : Text)
    → run.status ≡ RunStatus.interrupted
    → text_eq run.id id ≡ true
    → Resumed id (enqueue run true eng)
unfolding enqueue
one_taken run eng id s h = record {
  entry = record { run = record run { status = queue_status run.status }; resumed = true };
  queued = ground (
    arith,
    h,
    get-put run.id id
        (record { run = record run { status = queue_status run.status }; resumed = true })
        eng.queued,
  );
  resumed = refl;
  status = unfold queue_status in rw s;
}

one_other :
    (run : Run) (eng : Engine) (id : Text)
    → text_eq run.id id ≡ false
    → (get id (enqueue run true eng).queued ≡ get id eng.queued)
      × (get_run id (enqueue run true eng).store ≡ get_run id eng.store)
unfolding enqueue
one_other run eng id h = (
  ground (
    arith,
    h,
    get-put run.id id
        (record { run = record run { status = queue_status run.status }; resumed = true })
        eng.queued,
  ),
  refl,
)

All-Numbered :
    (run : Run) (runs : List Run) (st st' : Store)
    → ((other : Run) → text_eq run.id other.id ≡ false → Numbered other st → Numbered other st')
    → All (λ s. text_eq s.id run.id ≡ false) runs
    → All (λ s. Numbered s st) runs
    → All (λ s. Numbered s st') runs
All-Numbered run [] st st' f d n = tt
All-Numbered run (s ∷ runs) st st' f d n = (
  f s (ground (arith, d.0, text_eq_iff s.id run.id, text_eq_iff run.id s.id)) n.0,
  All-Numbered run runs st st' f d.1 n.1,
)

pub cons_cases :
    (id : Text) (run : Run) (runs : List Run)
    → any (has_id id) (run ∷ runs) ≡ true
    → (any (has_id id) runs ≡ true) ⊎ ((any (has_id id) runs ≡ false) × (text_eq run.id id ≡ true))
unfolding any
cons_cases id run runs h = ground arith

cons_none :
    (id : Text) (run : Run) (runs : List Run)
    → any (has_id id) (run ∷ runs) ≡ false
    → (any (has_id id) runs ≡ false) × (text_eq run.id id ≡ false)
unfolding any
cons_none id run runs h = ground arith

pub Resumed-same :
    (id : Text) (eng eng' : Engine)
    → Resumed id eng
    → get id eng'.queued ≡ get id eng.queued
    → Resumed id eng'
Resumed-same id eng eng' r h = record {
  entry = r.entry;
  queued = h ∙ r.queued;
  resumed = r.resumed;
  status = r.status;
}

pub interrupt_all-Interrupted :
    (runs : List Run) (eng : Engine)
    → Distinct runs
    → All (λ r. Numbered r eng.store) runs
    → Interrupted runs eng (interrupt_all runs eng)
interrupt_all-Interrupted [] eng d n = record {
  engine = eng;
  succeeds = unfold interrupt_all in refl;
  taken = λ id h. absurd (unfold any in cc);
  others = λ id h. (refl, refl);
}
interrupt_all-Interrupted (run ∷ runs) eng d n =
    let (row, f, i) = found run.id eng.store.runs n.0.there in
    let s =
      save_and_emit-Saved (interrupted_run run) run_interrupted eng row
        (record { there = n.0.there; ahead = n.0.ahead }) (unfold get_run in f) refl in
    let run' : Run = record (interrupted_run run) { last_seq = suc run.last_seq } in
    let next : Engine = enqueue run' true s.engine in
    let rest =
      interrupt_all-Interrupted runs next d.1
        (All-Numbered run runs eng.store next.store (unfold enqueue in s.elsewhere) d.0 n.1) in
    record {
      engine = rest.engine;
      succeeds = interrupt_cons run run' runs eng s.engine s.succeeds ∙ rest.succeeds;
      taken = λ id h. elim (cons_cases id run runs h) [
        | inl later ↦ rest.taken id later
        | inr (none', here) ↦
            Resumed-same id next rest.engine (one_taken run' s.engine id refl here)
              (rest.others id none').0
      ];
      others = λ id h.
          let (none', ne) = cons_none id run runs h in
          (
            (rest.others id none').0 ∙ (one_other run' s.engine id ne).0 ∙ ap (get id) s.books.1,
            (rest.others id none').1 ∙ (one_other run' s.engine id ne).1 ∙ s.others id ne,
          );
    }
