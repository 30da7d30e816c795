-- ===== src/Engine/Execute/Outcomes.antt =====
-- How a run ends in run_engine.py, for every way in which the loop can end.
use jarvis.Prelude.{
  ℕ, suc, ◌≡◌, refl, sym, ap, ◌∙◌, subst, true, false, Option, none, some, ◌++◌, Text, text,
  text_eq_iff, arith, if◌then◌else◌, inl, inr, Bool-cases,
}
use jarvis.Prelude.Dicts.{get, remove, get-remove}
use jarvis.Proto.Runs.{Run, RunStatus, is_waiting}
use jarvis.Proto.Events.{Body, is_delta, run_cancelled, run_failed, run_interrupted}
use jarvis.Store.{get_run}
use jarvis.Store.Conversations.{update_conversation}
use jarvis.Emit.Sequence.{Numbered}
use jarvis.Engine.{Engine}
use jarvis.Engine.Control.{save_and_emit}
use jarvis.Engine.Control.Saving.{save_and_emit-Saved}
use jarvis.Engine.Execute.{
  Outcome, returned, was_cancelled, shutdown, model_error, crashed, settle, fail, partial_of,
  finish, leave, after_run, marks_unread,
}

-- The status that a run ends with: `now` is the one that the loop left it in.
abbrev pub end_status : RunStatus → Outcome → RunStatus
end_status now returned = now
end_status now (was_cancelled partial wrap) = RunStatus.cancelled
end_status now shutdown = if is_waiting now then now else RunStatus.interrupted
end_status now (model_error message) = RunStatus.failed
end_status now (crashed name message) = RunStatus.failed

-- The error that is kept.
abbrev pub end_error : Option Text → Outcome → Option Text
end_error e returned = e
end_error e (was_cancelled partial wrap) = e
end_error e shutdown = e
end_error e (model_error message) = some (text "model: " ++ message)
end_error e (crashed name message) = some (name ++ text ": " ++ message)

record Settled (run : Run) (outcome : Outcome) (now : ℕ) (eng : Engine) : Type 0 where
  run' : Run
  engine : Engine
  succeeds : settle run outcome now eng ≡ some (run', engine)
  same : run'.id ≡ run.id
  row : Run
  reads : get_run run.id engine.store ≡ some row
  status : row.status ≡ end_status run.status outcome
  error : row.error ≡ end_error run.error outcome
  active : engine.active ≡ eng.active

module _ (run : Run) (now : ℕ) (eng : Engine) (row : Run) (n : Numbered run eng.store)
    (r : get_run run.id eng.store ≡ some row) (st : row.status ≡ run.status)
    (er : row.error ≡ run.error) where
  unchanged :
      (o : Outcome)
      → settle run o now eng ≡ some (run, eng)
      → end_status run.status o ≡ run.status
      → end_error run.error o ≡ run.error
      → Settled run o now eng
  unchanged o h s e = record {
    run' = run;
    engine = eng;
    succeeds = h;
    same = refl;
    row = row;
    reads = r;
    status = st ∙ sym s;
    error = er ∙ sym e;
    active = refl;
  }

  changed :
      (o : Outcome) (to : Run) (body : Body)
      → to.id ≡ run.id
      → to.last_seq ≡ run.last_seq
      → is_delta body ≡ false
      → settle run o now eng ≡ save_and_emit to body eng
      → to.status ≡ end_status run.status o
      → to.error ≡ end_error run.error o
      → Settled run o now eng
  changed o to body i l d h s e =
      let g =
        save_and_emit-Saved to body eng row
          (record { there = ground (arith, n.there, i); ahead = ground (arith, n.ahead, i, l) })
          (subst (λ j. get_run j eng.store ≡ some row) (sym i) r) d in
      record {
        run' = record to { last_seq = suc to.last_seq };
        engine = g.engine;
        succeeds = h ∙ g.succeeds;
        same = i;
        row = g.row';
        reads = subst (λ j. get_run j g.engine.store ≡ some g.row') i g.reads;
        status = g.status ∙ s;
        error = g.error ∙ e;
        active = g.books.2;
      }

  settle-Settled : (o : Outcome) → Settled run o now eng
  unfolding settle fail
  settle-Settled returned = unchanged returned refl refl refl
  settle-Settled (was_cancelled partial wrap) =
      changed (was_cancelled partial wrap)
        (record run { status = RunStatus.cancelled; finished_at = some now })
        (run_cancelled (partial_of run partial wrap)) refl refl refl refl refl refl
  settle-Settled shutdown = elim (Bool-cases (is_waiting run.status)) [
    | inl w ↦ unchanged shutdown (rw w) (rw w) refl
    | inr w ↦
        changed shutdown (record run { status = RunStatus.interrupted }) run_interrupted refl refl
          refl (rw w) (rw w) refl
  ]
  settle-Settled (model_error message) =
      changed (model_error message)
        (record run {
          status = RunStatus.failed;
          error = some (text "model: " ++ message);
          finished_at = some now;
        })
        (run_failed (text "model: " ++ message)) refl refl refl refl refl refl
  settle-Settled (crashed name message) =
      changed (crashed name message)
        (record run {
          status = RunStatus.failed;
          error = some (name ++ text ": " ++ message);
          finished_at = some now;
        })
        (run_failed (name ++ text ": " ++ message)) refl refl refl refl refl refl

get_run-leave :
    (id : Text) (run : Run) (now : ℕ) (eng : Engine)
    → get_run id (leave run now eng).store ≡ get_run id eng.store
unfolding leave after_run get_run update_conversation
get_run-leave id run now eng =
    elim (Bool-cases (marks_unread run (record eng { active = remove run.id eng.active }))) [
      | inl u ↦ rw u
      | inr u ↦ rw u
    ]

active-leave :
    (run : Run) (now : ℕ) (eng : Engine) → (leave run now eng).active ≡ remove run.id eng.active
unfolding leave after_run
active-leave run now eng = refl

-- What is left of a run when its task has ended.
pub record Over (run : Run) (outcome : Outcome) (r : Option Engine) : Type 0 where
  pub engine : Engine
  pub succeeds : r ≡ some engine
  pub row : Run
  pub reads : get_run run.id engine.store ≡ some row
  pub status : row.status ≡ end_status run.status outcome
  pub error : row.error ≡ end_error run.error outcome
  pub idle : get run.id engine.active ≡ none
  pub woken : engine.wake ≡ true

-- However the loop ends, the run's task ends in order: the row has the status and the error that the
-- outcome calls for (cancelled, failed with its error, interrupted by a shutdown unless it waits for
-- an answer, or what the loop saved), the run is out of the engine's books, and the dispatcher is
-- woken. It holds for a run whose row is as it was last saved and whose number is not behind.
pub finish-Over :
    (run : Run) (outcome : Outcome) (now : ℕ) (eng : Engine) (row : Run)
    → Numbered run eng.store
    → get_run run.id eng.store ≡ some row
    → row.status ≡ run.status
    → row.error ≡ run.error
    → Over run outcome (finish run outcome now eng)
unfolding finish
finish-Over run outcome now eng row n r st er =
    let s = settle-Settled run now eng row n r st er outcome in
    record {
      engine = leave s.run' now s.engine;
      succeeds = rw (s.succeeds, finish);
      row = s.row;
      reads = get_run-leave run.id s.run' now s.engine ∙ s.reads;
      status = s.status;
      error = s.error;
      idle =
          ap (get run.id) (active-leave s.run' now s.engine)
          ∙ ground (
            arith,
            get-remove s.run'.id run.id s.engine.active,
            s.same,
            text_eq_iff s.run'.id run.id,
          );
      woken = unfold leave in refl;
    }
