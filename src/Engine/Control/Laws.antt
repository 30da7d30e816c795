-- ===== src/Engine/Control/Laws.antt =====
-- What the public operations of run_engine.py do to a run.
use jarvis.Prelude.{
  ℕ, suc, ◌≡◌, refl, sym, ap, ◌∙◌, subst, Bool, true, false, not, ◌||◌, Option, none, some, List,
  [], ◌∷◌, ◌++◌, Text, text_eq, text_eq_iff, arith, is_some, any, keep, strip,
}
use jarvis.Prelude.Dicts.{get, remove, get-put, get-remove}
use jarvis.Proto.Runs.{Run, RunStatus}
use jarvis.Proto.Events.{Body, is_delta, of_run, run_cancelled, tool_confirm_resolved}
use jarvis.Bus.{publish}
use jarvis.Store.{get_run, save_run, saved}
use jarvis.Store.Rows.{get_run-save_run}
use jarvis.Emit.{event_of}
use jarvis.Emit.Sequence.{Numbered, after_stored, after_append, emit_stored}
use jarvis.Control.{RunControl, resolve_confirmation, take_steers}
use jarvis.Engine.{Engine, Entry, Queued, enqueue, queue_status}
use jarvis.Engine.Books.{covered}
use jarvis.Engine.Control.{
  cancel, end_cancelled, cancelled_at, steer, steered_by_other, set_call_me, ring, tell, confirm,
  confirm_parked, answer_live,
}
use jarvis.Engine.Control.Saving.{save_and_emit-Saved}

-- the heap without the entries of a run
covered-keep :
    (id : Text) (heap : List Entry)
    → covered id (keep (λ h. not (text_eq h.run_id id)) heap) ≡ false
unfolding any keep
covered-keep id [] = refl
covered-keep id (h ∷ heap) = ground (arith, covered-keep id heap)

-- What `cancel` leaves of a run.
pub record Ended (id : Text) (now : ℕ) (r : Option (Bool × Engine)) : Type 0 where
  pub engine : Engine
  pub answered : r ≡ some (true, engine)
  pub row : Run
  pub reads : get_run id engine.store ≡ some row
  pub status : row.status ≡ RunStatus.cancelled
  pub finished : row.finished_at ≡ some now
  pub unqueued : get id engine.queued ≡ none
  pub unlisted : covered id engine.heap ≡ false

-- Cancelling a queued run, whose row exists and whose number is not behind its stored events, ends it
-- there and then: the answer is true, its row is cancelled and has an
-- end, and neither the queue nor the heap knows it any more, so no dispatch comes to it.
pub cancel-queued :
    (id : Text) (now : ℕ) (eng : Engine) (q : Queued) (row : Run)
    → get id eng.queued ≡ some q
    → q.run.id ≡ id
    → Numbered q.run eng.store
    → get_run id eng.store ≡ some row
    → Ended id now (cancel id now eng)
cancel-queued id now eng q row h own n r =
    let out : Engine = record eng {
      queued = remove id eng.queued;
      heap = keep (λ e. not (text_eq e.run_id id)) eng.heap;
    } in
    let s =
      save_and_emit-Saved (cancelled_at now q.run) (run_cancelled none) out row
        (record { there = n.there; ahead = n.ahead })
        (subst (λ i. get_run i eng.store ≡ some row) (sym own) r) refl in
    record {
      engine = s.engine;
      answered = unfold cancel end_cancelled in rw (h, cancel) (rw (s.succeeds, end_cancelled));
      row = s.row';
      reads = subst (λ i. get_run i s.engine.store ≡ some s.row') own s.reads;
      status = s.status;
      finished = s.finished_at;
      unqueued =
          ap (get id) s.books.1 ∙ ground (arith, get-remove id id eng.queued, text_eq_iff id id);
      unlisted = ap (covered id) s.books.0 ∙ covered-keep id eng.heap;
    }

abbrev steered : Text → Bool → RunControl → RunControl
steered said by_owner ctl = record ctl {
  steers = ctl.steers ++ strip said ∷ [];
  steered_by_other = not by_owner || ctl.steered_by_other;
}

steer_taken :
    (id said : Text) (by_owner : Bool) (eng eng' : Engine) (ctl : RunControl)
    → get id eng.active ≡ some ctl
    → steer id said by_owner eng ≡ (true, eng')
    → get id eng'.active ≡ some (steered said by_owner ctl)
unfolding steer
steer_taken id said by_owner eng eng' ctl a h =
    ground (arith, h, a, get-put id id (steered said by_owner ctl) eng.active, text_eq_iff id id)

-- A steer that is taken is the last thing that the run's next step reads, after all that was said
-- before it and not yet read; it is read once; and whoever has joined the run stays known.
pub steer-take_steers :
    (id said : Text) (by_owner : Bool) (eng eng' : Engine)
    → steer id said by_owner eng ≡ (true, eng')
    → (ctl ctl' : RunControl) → get id eng.active ≡ some ctl
    → get id eng'.active ≡ some ctl'
    → ((take_steers ctl').0 ≡ ctl.steers ++ strip said ∷ [])
      × ((take_steers (take_steers ctl').1).0 ≡ [])
      × (steered_by_other id eng' ≡ (not by_owner || steered_by_other id eng))
unfolding take_steers steered_by_other
steer-take_steers id said by_owner eng eng' h ctl ctl' a a' =
    let same : ctl' ≡ steered said by_owner ctl =
      cc (steer_taken id said by_owner eng eng' ctl a h) in
    (ap (λ (c : RunControl). c.steers) same, refl, ground (arith, same, a, a'))

-- Asking for a ring, or calling it off, lasts: where it is granted for a run that is working, the live
-- object and its row both say so, and so does the row after the run object's next save.
pub set_call_me_lasts :
    (id : Text) (on : Bool) (eng eng' : Engine) (ctl : RunControl) (row : Run)
    → get id eng.active ≡ some ctl
    → ctl.run.id ≡ id
    → get_run id eng.store ≡ some row
    → set_call_me id on eng ≡ (true, eng')
    → (ctl' : RunControl) × (row' : Run) × (row'' : Run) × (get id eng'.active ≡ some ctl')
      × (get_run id eng'.store ≡ some row')
      × (get_run id (save_run ctl'.run eng'.store) ≡ some row'')
      × (ctl'.run.call_me ≡ on)
      × (row'.call_me ≡ on)
      × (row''.call_me ≡ on)
unfolding set_call_me tell saved
set_call_me_lasts id on eng eng' ctl row a own r h =
    let ctl' : RunControl = record ctl { run = ring on ctl.run } in
    (
      ctl',
      saved (ring on ctl.run) row,
      saved (ring on ctl.run) (saved (ring on ctl.run) row),
      ground (arith, h, a, get-put id id ctl' eng.active, text_eq_iff id id),
      ground
          (arith, h, a, own, r, get_run-save_run id (ring on ctl.run) eng.store, text_eq_iff id id),
      ground (
        arith,
        h,
        a,
        own,
        r,
        get_run-save_run id (ring on ctl.run) eng.store,
        get_run-save_run id (ring on ctl.run) (save_run (ring on ctl.run) eng.store),
        text_eq_iff id id,
      ),
      refl,
      refl,
      refl,
    )

answer_refused :
    (id call_id : Text) (approved : Bool) (said : Option Text) (eng : Engine) (ctl : RunControl)
    (answer : Bool × Option Text)
    → get call_id ctl.confirmations ≡ some (some answer)
    → answer_live id call_id approved said (some ctl) eng ≡ (false, eng)
unfolding answer_live resolve_confirmation
answer_refused id call_id approved said eng ctl answer c = ground (arith, c)

abbrev requeued : Run → Body → Engine → Engine
requeued row body eng =
    let run' = after_stored row in
    let st = after_append (event_of row (suc row.last_seq) body) eng.store in
    enqueue run' true (record eng {
      store = save_run run' st;
      bus = publish (of_run (event_of row (suc row.last_seq) body)) eng.bus;
    })

confirm_parked_requeues :
    (body : Body) (eng : Engine) (row : Run)
    → row.status ≡ RunStatus.waiting_user
    → is_delta body ≡ false
    → Numbered row eng.store
    → confirm_parked (some row) body eng ≡ some (true, requeued row body eng)
unfolding confirm_parked
confirm_parked_requeues body eng row w d n =
    ground (arith, w, emit_stored row body eng.store eng.bus d n)

-- A second answer to a question that a working run has had answered, while the run's row still says
-- that it waits, is accepted and puts the run into the queue although it is working.
pub confirm-answered_requeues :
    (id call_id : Text) (approved : Bool) (note : Option Text) (eng : Engine) (ctl : RunControl)
    (row : Run) (answer : Bool × Option Text)
    → get id eng.active ≡ some ctl
    → get call_id ctl.confirmations ≡ some (some answer)
    → get_run id eng.store ≡ some row
    → row.id ≡ id
    → row.status ≡ RunStatus.waiting_user
    → Numbered row eng.store
    → (eng' : Engine) × (confirm id call_id approved note eng ≡ some (true, eng'))
      × (is_some (get id eng'.queued) ≡ true)
      × (get id eng'.active ≡ some ctl)
confirm-answered_requeues id call_id approved note eng ctl row answer a c r own w n =
    let body : Body = tool_confirm_resolved call_id approved note in
    (
      requeued row body eng,
      unfold confirm in
          ground (
            arith,
            a,
            r,
            answer_refused id call_id approved note eng ctl answer c,
            confirm_parked_requeues body eng row w refl n,
          ),
      unfold enqueue after_stored in
          ground (
            arith,
            own,
            get-put row.id id
                (record {
                  run = record (after_stored row) { status = queue_status row.status };
                  resumed = true;
                })
                eng.queued,
            text_eq_iff row.id id,
          ),
      unfold enqueue in a,
    )
