-- ===== src/Engine/Control/Saving.antt =====
-- A run that is saved and announced (`save_run` of db/store.py, then `emit` of engine/emit.py).
use jarvis.Prelude.{
  ℕ, suc, max, ◌≡◌, refl, ◌∙◌, false, none, some, Text, text_eq, text_eq_iff, arith,
}
use jarvis.Proto.Runs.{Run}
use jarvis.Proto.Events.{Body, is_delta, of_run}
use jarvis.Bus.{EventBus, publish}
use jarvis.Store.{Store, get_run, save_run, saved}
use jarvis.Store.Rows.{any-update_rows, find-update_rows, get_run-save_run}
use jarvis.Emit.{event_of}
use jarvis.Emit.Sequence.{
  Numbered, max_seq-append, after_append, after_stored, emit_stored, after_append-Numbered,
}
use jarvis.Engine.{Engine}
use jarvis.Engine.Control.{save_and_emit}

save_run-Numbered : (run : Run) (st : Store) → Numbered run st → Numbered run (save_run run st)
unfolding save_run
save_run-Numbered run st n = record {
  there = any-update_rows run.id run.id (saved run) (λ r. unfold saved in refl) st.runs ∙ n.there;
  ahead = n.ahead;
}

-- the row as the event's insert leaves it
abbrev counted : ℕ → Run → Run
counted seq row = record row { last_seq = max row.last_seq seq }

get_run-after_append :
    (run : Run) (seq : ℕ) (body : Body) (st : Store)
    → get_run run.id (after_append (event_of run seq body) st)
      ≡ elim (get_run run.id st) [ none ↦ none | some row ↦ some (counted seq row) ]
unfolding get_run after_append
get_run-after_append run seq body st = ground (
  arith,
  find-update_rows run.id run.id (λ r. record r { last_seq = max r.last_seq seq }) (λ r. refl)
      st.runs,
  text_eq_iff run.id run.id,
)

-- The run object, the engine and the row of the run once it is saved and the event is out.
pub record Saved (run : Run) (body : Body) (eng : Engine) (row : Run) : Type 0 where
  pub engine : Engine
  pub succeeds :
      save_and_emit run body eng ≡ some (record run { last_seq = suc run.last_seq }, engine)
  pub row' : Run
  pub reads : get_run run.id engine.store ≡ some row'
  pub status : row'.status ≡ run.status
  pub error : row'.error ≡ run.error
  pub finished_at : row'.finished_at ≡ run.finished_at
  pub last_seq : row'.last_seq ≡ suc run.last_seq
  pub books : (engine.heap ≡ eng.heap) × (engine.queued ≡ eng.queued) × (engine.active ≡ eng.active)
  pub numbered : Numbered (record run { last_seq = suc run.last_seq }) engine.store
  pub others :
      (id : Text) → text_eq run.id id ≡ false → get_run id engine.store ≡ get_run id eng.store
  pub elsewhere :
      (other : Run)
      → text_eq run.id other.id ≡ false
      → Numbered other eng.store
      → Numbered other engine.store

get_run-after_append_ne :
    (run : Run) (seq : ℕ) (body : Body) (st : Store) (id : Text)
    → text_eq run.id id ≡ false
    → get_run id (after_append (event_of run seq body) st) ≡ get_run id st
unfolding get_run after_append
get_run-after_append_ne run seq body st id h = ground (
  arith,
  h,
  find-update_rows id run.id (λ r. record r { last_seq = max r.last_seq seq }) (λ r. refl) st.runs,
)

after_append-elsewhere :
    (run other : Run) (seq : ℕ) (body : Body) (st : Store)
    → text_eq run.id other.id ≡ false
    → Numbered other st
    → Numbered other (after_append (event_of run seq body) st)
unfolding after_append
after_append-elsewhere run other seq body st h n = record {
  there =
      any-update_rows other.id run.id (λ r. record r { last_seq = max r.last_seq seq }) (λ r. refl)
        st.runs
      ∙ n.there;
  ahead = ground (arith, h, n.ahead, max_seq-append other.id st.events (event_of run seq body));
}

save_run-elsewhere :
    (run other : Run) (st : Store) → Numbered other st → Numbered other (save_run run st)
unfolding save_run
save_run-elsewhere run other st n = record {
  there = any-update_rows other.id run.id (saved run) (λ r. unfold saved in refl) st.runs ∙ n.there;
  ahead = n.ahead;
}

-- It never fails for a run whose number is not behind its stored events, and the row shows it.
pub save_and_emit-Saved :
    (run : Run) (body : Body) (eng : Engine) (row : Run)
    → Numbered run eng.store
    → get_run run.id eng.store ≡ some row
    → is_delta body ≡ false
    → Saved run body eng row
save_and_emit-Saved run body eng row n r d =
    let n' = save_run-Numbered run eng.store n in
    let st' : Store =
      after_append (event_of run (suc run.last_seq) body) (save_run run eng.store) in
    let bus' : EventBus = publish (of_run (event_of run (suc run.last_seq) body)) eng.bus in
    record {
      engine = record eng { store = st'; bus = bus' };
      succeeds =
          unfold save_and_emit in
          rw (emit_stored run body (save_run run eng.store) eng.bus d n', save_and_emit)
            (unfold after_stored in refl);
      row' = counted (suc run.last_seq) (saved run row);
      reads =
          get_run-after_append run (suc run.last_seq) body (save_run run eng.store)
          ∙ ground (arith, get_run-save_run run.id run eng.store, r, text_eq_iff run.id run.id);
      status = unfold saved in refl;
      error = unfold saved in refl;
      finished_at = unfold saved in refl;
      last_seq = unfold saved in omega arith;
      books = (refl, refl, refl);
      numbered = after_append-Numbered run body (save_run run eng.store) n';
      others = λ id h.
          get_run-after_append_ne run (suc run.last_seq) body (save_run run eng.store) id h
          ∙ ground (arith, h, get_run-save_run id run eng.store);
      elsewhere = λ other h k.
          after_append-elsewhere run other (suc run.last_seq) body (save_run run eng.store) h
            (save_run-elsewhere run other eng.store k);
    }
