-- ===== src/Emit/Replay.antt =====
-- What `list_events` of db/store.py returns to a client that asks for what it has not seen.
use jarvis.Prelude.{
  ℕ, suc, ◌≤◌, ◌<◌, ◌≡◌, refl, sym, ap, ◌∙◌, Bool, ◌&&◌, Option, none, some, List, [], ◌∷◌, ◌++◌,
  Text, text_eq, text_eq_iff, arith, keep, sort_by, insert_by, ltb,
}
use jarvis.Proto.Runs.{Run}
use jarvis.Proto.Events.{RunEvent, Body}
use jarvis.Bus.{EventBus}
use jarvis.Store.{Store, list_events, by_seq}
use jarvis.Emit.{event_of, emit_all}
use jarvis.Emit.Sequence.{max_seq, Numbered, emit_all_total, number_from, stored_bodies}

abbrev is_new : Text → ℕ → RunEvent → Bool
is_new id n e = text_eq e.run_id id && ltb n e.seq

-- nothing old passes, and everything new does
keep_new :
    (id : Text) (n : ℕ) (es fs : List RunEvent)
    → max_seq id es ≤ n
    → keep (is_new id n) (es ++ fs) ≡ keep (is_new id n) fs
unfolding max_seq keep
keep_new id n [] fs h = refl
keep_new id n (e ∷ es) fs h = ground (arith, keep_new id n es fs)

keep-number_from :
    (run : Run) (n m : ℕ) (bs : List Body)
    → n < m
    → keep (is_new run.id n) (number_from run m bs) ≡ number_from run m bs
unfolding number_from keep
keep-number_from run n m [] h = refl
keep-number_from run n m (b ∷ bs) h =
    ground (arith, text_eq_iff run.id run.id, keep-number_from run n (suc m) bs)

insert-number_from :
    (run : Run) (n m : ℕ) (b : Body) (bs : List Body)
    → n ≤ m
    → insert_by by_seq (event_of run n b) (number_from run m bs)
      ≡ event_of run n b ∷ number_from run m bs
unfolding number_from insert_by by_seq
insert-number_from run n m b [] h = refl
insert-number_from run n m b (c ∷ bs) h = ground arith

sort-number_from :
    (run : Run) (n : ℕ) (bs : List Body)
    → sort_by by_seq (number_from run n bs) ≡ number_from run n bs
unfolding number_from sort_by
sort-number_from run n [] = refl
sort-number_from run n (b ∷ bs) =
    ap (insert_by by_seq (event_of run n b)) (sort-number_from run (suc n) bs)
    ∙ insert-number_from run n (suc n) b bs (omega arith)

store_of : Store → Option (Run × Store × EventBus) → Store
store_of d none = d
store_of d (some (run, st, bus)) = st

-- For a run whose number is not behind its stored events: a client that has seen everything up to now
-- and asks again after any emits of the run, all of which succeeded, is given
-- exactly the bodies stored since, in order and numbered without a gap. Deltas are not among them.
pub replay_exact :
    (run run' : Run) (bs : List Body) (st st' : Store) (bus bus' : EventBus)
    → Numbered run st
    → emit_all run bs st bus ≡ some (run', st', bus')
    → list_events run.id run.last_seq st' ≡ number_from run (suc run.last_seq) (stored_bodies bs)
unfolding list_events
replay_exact run run' bs st st' bus bus' n h =
    let g = emit_all_total run bs st bus n in
    let new = number_from run (suc run.last_seq) (stored_bodies bs) in
    let same : st' ≡ g.store = unfold store_of in ap (store_of st) (sym h ∙ g.succeeds) in
    ap (λ (s : Store). sort_by by_seq (keep (is_new run.id run.last_seq) s.events)) same
    ∙ ap (λ es. sort_by by_seq (keep (is_new run.id run.last_seq) es)) g.appended
    ∙ ap (sort_by by_seq) (
        keep_new run.id run.last_seq st.events new n.ahead
        ∙ keep-number_from run run.last_seq (suc run.last_seq) (stored_bodies bs) (omega arith))
    ∙ sort-number_from run (suc run.last_seq) (stored_bodies bs)
