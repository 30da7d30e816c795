-- ===== src/Engine/Books.antt =====
-- What holds of the engine's books (run_engine.py): the heap and the queued runs belong together.
use jarvis.Prelude.{
  ◌≡◌, refl, sym, ap, subst, ◌∙◌, Bool, true, false, ◌||◌, some, List, [], ◌∷◌, Text, text_eq,
  text_le_total, text_le_trans, arith, is_some, any, insert_by, insert_by-IsSorted, IsSorted, inl,
  inr,
}
use jarvis.Prelude.Dicts.{get, get-put, get-put_cases}
use jarvis.Proto.Runs.{Run, RunStatus, terminal}
use jarvis.Engine.{Engine, Entry, Queued, entry_le, entry_of, enqueue, queue_status}

abbrev pub covered : Text → List Entry → Bool
covered id heap = any (λ h. text_eq h.run_id id) heap

-- Every queued run has an entry in the heap, so the dispatcher comes to it; it stands under its own
-- id and has not ended; and the heap is in order, so that what comes off it is the least.
pub record Books (eng : Engine) : Type 0 where
  pub keyed : (id : Text) (q : Queued) → get id eng.queued ≡ some q → q.run.id ≡ id
  pub live : (id : Text) (q : Queued) → get id eng.queued ≡ some q → terminal q.run.status ≡ false
  pub entered : (id : Text) → is_some (get id eng.queued) ≡ true → covered id eng.heap ≡ true
  pub sorted : IsSorted entry_le eng.heap

pub entry_le_total : (a b : Entry) → entry_le a b ≡ false → entry_le b a ≡ true
unfolding entry_le
entry_le_total a b h = ground (arith, text_le_total a.run_id b.run_id)

pub entry_le_trans :
    (a b c : Entry) → entry_le a b ≡ true → entry_le b c ≡ true → entry_le a c ≡ true
unfolding entry_le
entry_le_trans a b c h k = ground (arith, text_le_trans a.run_id b.run_id c.run_id)

pub insert-IsSorted :
    (e : Entry) (heap : List Entry)
    → IsSorted entry_le heap
    → IsSorted entry_le (insert_by entry_le e heap)
insert-IsSorted = insert_by-IsSorted entry_le entry_le_total entry_le_trans

pub covered-insert :
    (id : Text) (e : Entry) (heap : List Entry)
    → covered id (insert_by entry_le e heap) ≡ (text_eq e.run_id id || covered id heap)
unfolding any insert_by
covered-insert id e [] = refl
covered-insert id e (h ∷ heap) = ground (arith, covered-insert id e heap)

queue_status_all : (s : RunStatus) → terminal (queue_status s) ≡ false
unfolding terminal queue_status
queue_status_all RunStatus.queued = refl
queue_status_all _ = refl

-- the run as it is queued
abbrev again : Run → Bool → Queued
again run resumed = record {
  run = record run { status = queue_status run.status };
  resumed = resumed;
}

pub enqueue-Books :
    (run : Run) (resumed : Bool) (eng : Engine) → Books eng → Books (enqueue run resumed eng)
unfolding enqueue
enqueue-Books run resumed eng b = record {
  keyed = λ id q h. elim (get-put_cases run.id id (again run resumed) q eng.queued h) [
    | inl (k, e) ↦ ap (λ (x : Queued). x.run.id) (sym e) ∙ k
    | inr old ↦ b.keyed id q old
  ];
  live = λ id q h. elim (get-put_cases run.id id (again run resumed) q eng.queued h) [
    | inl (k, e) ↦
        subst (λ (x : Queued). terminal x.run.status ≡ false) e (queue_status_all run.status)
    | inr old ↦ b.live id q old
  ];
  entered = λ id h. ground (
    arith,
    covered-insert id (entry_of run) eng.heap,
    get-put run.id id (again run resumed) eng.queued,
    b.entered id,
  );
  sorted = insert-IsSorted _ eng.heap b.sorted;
}
