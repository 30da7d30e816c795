-- ===== src/Tasks/Rows.antt =====
-- What the statements on the table of tasks.py do to its rows: the claims are granted once.
use jarvis.Prelude.{
  ℕ, ◌≡◌, refl, ap, subst, Bool, true, false, some, [], ◌∷◌, Text, arith, any, keep, find,
  Bool-cases, inl, inr,
}
use jarvis.Proto.Tasks.{Task, TaskState}
use jarvis.Tasks.{
  TaskRow, TaskStore, update_where, claim_report, unreported, claim_noted, noted_on, create,
  clashes, key_is, find_row, task_of,
}

any-update_where :
    (p : Task → Bool) (f : Task → Task) (rows : TaskStore)
    → ((t : Task) → p t ≡ true → p (f t) ≡ false)
    → any (λ r. p r.task) (update_where p f rows) ≡ false
unfolding any update_where
any-update_where p f [] out = refl
any-update_where p f (r ∷ rows) out = elim (Bool-cases (p r.task)) [
  | inl e ↦ rw (e, out r.task e) (any-update_where p f rows out)
  | inr e ↦ rw (e, e) (any-update_where p f rows out)
]

update_where-none :
    (p : Task → Bool) (f : Task → Task) (rows : TaskStore)
    → any (λ r. p r.task) rows ≡ false
    → update_where p f rows ≡ rows
unfolding any update_where
update_where-none p f [] h = refl
update_where-none p f (r ∷ rows) h =
    let h' : any (λ r. p r.task) rows ≡ false = ground (arith, h) in
    let e : p r.task ≡ false = ground (arith, h) in rw (e, update_where-none p f rows h') refl

keep-none :
    (p : Task → Bool) (rows : TaskStore)
    → any (λ r. p r.task) rows ≡ false
    → keep (λ r. p r.task) rows ≡ []
unfolding any keep
keep-none p [] h = refl
keep-none p (r ∷ rows) h =
    let h' : any (λ r. p r.task) rows ≡ false = ground (arith, h) in
    let e : p r.task ≡ false = ground (arith, h) in rw (e, keep-none p rows h') refl

pub claim_report-quiet :
    (task_id message : Text) (rows : TaskStore)
    → any (λ r. unreported task_id r.task) (claim_report task_id message rows).1 ≡ false
unfolding claim_report
claim_report-quiet task_id message rows =
    any-update_where (unreported task_id) (λ t. record t { report_message_id = some message }) rows
      (λ t e. ground arith)

-- The right to write a round's report is granted once: after anyone has asked for it, the next to ask
-- is refused and the table stays as it is.
pub claim_report-once :
    (task_id message again : Text) (rows : TaskStore)
    → let rows' = (claim_report task_id message rows).1 in
      claim_report task_id again rows' ≡ (false, rows')
unfolding claim_report
claim_report-once task_id message again rows =
    let p = unreported task_id in
    let rows' : TaskStore = (claim_report task_id message rows).1 in
    let h : any (λ r. unreported task_id r.task) rows' ≡ false =
      any-update_where (unreported task_id) (λ t. record t { report_message_id = some message })
        rows (λ t e. ground arith) in
    rw
      (
        h,
        update_where-none (unreported task_id) (λ t. record t { report_message_id = some again })
            rows' h,
      )
      refl

pub claim_noted-quiet :
    (call_id : Text) (now : ℕ) (rows : TaskStore)
    → any (λ r. noted_on call_id r.task) (claim_noted call_id now rows).1 ≡ false
unfolding claim_noted
claim_noted-quiet call_id now rows =
    any-update_where (noted_on call_id)
      (λ t. record t { state = TaskState.queued; updated_at = now }) rows (λ t e. ground arith)

pub claim_noted-none :
    (call_id : Text) (now : ℕ) (rows : TaskStore)
    → any (λ r. noted_on call_id r.task) rows ≡ false
    → claim_noted call_id now rows ≡ ([], rows)
unfolding claim_noted
claim_noted-none call_id now rows h =
    rw
      (
        keep-none (noted_on call_id) rows h,
        update_where-none (noted_on call_id)
            (λ t. record t { state = TaskState.queued; updated_at = now }) rows h,
      )
      refl

-- What was noted on a call is started once: a second end of the call, at whatever time, finds nothing
-- to start and leaves the table as it is.
pub claim_noted-once :
    (call_id : Text) (now later : ℕ) (rows : TaskStore)
    → let rows' = (claim_noted call_id now rows).1 in claim_noted call_id later rows' ≡ ([], rows')
claim_noted-once call_id now later rows =
    claim_noted-none call_id later (claim_noted call_id now rows).1
      (claim_noted-quiet call_id now rows)

find_row-any :
    (p q : TaskRow → Bool) (rows : TaskStore) (t : Task)
    → ((r : TaskRow) → p r ≡ true → q r ≡ true)
    → find_row p rows ≡ some t
    → any q rows ≡ true
unfolding find_row find any
find_row-any p q [] t imp h = ground (arith, h, task_of)
find_row-any p q (r ∷ rows) t imp h = elim (Bool-cases (p r)) [
  | inl e ↦ rw (imp r e) refl
  | inr e ↦
      let h' : find_row p rows ≡ some t = ground (arith, h, e) in
      rw (find_row-any p q rows t imp h') (ground arith)
]

-- One tool call makes one task: once a key has given a task, asking with that key again, with
-- whatever other task, gives the first one and adds none.
pub create-again :
    (task other t : Task) (origin_key : Text) (rows rows' : TaskStore)
    → create task origin_key rows ≡ (some t, rows')
    → create other origin_key rows' ≡ (some t, rows')
unfolding create clashes
create-again task other t key rows rows' h =
    let found : find_row (key_is key) rows' ≡ some t =
      subst (λ rs. find_row (key_is key) rs ≡ some t) (ap (λ p. p.1) h) (ap (λ p. p.0) h) in
    let clash : any (clashes other key) rows' ≡ true =
      find_row-any (key_is key) (clashes other key) rows' t (λ r e. rw e refl) found in
    rw (clash, found) refl
