-- ===== src/Tasks/Reports/Quiet.antt =====
-- What reporting and ending a task leaves as it is in the table: nothing new is noted on a call, and the
-- tasks are the same (features/tasks.py).
use jarvis.Prelude.{
  ℕ, suc, ◌≡◌, refl, sym, ◌∙◌, subst, Bool, true, false, not, ◌&&◌, Option, none, some, List, [],
  ◌∷◌, Text, text_eq, arith, if◌then◌else◌, any, keep, find, map, inl, inr, Bool-cases,
  Option-cases, Holds, Holds-map, holds_of, if_holds, is_some, or_else,
}
use jarvis.Proto.Tasks.{Task, TaskState, is_noted, terminal, settled}
use jarvis.Store.{get_conversation}
use jarvis.Tasks.{
  TaskRow, TaskStore, update_where, noted_on, claim_report, unreported, save, saved, task_is,
}
use jarvis.Tasks.Wording.{truthy}
use jarvis.Tasks.Service.{
  Service, World, CallRow, fresh_id, save_and_publish, save_task, publish_task, push_notice,
}
use jarvis.Tasks.Reports.{owes_report}
use jarvis.Tasks.Reports.AfterCall.{
  claim_all, section, sections, with_words, write_call_report, post_call_report, publish_all,
  call_report, taken_by, call_told, report_of, of_the_call, unreported_call, set_report,
}
use jarvis.Tasks.Reports.Ending.{
  own_report, report, end_task, ended, wake, woken, if_taken, defer, is_busy,
}
use jarvis.Tasks.Reports.Owed.{Keeps, rows-post, rows-attach_whole, rows-own_report}

-- What holds of the table and stays when a task that is not noted is saved and when a report is
-- claimed.
pub record Kept : Type 1 where
  pub holds : TaskStore → Type 0
  pub saves :
      (task : Task) (now : ℕ) (rows : TaskStore)
      → is_noted task.state ≡ false
      → holds rows
      → holds (save task now rows)
  pub claims :
      (task_id message : Text) (rows : TaskStore)
      → holds rows
      → holds (claim_report task_id message rows).1

-- Nothing is noted on the call.
abbrev pub Quiet : Text → TaskStore → Type 0
Quiet call_id rows = any (λ r. noted_on call_id r.task) rows ≡ false

Quiet-update_where :
    (call_id : Text) (p : Task → Bool) (f : Task → Task) (rows : TaskStore)
    → ((t : Task) → noted_on call_id t ≡ false → noted_on call_id (f t) ≡ false)
    → Quiet call_id rows
    → Quiet call_id (update_where p f rows)
unfolding any update_where
Quiet-update_where call_id p f [] keeps q = refl
Quiet-update_where call_id p f (r ∷ rows) keeps q =
    let e : noted_on call_id r.task ≡ false = ground (arith, q) in
    let q' : Quiet call_id rows = ground (arith, q) in
    elim (Bool-cases (p r.task)) [
      | inl b ↦ rw (b, keeps r.task e) (Quiet-update_where call_id p f rows keeps q')
      | inr b ↦ rw (b, e) (Quiet-update_where call_id p f rows keeps q')
    ]

pub save-Quiet :
    (call_id : Text) (task : Task) (now : ℕ) (rows : TaskStore)
    → is_noted task.state ≡ false
    → Quiet call_id rows
    → Quiet call_id (save task now rows)
unfolding save saved
save-Quiet call_id task now rows e q =
    Quiet-update_where call_id (task_is task.id) (saved task now) rows (λ t h. ground (arith, e)) q

pub claim_report-Quiet :
    (call_id task_id message : Text) (rows : TaskStore)
    → Quiet call_id rows
    → Quiet call_id (claim_report task_id message rows).1
unfolding claim_report
claim_report-Quiet call_id task_id message rows q =
    Quiet-update_where call_id (unreported task_id) _ rows (λ t h. h) q

abbrev pub quiet : Text → Kept
quiet call_id = record {
  holds = Quiet call_id;
  saves = save-Quiet call_id;
  claims = claim_report-Quiet call_id;
}

-- The ids in the table are the same as before.
abbrev pub ids_of : TaskStore → List Text
ids_of rows = map (λ (r : TaskRow). r.task.id) rows

pub ids_of-update_where :
    (p : Task → Bool) (f : Task → Task) (rows : TaskStore)
    → ((t : Task) → (f t).id ≡ t.id)
    → ids_of (update_where p f rows) ≡ ids_of rows
unfolding update_where
ids_of-update_where p f [] same = refl
ids_of-update_where p f (r ∷ rows) same = elim (Bool-cases (p r.task)) [
  | inl b ↦ rw (b, same r.task, ids_of-update_where p f rows same) refl
  | inr b ↦ rw (b, ids_of-update_where p f rows same) refl
]

pub ids_of-save :
    (task : Task) (now : ℕ) (rows : TaskStore) → ids_of (save task now rows) ≡ ids_of rows
unfolding save saved
ids_of-save task now rows = ids_of-update_where (task_is task.id) (saved task now) rows (λ t. refl)

pub ids_of-claim_report :
    (task_id message : Text) (rows : TaskStore)
    → ids_of (claim_report task_id message rows).1 ≡ ids_of rows
unfolding claim_report
ids_of-claim_report task_id message rows =
    ids_of-update_where (unreported task_id) _ rows (λ t. refl)

abbrev pub same_ids : List Text → Kept
same_ids ids = record {
  holds = λ rows. ids_of rows ≡ ids;
  saves = λ task now rows e h. ids_of-save task now rows ∙ h;
  claims = λ task_id message rows h. ids_of-claim_report task_id message rows ∙ h;
}

claim_all-Kept :
    (k : Kept) (report_id : Text) (ts : List Task) (rows : TaskStore)
    → k.holds rows
    → k.holds (claim_all report_id ts rows).1
unfolding claim_all
claim_all-Kept k report_id [] rows q = q
claim_all-Kept k report_id (t ∷ ts) rows q = elim (Bool-cases (terminal t.state)) [
  | inl e ↦ rw e (
      claim_all-Kept k report_id ts (claim_report t.id report_id rows).1
        (k.claims t.id report_id rows q))
  | inr e ↦ rw e (claim_all-Kept k report_id ts rows q)
]

rows-publish_all : (ts : List Task) (svc : Service) → (publish_all ts svc).rows ≡ svc.rows
unfolding publish_all publish_task
rows-publish_all [] svc = refl
rows-publish_all (t ∷ ts) svc = rows-publish_all ts (publish_task t svc)

rows-with_words :
    (t : Text) (svc : Service) (o : Option (List Text × Service))
    → Holds (λ (r : List Text × Service). Keeps svc r.1) o
    → Holds (λ (r : Text × List Text × Service). Keeps svc r.2) (with_words t o)
unfolding with_words
rows-with_words t svc none h = tt
rows-with_words t svc (some (extra, svc')) h = h

rows-section :
    (w : World) (t : Task) (now : ℕ) (svc : Service)
    → Holds (λ (r : Text × List Text × Service). Keeps svc r.2) (section w t now svc)
unfolding section
rows-section w t now svc =
    if_holds (Holds (λ (r : Text × List Text × Service). Keeps svc r.2)) (terminal t.state) _ _
      (λ e. rows-with_words _ svc _ (rows-attach_whole w t _ _ now svc)) (λ e. refl)

rows-sections :
    (w : World) (ts : List Task) (now : ℕ) (svc : Service)
    → Holds (λ (r : List Text × List Text × Service). Keeps svc r.2) (sections w ts now svc)
unfolding sections
rows-sections w [] now svc = refl
rows-sections w (t ∷ ts) now svc = elim (Option-cases (section w t now svc)) [
  | inl e ↦ rw (sections, e) tt
  | inr (r, e) ↦
      let k : Keeps svc r.2 =
        holds_of (λ (r : Text × List Text × Service). Keeps svc r.2) (section w t now svc) r
          (rows-section w t now svc) e in
      elim (Option-cases (sections w ts now r.2)) [
        | inl d ↦ rw (sections, e, d) tt
        | inr (s, d) ↦
            rw (sections, e, d)
              (holds_of (λ (s : List Text × List Text × Service). Keeps r.2 s.2)
                  (sections w ts now r.2) s (rows-sections w ts now r.2) d
                ∙ k)
      ]
]

rows-call_told :
    (task : Task) (tasks : List Task) (svc : Service) (o : Option Service)
    → Holds (Keeps svc) o
    → Holds (Keeps svc) (call_told task tasks o)
unfolding call_told push_notice
rows-call_told task tasks svc none h = tt
rows-call_told task tasks svc (some svc') h = rows-publish_all tasks svc' ∙ h

rows-post_call_report :
    (w : World) (task : Task) (tasks : List Task) (report_id note_id : Text) (now : ℕ)
    (svc : Service) (o : Option (List Text × List Text × Service))
    → Holds (λ (r : List Text × List Text × Service). Keeps svc r.2) o
    → Holds (Keeps svc) (post_call_report w task tasks report_id note_id now o)
unfolding post_call_report
rows-post_call_report w task tasks report_id note_id now svc none h = tt
rows-post_call_report w task tasks report_id note_id now svc (some (parts, extra, svc1)) h =
    rows-call_told task tasks svc _ (
      Holds-map (Keeps svc1) (Keeps svc) (λ s e. e ∙ h) _
        (rows-post _ _ _ (keep (λ (t : Task). terminal t.state) tasks) extra now svc1))

abbrev HoldsAfter : Kept → Service → Type 0
HoldsAfter k svc = k.holds svc.rows

write_call_report-Kept :
    (k : Kept) (w : World) (task : Task) (tasks : List Task) (report_id note_id : Text) (now : ℕ)
    (svc : Service)
    → k.holds svc.rows
    → Holds (HoldsAfter k) (write_call_report w task tasks report_id note_id now svc)
unfolding write_call_report
write_call_report-Kept k w task tasks report_id note_id now svc q =
    let claimed = claim_all report_id tasks svc.rows in
    let svc' = record svc { rows = claimed.1 } in
    Holds-map (Keeps svc') (HoldsAfter k)
      (λ s e. subst k.holds (sym e) (claim_all-Kept k report_id tasks svc.rows q)) _
      (rows-post_call_report w task claimed.0 report_id note_id now svc' _
        (rows-sections w claimed.0 now svc'))

taken_by-Kept :
    (k : Kept) (o : Option Service)
    → Holds (HoldsAfter k) o
    → Holds (λ (r : Bool × Service). HoldsAfter k r.1) (taken_by o)
taken_by-Kept k none h = tt
taken_by-Kept k (some svc) h = h

call_report-Kept :
    (k : Kept) (w : World) (task : Task) (now : ℕ) (svc : Service)
    → k.holds svc.rows
    → Holds (λ (r : Bool × Service). HoldsAfter k r.1) (call_report w task now svc)
unfolding call_report fresh_id
call_report-Kept k w task now svc q =
    let P = Holds (λ (r : Bool × Service). HoldsAfter k r.1) in
    let id = or_else task.call_id [] in
    let row = find (λ (c : CallRow). text_eq c.id id) svc.call_rows in
    let tasks = of_the_call id svc.rows in
    let claimed = any (unreported_call id) svc.call_rows in
    let report_id = w.new_id svc.ids in
    let note_id = w.new_id (suc svc.ids) in
    let svc' = record svc {
      ids = suc (suc svc.ids);
      call_rows = set_report id report_id svc.call_rows;
    } in
    elim (Bool-cases (truthy (report_of row))) [
      | inl e ↦ rw (call_report, e) q
      | inr e ↦ elim (Bool-cases (any (λ (t : Task). not (settled t.state)) tasks)) [
        | inl d ↦ rw (call_report, e, d) q
        | inr d ↦ elim (Bool-cases (is_some row && not claimed)) [
          | inl c ↦ rw (call_report, e, d, c) q
          | inr c ↦
              rw (call_report, e, d, c)
                (taken_by-Kept k _
                  (write_call_report-Kept k w task tasks report_id note_id now svc' q))
        ]
      ]
    ]

own_report-Kept :
    (k : Kept) (w : World) (task : Task) (now : ℕ) (svc : Service)
    → k.holds svc.rows
    → Holds (HoldsAfter k) (own_report w task now svc)
own_report-Kept k w task now svc q =
    Holds-map (λ (s : Service). s.rows ≡ (claim_report task.id (w.new_id svc.ids) svc.rows).1)
      (HoldsAfter k) (λ s e. subst k.holds (sym e) (k.claims task.id _ svc.rows q)) _
      (rows-own_report w task now svc)

if_taken-Kept :
    (k : Kept) (o : Option (Bool × Service)) (f : Service → Option Service)
    → Holds (λ (r : Bool × Service). HoldsAfter k r.1) o
    → ((s : Service) → HoldsAfter k s → Holds (HoldsAfter k) (f s))
    → Holds (HoldsAfter k) (if_taken o f)
unfolding if_taken
if_taken-Kept k none f h g = tt
if_taken-Kept k (some (true, svc)) f h g = h
if_taken-Kept k (some (false, svc)) f h g = g svc h

pub report-Kept :
    (k : Kept) (w : World) (task : Task) (now : ℕ) (svc : Service)
    → k.holds svc.rows
    → Holds (HoldsAfter k) (report w task now svc)
unfolding report defer
report-Kept k w task now svc q = elim (Bool-cases (owes_report task)) [
  | inr e ↦ rw (report, e) q
  | inl e ↦ elim (Bool-cases (is_busy task svc)) [
    | inl d ↦ rw (report, e, d) q
    | inr d ↦
        elim (Bool-cases
          (is_some (get_conversation task.origin_conversation_id svc.engine.store))) [
            | inr c ↦ rw (report, e, d, c) q
            | inl c ↦
                rw (report, e, d, c)
                  (if_taken-Kept k
                    (if truthy task.call_id then call_report w task now svc else some (false, svc))
                    (own_report w task now)
                    (if_holds (Holds (λ (r : Bool × Service). HoldsAfter k r.1))
                      (truthy task.call_id) (call_report w task now svc) (some (false, svc))
                      (λ b. call_report-Kept k w task now svc q) (λ b. q))
                    (λ s h. own_report-Kept k w task now s h))
          ]
  ]
]

woken-Kept :
    (k : Kept) (o : Option Service) → Holds (HoldsAfter k) o → Holds (HoldsAfter k) (woken o)
unfolding woken wake
woken-Kept k none h = tt
woken-Kept k (some svc) h = h

pub end_task-Kept :
    (k : Kept) (w : World) (task : Task) (state : TaskState) (now : ℕ) (svc : Service)
    → is_noted state ≡ false
    → k.holds svc.rows
    → Holds (HoldsAfter k) (end_task w task state now svc)
unfolding end_task save_and_publish save_task publish_task
end_task-Kept k w task state now svc e q =
    woken-Kept k _ (
      report-Kept k w (ended state now task) now _
        (k.saves (ended state now task) now svc.rows e q))
