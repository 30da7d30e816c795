-- ===== src/Tasks/Reports/Owed.antt =====
-- A report is written once, and what writing it leaves alone (features/tasks.py).
use jarvis.Prelude.{
  ℕ, suc, ◌≡◌, refl, ap, ◌∙◌, true, false, not, ◌||◌, Option, none, some, List, [], ◌∷◌, Text, inl,
  inr, Bool-cases, Option-cases, or_else, Holds, holds_of,
}
use jarvis.Proto.Messages.{Message}
use jarvis.Proto.Tasks.{Task}
use jarvis.Store.Conversations.{add_message}
use jarvis.Attachments.{add_text}
use jarvis.Tasks.{claim_report}
use jarvis.Tasks.Wording.{truthy}
use jarvis.Tasks.Rows.{claim_report-once}
use jarvis.Tasks.Service.{Service, World, fresh_id, push_notice, publish_task}
use jarvis.Tasks.Reports.{post, with_files, announce, attach_whole, write_report, deliver_report}
use jarvis.Tasks.Reports.Ending.{own_report}

rows-with_files :
    (origin : Text) (report : Message) (files : List Text) (svc : Service)
    → (with_files origin report files svc).1.rows ≡ svc.rows
unfolding with_files
rows-with_files origin report [] svc = refl
rows-with_files origin report (f ∷ fs) svc = refl

abbrev pub Keeps : Service → Service → Type 0
Keeps svc svc' = svc'.rows ≡ svc.rows

pub rows-post :
    (origin : Text) (note report : Message) (tasks : List Task) (extra : List Text) (now : ℕ)
    (svc : Service)
    → Holds (Keeps svc) (post origin note report tasks extra now svc)
unfolding post announce
rows-post origin note report tasks extra now svc =
    elim (Option-cases (add_message note (or_else note.id []) now svc.engine.store)) [
      | inl e ↦ rw (post, e) tt
      | inr (m, e) ↦ elim (Option-cases (add_message report (or_else report.id []) now m.1)) [
        | inl d ↦ rw (post, e, d) tt
        | inr (r, d) ↦
            rw (post, e, d)
              (rows-with_files origin r.0 _
                (record svc { engine = record svc.engine { store = r.1 } }))
      ]
    ]

pub rows-attach_whole :
    (w : World) (task : Task) (whole name : Option Text) (now : ℕ) (svc : Service)
    → Holds (λ (r : List Text × Service). Keeps svc r.1) (attach_whole w task whole name now svc)
unfolding attach_whole fresh_id
rows-attach_whole w task whole name now svc =
    elim (Bool-cases (not (truthy whole) || not (truthy name))) [
      | inl e ↦ rw (attach_whole, e) refl
      | inr e ↦
          elim (Option-cases (
            add_text (w.new_id svc.ids) (or_else whole []) (or_else name [])
              (some task.origin_conversation_id) true task.incognito now svc.engine.store
              svc.attachments)) [
                | inl d ↦ rw (attach_whole, e, d) tt
                | inr (a, d) ↦ rw (attach_whole, e, d) refl
              ]
    ]

rows-deliver_report :
    (task : Task) (note report : Message) (said : Text) (now : ℕ) (svc : Service)
    (attached : Option (List Text × Service))
    → Holds (λ (r : List Text × Service). Keeps svc r.1) attached
    → Holds (Keeps svc) (deliver_report task note report said now attached)
unfolding deliver_report publish_task push_notice
rows-deliver_report task note report said now svc none h = tt
rows-deliver_report task note report said now svc (some (extra, svc1)) h =
    let posted = post task.origin_conversation_id note report (task ∷ []) extra now svc1 in
    elim (Option-cases posted) [
      | inl e ↦ rw (deliver_report, e) tt
      | inr (svc2, e) ↦
          let k : Keeps svc1 svc2 =
            holds_of (Keeps svc1) posted svc2
              (rows-post task.origin_conversation_id note report (task ∷ []) extra now svc1) e in
          rw (deliver_report, e) (k ∙ h)
    ]

pub rows-write_report :
    (w : World) (task : Task) (report_id note_id : Text) (now : ℕ) (svc : Service)
    → Holds (Keeps svc) (write_report w task report_id note_id now svc)
unfolding write_report
rows-write_report w task report_id note_id now svc =
    rows-deliver_report _ _ _ _ now svc _ (rows-attach_whole w task _ _ now svc)

refused_report :
    (w : World) (task : Task) (now : ℕ) (svc : Service)
    → claim_report task.id (w.new_id svc.ids) svc.rows ≡ (false, svc.rows)
    → own_report w task now svc ≡ some (record svc { ids = suc svc.ids })
unfolding own_report fresh_id
refused_report w task now svc h = rw (own_report, ap (λ p. p.0) h, ap (λ p. p.1) h) refl

pub rows-own_report :
    (w : World) (task : Task) (now : ℕ) (svc : Service)
    → Holds
        (λ (s : Service). s.rows ≡ (claim_report task.id (w.new_id svc.ids) svc.rows).1)
        (own_report w task now svc)
unfolding own_report fresh_id
rows-own_report w task now svc =
    let claim = claim_report task.id (w.new_id svc.ids) svc.rows in
    elim (Bool-cases claim.0) [
      | inl e ↦ rw (own_report, e) (rows-write_report w task _ _ now _)
      | inr e ↦ rw (own_report, e) refl
    ]

-- The report of a task's round is written once: after it has been written, or has been found to be
-- written already, writing it again, from whatever the task is by then, takes a new id and changes nothing
-- else: no message, no file, no notice.
pub own_report-once :
    (w : World) (task other : Task) (now later : ℕ) (svc svc' : Service)
    → own_report w task now svc ≡ some svc'
    → other.id ≡ task.id
    → own_report w other later svc' ≡ some (record svc' { ids = suc svc'.ids })
own_report-once w task other now later svc svc' h same =
    let claimed = (claim_report task.id (w.new_id svc.ids) svc.rows).1 in
    let rows : svc'.rows ≡ claimed =
      holds_of (λ (s : Service). s.rows ≡ claimed) (own_report w task now svc) svc'
        (rows-own_report w task now svc) h in
    let again : claim_report task.id (w.new_id svc'.ids) svc'.rows ≡ (false, svc'.rows) =
      rw rows (claim_report-once task.id (w.new_id svc.ids) (w.new_id svc'.ids) svc.rows) in
    refused_report w other later svc' (rw same again)
