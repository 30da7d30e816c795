-- ===== src/Tasks/Rounds/Ended/Fate.antt =====
-- What becomes of a task when its run has ended (features/tasks.py).
use jarvis.Prelude.{
  ℕ, ◌≡◌, ◌↔◌, refl, ◌⊎◌, inl, inr, true, false, not, ◌&&◌, ◌||◌, Option, List, [], Text, text_eq,
  arith, any, is_nil, is_some, Bool-cases,
}
use jarvis.Proto.Runs.{Run, is_done}
use jarvis.Proto.Tasks.{Task, TaskState}
use jarvis.Store.{get_conversation}
use jarvis.Engine.{working_run_in}
use jarvis.Tasks.{unreported}
use jarvis.Tasks.Evidence.{ledger_of}
use jarvis.Tasks.Evidence.Judged.{all_proved, judge-done}
use jarvis.Tasks.Service.{Service, World}
use jarvis.Tasks.Rounds.{outcome_of}
use jarvis.Tasks.Rounds.Ended.{conclude, judged, has_said}

-- Words that were steered in and not read are lost when the task has called task.finish, or its run has
-- failed: the end of the round is the same as if nothing had been said.
pub conclude-unread :
    (w : World) (task : Task) (run : Run) (summary : Option Text) (unread : List Text) (now : ℕ)
    (svc : Service)
    → ((outcome_of task).finished || not (is_done run.status)) ≡ true
    → conclude w task run summary unread now svc ≡ conclude w task run summary [] now svc
unfolding conclude
conclude-unread w task run summary unread now svc h =
    let e : not (is_nil unread) && is_done run.status && not (outcome_of task).finished ≡ false =
      ground (arith, h) in
    rw (conclude, e) refl

-- A round that ends by itself leaves the task done exactly when the task has called task.finish or claimed an
-- item met or not met, its brief
-- has a Definition of Done, and each item of it is claimed, at its own position, with something that the
-- task's log shows.
pub judged-done :
    (w : World) (task : Task) (summary : Option Text) (svc : Service)
    → ((judged w task summary svc).1 ≡ TaskState.done) ↔ (
        (has_said (outcome_of task) ≡ true)
        × (is_nil task.brief.dod ≡ false)
        × (all_proved w.arguments_of
              (ledger_of svc.engine.store svc.attachments task)
              task.brief.dod
              (outcome_of task).dod
            ≡ true))
unfolding judged has_said
judged-done w task summary svc =
    let ledger = ledger_of svc.engine.store svc.attachments task in
    let d = judge-done w.arguments_of task.brief (outcome_of task).dod ledger in
    elim (Bool-cases (has_said (outcome_of task))) [
      | inl s ↦ rw (judged, s) ((λ h. (refl, (d.0 h).0, (d.0 h).1)), (λ h. d.1 (h.1, h.2)))
      | inr s ↦ rw (judged, s) ((λ h. ground (arith, h)), (λ h. ground (arith, h)))
    ]

-- The report waits while a run works in the chat that asked, has no chat to go to, or is claimed.
abbrev pub Settled : Task → Service → Service → Type 0
Settled task svc s =
    ((any (text_eq task.id) s.deferred ≡ true)
      × (is_some (working_run_in task.origin_conversation_id svc.engine) ≡ true))
    ⊎ ((is_some (get_conversation task.origin_conversation_id svc.engine.store) ≡ false)
        ⊎ (any (λ r. unreported task.id r.task) s.rows ≡ false))
