-- ===== src/Examples/Runs.antt =====
-- The engine's books: create, dispatch, boot.
use jarvis.Prelude.{
  ◌≤◌, ◌≡◌, refl, true, false, not, ◌&&◌, ◌||◌, none, some, [], ◌∷◌, Text, text_eq, arith, any, ltb,
  ◌⊎◌, inl, inr, Bool-cases, text_eq_iff, subst, find, ◌∙◌, is_some,
}
use jarvis.Prelude.Dicts.{get, put, get-put}
use jarvis.Proto.Runs.{RunKind, RunStatus, Channel, is_voice, is_waiting, is_task, terminal}
use jarvis.Store.{get_run}
use jarvis.Emit.Sequence.{max_seq}
use jarvis.Engine.{
  Engine, new_engine, enqueue, queue_status, running_count, running_tasks, on_a_call, any_active,
  beside_a_call, count_active, holds_slot, Queued,
}
use jarvis.Engine.Books.{Books}
use jarvis.Engine.Reach.{Op, operate, operate_all, operate_all-Books}
use jarvis.Engine.Control.{set_task_gate}
use jarvis.Engine.Create.{Settings, Request, Fresh}
use jarvis.Engine.Dispatch.{dispatch}
use jarvis.Engine.Dispatch.Begun.{dispatch-slots, dispatch-task_limit}
use jarvis.Engine.Dispatch.Calls.{Apart, dispatch-beside_a_call}
use jarvis.Engine.Dispatch.Fate.{Dispatched, dispatch-Dispatched}
use jarvis.Engine.Boot.{was_working, was_waiting_its_turn, resume_on_boot}
use jarvis.Engine.Boot.Interrupt.{Resumed}
use jarvis.Engine.Boot.Complete.{resume_on_boot-working, resume_on_boot-waiting}
use jarvis.Examples.Data.{r1, r2, c1, a_run, a_store, a_bus, a_budget, a_control, an_engine}

operate_all-Books_example :
    Books (enqueue (a_run r1 RunStatus.interrupted) true (new_engine (a_store []) a_bus 2))
unfolding new_engine
operate_all-Books_example =
    operate_all-Books (Op.gated none ∷ Op.enqueued (a_run r1 RunStatus.interrupted) true ∷ [])
      (a_store []) a_bus 2
      (enqueue (a_run r1 RunStatus.interrupted) true (new_engine (a_store []) a_bus 2))
      (unfold operate_all operate set_task_gate in refl)

-- one run in the queue of a new engine
abbrev queued_engine : Engine
queued_engine = enqueue (a_run r1 RunStatus.interrupted) true (new_engine (a_store []) a_bus 2)

queued_engine-Books : Books queued_engine
unfolding new_engine
queued_engine-Books =
    operate_all-Books (Op.gated none ∷ Op.enqueued (a_run r1 RunStatus.interrupted) true ∷ [])
      (a_store []) a_bus 2 queued_engine (unfold operate_all operate set_task_gate in refl)

queued_engine-Apart : Apart queued_engine
queued_engine-Apart id h = unfold enqueue new_engine get in refl

dispatch-Dispatched_example : Dispatched queued_engine (dispatch queued_engine)
dispatch-Dispatched_example =
    dispatch-Dispatched queued_engine queued_engine-Books queued_engine-Apart

queued_engine-NoneWaits :
    (id : Text) (q : Queued)
    → get id queued_engine.queued ≡ some q
    → is_waiting q.run.status ≡ false
unfolding enqueue new_engine get put queue_status
queued_engine-NoneWaits id q h = ground (arith, h)

dispatch-slots_example :
    count_active
      (λ id ctl. holds_slot ctl || not (is_some (get id queued_engine.active)))
      (dispatch queued_engine).active
    ≤ queued_engine.max
dispatch-slots_example =
    dispatch-slots queued_engine queued_engine-NoneWaits
      (unfold running_count enqueue new_engine in omega arith)

abbrev gated_engine : Engine
gated_engine = record queued_engine { task_gate = some (λ n. ltb n 1) }

dispatch-task_limit_example :
    count_active
      (λ id ctl.
        is_task ctl.run.kind && (holds_slot ctl || not (is_some (get id gated_engine.active))))
      (dispatch gated_engine).active
    ≤ 1
dispatch-task_limit_example =
    dispatch-task_limit 1 gated_engine queued_engine-NoneWaits refl
      (unfold running_tasks enqueue new_engine in omega arith)

abbrev a_request : Request
a_request = record {
  input = 104 ∷ 105 ∷ [];
  conversation_id = none;
  kind = RunKind.chat;
  conversation_kind = none;
  folder_key = none;
  folder_label = none;
  title = none;
  think = none;
  think_level = none;
  budget_kind = none;
  attachment_ids = [];
  channel = Channel.voice;
  call_me = none;
  timezone = none;
  from_owner = true;
  call_id = some c1;
}

abbrev some_settings : Settings
some_settings = record {
  voice_think = true;
  call_me_default = λ k. false;
  budgets = λ k. some a_budget;
  max_turn_s = 90;
}

abbrev some_ids : Fresh
some_ids = record { conversation = c1; message = r2; run = r1; now = 9 }

-- a call is going, and the engine is asked to dispatch
abbrev call_engine : Engine
call_engine = record queued_engine {
  active = (r2, a_control (record (a_run r2 RunStatus.running) { channel = Channel.voice })) ∷ [];
}

call_engine-Books : Books call_engine
call_engine-Books =
    let b = queued_engine-Books in
    record { keyed = b.keyed; live = b.live; entered = b.entered; sorted = b.sorted }

only_r1 : (id : Text) → text_eq r1 id ≡ false → get id queued_engine.queued ≡ none
unfolding enqueue new_engine get
only_r1 id e =
    get-put r1 id
      (record {
        run = record (a_run r1 RunStatus.interrupted) {
          status = queue_status RunStatus.interrupted;
        };
        resumed = true;
      })
      []
    ∙ rw (e) refl

call_engine-Apart : Apart call_engine
call_engine-Apart id h = elim (Bool-cases (text_eq r1 id)) [
  | inl e ↦
      subst (λ i. get i call_engine.active ≡ none) ((text_eq_iff r1 id).0 e)
        (unfold get text_eq in refl)
  | inr e ↦ ground (arith, h, e, only_r1 id e)
]

r2_still :
    get r2 (dispatch call_engine).active
    ≡ some (a_control (record (a_run r2 RunStatus.running) { channel = Channel.voice }))
unfolding get text_eq
r2_still =
    ((dispatch-Dispatched call_engine call_engine-Books call_engine-Apart).others r2
      (unfold enqueue new_engine get put text_eq in refl)).1

dispatch-beside_a_call_example :
    (get r2 call_engine.active
      ≡ some (a_control (record (a_run r2 RunStatus.running) { channel = Channel.voice })))
    ⊎ ((is_voice Channel.voice || beside_a_call RunKind.chat) ≡ true)
dispatch-beside_a_call_example =
    dispatch-beside_a_call call_engine r2
      (a_control (record (a_run r2 RunStatus.running) { channel = Channel.voice }))
      call_engine-Books call_engine-Apart (unfold on_a_call any_active terminal in refl) r2_still

abbrev booting : RunStatus → Engine
booting s = an_engine (a_run r1 s ∷ [])

resume_on_boot-working_example :
    (eng' : Engine) × (resume_on_boot (booting RunStatus.running) ≡ some eng') × Resumed r1 eng'
resume_on_boot-working_example =
    resume_on_boot-working (booting RunStatus.running) (a_run r1 RunStatus.running) (tt, tt)
      (record { there = unfold any text_eq in refl; ahead = unfold max_seq in omega arith }, tt)
      (unfold get_run find text_eq in refl) (unfold was_working in refl)

resume_on_boot-waiting_example :
    (eng' : Engine) × (resume_on_boot (booting RunStatus.queued) ≡ some eng')
    × (is_some (get r1 eng'.queued) ≡ true)
resume_on_boot-waiting_example =
    resume_on_boot-waiting (booting RunStatus.queued) (a_run r1 RunStatus.queued) (tt, tt)
      (record { there = unfold any text_eq in refl; ahead = unfold max_seq in omega arith }, tt)
      (unfold get_run find text_eq in refl) (unfold was_waiting_its_turn in refl)
