-- ===== src/Examples/Handovers.antt =====
-- Rounds, calls and reports of delegated tasks (features/tasks.py).
use jarvis.Prelude.{
  suc, ◌≤◌, length, ◌≡◌, ◌↔◌, refl, ◌++◌, if◌then◌else◌, true, false, Option, none, some, List, [],
  ◌∷◌, Text, text, all, sort_by, text_eq, any, keep, find, is_nil,
}
use jarvis.Prelude.Dicts
use jarvis.Prelude.Dicts.{Dict}
use jarvis.Proto.Runs.{RunStatus}
use jarvis.Proto.Tasks.{Task, TaskState, TaskWaiting}
use jarvis.Proto.Messages.{ToolResultKind}
use jarvis.Proto.Settings.{TasksSettings}
use jarvis.Engine
use jarvis.Engine.{Engine}
use jarvis.Engine.Create
use jarvis.Store.{get_run, list_runs, list_events}
use jarvis.Store.Conversations.{list_run_messages, add_message}
use jarvis.Attachments.{for_conversation}
use jarvis.Tasks
use jarvis.Tasks.{TaskStore}
use jarvis.Tasks.Wording.{report_answer_chars}
use jarvis.Tasks.Service.{Service, World}
use jarvis.Tasks.Rounds.{outcome_of}
use jarvis.Tasks.Rounds.Calls.{call_ended}
use jarvis.Tasks.Reports.Ending.{own_report}
use jarvis.Tasks.Reports.Owed.{own_report-once}
use jarvis.Tasks.Rounds.Ended.{conclude, judged, has_said}
use jarvis.Tasks.Rounds.Ended.Fate.{judged-done, conclude-unread}
use jarvis.Tasks.Evidence.Judged.{all_proved}
use jarvis.Tasks.Evidence.{ledger_of}
use jarvis.Tasks.Service.{should_hold, call_open}
use jarvis.Tasks.Service.Slots.{SlotStep, slot_steps, should_hold-Fits}
use jarvis.Tasks.Rounds.Steering.{allow_tool, awaits}
use jarvis.Tasks.Rounds.Steering.Kept.{allow_tool-granted}
use jarvis.Tasks.Rules.{rule, is_chat, delegating, on_a_call, rule-delegating}
use jarvis.Proto.Settings.{denies, frees}
use jarvis.Proto.Tasks.{is_waiting}
use jarvis.Proto.Events.{RunEvent, Body}
use jarvis.Examples.Data.{r1, r2, c1, a_run, a_store, an_engine}
use jarvis.Examples.Handoffs.{t1, k1, a_task, claim, no_keys}

-- A service with one task.

abbrev some_settings : TasksSettings
some_settings = record {
  enabled = true;
  max_running = 1;
  max_depth = 1;
  no_approval = [];
  deny_tools = [];
  approval_ttl_s = 14_400;
  call_drop_after_s = 240;
}

abbrev a_world : World
a_world = record {
  arguments_of = no_keys;
  down = λ n. none;
  clock = λ t. [];
  hours = λ t. [];
  user_name = [];
  new_id = λ n. 110 ∷ n ∷ [];
  is_alnum = λ c. true;
  run_settings = record {
    voice_think = false;
    call_me_default = λ k. false;
    budgets = λ k. none;
    max_turn_s = 60;
  };
}

abbrev a_service : Task → Service
a_service task = record {
  engine = an_engine [];
  rows = record { task = task; origin_key = k1 } ∷ [];
  attachments = record { rows = []; held = []; disk = [] };
  settings = some_settings;
  call_rows = [];
  deferred = [];
  paused = [];
  slots = [];
  steered = [];
  asked = [];
  calls = [];
  notices = [];
  ids = 0;
}

abbrev or_before : {A : Type 0} → Service → Option (A × Service) → Service
or_before svc none = svc
or_before svc (some r) = r.1

abbrev noted : Task
noted = record (a_task t1 TaskState.noted) { call_id = some k1 }

-- What was noted on a call starts once: the first end of the call starts it.

abbrev hung_up : Option (List Text × Service)
hung_up = call_ended a_world k1 r1 9 (a_service noted)

-- A report is written once.

abbrev finished : Task
finished = record (a_task t1 TaskState.done) { run_id = some r1 }

abbrev or_same : Service → Option Service → Service
or_same svc none = svc
or_same svc (some svc') = svc'

abbrev told : Service
told = or_same (a_service finished) (own_report a_world finished 9 (a_service finished))

own_report-once_example :
    own_report a_world finished 12 told ≡ some (record told { ids = suc told.ids })
unfolding any keep list_run_messages report_answer_chars add_message
own_report-once_example =
    own_report-once a_world finished finished 9 12 (a_service finished) told
      (unfold own_report in refl) refl

-- A task ends, and its report goes in.

abbrev working : Task
working = record (a_task t1 TaskState.running) { run_id = some r1 }

-- A round that ends with everything shown.

abbrev sent_events : List RunEvent
sent_events =
    record { run_id = r1; conversation_id = c1; seq = 1; body = Body.tool_call k1 r2 [] false [] }
    ∷ record {
      run_id = r1;
      conversation_id = c1;
      seq = 2;
      body =
          Body.tool_result k1 r2
            (record {
              kind = ToolResultKind.found;
              body = [];
              count = none;
              total = none;
              cursor = none;
              error_text = none;
              ends_turn = false;
            })
            3;
    }
    ∷ []

abbrev claiming : Task
claiming = record working {
  conversation_id = some c1;
  outcome = some (record {
    summary = [];
    dod = claim ∷ [];
    question = none;
    stopped_reason = none;
    finished = true;
  });
}

abbrev logged : Service
logged = record (a_service claiming) {
  engine = record (an_engine []) {
    store = record (a_store (a_run r1 RunStatus.done ∷ [])) { events = sent_events };
  };
}

judged-done_example : ((judged a_world claiming none logged).1 ≡ TaskState.done) ↔ (
    (has_said (outcome_of claiming) ≡ true)
    × (is_nil claiming.brief.dod ≡ false)
    × (all_proved no_keys
          (ledger_of logged.engine.store logged.attachments claiming)
          claiming.brief.dod
          (outcome_of claiming).dod
        ≡ true))
judged-done_example = judged-done a_world claiming none logged

-- It is done.
a_judgement : (judged a_world claiming none logged).1 ≡ TaskState.done
unfolding judged all any for_conversation sort_by keep Dicts.get list_runs list_events Dicts.put
a_judgement = refl

-- Words that came too late.

conclude-unread_example :
    conclude a_world claiming (a_run r1 RunStatus.done) none (r2 ∷ []) 9 logged
    ≡ conclude a_world claiming (a_run r1 RunStatus.done) none [] 9 logged
conclude-unread_example =
    conclude-unread a_world claiming (a_run r1 RunStatus.done) none (r2 ∷ []) 9 logged refl

-- One slot, asked for twice and given up once.

should_hold-Fits_example :
    let before =
      slot_steps
        (a_service working)
        (SlotStep.asks r1 ∷ SlotStep.asks r2 ∷ SlotStep.parks r1 ∷ []) in
    let asked = (should_hold r2 before).1 in
    (length asked.slots ≤ asked.settings.max_running)
    × (any (text_eq r2) asked.slots ≡ true)
    × (call_open before ≡ false)
unfolding Engine.on_a_call slot_steps any keep Dicts.get text_eq
should_hold-Fits_example =
    should_hold-Fits (a_service working)
      (SlotStep.asks r1 ∷ SlotStep.asks r2 ∷ SlotStep.parks r1 ∷ []) r2 refl
      (unfold should_hold in refl)

-- "Always allow" on the approval card.

abbrev wait : TaskWaiting
wait = record { run_id = r1; call_id = k1; name = r2; arguments = []; reason = []; since = 4 }

abbrev parked : Task
parked = record (a_task t1 TaskState.waiting) { run_id = some r1; waiting = some wait }

abbrev allowed : Service
allowed = elim (allow_tool t1 k1 (a_service parked)) [ none ↦ a_service parked | some r ↦ r.1 ]

allow_tool-granted_example :
    (task : Task) × (w : TaskWaiting) × (Tasks.get t1 (a_service parked).rows ≡ some task)
    × (is_waiting task.state ≡ true)
    × (awaits k1 task.waiting ≡ some w)
    × (denies some_settings w.name ≡ false)
    × (frees allowed.settings w.name ≡ true)
    × (allowed.settings ≡ record some_settings {
      no_approval =
          if frees some_settings w.name
          then some_settings.no_approval
          else some_settings.no_approval ++ w.name ∷ [];
    })
unfolding Tasks.get find any Dicts.get get_run
allow_tool-granted_example =
    allow_tool-granted t1 k1 (a_service parked) allowed (unfold allow_tool in refl)

-- A typed chat of his delegates.

abbrev delegate_name : Text
delegate_name = 116 ∷ 97 ∷ 115 ∷ 107 ∷ 115 ∷ 46 ∷ 100 ∷ 101 ∷ 108 ∷ 101 ∷ 103 ∷ 97 ∷ 116 ∷ 101 ∷ []

rule-delegating_example :
    (some_settings.enabled ≡ true)
    × (is_chat (a_run r1 RunStatus.running).kind ≡ true)
    × ((a_run r1 RunStatus.running).from_owner ≡ true)
    × (false ≡ false)
    × (text_eq delegate_name (text "tasks.note") ≡ on_a_call (a_run r1 RunStatus.running))
rule-delegating_example =
    rule-delegating some_settings (a_run r1 RunStatus.running) delegate_name false
      (unfold delegating text_eq text in refl) (unfold rule in refl)
