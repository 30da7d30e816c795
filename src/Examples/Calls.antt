-- ===== src/Examples/Calls.antt =====
-- The engine's calls, the gate and the supervisor.
use jarvis.Prelude.{
  ℕ, ◌≤◌, ◌≡◌, refl, true, false, Option, none, some, List, [], ◌∷◌, ◌++◌, Text, text_eq, arith,
  any, find, is_some,
}
use jarvis.Prelude.Dicts.{Dict, get}
use jarvis.Proto.Runs.{Run, RunStatus, terminal}
use jarvis.Proto.Messages.{ToolResultKind}
use jarvis.Store.{get_run, save_run}
use jarvis.Emit.Sequence.{Numbered, max_seq}
use jarvis.Control.{RunControl}
use jarvis.Engine.{Engine}
use jarvis.Engine.Control.{cancel, set_call_me, confirm}
use jarvis.Engine.Control.Laws.{Ended, cancel-queued, set_call_me_lasts, confirm-answered_requeues}
use jarvis.Engine.Execute.{Outcome, finish}
use jarvis.Engine.Execute.Outcomes.{Over, finish-Over}
use jarvis.Gate.{
  Urgency, EndpointGate, new_gate, Act, act, acts, may_go, waiting_at, set_waiting, left, room,
  more_urgent_waits,
}
use jarvis.Gate.Laws.{acts-busy, admit-progress}
use jarvis.Supervision.{Supervisor, RunWatch, StepRecord, new_watch}
use jarvis.Supervision.Review.{Reply}
use jarvis.Supervision.Review.Laws.{Round, reviews, reviews-max_nudges}
use jarvis.Ledger.{ContextLedger, CallContext, CallStep}
use jarvis.Examples.Data.{r1, c1, a_run, a_usage, a_budget, a_control, an_engine}

abbrev with_queued : Engine
with_queued = record (an_engine (a_run r1 RunStatus.queued ∷ [])) {
  queued = (r1, record { run = a_run r1 RunStatus.queued; resumed = false }) ∷ [];
}

queued_numbered : Numbered (a_run r1 RunStatus.queued) with_queued.store
queued_numbered = record {
  there = unfold any text_eq in refl;
  ahead = unfold max_seq in omega arith;
}

cancel-queued_example : Ended r1 9 (cancel r1 9 with_queued)
cancel-queued_example =
    cancel-queued r1 9 with_queued (record { run = a_run r1 RunStatus.queued; resumed = false })
      (a_run r1 RunStatus.queued) (unfold get text_eq in refl) refl queued_numbered
      (unfold get_run find text_eq in refl)

abbrev with_active : RunStatus → Engine
with_active s = record (an_engine (a_run r1 s ∷ [])) { active = (r1, a_control (a_run r1 s)) ∷ [] }

abbrev steered_control : RunControl
steered_control = record (a_control (a_run r1 RunStatus.running)) {
  steers = c1 ∷ [];
  steered_by_other = true;
}

set_call_me_lasts_example :
    (ctl' : RunControl) × (row' : Run) × (row'' : Run) × (get r1
        (set_call_me r1 true (with_active RunStatus.running)).1.active
      ≡ some ctl')
    × (get_run r1 (set_call_me r1 true (with_active RunStatus.running)).1.store ≡ some row')
    × (get_run r1 (save_run ctl'.run (set_call_me r1 true (with_active RunStatus.running)).1.store)
        ≡ some row'')
    × (ctl'.run.call_me ≡ true)
    × (row'.call_me ≡ true)
    × (row''.call_me ≡ true)
set_call_me_lasts_example =
    set_call_me_lasts r1 true (with_active RunStatus.running)
      (set_call_me r1 true (with_active RunStatus.running)).1
      (a_control (a_run r1 RunStatus.running)) (a_run r1 RunStatus.running)
      (unfold get text_eq in refl) refl (unfold get_run find text_eq in refl)
      (unfold set_call_me get text_eq terminal in refl)

abbrev answered_control : RunControl
answered_control = record (a_control (a_run r1 RunStatus.waiting_user)) {
  confirmations = (c1, some (true, none)) ∷ [];
}

abbrev with_answered : Engine
with_answered = record (an_engine (a_run r1 RunStatus.waiting_user ∷ [])) {
  active = (r1, answered_control) ∷ [];
}

confirm-answered_requeues_example :
    (eng' : Engine) × (confirm r1 c1 true none with_answered ≡ some (true, eng'))
    × (is_some (get r1 eng'.queued) ≡ true)
    × (get r1 eng'.active ≡ some answered_control)
confirm-answered_requeues_example =
    confirm-answered_requeues r1 c1 true none with_answered answered_control
      (a_run r1 RunStatus.waiting_user) (true, none) (unfold get text_eq in refl)
      (unfold get text_eq in refl) (unfold get_run find text_eq in refl) refl refl
      (record { there = unfold any text_eq in refl; ahead = unfold max_seq in omega arith })

finish-Over_example :
    Over (a_run r1 RunStatus.running) (Outcome.model_error c1) (
      finish
        (a_run r1 RunStatus.running)
        (Outcome.model_error c1)
        9
        (with_active RunStatus.running))
finish-Over_example =
    finish-Over (a_run r1 RunStatus.running) (Outcome.model_error c1) 9
      (with_active RunStatus.running) (a_run r1 RunStatus.running)
      (record { there = unfold any text_eq in refl; ahead = unfold max_seq in omega arith })
      (unfold get_run find text_eq in refl) refl refl

-- a gate of one slot with a call in flight and another waiting on the line
abbrev a_gate : ℕ → ℕ → ℕ → EndpointGate
a_gate busy on_the_line in_back = record {
  limit = 1;
  busy = busy;
  waiting = record { voice = on_the_line; typed = 0; background = in_back };
}

acts-busy_example : 2 ≤ 2
acts-busy_example =
    acts-busy 1
      (Act.arrive Urgency.background
        ∷ Act.admit Urgency.background
        ∷ Act.arrive Urgency.voice
        ∷ Act.admit Urgency.voice
        ∷ [])
      (a_gate 2 0 0)
      (unfold acts act new_gate may_go waiting_at set_waiting left room more_urgent_waits in refl)

admit-progress_example :
    (u : Urgency) × (g' : EndpointGate) × (act (Act.admit u) (a_gate 0 0 1) ≡ some g')
admit-progress_example = admit-progress (a_gate 0 0 1) (omega arith) (omega arith)

-- the supervisor
abbrev a_supervisor : Supervisor
a_supervisor = record {
  repeated_call_threshold = 3;
  progress_review_s = 600;
  error_streak = 1;
  max_nudges = 2;
}

abbrev a_step : StepRecord
a_step = record {
  tool = c1;
  args_hash = c1;
  result_hash = c1;
  args_summary = [];
  kind = ToolResultKind.error;
  summary = [];
}

abbrev a_watch : RunWatch
a_watch = record (new_watch a_budget 0) { steps = a_step ∷ [] }

abbrev no_json : Text → Option (Dict Text)
no_json t = none

abbrev quoted : Text → Text
quoted t = 39 ∷ t ++ 39 ∷ []

abbrev no_reply : Reply
no_reply = record { chunks = []; failed = some c1 }

abbrev a_round : Round
a_round = record {
  steps = a_step ∷ [];
  now = 5;
  later = 6;
  reply = no_reply;
  run = a_run r1 RunStatus.running;
}

reviews-max_nudges_example :
    (reviews no_json quoted a_supervisor (a_round ∷ a_round ∷ []) (new_watch a_budget 0)).1 ≤ 2
reviews-max_nudges_example =
    reviews-max_nudges no_json quoted a_supervisor a_budget 0 (a_round ∷ a_round ∷ [])

abbrev a_call : CallContext
a_call = record {
  purpose = none;
  kind = none;
  voice = false;
  role = none;
  run_id = none;
  conversation_id = none;
  base_url = [];
  model = [];
  num_ctx = none;
  served_window = some 8_000;
  prompt_estimate = 10;
  pending_trim = 0;
  id = c1;
  now = 1;
}

abbrev no_calls : ContextLedger
no_calls = record {
  calls = [];
  live = [];
  written = [];
  has_sink = true;
  in_loop = true;
  labels = [];
}

abbrev ended_twice : List CallStep
ended_twice =
    CallStep.starts 2
    ∷ CallStep.finishes a_usage none none 3
    ∷ CallStep.fails (record { cancels = true; name = []; message = [] }) 4
    ∷ []
