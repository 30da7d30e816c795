-- ===== src/Examples/Handoffs.antt =====
-- Delegated tasks of features/tasks.py.
use jarvis.Prelude.{
  ◌≡◌, refl, Bool, true, false, none, some, [], ◌∷◌, Text, text, text_eq, any, find, starts,
}
use jarvis.Prelude.Dicts
use jarvis.Prelude.Dicts.{Dict}
use jarvis.Proto.Tasks.{Task, TaskState, TaskBrief, DodResult}
use jarvis.Proto.Messages.{ToolResultKind}
use jarvis.Tasks
use jarvis.Tasks.{TaskRow, TaskStore}
use jarvis.Tasks.Rows.{create-again}
use jarvis.Tasks.Evidence.{Evidence, CallEvent, ResultEvent, judge}
use jarvis.Tasks.Evidence.Judged.{shows-outward, judge-approved}
use jarvis.Tasks.Evidence.{ledger_of}
use jarvis.Examples.Data.{r1, r2, c1}

abbrev pub t1 : Text
t1 = 116 ∷ 49 ∷ []

abbrev pub t2 : Text
t2 = 116 ∷ 50 ∷ []

-- The call, the key and the name of a tool call.
abbrev pub k1 : Text
k1 = 107 ∷ 49 ∷ []

abbrev pub a_brief : TaskBrief
a_brief = record {
  goal = [];
  context = [];
  constraints = [];
  dod = record { item = r1; outward = true } ∷ [];
  approvals = [];
  needs = [];
  assumptions = [];
  asked = [];
  written = true;
}

abbrev pub a_task : Text → TaskState → Task
a_task id state = record {
  id = id;
  title = t1;
  state = state;
  brief = a_brief;
  origin_conversation_id = c1;
  origin_run_id = some r1;
  call_id = none;
  conversation_id = none;
  run_id = none;
  depth = 0;
  outcome = none;
  waiting = none;
  report_message_id = none;
  incognito = false;
  note = none;
  created_at = 3;
  started_at = none;
  finished_at = none;
  updated_at = 3;
}

-- One tool call makes one task.

create-again_example :
    Tasks.create
      (a_task t2 TaskState.queued)
      k1
      (record { task = a_task t1 TaskState.queued; origin_key = k1 } ∷ [])
    ≡ (
      some (a_task t1 TaskState.queued),
      record { task = a_task t1 TaskState.queued; origin_key = k1 } ∷ [],
    )
create-again_example =
    create-again (a_task t1 TaskState.queued) (a_task t2 TaskState.queued)
      (a_task t1 TaskState.queued) k1 []
      (record { task = a_task t1 TaskState.queued; origin_key = k1 } ∷ [])
      (unfold Tasks.create Tasks.inserted Tasks.find_row Tasks.task_of any find text_eq in refl)

-- A mail that went out, with nothing approved.

abbrev pub sent : Evidence
sent = record {
  calls = (k1, record { name = r2; arguments = []; read_only = false }) ∷ [];
  results =
      (
        k1,
        record {
          name = r2;
          result = record {
            kind = ToolResultKind.found;
            body = [];
            count = none;
            total = none;
            cursor = none;
            error_text = none;
            ends_turn = false;
          };
        },
      )
      ∷ [];
  approved = [];
  files = [];
}

abbrev pub no_keys : Text → Dict Bool
no_keys t = []

shows-outward_example :
    (c : CallEvent) × (r : ResultEvent) × (Dicts.get k1 sent.calls ≡ some c)
    × (Dicts.get k1 sent.results ≡ some r)
    × (c.read_only ≡ false)
    × (Tasks.Evidence.is_draft no_keys c.arguments ≡ false)
    × (Tasks.Evidence.is_error r.result ≡ false)
    × (Tasks.Evidence.is_bookkeeping r.name ≡ false)
shows-outward_example = shows-outward no_keys sent k1 (
    unfold Tasks.Evidence.why_not Tasks.Evidence.why_not_outward Tasks.Evidence.is_draft
      Tasks.Evidence.is_bookkeeping Tasks.Evidence.is_error starts text text_eq any Dicts.get in
    refl)

abbrev pub claim : DodResult
claim = record {
  item = r1;
  outward = true;
  met = some true;
  refs = k1 ∷ [];
  verified = false;
  why = none;
  note = none;
}

judge-approved_example :
    judge no_keys a_brief (claim ∷ []) (record sent { approved = k1 ∷ [] })
    ≡ judge no_keys a_brief (claim ∷ []) sent
judge-approved_example = judge-approved no_keys a_brief (claim ∷ []) sent (k1 ∷ [])
