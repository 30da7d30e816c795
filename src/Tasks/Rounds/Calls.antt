-- ===== src/Tasks/Rounds/Calls.antt =====
-- Calls and the tasks noted on them (`call_seen`, `call_ended` and `_sweep_calls` of features/tasks.py).
pub mod Once
use jarvis.Prelude.{
  ℕ, ◌-◌, ◌*◌, Bool, true, false, not, ◌&&◌, ◌||◌, Option, none, some, List, [], ◌∷◌, ◌++◌, map,
  Text, text, text_eq, ltb, leb, if◌then◌else◌, is_some, or_else, any, keep, is_nil, last?,
}
use jarvis.Prelude.Dicts
use jarvis.Prelude.Dicts.{Dict, put, remove}
use jarvis.Proto.Runs
use jarvis.Proto.Runs.{Run}
use jarvis.Proto.Events.{
  RunEvent, Body, run_resumed, tool_confirm_requested, tool_confirm_resolved, task_removed,
}
use jarvis.Proto.Tasks.{Task, TaskState, TaskWaiting, terminal, is_noted, is_waiting}
use jarvis.Bus.{publish, EventBus}
use jarvis.Store.{Store, get_run, list_events, micros}
use jarvis.Engine.{call_turn_running}
use jarvis.Engine.Control
use jarvis.Tasks
use jarvis.Tasks.{TaskStore, claim_noted, everything}
use jarvis.Tasks.Evidence.{is_in}
use jarvis.Tasks.Wording.{truthy}
use jarvis.Tasks.Service.{Service, World, CallRow, save_task, save_and_publish}
use jarvis.Tasks.Reports.{owes_report}
use jarvis.Tasks.Reports.Ending.{end_task, report, wake}
use jarvis.Tasks.Rounds.{start, stopped_by}
use jarvis.Tasks.Rounds.Ended.{round_ended, waiting_for}

abbrev pub call_is : Text → CallRow → Bool
call_is call_id c = text_eq c.id call_id

-- ON CONFLICT: a call that is there is open again.
unfoldable pub seen_again : Text → Option Text → ℕ → List CallRow → List CallRow
seen_again call_id conversation_id now [] = []
seen_again call_id conversation_id now (c ∷ cs) =
    (if call_is call_id c
      then record c {
        last_seen_at = now;
        ended_at = none;
        end_reason = none;
        conversation_id = if is_some c.conversation_id then c.conversation_id else conversation_id;
      }
      else c)
    ∷ seen_again call_id conversation_id now cs

unfoldable pub call_row : Text → Option Text → ℕ → CallRow
call_row call_id conversation_id now = record {
  id = call_id;
  conversation_id = conversation_id;
  started_at = now;
  last_seen_at = now;
  ended_at = none;
  end_reason = none;
  report_message_id = none;
}

unfoldable pub call_seen : Text → Option Text → ℕ → Service → Service
unfolding seen_again call_row
call_seen call_id conversation_id now svc =
    if not svc.settings.enabled || is_nil call_id then svc else record svc {
      call_rows =
          if any (call_is call_id) svc.call_rows
          then seen_again call_id conversation_id now svc.call_rows
          else svc.call_rows ++ call_row call_id conversation_id now ∷ [];
      calls = put call_id now svc.calls;
    }

unfoldable pub end_rows : Text → Text → ℕ → List CallRow → List CallRow
end_rows call_id how now [] = []
end_rows call_id how now (c ∷ cs) =
    (if call_is call_id c && not (is_some c.ended_at)
      then record c { ended_at = some now; end_reason = some how }
      else c)
    ∷ end_rows call_id how now cs

-- The tasks that were claimed start, each with a round of its own.
unfoldable pub start_all : World → List Text → ℕ → Service → Option (List Text × Service)
unfolding start
start_all w [] now svc = some ([], svc)
start_all w (id ∷ ids) now svc = elim (Tasks.get id svc.rows) [
  | none ↦ start_all w ids now svc
  | some task ↦ elim (start w task none now svc) [
    | none ↦ none
    | some (task', svc') ↦ elim (start_all w ids now svc') [
      | none ↦ none
      | some (started, svc'') ↦ some (id ∷ started, svc'')
    ]
  ]
]

unfoldable pub start_noted : World → Text → ℕ → Service → Option (List Text × Service)
unfolding claim_noted start_all
start_noted w call_id now svc =
    let (ids, rows) = claim_noted call_id now svc.rows in
    start_all w ids now (record svc { rows = rows })

unfoldable pub woken_with : Option (List Text × Service) → Option (List Text × Service)
unfolding wake
woken_with none = none
woken_with (some (started, svc)) = some (started, wake svc)

unfoldable pub call_ended : World → Text → Text → ℕ → Service → Option (List Text × Service)
unfolding end_rows start_noted woken_with
call_ended w call_id how now svc = woken_with (
    start_noted w call_id now (record svc {
      calls = remove call_id svc.calls;
      call_rows = end_rows call_id how now svc.call_rows;
    }))

-- A call that has said nothing for long enough has dropped, but never in the middle of a turn.
unfoldable pub has_dropped : Text → ℕ → ℕ → Service → Bool
unfolding call_turn_running
has_dropped call_id last at svc =
    leb (svc.settings.call_drop_after_s * micros) (at - last)
    && not (call_turn_running call_id svc.engine)

unfoldable pub sweep_calls : World → Dict ℕ → ℕ → Service → Option Service
unfolding has_dropped call_ended text
sweep_calls w [] at svc = some svc
sweep_calls w ((call_id, last) ∷ calls) at svc =
    if has_dropped call_id last at svc
    then elim (call_ended w call_id (text "drop") at svc) [
      | none ↦ none
      | some (started, svc') ↦ sweep_calls w calls at svc'
    ]
    else sweep_calls w calls at svc
