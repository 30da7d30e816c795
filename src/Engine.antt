-- ===== src/Engine.antt =====
-- packages/core/jarvis_core/engine/run_engine.py: the state of `RunEngine` and the operations on its
-- books. A method is one step: what it does between two awaits is not interleaved with others. The
-- heap of `heapq` is the ordered list of its entries, and a run task is its entry in `active`.
pub mod Books
pub mod Create
pub mod Control
pub mod Dispatch
pub mod Execute
pub mod Boot
pub mod Same
pub mod Kept
pub mod Reach
use jarvis.Prelude.{
  ℕ, suc, ◌+◌, Bool, true, false, not, ◌&&◌, ◌||◌, Option, none, some, List, [], ◌∷◌, Text, text_eq,
  text_le, ltb, leb, ◌==◌, if◌then◌else◌, keep, any, count_of, insert_by,
}
use jarvis.Prelude.Dicts.{Dict, get, put, remove}
use jarvis.Proto.Runs.{
  Run, RunKind, RunStatus, terminal, is_waiting, is_task, is_voice, queued, interrupted,
  waiting_user,
}
use jarvis.Proto.Runs
use jarvis.Bus.{EventBus}
use jarvis.Store.{Store}
use jarvis.Control.{RunControl}

-- `(priority, created_at, run_id)`
pub record Entry : Type 0 where
  pub priority : ℕ
  pub created_at : ℕ
  pub run_id : Text

-- Python's order on such tuples.
unfoldable pub entry_le : Entry → Entry → Bool
entry_le a b =
    ltb a.priority b.priority
    || (a.priority == b.priority
        && (ltb a.created_at b.created_at
            || (a.created_at == b.created_at && text_le a.run_id b.run_id)))

-- A queued run with its transient flag `_resumed`.
pub record Queued : Type 0 where
  pub run : Run
  pub resumed : Bool

pub record Engine : Type 0 where
  pub store : Store
  pub bus : EventBus
  pub max : ℕ
  pub heap : List Entry
  pub queued : Dict Queued
  pub active : Dict RunControl
  pub wake : Bool
  pub stopping : Bool
  pub task_gate : Option (ℕ → Bool)

unfoldable pub new_engine : Store → EventBus → ℕ → Engine
new_engine store bus max = record {
  store = store;
  bus = bus;
  max = max;
  heap = [];
  queued = [];
  active = [];
  wake = false;
  stopping = false;
  task_gate = none;
}

unfoldable pub priority_of : RunKind → ℕ
priority_of RunKind.chat = 0
priority_of RunKind.mail = 0
priority_of RunKind.collab = 1
priority_of RunKind.meeting = 2
priority_of RunKind.task = 2
priority_of RunKind.scheduled = 3
priority_of RunKind.triage = 4
priority_of RunKind.system = 5

unfoldable pub beside_a_call : RunKind → Bool
beside_a_call RunKind.chat = true
beside_a_call RunKind.system = true
beside_a_call _ = false

-- A run that comes back keeps these statuses; any other is queued anew.
unfoldable pub queue_status : RunStatus → RunStatus
queue_status RunStatus.interrupted = RunStatus.interrupted
queue_status RunStatus.waiting_user = RunStatus.waiting_user
queue_status _ = RunStatus.queued

abbrev pub entry_of : Run → Entry
entry_of run = record { priority = run.priority; created_at = run.created_at; run_id = run.id }

unfoldable pub enqueue : Run → Bool → Engine → Engine
unfolding queue_status entry_le
enqueue run resumed eng =
    let run' = record run { status = queue_status run.status } in
    record eng {
      heap = insert_by entry_le (entry_of run') eng.heap;
      queued = put run.id (record { run = run'; resumed = resumed }) eng.queued;
      wake = true;
    }

-- The values of `self._active`.
unfoldable pub any_active : (RunControl → Bool) → Dict RunControl → Bool
any_active p [] = false
any_active p ((id, ctl) ∷ active) = p ctl || any_active p active

unfoldable pub count_active : (Text → RunControl → Bool) → Dict RunControl → ℕ
count_active p [] = 0
count_active p ((id, ctl) ∷ active) =
    let rest = count_active p active in if p id ctl then suc rest else rest

abbrev pub is_live : RunControl → Bool
is_live ctl = not (terminal ctl.run.status)

unfoldable pub on_a_call : Engine → Bool
unfolding any_active
on_a_call eng = any_active (λ ctl. is_voice ctl.run.channel && is_live ctl) eng.active

unfoldable pub of_call : Text → RunControl → Bool
of_call call_id ctl = elim ctl.run.call_id [ none ↦ false | some c ↦ text_eq c call_id ]

unfoldable pub call_turn_running : Text → Engine → Bool
unfolding any_active of_call
call_turn_running call_id eng = any_active (λ ctl. of_call call_id ctl && is_live ctl) eng.active

-- A run that waits for an answer holds no slot.
abbrev pub holds_slot : RunControl → Bool
holds_slot ctl = not (is_waiting ctl.run.status)

unfoldable pub running_count : Engine → ℕ
unfolding count_active
running_count eng = count_active (λ id ctl. holds_slot ctl) eng.active

unfoldable pub excludes : Option Text → Text → Bool
excludes none id = false
excludes (some x) id = text_eq x id

unfoldable pub running_tasks : Option Text → Engine → ℕ
unfolding count_active excludes
running_tasks exclude eng =
    count_active (λ id ctl. not (excludes exclude id) && is_task ctl.run.kind && holds_slot ctl)
      eng.active

unfoldable pub working_in : Text → Dict RunControl → Option Text
working_in conversation_id [] = none
working_in conversation_id ((id, ctl) ∷ active) =
    let rest = working_in conversation_id active in
    if text_eq ctl.run.conversation_id conversation_id && is_live ctl then some id else rest

unfoldable pub working_run_in : Text → Engine → Option Text
unfolding working_in
working_run_in conversation_id eng = working_in conversation_id eng.active
