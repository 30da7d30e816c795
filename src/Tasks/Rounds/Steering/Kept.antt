-- ===== src/Tasks/Rounds/Steering/Kept.antt =====
-- What his steering of a task may change (features/tasks.py).
use jarvis.Prelude.{
  ◌≡◌, refl, Bool, true, false, Option, none, some, List, [], ◌∷◌, ◌++◌, Text, text_eq_refl, arith,
  any, if◌then◌else◌, Text, inl, inr, Bool-cases, Option-cases, Holds, holds_of,
}
use jarvis.Proto.Tasks.{Task, TaskWaiting, is_waiting}
use jarvis.Proto.Settings.{TasksSettings, denies, frees, matches_any, tool_matches}
use jarvis.Engine.{Engine}
use jarvis.Tasks
use jarvis.Tasks.Service.{Service}
use jarvis.Tasks.Rounds.Steering.{
  allow_tool, allow_waiting, awaits, AllowRefusal, with_tool, with_engine,
}

matches_self :
    (name : Text) (patterns : List Text) → matches_any name (patterns ++ name ∷ []) ≡ true
unfolding matches_any any tool_matches
matches_self name [] = rw (text_eq_refl name) refl
matches_self name (p ∷ patterns) = rw (matches_self name patterns) (ground arith)

-- The settings with one pattern more among those that need no approval, unless a pattern that is there
-- matches the tool.
abbrev pub freed : Text → TasksSettings → TasksSettings
freed name s = record s {
  no_approval = if frees s name then s.no_approval else s.no_approval ++ name ∷ [];
}

-- The outcome of a click, if it is granted.
abbrev Granted : TaskWaiting → Service → Option AllowRefusal × Service → Type 0
Granted wait svc r =
    r.0 ≡ none
    → (denies svc.settings wait.name ≡ false)
      × (frees r.1.settings wait.name ≡ true)
      × (r.1.settings ≡ freed wait.name svc.settings)

frees-with_tool : (name : Text) (s : TasksSettings) → frees (with_tool name s) name ≡ true
unfolding frees with_tool
frees-with_tool name s = elim (Bool-cases (frees s name)) [
  | inl e ↦ rw (with_tool, e) e
  | inr e ↦ rw (with_tool, e) (matches_self name s.no_approval)
]

with_tool-freed : (name : Text) (s : TasksSettings) → with_tool name s ≡ freed name s
unfolding with_tool
with_tool-freed name s = elim (Bool-cases (frees s name)) [
  | inl e ↦ rw (with_tool, e) refl
  | inr e ↦ rw (with_tool, e) refl
]

with_engine-Granted :
    (wait : TaskWaiting) (svc : Service) (o : Option (Bool × Engine))
    → denies svc.settings wait.name ≡ false
    → Holds (Granted wait svc) (with_engine (with_tool wait.name svc.settings) svc o)
unfolding with_engine
with_engine-Granted wait svc none d = tt
with_engine-Granted wait svc (some (answered, eng)) d =
    λ e. (d, frees-with_tool wait.name svc.settings, with_tool-freed wait.name svc.settings)

allow_waiting-Granted :
    (wait : TaskWaiting) (svc : Service) → Holds (Granted wait svc) (allow_waiting wait svc)
unfolding allow_waiting
allow_waiting-Granted wait svc = elim (Bool-cases (denies svc.settings wait.name)) [
  | inl d ↦ rw (allow_waiting, d) (λ e. cc)
  | inr d ↦ rw (allow_waiting, d) (with_engine-Granted wait svc _ d)
]

-- "Always allow" opens the one tool that it is clicked for: when it is granted, the task was waiting on
-- exactly that call, its tool is not one that tasks are denied, and afterwards the tool needs no
-- approval in tasks. The settings gain that tool's name, as the last pattern of those that need no
-- approval, unless it needed none before, and are otherwise the same.
pub allow_tool-granted :
    (task_id call_id : Text) (svc svc' : Service)
    → allow_tool task_id call_id svc ≡ some (none, svc')
    → (task : Task) × (wait : TaskWaiting) × (Tasks.get task_id svc.rows ≡ some task)
      × (is_waiting task.state ≡ true)
      × (awaits call_id task.waiting ≡ some wait)
      × (denies svc.settings wait.name ≡ false)
      × (frees svc'.settings wait.name ≡ true)
      × (svc'.settings ≡ record svc.settings {
        no_approval =
            if frees svc.settings wait.name
            then svc.settings.no_approval
            else svc.settings.no_approval ++ wait.name ∷ [];
      })
unfolding allow_tool
allow_tool-granted task_id call_id svc svc' h = elim (Option-cases (Tasks.get task_id svc.rows)) [
  | inl e ↦ ground (arith, h, e)
  | inr (task, e) ↦ elim (Bool-cases (is_waiting task.state)) [
    | inr s ↦ ground (arith, h, e, s)
    | inl s ↦ elim (Option-cases (awaits call_id task.waiting)) [
      | inl a ↦ ground (arith, h, e, s, a)
      | inr (wait, a) ↦
          let h' : allow_waiting wait svc ≡ some (none, svc') = ground (arith, h, e, s, a) in
          let g =
            holds_of (Granted wait svc) (allow_waiting wait svc) (none, svc')
              (allow_waiting-Granted wait svc) h' refl in
          (task, wait, e, s, a, g.0, g.1, g.2)
    ]
  ]
]
