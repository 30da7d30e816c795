-- ===== src/Tasks/Rules.antt =====
-- Which of its tools a run may call (`TaskService._rule`, `hidden` and `refusal` of features/tasks.py).
-- The sentences of a refusal are left out: a constructor stands for each.
use jarvis.Prelude.{
  ◌≡◌, refl, Bool, true, false, not, ◌&&◌, ◌||◌, Option, none, some, Text, text, text_eq, arith,
  if◌then◌else◌, is_some, before_dot, is_nil, subst, sym, text_eq_iff, Bool-cases, inl, inr,
}
use jarvis.Proto.Runs.{Run, RunKind, is_task, is_voice}
use jarvis.Proto.Settings.{TasksSettings, denies}
use jarvis.Tasks.{TaskStore, by_run}

pub data Refusal : Type 0 where
  switched_off no_nesting not_for_tasks of_a_task not_his_message only_on_a_call note_it noted_only
        brief_first :
      Refusal

abbrev pub is_chat : RunKind → Bool
is_chat RunKind.chat = true
is_chat _ = false

unfoldable pub delegating : Text → Bool
unfolding text_eq text
delegating name = text_eq name (text "tasks.delegate") || text_eq name (text "tasks.note")

unfoldable pub never_for_tasks : Text → Bool
unfolding text_eq text
never_for_tasks name = text_eq name (text "sessions.say") || text_eq name (text "jarvis.call_me")

unfoldable pub before_the_brief : Text → Bool
unfolding text_eq text
before_the_brief name =
    text_eq name (text "task.brief")
    || text_eq name (text "task.origin")
    || text_eq name (text "task.ask")

unfoldable pub on_a_call : Run → Bool
on_a_call run = is_voice run.channel && is_some run.call_id

-- The call's id is tested for its truth here, so an empty one is no call.
unfoldable pub on_a_named_call : Run → Bool
on_a_named_call run =
    is_voice run.channel && elim run.call_id [ none ↦ false | some id ↦ not (is_nil id) ]

-- For his own message in a chat.
unfoldable pub chat_rule : Run → Text → Option Refusal
unfolding delegating on_a_call on_a_named_call text_eq text
chat_rule run name =
    if delegating name
    then if text_eq name (text "tasks.note") && not (on_a_call run)
      then some Refusal.only_on_a_call
      else if text_eq name (text "tasks.delegate") && on_a_call run
      then some Refusal.note_it
      else none
    else if (text_eq name (text "tasks.drop") || text_eq name (text "tasks.amend"))
        && not (on_a_named_call run)
    then some Refusal.noted_only
    else none

unfoldable pub in_tasks : Text → Bool
unfolding before_dot text_eq text
in_tasks name = text_eq (before_dot name) (text "tasks")

unfoldable pub in_task : Text → Bool
unfolding before_dot text_eq text
in_task name = text_eq (before_dot name) (text "task")

unfoldable pub rule : TasksSettings → Run → Text → Bool → Option Refusal
unfolding in_tasks in_task never_for_tasks chat_rule denies
rule s run name steered_by_other =
    if in_tasks name && not s.enabled
    then some Refusal.switched_off
    else if is_task run.kind
    then if in_tasks name
      then some Refusal.no_nesting
      else if denies s name || never_for_tasks name
      then some Refusal.not_for_tasks
      else none
    else if in_task name
    then some Refusal.of_a_task
    else if not (in_tasks name)
    then none
    else if not (is_chat run.kind) || not run.from_owner || steered_by_other
    then some Refusal.not_his_message
    else chat_rule run name

unfoldable pub hidden : TasksSettings → Run → Text → Bool
unfolding rule
hidden s run name = is_some (rule s run name false)

unfoldable pub brief_missing : TaskStore → Run → Bool
unfolding by_run
brief_missing rows run = elim (by_run run.id rows) [
  | none ↦ false
  | some task ↦ not task.brief.written
]

unfoldable pub refusal : TasksSettings → TaskStore → Run → Text → Bool → Option Refusal
unfolding rule before_the_brief brief_missing
refusal s rows run name steered_by_other = elim (rule s run name steered_by_other) [
  | some why ↦ some why
  | none ↦
      if is_task run.kind && not (before_the_brief name) && brief_missing rows run
      then some Refusal.brief_first
      else none
]

-- A task's own run is never let at a tool that hands work on, that its settings deny, or that messages
-- or rings him, and what it may call is offered to it, whoever has steered it.
pub rule-task :
    (s : TasksSettings) (run : Run) (name : Text) (steered : Bool)
    → is_task run.kind ≡ true
    → (is_some (rule s run name steered) ≡ (in_tasks name || denies s name || never_for_tasks name))
      × (hidden s run name ≡ is_some (rule s run name steered))
unfolding rule hidden
rule-task s run name steered t = (ground (arith, t), ground (arith, t))

delegating-in_tasks : (name : Text) → delegating name ≡ true → in_tasks name ≡ true
unfolding delegating in_tasks
delegating-in_tasks name h = elim (Bool-cases (text_eq name (text "tasks.delegate"))) [
  | inl e ↦
      subst (λ n. in_tasks n ≡ true) (sym ((text_eq_iff name (text "tasks.delegate")).0 e)) refl
  | inr e ↦
      let note : text_eq name (text "tasks.note") ≡ true = ground (arith, h, e) in
      subst (λ n. in_tasks n ≡ true) (sym ((text_eq_iff name (text "tasks.note")).0 note)) refl
]

-- A run that is let hand work off is a chat's, of his own message, with no words of others in it, while
-- tasks are on; it notes the work when it is a turn of a call and delegates it otherwise.
pub rule-delegating :
    (s : TasksSettings) (run : Run) (name : Text) (steered : Bool)
    → delegating name ≡ true
    → rule s run name steered ≡ none
    → (s.enabled ≡ true)
      × (is_chat run.kind ≡ true)
      × (run.from_owner ≡ true)
      × (steered ≡ false)
      × (text_eq name (text "tasks.note") ≡ on_a_call run)
unfolding rule chat_rule delegating
rule-delegating s run name steered d h =
    let n : in_tasks name ≡ true = delegating-in_tasks name d in
    (
      ground (arith, d, h, n),
      ground (arith, d, h, n),
      ground (arith, d, h, n),
      ground (arith, d, h, n),
      ground (arith, d, h, n),
    )
