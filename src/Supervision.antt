-- ===== src/Supervision.antt =====
-- packages/core/jarvis_core/engine/supervision.py: budgets, the signals that summon the judge, and
-- what its verdict does. The clock is read by the caller and times are whole seconds; the judge's
-- model is what it streamed. The judge's prompt and the parser of JSON are not modelled.
pub mod Review
pub mod Steps
pub mod Heads
use jarvis.Prelude.{
  ℕ, zero, suc, ◌+◌, ◌-◌, ◌/◌, Bool, true, false, not, ◌&&◌, ◌||◌, Option, none, some, List, [],
  ◌∷◌, ◌++◌, Text, text, text_eq, ltb, leb, ◌==◌, if◌then◌else◌, keep, all, count_of, length, drop,
  last?, is_nil, decimal,
}
use jarvis.Proto.Runs.{Run, RunBudget, ModelUsage, processed_tokens}
use jarvis.Proto.Messages.{ToolResultKind, ToolResult}

pub record StepRecord : Type 0 where
  pub tool : Text
  pub args_hash : Text
  pub result_hash : Text
  pub args_summary : Text
  pub kind : ToolResultKind
  pub summary : Text

pub record RunWatch : Type 0 where
  pub budget : RunBudget
  pub started : ℕ
  pub paused_s : ℕ
  pub reviewed_at_s : ℕ
  pub steps : List StepRecord
  pub playbooks_shown : List Text
  pub declined : List Text
  pub empty_replies : ℕ
  pub nudges : ℕ
  pub plan_nudged : Bool
  pub thinking_off_retries : ℕ
  pub continued : Bool
  pub stop_now : Option Text
  pub answer_only : Bool

unfoldable pub new_watch : RunBudget → ℕ → RunWatch
new_watch budget now = record {
  budget = budget;
  started = now;
  paused_s = 0;
  reviewed_at_s = 0;
  steps = [];
  playbooks_shown = [];
  declined = [];
  empty_replies = 0;
  nudges = 0;
  plan_nudged = false;
  thinking_off_retries = 0;
  continued = false;
  stop_now = none;
  answer_only = false;
}

unfoldable pub elapsed_s : ℕ → RunWatch → ℕ
elapsed_s now watch = now - watch.started - watch.paused_s

-- The fields of a supervisor and the settings that it reads.
pub record Supervisor : Type 0 where
  pub repeated_call_threshold : ℕ
  pub progress_review_s : ℕ
  pub error_streak : ℕ
  pub max_nudges : ℕ

-- The texts of `budget_exceeded`, by the numbers that they quote.
pub data BudgetReason : Type 0 where
  steps_reached : ℕ → BudgetReason
  tokens_reached : ℕ → ℕ → BudgetReason
  time_reached : ℕ → BudgetReason

unfoldable pub budget_exceeded : ℕ → Run → RunWatch → Option BudgetReason
unfolding processed_tokens elapsed_s
budget_exceeded now run watch =
    if leb watch.budget.max_steps run.steps_used
    then some (BudgetReason.steps_reached watch.budget.max_steps)
    else if leb watch.budget.max_tokens (processed_tokens run.usage)
    then some (BudgetReason.tokens_reached (processed_tokens run.usage) run.usage.cached_tokens)
    else if leb watch.budget.max_seconds (elapsed_s now watch)
    then some (BudgetReason.time_reached watch.budget.max_seconds)
    else none

abbrev pub is_error : ToolResultKind → Bool
is_error ToolResultKind.error = true
is_error _ = false

unfoldable pub same_step : StepRecord → StepRecord → Bool
same_step last s = text_eq s.args_hash last.args_hash && text_eq s.result_hash last.result_hash

-- Python's `xs[-n:]`
unfoldable pub last_of {ℓ} : {A : Type ℓ} → ℕ → List A → List A
last_of zero xs = xs
last_of (suc n) xs = drop (length xs - suc n) xs

pub data Signal : Type 0 where
  repeated_call : Text → ℕ → Signal
  error_streak : ℕ → Signal
  review_due : ℕ → Signal

unfoldable pub structural : Supervisor → RunWatch → List Signal
unfolding same_step last_of count_of all
structural sup watch = elim (last? watch.steps) [
  | none ↦ []
  | some last ↦
      let same = count_of (same_step last) watch.steps in
      let tail = last_of sup.error_streak watch.steps in
      (if leb sup.repeated_call_threshold same
        then Signal.repeated_call last.tool same ∷ []
        else [])
      ++ (if length tail == sup.error_streak && all (λ s. is_error s.kind) tail
          then Signal.error_streak sup.error_streak ∷ []
          else [])
]

unfoldable pub check_due : Supervisor → ℕ → RunWatch → Option Signal
unfolding elapsed_s
check_due sup now watch =
    if sup.progress_review_s == 0
      || ltb (elapsed_s now watch - watch.reviewed_at_s) sup.progress_review_s
    then none
    else some (Signal.review_due (elapsed_s now watch / 60))

unfoldable pub signals : Supervisor → ℕ → RunWatch → List Signal
unfolding structural check_due
signals sup now watch =
    structural sup watch
    ++ (if is_nil watch.steps
        then []
        else elim (check_due sup now watch) [ none ↦ [] | some due ↦ due ∷ [] ])

-- The texts of the signals.
unfoldable pub signal_text : Signal → Text
unfolding text decimal
signal_text (Signal.repeated_call tool n) =
    text "repeated identical call with an identical result: " ++ tool ++ text " x" ++ decimal n
signal_text (Signal.error_streak n) = decimal n ++ text " consecutive tool errors"
signal_text (Signal.review_due n) = decimal n ++ text " min of work since the last progress check"

unfoldable pub detail_of : List Signal → Text
unfolding signal_text text
detail_of [] = []
detail_of (s ∷ []) = signal_text s
detail_of (s ∷ t ∷ ss) = signal_text s ++ text "; " ++ detail_of (t ∷ ss)
