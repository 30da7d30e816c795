-- ===== src/Tasks/Wording.antt =====
-- What a delegated task is told and what is told of it: `brief_text`, `render_report`, `split_result` and
-- the small wordings of features/tasks.py, and `clip` of features/callme.py.
pub mod Lengths
use jarvis.Prelude.{
  ℕ, suc, ◌+◌, ◌-◌, ◌/◌, Bool, true, false, not, ◌&&◌, ◌||◌, Option, none, some, List, [], ◌∷◌,
  ◌++◌, map, Text, text, ltb, leb, decimal, if◌then◌else◌, is_some, or_else, is_nil, strip, rstrip,
  rfind, join, words, splitlines, length, take, starts,
}
use jarvis.Proto.Tasks.{Task, TaskState, TaskBrief, TaskOutcome, DodItem, DodResult, no_outcome}

unfoldable pub state_words : TaskState → Text
unfolding text
state_words TaskState.noted = text "noted"
state_words TaskState.queued = text "queued"
state_words TaskState.running = text "working"
state_words TaskState.waiting = text "waiting for your approval"
state_words TaskState.needs_input = text "needs your answer"
state_words TaskState.done = text "done"
state_words TaskState.partial = text "partly done"
state_words TaskState.not_done = text "not done"
state_words TaskState.failed = text "failed"
state_words TaskState.cancelled = text "cancelled"
state_words TaskState.dropped = text "dropped"

-- `if t` on a text that may be missing.
abbrev pub truthy : Option Text → Bool
truthy none = false
truthy (some t) = not (is_nil t)

-- A claim that is not verified has its reason.
unfoldable pub dod_line : DodResult → Text
unfolding text
dod_line r = elim r.met [
  | some true ↦
      if r.verified
      then text "- ✅ " ++ r.item
      else text "- ⚠"
        ++ (0xfe0f ∷ 32 ∷ [])
        ++ r.item
        ++ text " — claimed, not verified ("
        ++ or_else r.why (text "None")
        ++ text ")"
  | some false ↦
      text "- ❌ " ++ r.item ++ (if truthy r.note then text " — " ++ or_else r.note [] else [])
  | none ↦ text "- ◻" ++ (0xfe0f ∷ 32 ∷ []) ++ r.item ++ text " — not reported"
]

abbrev pub new_line : Text
new_line = 10 ∷ []

abbrev pub blank_line : Text
blank_line = 10 ∷ 10 ∷ []

unfoldable pub head_line : Task → Text
unfolding text state_words
head_line task = text "**Task: " ++ task.title ++ text " — " ++ state_words task.state ++ text "**"

-- The parts that are there, in order.
unfoldable pub present : List (Option Text) → List Text
present [] = []
present (none ∷ ps) = present ps
present (some t ∷ ps) = t ∷ present ps

abbrev pub when : Bool → Text → Option Text
when true t = some t
when false t = none

-- The words beside the head: the answer, or the summary where there is none, and the attached file.
unfoldable pub result_words : TaskOutcome → Text → Option Text → Text
unfolding strip text
result_words outcome answer attached =
    (if is_nil (strip answer) then strip outcome.summary else strip answer)
    ++ (if truthy attached
        then text "\n\n(The whole result is attached: " ++ or_else attached [] ++ text ".)"
        else [])

unfoldable pub render_report : Task → Text → Option Text → Text
unfolding head_line present result_words dod_line text join
render_report task answer attached =
    let outcome = or_else task.outcome no_outcome in
    let result = result_words outcome answer attached in
    join blank_line (
      present (
        some (head_line task)
        ∷ when (not (is_nil result)) result
        ∷ when (not (is_nil outcome.dod)) (join new_line (map dod_line outcome.dod))
        ∷ when (truthy outcome.stopped_reason)
            (text "Stopped: " ++ or_else outcome.stopped_reason [])
        ∷ []))

unfoldable pub report_answer_chars : ℕ
report_answer_chars = 6000

-- Where a long result is cut: at a blank line in the second half of what fits, or where it must be.
unfoldable pub cut_at : Text → ℕ → ℕ
unfolding rfind
cut_at body limit = elim (rfind blank_line (take limit body)) [
  | none ↦ limit
  | some cut ↦ if ltb (limit / 2) cut then cut else limit
]

unfoldable pub split_result : Text → ℕ → Text × Option Text
unfolding strip cut_at rstrip
split_result whole limit =
    let body = strip whole in
    if leb (length body) limit
    then (body, none)
    else (rstrip (take (cut_at body limit) body), some body)

-- The first message of a task's run.
unfoldable pub quoted : List Text → List Text
unfolding text splitlines
quoted [] = []
quoted (t ∷ ts) = map (λ line. text "> " ++ line) (splitlines t) ++ quoted ts

unfoldable pub numbered : ℕ → List DodItem → List Text
unfolding text decimal
numbered i [] = []
numbered i (d ∷ ds) =
    (decimal i
      ++ text ". "
      ++ d.item
      ++ (if d.outward
          then text " (outward: done only by an action that went out as itself)"
          else []))
    ∷ numbered (suc i) ds

unfoldable pub bullets : List Text → Text
unfolding text join
bullets ts = join new_line (map (λ t. text "- " ++ t) ts)

unfoldable pub brief_text : Task → Text → Text → Text
unfolding text present quoted numbered bullets join
brief_text task user call =
    let b = task.brief in
    join blank_line (
      present (
        some (text "# Task: " ++ task.title)
        ∷ when (not b.written) (
            text
              "Its brief is not written yet: write it first, with task.brief - goal, context, a checkable Definition of Done - from his words and where he asked it, below.")
        ∷ when (not (is_nil b.goal)) (text "## Goal\n" ++ b.goal)
        ∷ when (not (is_nil b.asked)) (
            text "## "
            ++ user
            ++ text "'s own words (as he said them)\n"
            ++ join new_line (quoted b.asked))
        ∷ when (not (is_nil b.context)) (text "## Context\n" ++ b.context)
        ∷ when (not (is_nil b.constraints)) (text "## Constraints\n" ++ bullets b.constraints)
        ∷ when (not (is_nil b.dod))
            (text "## Definition of Done\n" ++ join new_line (numbered 1 b.dod))
        ∷ when (not (is_nil b.approvals)) (text "## Needs his approval\n" ++ bullets b.approvals)
        ∷ when (not (is_nil b.assumptions))
            (text "## Assumed (he did not say)\n" ++ bullets b.assumptions)
        ∷ when (not (is_nil call)) (text "## Where he asked it (as it was said)\n" ++ call)
        ∷ []))

-- `t.rsplit(" ", 1)[0]`
unfoldable pub before_last_space : Text → Text
unfolding rfind
before_last_space t = elim (rfind (32 ∷ []) t) [ none ↦ t | some i ↦ take i t ]

-- `clip` of features/callme.py.
unfoldable pub clip : Text → ℕ → Text
unfolding before_last_space
clip t limit =
    if leb (length t) limit then t else before_last_space (take (limit - 1) t) ++ 0x2026 ∷ []

unfoldable pub one_line : Text → ℕ → Text
unfolding clip words join
one_line t limit = clip (join (32 ∷ []) (words t)) limit

unfoldable pub short_title : Text → Text
unfolding one_line text
short_title title = let short = one_line title 80 in if is_nil short then text "Task" else short

-- The answer that a task asks him for.
unfoldable pub question_of : Task → Option Text
question_of task = elim task.outcome [ none ↦ none | some o ↦ o.question ]

unfoldable pub waiting_line : Task → Text
unfolding text one_line question_of
waiting_line task = elim task.state [
  | TaskState.waiting ↦ elim task.waiting [
    | none ↦ []
    | some w ↦
        text "It waits for your OK on "
        ++ w.name
        ++ text " - approve or deny it on the task's card."
  ]
  | TaskState.needs_input ↦
      if truthy (question_of task)
      then text "It asks: \""
        ++ one_line (or_else (question_of task) []) 300
        ++ text "\" - answer on the task's card."
      else []
  | _ ↦ []
]

-- `is_alnum` is `str.isalnum` of one character.
unfoldable pub file_stem : (ℕ → Bool) → Text → Text
unfolding words join text
file_stem is_alnum title =
    let stem = take 60 (join (45 ∷ []) (words (map (λ c. if is_alnum c then c else 32) title))) in
    if is_nil stem then text "result" else stem
