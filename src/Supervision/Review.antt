-- ===== src/Supervision/Review.antt =====
-- `Supervisor.review`, `_ask_judge` and `_parse_verdict` of supervision.py. `loads` is what
-- `json.loads` makes of an object, each value by its `str` (none where it raises), `repr` is Python's.
pub mod Laws
use jarvis.Prelude.{
  lower, ℕ, zero, suc, ◌+◌, ◌-◌, Bool, true, false, not, ◌&&◌, ◌||◌, Option, none, some, List, [],
  ◌∷◌, ◌++◌, Text, text, text_eq, ltb, leb, ◌==◌, if◌then◌else◌, take, drop, is_nil, is_some,
  or_else, map, strip, decimal,
}
use jarvis.Prelude.Dicts.{Dict, get}
use jarvis.Proto.Runs.{Run, ModelUsage, add}
use jarvis.Proto.Events.{Advice, Body, guard_armed, guard_consumed, judge_verdict}
use jarvis.Supervision.{Supervisor, RunWatch, elapsed_s, structural, signals, detail_of}

pub record Verdict : Type 0 where
  pub verdict : Advice
  pub reason : Text

-- What the judge's model streams, and the class of the exception that ended it, if one did.
pub data Chunk : Type 0 where
  text_chunk : Text → Chunk
  done_chunk : ModelUsage → Chunk
  other_chunk : Chunk

pub record Reply : Type 0 where
  pub chunks : List Chunk
  pub failed : Option Text

unfoldable pub texts_of : List Chunk → Text
texts_of [] = []
texts_of (Chunk.text_chunk t ∷ cs) = t ++ texts_of cs
texts_of (Chunk.done_chunk u ∷ cs) = texts_of cs
texts_of (Chunk.other_chunk ∷ cs) = texts_of cs

unfoldable pub usage_of : List Chunk → ModelUsage → ModelUsage
unfolding add
usage_of [] u = u
usage_of (Chunk.done_chunk v ∷ cs) u = usage_of cs (add u v)
usage_of (Chunk.text_chunk t ∷ cs) u = usage_of cs u
usage_of (Chunk.other_chunk ∷ cs) u = usage_of cs u

-- `text.find(c)` and `text.rfind(c)` for one code point, none where Python gives -1.
unfoldable pub find_char : ℕ → Text → Option ℕ
find_char c [] = none
find_char c (x ∷ xs) =
    if x == c then some 0 else elim (find_char c xs) [ none ↦ none | some i ↦ some (suc i) ]

unfoldable pub rfind_char : ℕ → Text → Option ℕ
rfind_char c [] = none
rfind_char c (x ∷ xs) = elim (rfind_char c xs) [
  | some i ↦ some (suc i)
  | none ↦ if x == c then some 0 else none
]

unfoldable pub advice_of : Text → Option Advice
unfolding text text_eq
advice_of v =
    if text_eq v (text "continue")
    then some Advice.continue
    else if text_eq v (text "nudge")
    then some Advice.nudge
    else if text_eq v (text "stop")
    then some Advice.stop
    else none

abbrev pub is_nudge : Advice → Bool
is_nudge Advice.nudge = true
is_nudge _ = false

unfoldable pub unanswered : Bool → Text → Verdict
unfolding text
unanswered true name = record {
  verdict = Advice.continue;
  reason = text "supervisor could not evaluate progress (" ++ name ++ text "); carrying on";
}
unanswered false name = record {
  verdict = Advice.stop;
  reason = text "supervisor could not evaluate progress (" ++ name ++ text "); stopping";
}

-- `nudge` past the limit is a stop.
unfoldable pub limited : Supervisor → RunWatch → Verdict → Verdict
unfolding text decimal
limited sup watch v =
    if is_nudge v.verdict && leb sup.max_nudges watch.nudges
    then record {
      verdict = Advice.stop;
      reason = v.reason ++ text " (nudged " ++ decimal watch.nudges ++ text " times already)";
    }
    else v

pub record Reviewed : Type 0 where
  pub verdict : Option Verdict
  pub run : Run
  pub watch : RunWatch
  pub emitted : List Body

module _ (loads : Text → Option (Dict Text)) (repr : Text → Text) where
  unfoldable pub not_parseable : Text → Verdict
  unfolding text
  not_parseable t = record {
    verdict = Advice.stop;
    reason = text "judge answer was not parseable: " ++ repr (take 120 t);
  }

  unfoldable pub verdict_in : Text → Dict Text → Verdict
  unfolding text advice_of strip lower not_parseable
  verdict_in t data' = elim (advice_of (lower (strip (or_else (get (text "verdict") data') [])))) [
    | none ↦ not_parseable t
    | some v ↦
        let reason = strip (or_else (get (text "reason") data') []) in
        record { verdict = v; reason = if is_nil reason then text "no reason given" else reason }
  ]

  unfoldable pub parse_slice : Text → Option ℕ → Option ℕ → Verdict
  unfolding verdict_in not_parseable
  parse_slice t (some start) (some end) =
      if ltb start end
      then elim (loads (drop start (take (suc end) t))) [
        | none ↦ not_parseable t
        | some data' ↦ verdict_in t data'
      ]
      else not_parseable t
  parse_slice t (some start) none = not_parseable t
  parse_slice t none end = not_parseable t

  unfoldable pub parse_verdict : Text → Verdict
  unfolding parse_slice find_char rfind_char
  parse_verdict t = parse_slice t (find_char 123 t) (rfind_char 125 t)

  unfoldable pub ask_judge : Reply → Bool → Verdict
  unfolding parse_verdict unanswered texts_of
  ask_judge reply routine = elim reply.failed [
    | none ↦ parse_verdict (texts_of reply.chunks)
    | some name ↦ unanswered routine name
  ]

  -- `now` is the clock when the signals are read, `later` when the judge has answered.
  unfoldable pub review : Supervisor → ℕ → ℕ → Reply → Run → RunWatch → Reviewed
  unfolding signals structural detail_of ask_judge limited usage_of elapsed_s text
  review sup now later reply run watch =
      let found = signals sup now watch in
      if is_nil found
      then record { verdict = none; run = run; watch = watch; emitted = [] }
      else (let v = limited sup watch (ask_judge reply (is_nil (structural sup watch))) in
          record {
            verdict = some v;
            run = record run { usage = usage_of reply.chunks run.usage };
            watch = record watch {
              reviewed_at_s = elapsed_s later watch;
              nudges = if is_nudge v.verdict then suc watch.nudges else watch.nudges;
            };
            emitted =
                guard_armed (text "progress") (detail_of found)
                ∷ judge_verdict v.verdict v.reason
                ∷ guard_consumed (text "progress") v.verdict
                ∷ [];
          })
