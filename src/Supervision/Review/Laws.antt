-- ===== src/Supervision/Review/Laws.antt =====
-- What reviews may do to a run (`Supervisor.review` of supervision.py).
use jarvis.Prelude.{
  ℕ, ◌+◌, ◌≤◌, ◌≡◌, refl, ap, ◌∙◌, Bool, true, false, not, Option, none, some, List, [], ◌∷◌, ◌++◌,
  Text, arith, if◌then◌else◌, is_nil, is_some, length,
}
use jarvis.Prelude.Dicts.{Dict}
use jarvis.Proto.Runs.{Run, RunBudget}
use jarvis.Proto.Events.{Advice}
use jarvis.Supervision.{Supervisor, RunWatch, StepRecord, new_watch, elapsed_s, structural, signals}
use jarvis.Supervision.Review.{
  Reply, Verdict, is_nudge, limited, ask_judge, unanswered, review, usage_of,
}

-- One more step of the run, then a review of it.
pub record Round : Type 0 where
  pub steps : List StepRecord
  pub now : ℕ
  pub later : ℕ
  pub reply : Reply
  pub run : Run

advice_unanswered :
    (routine : Bool) (name : Text)
    → (unanswered routine name).verdict ≡ (if routine then Advice.continue else Advice.stop)
unfolding unanswered
advice_unanswered true name = refl
advice_unanswered false name = refl

module _ (loads : Text → Option (Dict Text)) (repr : Text → Text) where
  abbrev pub nudged : Option Verdict → ℕ
  nudged none = 0
  nudged (some v) = if is_nudge v.verdict then 1 else 0

  -- The reviews of a run, one after the other: the watch they leave and the nudges they gave.
  unfoldable pub reviews : Supervisor → List Round → RunWatch → RunWatch × ℕ
  unfolding review
  reviews sup [] watch = (watch, 0)
  reviews sup (r ∷ rs) watch =
      let out =
        review loads repr sup r.now r.later r.reply r.run
          (record watch { steps = watch.steps ++ r.steps }) in
      let rest = reviews sup rs out.watch in (rest.0, nudged out.verdict + rest.1)

  review_counts :
      (sup : Supervisor) (now later : ℕ) (reply : Reply) (run : Run) (watch : RunWatch)
      → ((review loads repr sup now later reply run watch).watch.nudges
          ≡ watch.nudges + nudged (review loads repr sup now later reply run watch).verdict)
        × (watch.nudges ≤ sup.max_nudges
            → (review loads repr sup now later reply run watch).watch.nudges ≤ sup.max_nudges)
  unfolding review limited
  review_counts sup now later reply run watch = ground arith

  reviews_count :
      (sup : Supervisor) (rs : List Round) (watch : RunWatch)
      → watch.nudges ≤ sup.max_nudges
      → ((reviews sup rs watch).0.nudges ≡ watch.nudges + (reviews sup rs watch).1)
        × ((reviews sup rs watch).0.nudges ≤ sup.max_nudges)
  unfolding reviews
  reviews_count sup [] watch h = ground arith
  reviews_count sup (r ∷ rs) watch h =
      let watch' : RunWatch = record watch { steps = watch.steps ++ r.steps } in
      let c = review_counts sup r.now r.later r.reply r.run watch' in
      let s =
        reviews_count sup rs (review loads repr sup r.now r.later r.reply r.run watch').watch
          (c.1 h) in
      ground (arith, c, s)

  -- However often a run is reviewed, and whatever the judge answers, it is nudged at most
  -- `max_nudges` times: what the judge says after that to the same effect is carried out as a stop.
  pub reviews-max_nudges :
      (sup : Supervisor) (budget : RunBudget) (started : ℕ) (rs : List Round)
      → (reviews sup rs (new_watch budget started)).1 ≤ sup.max_nudges
  unfolding new_watch
  reviews-max_nudges sup budget started rs =
      let s = reviews_count sup rs (new_watch budget started) (ground arith) in ground (arith, s)

  -- A review with no signal asks nobody: it gives no verdict and no event. With a signal there is a
  -- verdict and exactly three events, and the next progress check is counted from the judge's answer.
  -- Neither touches the steps of the run.
  pub review-signals :
      (sup : Supervisor) (now later : ℕ) (reply : Reply) (run : Run) (watch : RunWatch)
      → let out = review loads repr sup now later reply run watch in
        let quiet = is_nil (signals sup now watch) in
        (is_some out.verdict ≡ not quiet)
        × (length out.emitted ≡ (if quiet then 0 else 3))
        × (out.watch.reviewed_at_s ≡ (if quiet then watch.reviewed_at_s else elapsed_s later watch))
        × (out.run.usage ≡ (if quiet then run.usage else usage_of reply.chunks run.usage))
        × (out.watch.steps ≡ watch.steps)
  unfolding review
  review-signals sup now later reply run watch = ground arith

  unreachable :
      (sup : Supervisor) (reply : Reply) (name : Text) (watch : RunWatch) (routine : Bool)
      → reply.failed ≡ some name
      → limited sup watch (ask_judge loads repr reply routine) ≡ unanswered routine name
  unfolding limited ask_judge unanswered
  unreachable sup reply name watch true f = rw (f) refl
  unreachable sup reply name watch false f = rw (f) refl

  verdict_given :
      (sup : Supervisor) (now later : ℕ) (reply : Reply) (run : Run) (watch : RunWatch)
      → is_nil (signals sup now watch) ≡ false
      → (review loads repr sup now later reply run watch).verdict
        ≡ some (limited sup watch (ask_judge loads repr reply (is_nil (structural sup watch))))
  unfolding review
  verdict_given sup now later reply run watch h = rw (h) refl

  -- A judge that cannot be reached, asked because of some signal, stops the run when there is
  -- structural evidence, and lets it carry on when the check was merely due.
  pub review-unreachable :
      (sup : Supervisor) (now later : ℕ) (reply : Reply) (name : Text) (run : Run)
      (watch : RunWatch)
      → reply.failed ≡ some name
      → is_nil (signals sup now watch) ≡ false
      → (v : Verdict) × ((review loads repr sup now later reply run watch).verdict ≡ some v)
        × (v.verdict ≡ (if is_nil (structural sup watch) then Advice.continue else Advice.stop))
  review-unreachable sup now later reply name run watch f h = (
    unanswered (is_nil (structural sup watch)) name,
    verdict_given sup now later reply run watch h
        ∙ ap some (unreachable sup reply name watch (is_nil (structural sup watch)) f),
    advice_unanswered (is_nil (structural sup watch)) name,
  )
