-- ===== src/Supervision/Steps.antt =====
-- What the steps of a run say to the supervisor (`_structural` and `budget_exceeded`
-- of supervision.py).
use jarvis.Prelude.{
  ℕ, suc, ◌<◌, ◌≡◌, ◌↔◌, refl, sym, ap, ◌∙◌, true, false, none, some, List, [], ◌∷◌, ◌++◌, arith,
  is_nil, all, length, length-append, drop, last?,
}
use jarvis.Proto.Runs.{Run, processed_tokens}
use jarvis.Supervision.{
  Supervisor, RunWatch, StepRecord, budget_exceeded, elapsed_s, structural, last_of, is_error,
}

drop-append {ℓ} : {A : Type ℓ} (xs ys : List A) → drop (length xs) (xs ++ ys) ≡ ys
drop-append [] ys = refl
drop-append (x ∷ xs) ys = drop-append xs ys

last_of-append {ℓ} :
    {A : Type ℓ} (n : ℕ) (xs ys : List A) → length ys ≡ suc n → last_of (suc n) (xs ++ ys) ≡ ys
unfolding last_of
last_of-append n xs ys h =
    ap (λ k. drop k (xs ++ ys)) (omega (arith, length-append xs ys)) ∙ drop-append xs ys

last_some {ℓ} : {A : Type ℓ} (x : A) (xs : List A) → (y : A) × (last? (x ∷ xs) ≡ some y)
last_some x [] = (x, refl)
last_some x (y ∷ ys) = last_some y ys

last_append {ℓ} :
    {A : Type ℓ} (xs : List A) (y : A) (ys : List A) → (z : A) × (last? (xs ++ y ∷ ys) ≡ some z)
last_append [] y ys = last_some y ys
last_append (x ∷ []) y ys = last_some y ys
last_append (x ∷ x' ∷ xs) y ys = last_append (x' ∷ xs) y ys

nil-append {ℓ} : {A : Type ℓ} (xs : List A) (y : A) → is_nil (xs ++ y ∷ []) ≡ false
nil-append [] y = refl
nil-append (x ∷ xs) y = refl

signalled :
    (sup : Supervisor) (watch : RunWatch) (tail : List StepRecord) (last : StepRecord)
    → last? watch.steps ≡ some last
    → last_of sup.error_streak watch.steps ≡ tail
    → length tail ≡ sup.error_streak
    → all (λ s. is_error s.kind) tail ≡ true
    → is_nil (structural sup watch) ≡ false
unfolding structural
signalled sup watch tail last f t l e = rw (f, t, structural) (ground (arith, l, e))

-- However long the run was before, as many errors in a row as the streak asks for are a structural
-- signal, where the streak is at least one.
pub structural-errors :
    (sup : Supervisor) (watch : RunWatch) (n : ℕ) (old errors : List StepRecord)
    → sup.error_streak ≡ suc n
    → watch.steps ≡ old ++ errors
    → length errors ≡ suc n
    → all (λ s. is_error s.kind) errors ≡ true
    → is_nil (structural sup watch) ≡ false
structural-errors sup watch n old [] k h l e = cc
structural-errors sup watch n old (x ∷ xs) k h l e =
    let (z, f) = last_append old x xs in
    signalled sup watch (x ∷ xs) z (ap last? h ∙ f)
      (ap (λ j. last_of j watch.steps) k ∙ ap (last_of (suc n)) h ∙ last_of-append n old (x ∷ xs) l)
      (l ∙ sym k) e

-- The budget stops a run exactly when one of its three parts is used up: nothing is said if and only
-- if fewer model calls, fewer processed tokens and fewer seconds of work than it allows are used.
pub budget_exceeded-none :
    (now : ℕ) (run : Run) (watch : RunWatch)
    → (budget_exceeded now run watch ≡ none) ↔ (
        (run.steps_used < watch.budget.max_steps)
        × (processed_tokens run.usage < watch.budget.max_tokens)
        × (elapsed_s now watch < watch.budget.max_seconds))
unfolding budget_exceeded
budget_exceeded-none now run watch = ground arith
