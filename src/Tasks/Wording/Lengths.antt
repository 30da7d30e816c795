-- ===== src/Tasks/Wording/Lengths.antt =====
-- How long the wordings of features/tasks.py can be.
use jarvis.Prelude.{
  ℕ, ◌-◌, ◌≤◌, ◌≡◌, refl, none, some, [], ◌∷◌, Text, arith, leb, if◌then◌else◌, strip, lstrip,
  rstrip, rfind, length, take, length-take, length-append, Option-cases, Bool-cases, inl, inr,
}
use mathlib.Core.List.{reverse, reverse-cons}
use jarvis.Tasks.Wording.{split_result, cut_at, clip, before_last_space, blank_line}

length-lstrip : (t : Text) → length (lstrip t) ≤ length t
unfolding lstrip
length-lstrip [] = omega arith
length-lstrip (c ∷ cs) = ground (arith, length-lstrip cs)

length-reverse : (t : Text) → length (reverse t) ≡ length t
length-reverse [] = refl
length-reverse (c ∷ cs) =
    rw (reverse-cons c cs) (omega (arith, length-append (reverse cs) (c ∷ []), length-reverse cs))

length-rstrip : (t : Text) → length (rstrip t) ≤ length t
unfolding rstrip
length-rstrip t =
    omega (arith, length-reverse (lstrip (reverse t)), length-lstrip (reverse t), length-reverse t)

rfind-lt : (s t : Text) (i : ℕ) → rfind s t ≡ some i → i ≤ length t
unfolding rfind
rfind-lt s [] i h = ground (arith, h)
rfind-lt s (c ∷ cs) i h = elim (Option-cases (rfind s cs)) [
  | inl e ↦ ground (arith, h, e)
  | inr (j, e) ↦ ground (arith, h, e, rfind-lt s cs j e)
]

cut_at-le : (body : Text) (limit : ℕ) → cut_at body limit ≤ limit
unfolding cut_at
cut_at-le body limit = elim (Option-cases (rfind blank_line (take limit body))) [
  | inl e ↦ rw (cut_at, e) (omega arith)
  | inr (cut, e) ↦
      ground (arith, e, rfind-lt blank_line (take limit body) cut e, length-take limit body)
]

-- What a report shows of a result is at most as long as the limit, and the whole of a result is
-- attached exactly when it does not fit.
pub length-split_result :
    (whole : Text) (limit : ℕ)
    → (length (split_result whole limit).0 ≤ limit)
      × ((split_result whole limit).1
          ≡ (if leb (length (strip whole)) limit then none else some (strip whole)))
unfolding split_result
length-split_result whole limit = elim (Bool-cases (leb (length (strip whole)) limit)) [
  | inl e ↦ rw e (ground (arith, e), refl)
  | inr e ↦ rw e (
    omega (
      arith,
      length-rstrip (take (cut_at (strip whole) limit) (strip whole)),
      length-take (cut_at (strip whole) limit) (strip whole),
      cut_at-le (strip whole) limit,
    ),
    refl,
  )
]

length-before_last_space : (t : Text) → length (before_last_space t) ≤ length t
unfolding before_last_space
length-before_last_space t = elim (Option-cases (rfind (32 ∷ []) t)) [
  | inl e ↦ rw (before_last_space, e) (omega arith)
  | inr (i, e) ↦ rw (before_last_space, e) (omega (arith, length-take i t))
]

-- A clipped text has at most the limit's characters.
pub length-clip : (t : Text) (limit : ℕ) → 1 ≤ limit → length (clip t limit) ≤ limit
unfolding clip
length-clip t limit h = ground (
  arith,
  h,
  length-append (before_last_space (take (limit - 1) t)) (0x2026 ∷ []),
  length-before_last_space (take (limit - 1) t),
  length-take (limit - 1) t,
)
