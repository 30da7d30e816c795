-- ===== src/Views/Fitting.antt =====
-- How a view's lines are made to fit: engine/views.py.
use jarvis.Prelude.{
  is_some, ℕ, zero, suc, ◌+◌, ◌-◌, ◌≤◌, ◌≡◌, refl, Bool, true, false, ◌||◌, some, List, [], ◌∷◌,
  ◌++◌, arith, leb, length, drop, take-append-drop, length-drop, Holds, Bool-cases, inl, inr,
}
use jarvis.Views.{Section, Doc}
use jarvis.Views.Outline.{
  outline_head, room_of, ranges, group_fits, regroup, first_groups, render, render_outline,
  render_grouped,
}

or-false : (a b : Bool) → (a || b) ≡ false → (a ≡ false) × (b ≡ false)
or-false true b h = cc
or-false false b h = (refl, h)

-- The loop that widens the ranges ends, with two groups at least and no more than it began with: with
-- ranges whose lines all fit, or with two.
pub regroup-settles :
    (fuel : ℕ) (doc : Doc) (room groups : ℕ)
    → 2 ≤ groups
    → groups ≤ fuel
    → (g : ℕ) × (regroup fuel doc room groups ≡ some g)
      × (2 ≤ g)
      × (g ≤ groups)
      × ((group_fits doc room g || leb g 2) ≡ true)
unfolding regroup
regroup-settles zero doc room groups h k = absurd (omega (arith, h, k))
regroup-settles (suc fuel) doc room groups h k =
    elim (Bool-cases (group_fits doc room groups || leb groups 2)) [
      | inl e ↦ (groups, rw (regroup, e) refl, h, omega arith, e)
      | inr e ↦
          let f = or-false (group_fits doc room groups) (leb groups 2) e in
          let (g, r, a, b, c) =
            regroup-settles fuel doc room (groups - 1) (ground (arith, f.1)) (omega (arith, k)) in
          (g, rw (regroup, e) r, a, omega (arith, b), c)
    ]

fits-less :
    (doc : Doc) (room groups k : ℕ)
    → k ≤ groups
    → group_fits doc room k ≡ true
    → group_fits doc room groups ≡ false
    → k ≤ groups - 1
fits-less doc room groups k h f e = grind arith

-- No number of groups whose lines all fit is passed over for a smaller one.
pub regroup-most :
    (fuel : ℕ) (doc : Doc) (room groups k : ℕ)
    → k ≤ groups
    → group_fits doc room k ≡ true
    → Holds (λ g. k ≤ g) (regroup fuel doc room groups)
unfolding regroup
regroup-most zero doc room groups k h f = tt
regroup-most (suc fuel) doc room groups k h f =
    elim (Bool-cases (group_fits doc room groups || leb groups 2)) [
      | inl e ↦ rw (regroup, e, Holds) h
      | inr e ↦
          rw (regroup, e)
            (regroup-most fuel doc room (groups - 1) k
              (fits-less doc room groups k h f
                (or-false (group_fits doc room groups) (leb groups 2) e).0)
              f)
    ]

unfoldable pub concat : List (List Section) → List Section
concat [] = []
concat (ss ∷ rest) = ss ++ concat rest

-- The ranges hold every section once, in order.
pub ranges-all :
    (fuel per : ℕ) (ss : List Section)
    → 1 ≤ per
    → length ss ≤ fuel
    → concat (ranges fuel per ss) ≡ ss
unfolding ranges concat
ranges-all zero per [] h k = refl
ranges-all zero per (s ∷ ss) h k = absurd (omega (arith, k))
ranges-all (suc fuel) per [] h k = refl
ranges-all (suc fuel) per (s ∷ ss) h k =
    rw (ranges-all fuel per (drop per (s ∷ ss)) h (omega (arith, h, k, length-drop per (s ∷ ss))))
      (take-append-drop per (s ∷ ss))

render_grouped-returns : (doc : Doc) (room : ℕ) → is_some (render_grouped doc room) ≡ true
unfolding render_grouped first_groups
render_grouped-returns doc room =
    let groups = first_groups doc room in
    let (g, r, a, b, c) = regroup-settles groups doc room groups (omega arith) (omega arith) in
    rw (render_grouped, r) refl

render_outline-returns : (doc : Doc) (room : ℕ) → is_some (render_outline doc room) ≡ true
unfolding render_outline
render_outline-returns doc room =
    ground (arith, render_grouped-returns doc (room - (length (outline_head doc) + 1)))

-- A view is made of every document under every limit: the loop that widens the ranges always ends.
pub render-returns : (doc : Doc) (limit : ℕ) → is_some (render doc limit) ≡ true
unfolding render
render-returns doc limit = ground (arith, render_outline-returns doc (room_of doc limit))
