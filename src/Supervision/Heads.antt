-- ===== src/Supervision/Heads.antt =====
-- The head that the steps of a run share, and clipping (`_shared_head` and `_clip` of supervision.py).
use jarvis.Prelude.{
  starts, starts_refl, starts_trans, starts-length, ℕ, ◌-◌, ◌≤◌, ◌≡◌, refl, true, List, [], ◌∷◌,
  ◌++◌, Text, arith, ltb, leb, ◌==◌, if◌then◌else◌, All, length, length-append, length-take, take,
  inl, inr, Bool-cases,
}

unfoldable pub common : Text → Text → Text
common [] t = []
common (a ∷ as') [] = []
common (a ∷ as') (b ∷ bs) = let rest = common as' bs in if a == b then a ∷ rest else []

unfoldable pub narrow : ℕ → Text → List Text → Text
unfolding common
narrow minimum head [] = if leb minimum (length head) then head else []
narrow minimum head (t ∷ ts) =
    let rest = narrow minimum (common head t) ts in
    if ltb (length (common head t)) minimum then [] else rest

unfoldable pub shared_head : ℕ → List Text → Text
unfolding narrow
shared_head minimum [] = []
shared_head minimum (t ∷ []) = []
shared_head minimum (t ∷ u ∷ us) = narrow minimum t (u ∷ us)

unfoldable pub clip : ℕ → Text → Text
clip width t = if leb (length t) width then t else take (width - 1) t ++ 0x2026 ∷ []

length-clip : (width : ℕ) (t : Text) → 1 ≤ width → length (clip width t) ≤ width
unfolding clip
length-clip width t h =
    ground (arith, length-append (take (width - 1) t) (0x2026 ∷ []), length-take (width - 1) t)

common-starts : (a b : Text) → (starts (common a b) a ≡ true) × (starts (common a b) b ≡ true)
unfolding starts common
common-starts [] b = (refl, refl)
common-starts (x ∷ a) [] = (refl, refl)
common-starts (x ∷ a) (y ∷ b) = ground (arith, common-starts a b)

common-longest :
    (p a b : Text) → starts p a ≡ true → starts p b ≡ true → starts p (common a b) ≡ true
unfolding starts common
common-longest [] a b h k = refl
common-longest (z ∷ p) [] b h k = cc
common-longest (z ∷ p) (x ∷ a) [] h k = cc
common-longest (z ∷ p) (x ∷ a) (y ∷ b) h k = ground (arith, common-longest p a b, h, k)

abbrev pub StartsAll : Text → List Text → Type 0
StartsAll head ts = All (λ t. starts head t ≡ true) ts

StartsAll-shorter :
    (a b : Text) (ts : List Text) → starts a b ≡ true → StartsAll b ts → StartsAll a ts
StartsAll-shorter a b [] h s = tt
StartsAll-shorter a b (t ∷ ts) h s = (starts_trans a b t h s.0, StartsAll-shorter a b ts h s.1)

StartsAll-nil : (ts : List Text) → StartsAll [] ts
unfolding starts
StartsAll-nil [] = tt
StartsAll-nil (t ∷ ts) = (refl, StartsAll-nil ts)

-- The head found among `ts` after `head`.
record Narrowed (minimum : ℕ) (head : Text) (ts : List Text) (found : Text) : Type 0 where
  of_head : starts found head ≡ true
  of_all : StartsAll found ts
  longest :
      (p : Text)
      → minimum ≤ length p
      → starts p head ≡ true
      → StartsAll p ts
      → starts p found ≡ true

narrow-Narrowed :
    (minimum : ℕ) (head : Text) (ts : List Text) → Narrowed minimum head ts (narrow minimum head ts)
unfolding narrow starts
narrow-Narrowed minimum head [] = elim (Bool-cases (leb minimum (length head))) [
  | inl e ↦ rw (e) (record { of_head = starts_refl head; of_all = tt; longest = λ p m h a. h })
  | inr e ↦ rw (e) (record {
    of_head = refl;
    of_all = tt;
    longest = λ p m h a. ground (arith, e, m, starts-length p head);
  })
]
narrow-Narrowed minimum head (t ∷ ts) =
    let n = narrow-Narrowed minimum (common head t) ts in
    let c = common-starts head t in
    elim (Bool-cases (ltb (length (common head t)) minimum)) [
      | inl e ↦ rw (e) (record {
        of_head = refl;
        of_all = (refl, StartsAll-nil ts);
        longest = λ p m h a.
            ground (arith, e, m, starts-length p (common head t), common-longest p head t h a.0);
      })
      | inr e ↦ rw (e) (record {
        of_head = starts_trans _ (common head t) head n.of_head c.0;
        of_all = (starts_trans _ (common head t) t n.of_head c.1, n.of_all);
        longest = λ p m h a. n.longest p m (common-longest p head t h a.0) a.1;
      })
    ]

-- Every text of two or more begins with the head that they share.
pub shared_head-StartsAll :
    (minimum : ℕ) (t u : Text) (us : List Text)
    → StartsAll (shared_head minimum (t ∷ u ∷ us)) (t ∷ u ∷ us)
unfolding shared_head
shared_head-StartsAll minimum t u us =
    let n = narrow-Narrowed minimum t (u ∷ us) in (n.of_head, n.of_all)

-- No longer head was to be had: a beginning of at least `minimum` code points that two or more texts
-- all have is a beginning of the head that they share.
pub shared_head-longest :
    (minimum : ℕ) (t u : Text) (us : List Text) (p : Text)
    → minimum ≤ length p
    → StartsAll p (t ∷ u ∷ us)
    → starts p (shared_head minimum (t ∷ u ∷ us)) ≡ true
unfolding shared_head
shared_head-longest minimum t u us p m a =
    let n = narrow-Narrowed minimum t (u ∷ us) in n.longest p m a.0 a.1
