-- ===== src/Prelude/Search.antt =====
-- Python's `str.startswith`, `endswith`, `split` on a dot, `strip` of given characters, `rfind`, `join`
-- and `lower`, on code points.
use Prim.Native.Nat.{ℕ, suc, ◌+◌, ◌≤◌}
use mathlib.Core.Path.{◌≡◌, refl}
use mathlib.Core.Bool.{Bool, true, false, ◌&&◌, ◌||◌}
use mathlib.Core.Option.{Option, none, some}
use mathlib.Core.List.{List, [], ◌∷◌, ◌++◌, reverse}
use native.Mathlib.Omega.{arith}
use jarvis.Prelude.Tests.{◌==◌, leb, if◌then◌else◌}
use jarvis.Prelude.Lists.{length}
use jarvis.Prelude.Texts.{Text}
use jarvis.Prelude.Strip.{lstrip, is_space, is_line_end}

-- One text begins another.
unfoldable pub starts : Text → Text → Bool
starts [] t = true
starts (a ∷ as') [] = false
starts (a ∷ as') (b ∷ bs) = a == b && starts as' bs

unfoldable pub ends : Text → Text → Bool
unfolding starts
ends suffix t = starts (reverse suffix) (reverse t)

pub starts_refl : (t : Text) → starts t t ≡ true
unfolding starts
starts_refl [] = refl
starts_refl (a ∷ as') = ground (arith, starts_refl as')

pub starts_trans : (a b c : Text) → starts a b ≡ true → starts b c ≡ true → starts a c ≡ true
unfolding starts
starts_trans [] b c h k = refl
starts_trans (x ∷ a) [] c h k = cc
starts_trans (x ∷ a) (y ∷ b) [] h k = cc
starts_trans (x ∷ a) (y ∷ b) (z ∷ c) h k = ground (arith, starts_trans a b c, h, k)

pub starts-length : (a b : Text) → starts a b ≡ true → length a ≤ length b
unfolding starts
starts-length [] b h = omega arith
starts-length (x ∷ a) [] h = cc
starts-length (x ∷ a) (y ∷ b) h = ground (arith, h, starts-length a b)

-- `t.split(".", 1)[0]`, and what is after the dot: none where there is no dot.
unfoldable pub before_dot : Text → Text
before_dot [] = []
before_dot (c ∷ cs) = let rest = before_dot cs in if c == 46 then [] else c ∷ rest

unfoldable pub after_dot : Text → Option Text
after_dot [] = none
after_dot (c ∷ cs) = let rest = after_dot cs in if c == 46 then some cs else rest

-- `t.lstrip(chars)` and `t.strip(chars)`.
unfoldable pub lstrip_of : (ℕ → Bool) → Text → Text
lstrip_of p [] = []
lstrip_of p (c ∷ cs) = let rest = lstrip_of p cs in if p c then rest else c ∷ cs

unfoldable pub strip_of : (ℕ → Bool) → Text → Text
unfolding lstrip_of
strip_of p t = reverse (lstrip_of p (reverse (lstrip_of p t)))

unfoldable pub rstrip : Text → Text
unfolding lstrip
rstrip t = reverse (lstrip (reverse t))

-- `t.rfind(s)`: where it last stands, none where Python gives -1.
unfoldable pub rfind : Text → Text → Option ℕ
unfolding starts
rfind s [] = if starts s [] then some 0 else none
rfind s (c ∷ cs) = elim (rfind s cs) [
  | some i ↦ some (suc i)
  | none ↦ if starts s (c ∷ cs) then some 0 else none
]

-- `s in t`
unfoldable pub contains : Text → Text → Bool
unfolding starts
contains s [] = starts s []
contains s (c ∷ cs) = starts s (c ∷ cs) || contains s cs

-- `sep.join(parts)`
unfoldable pub join : Text → List Text → Text
join sep [] = []
join sep (t ∷ []) = t
join sep (t ∷ u ∷ us) = t ++ sep ++ join sep (u ∷ us)

-- `str.lower` on the ASCII letters; the texts it is compared with have no others.
unfoldable pub lower : Text → Text
lower [] = []
lower (c ∷ cs) = (if leb 65 c && leb c 90 then c + 32 else c) ∷ lower cs

-- `t.split()`: the word that stands at the start, if any, and those after it.
unfoldable pub words_from : Text → Text × List Text
unfolding is_space
words_from [] = ([], [])
words_from (c ∷ cs) =
    let (word, rest) = words_from cs in
    if is_space c
    then ([], elim word [ [] ↦ rest | ◌∷◌ d ds ↦ (d ∷ ds) ∷ rest ])
    else (c ∷ word, rest)

unfoldable pub words : Text → List Text
unfolding words_from
words t = let (word, rest) = words_from t in elim word [ [] ↦ rest | ◌∷◌ c cs ↦ (c ∷ cs) ∷ rest ]

-- `t.splitlines()`: the line that stands at the start, whether it has an end, and those after it.
unfoldable pub lines_from : Text → Text × List Text
unfolding is_line_end
lines_from [] = ([], [])
lines_from (c ∷ cs) =
    let (line, rest) = lines_from cs in
    if c == 13 && starts (10 ∷ []) cs
    then (line, rest)
    else if is_line_end c
    then ([], elim cs [ [] ↦ rest | ◌∷◌ _ _ ↦ line ∷ rest ])
    else (c ∷ line, rest)

unfoldable pub splitlines : Text → List Text
unfolding lines_from
splitlines [] = []
splitlines (c ∷ cs) = let (line, rest) = lines_from (c ∷ cs) in line ∷ rest

pub join_cons :
    (sep t u : Text) (us : List Text) → join sep (t ∷ u ∷ us) ≡ t ++ sep ++ join sep (u ∷ us)
unfolding join
join_cons sep t u us = refl
