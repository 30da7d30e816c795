-- ===== src/Views/Lengths.antt =====
-- How long a view is: engine/views.py.
use jarvis.Prelude.{
  ℕ, ◌+◌, ◌-◌, ◌≤◌, ◌≡◌, refl, true, List, [], ◌∷◌, ◌++◌, map, Text, text, arith, leb, ltb, length,
  length-append, Holds, Bool-cases, inl, inr, if◌then◌else◌, join, join_cons, is_nil, leb→le,
}
use jarvis.Views.{Section, Doc, fit_from, fit_lines}
use jarvis.Views.Outline.{room_of, assemble, marker, outline_head, outline_line, render_outline}

-- What lines take with the ends of them.
abbrev cost : List Text → ℕ
cost [] = 0
cost (t ∷ ts) = length t + 1 + cost ts

length-after : (t u : Text) → length (t ++ 10 ∷ u) ≡ length t + 1 + length u
length-after t u = omega (arith, length-append t (10 ∷ u))

length-join_by :
    (sep t : Text) (ts : List Text)
    → length sep ≡ 1
    → length (join sep (t ∷ ts)) + 1 ≡ cost (t ∷ ts)
unfolding join
length-join_by sep t [] h = omega arith
length-join_by sep t (u ∷ us) h =
    let rest = join sep (u ∷ us) in
    rw (join_cons sep t u us) (
      omega
        (arith, h, length-append (t ++ sep) rest, length-append t sep, length-join_by sep u us h))

length-join : (t : Text) (ts : List Text) → length (join (10 ∷ []) (t ∷ ts)) + 1 ≡ cost (t ∷ ts)
length-join t ts = length-join_by (10 ∷ []) t ts refl

-- Lines that all fit take no more than the room.
cost-fit_from :
    (lines : List Text) (used room : ℕ)
    → used ≤ room
    → length lines ≤ fit_from used lines room
    → used + cost lines ≤ room
unfolding fit_from
cost-fit_from [] used room h k = omega (arith, h)
cost-fit_from (t ∷ ts) used room h k = elim (Bool-cases (ltb room (used + length t + 1))) [
  | inl e ↦ ground (arith, e, k)
  | inr e ↦ ground (arith, e, k, cost-fit_from ts (used + length t + 1) room)
]

-- What stands around the lines of a view.
length-framed :
    (before t : Text) (ts : List Text) (m : Text)
    → length (
        (if is_nil before then join (10 ∷ []) (t ∷ ts) else before ++ 10 ∷ join (10 ∷ []) (t ∷ ts))
        ++ 10 ∷ m)
      ≤ length before + 1 + cost (t ∷ ts) + length m
length-framed [] t ts m =
    let p : length (join (10 ∷ []) (t ∷ ts) ++ 10 ∷ m) ≤ 1 + cost (t ∷ ts) + length m =
      omega (arith, length-after (join (10 ∷ []) (t ∷ ts)) m, length-join t ts) in
    p
length-framed (c ∷ cs) t ts m =
    let body = join (10 ∷ []) (t ∷ ts) in
    let p : length (((c ∷ cs) ++ 10 ∷ body) ++ 10 ∷ m)
        ≤ length (c ∷ cs) + 1 + cost (t ∷ ts) + length m =
      omega (
        arith,
        length-after ((c ∷ cs) ++ 10 ∷ body) m,
        length-after (c ∷ cs) body,
        length-join t ts,
      ) in
    p

length-assemble :
    (doc : Doc) (t : Text) (ts : List Text) (shown : Text)
    → length (assemble doc (t ∷ ts) shown)
      ≤ length doc.preamble
        + 1
        + cost (t ∷ ts)
        + length (marker doc.ref doc.total_chars (length doc.sections) shown)
unfolding assemble
length-assemble doc t ts shown =
    length-framed doc.preamble t ts (marker doc.ref doc.total_chars (length doc.sections) shown)

length-map : (ss : List Section) → length (map outline_line ss) ≡ length ss
length-map [] = refl
length-map (s ∷ ss) = omega (arith, length-map ss)

cost-length : (ts : List Text) → length ts ≤ cost ts
cost-length [] = omega arith
cost-length (t ∷ ts) = omega (arith, cost-length ts)

-- An outline of which every line fits makes a view that is no longer than the limit.
pub length-render_outline :
    (doc : Doc) (limit : ℕ)
    → 1 ≤ length doc.sections
    → leb (length doc.sections) (
        fit_lines
          (map outline_line doc.sections)
          (room_of doc limit - (length (outline_head doc) + 1)))
      ≡ true
    → Holds (λ t. length t ≤ limit) (render_outline doc (room_of doc limit))
unfolding render_outline fit_lines room_of
length-render_outline doc limit h k =
    rw (render_outline, k, Holds)
      (omega (
        arith,
        h,
        length-assemble doc (outline_head doc) (map outline_line doc.sections) (text "outline"),
        cost-length (map outline_line doc.sections),
        length-map doc.sections,
        cost-fit_from (map outline_line doc.sections) 0
            (room_of doc limit - (length (outline_head doc) + 1)) (omega arith)
            (omega (arith, length-map doc.sections, leb→le _ _ k)),
      ))
