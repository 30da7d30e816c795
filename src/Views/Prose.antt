-- ===== src/Views/Prose.antt =====
-- The sections of a text: `_text_doc`, `_chunk_bounds` and `_first_line` of engine/views.py.
use jarvis.Prelude.{
  ℕ, zero, suc, ◌+◌, ◌-◌, ◌*◌, ◌<◌, ◌≤◌, ◌≡◌, not, ◌&&◌, ◌||◌, Option, none, some, List, [], ◌∷◌,
  ◌++◌, Text, text, arith, ltb, leb, ◌==◌, if◌then◌else◌, is_nil, is_some, strip, lstrip, strip_of,
  decimal, length, take, drop, any, Bool-cases, inl, inr,
}
use jarvis.Views.{Section, Doc, Shape, short}

-- `text.split("\n")`: the line at the start and those after it.
unfoldable lines_of : Text → Text × List Text
lines_of [] = ([], [])
lines_of (c ∷ cs) =
    let (line, rest) = lines_of cs in if c == 10 then ([], line ∷ rest) else (c ∷ line, rest)

abbrev pub chunk_chars : ℕ
chunk_chars = 3000

-- A segment is a line, or a piece of one, with its offset.
abbrev pub Segment : Type 0
Segment = Text × ℕ

-- The pieces of a long line; it has no more of them than characters.
unfoldable pieces : ℕ → Text → ℕ → List Segment
pieces zero line p = []
pieces (suc fuel) [] p = []
pieces (suc fuel) (c ∷ cs) p =
    (take chunk_chars (c ∷ cs), p) ∷ pieces fuel (drop chunk_chars (c ∷ cs)) (p + chunk_chars)

unfoldable segments_from : List Text → ℕ → List Segment
unfolding pieces
segments_from [] p = []
segments_from (line ∷ lines) p =
    let rest = segments_from lines (p + length line + 1) in
    if ltb (2 * chunk_chars) (length line)
    then pieces (length line) line p ++ rest
    else (line, p) ∷ rest

unfoldable pub segments : Text → List Segment
unfolding lines_of segments_from
segments t = let (line, rest) = lines_of t in segments_from (line ∷ rest) 0

-- How many `#` a line begins with, and what is after them.
unfoldable hashes : Text → ℕ × Text
hashes [] = (0, [])
hashes (c ∷ cs) = let (n, rest) = hashes cs in if c == 35 then (suc n, rest) else (0, c ∷ cs)

-- The words of a heading: one to six `#`, white space, and something that is none.
unfoldable heading : Text → Option Text
unfolding hashes lstrip
heading line =
    let (n, rest) = hashes line in
    let words = lstrip rest in
    if leb 1 n && leb n 6 && ltb (length words) (length rest) && not (is_nil words)
    then some words
    else none

unfoldable heads_from : ℕ → List Segment → List ℕ
unfolding heading
heads_from i [] = []
heads_from i (s ∷ ss) =
    let rest = heads_from (i + 1) ss in if is_some (heading s.0) then i ∷ rest else rest

-- The bounds after the first. A chunk closes at the first blank line once it holds a chunk's worth, or
-- hard at two, and never after the last segment.
unfoldable bounds_from : ℕ → ℕ → List Segment → List ℕ
unfolding strip
bounds_from i size [] = []
bounds_from i size (s ∷ []) = []
bounds_from i size (s ∷ t ∷ ts) =
    let grown = size + length s.0 + 1 in
    let closes = (leb chunk_chars grown && is_nil (strip s.0)) || leb (2 * chunk_chars) grown in
    let rest = bounds_from (i + 1) (if closes then 0 else grown) (t ∷ ts) in
    if closes then (i + 1) ∷ rest else rest

unfoldable pub chunk_bounds : List Segment → List ℕ
unfolding bounds_from
chunk_bounds segs = 0 ∷ bounds_from 0 0 segs

-- Where the sections begin: at the headings, with what is before the first if it is not blank, or where
-- there are fewer than two, at the chunks.
unfoldable bounds_of : List Segment → List ℕ
unfolding heads_from chunk_bounds strip any
bounds_of segs = elim (heads_from 0 segs) [
  | [] ↦ chunk_bounds segs
  | ◌∷◌ h hs ↦
      if is_nil hs
      then chunk_bounds segs
      else if h == 0 || not (any (λ s. not (is_nil (strip s.0))) (take h segs))
      then h ∷ hs
      else 0 ∷ h ∷ hs
]

unfoldable pub first_words : List Text → Text
unfolding strip short text
first_words [] = text "(blank)"
first_words (line ∷ lines) =
    let rest = first_words lines in if is_nil (strip line) then rest else short line 90

unfoldable pub first_line_of : Text → Text
unfolding lines_of first_words
first_line_of t = let (line, rest) = lines_of t in first_words (line ∷ rest)

abbrev end_of : List Segment → ℕ
end_of [] = 0
end_of (s ∷ []) = s.1 + length s.0
end_of (s ∷ t ∷ ts) = end_of (t ∷ ts)

-- A heading names its section.
unfoldable title_of : Option Text → Text → Text
unfolding strip first_line_of
title_of none body = first_line_of body
title_of (some words) body = strip words

-- The section of the segments of a chunk, with its number: none of those that are blank.
unfoldable section_of : Text → Text → ℕ → ℕ → List Segment → Option Section
unfolding strip_of strip heading title_of decimal
section_of t ref offset number [] = none
section_of t ref offset number (s ∷ ss) =
    let start = s.1 in
    let end = end_of (s ∷ ss) in
    let body = strip_of (λ c. c == 10) (take (end - start) (drop start t)) in
    if is_nil (strip body)
    then none
    else some (record {
      ref = ref ++ 46 ∷ decimal number;
      title = take 140 (title_of (heading s.0) body);
      body = body;
      start = some (offset + start);
      end = some (offset + end);
    })

abbrev next_bound : List ℕ → List Segment → ℕ
next_bound [] segs = length segs
next_bound (b ∷ bs) segs = b

unfoldable sections_of : Text → Text → ℕ → List Segment → ℕ → List ℕ → List Section
unfolding section_of
sections_of t ref offset segs number [] = []
sections_of t ref offset segs number (b ∷ bs) =
    let made = section_of t ref offset number (take (next_bound bs segs - b) (drop b segs)) in
    let next = if is_some made then number + 1 else number in
    let rest = sections_of t ref offset segs next bs in
    elim made [ none ↦ rest | some s ↦ s ∷ rest ]

unfoldable pub text_doc : Text → Text → ℕ → ℕ → Doc
unfolding segments bounds_of sections_of first_line_of text
text_doc t ref total offset =
    let segs = segments t in
    let made = sections_of t ref offset segs 1 (bounds_of segs) in
    record {
      ref = ref;
      total_chars = total;
      shape = Shape.text_shape;
      sections = elim made [
        | [] ↦
            record {
              ref = ref ++ text ".1";
              title = first_line_of t;
              body = t;
              start = some offset;
              end = some (offset + length t);
            }
            ∷ []
        | ◌∷◌ s ss ↦ s ∷ ss
      ];
      preamble = [];
    }

-- Bounds that rise, all of them below a number.
abbrev pub RisesTo : List ℕ → ℕ → Type 0
RisesTo [] n = Unit
RisesTo (a ∷ []) n = a < n
RisesTo (a ∷ b ∷ bs) n = (a < b) × RisesTo (b ∷ bs) n

bounds_from-RisesTo :
    (i size a n : ℕ) (s : Segment) (ss : List Segment)
    → a ≤ i
    → n ≡ i + length (s ∷ ss)
    → RisesTo (a ∷ bounds_from i size (s ∷ ss)) n
unfolding bounds_from
bounds_from-RisesTo i size a n s [] h e = omega (arith, h, e)
bounds_from-RisesTo i size a n s (t ∷ ts) h e =
    let grown = size + length s.0 + 1 in
    elim (Bool-cases
      ((leb chunk_chars grown && is_nil (strip s.0)) || leb (2 * chunk_chars) grown)) [
        | inl c ↦
            rw (bounds_from, c, RisesTo)
              (
                omega (arith, h),
                bounds_from-RisesTo (i + 1) 0 (i + 1) n t ts (omega arith) (omega (arith, e)),
              )
        | inr c ↦
            rw (bounds_from, c)
              (bounds_from-RisesTo (i + 1) grown a n t ts (omega (arith, h)) (omega (arith, e)))
      ]

-- The chunks of segments, where there are any, rise from the first segment and none is empty.
pub chunk_bounds-RisesTo :
    (s : Segment) (ss : List Segment) → RisesTo (chunk_bounds (s ∷ ss)) (length (s ∷ ss))
unfolding chunk_bounds
chunk_bounds-RisesTo s ss = bounds_from-RisesTo 0 0 0 _ s ss (omega arith) (omega arith)
