-- ===== src/Views.antt =====
-- A long tool result as the model is to see it (packages/core/jarvis_core/engine/views.py): the document
-- of sections, one line of text from a longer one, and how many lines a room holds. The division into
-- sections by the structure of JSON is not modelled.
pub mod Outline
pub mod Fitting
pub mod Lengths
pub mod Finding
pub mod Prose
use jarvis.Prelude.{
  ℕ, suc, ◌+◌, ◌-◌, max, Bool, ◌&&◌, ◌||◌, Option, none, some, List, [], ◌∷◌, ◌++◌, Text, text, ltb,
  leb, ◌==◌, if◌then◌else◌, rfind, join, words, length, take, drop,
}

-- What a result is made of: its JSON's list, its JSON's keys, or its text.
pub data Shape : Type 0 where
  list_shape object_shape text_shape : Shape

-- The offsets of a section that is a slice of the text; none for the code's `-1`.
pub record Section : Type 0 where
  pub ref : Text
  pub title : Text
  pub body : Text
  pub start : Option ℕ
  pub end : Option ℕ

pub record Doc : Type 0 where
  pub ref : Text
  pub total_chars : ℕ
  pub shape : Shape
  pub sections : List Section
  pub preamble : Text

-- The characters of an opaque id.
unfoldable is_opaque : ℕ → Bool
is_opaque c =
    (leb 48 c && leb c 57)
    || (leb 65 c && leb c 70)
    || (leb 97 c && leb c 102)
    || c == 95
    || c == 45

-- A run of them that is long keeps its last eight.
unfoldable short_id : Text → Text
short_id run = if leb 32 (length run) then 0x2026 ∷ drop (length run - 8) run else run

-- The run that stands at the start, and what is after it, with its long runs shortened.
unfoldable ids_from : Text → Text × Text
unfolding is_opaque short_id
ids_from [] = ([], [])
ids_from (c ∷ cs) =
    let (run, rest) = ids_from cs in
    if is_opaque c then (c ∷ run, rest) else ([], c ∷ short_id run ++ rest)

unfoldable short_ids : Text → Text
unfolding ids_from short_id
short_ids t = let (run, rest) = ids_from t in short_id run ++ rest

-- `_short` of a text.
unfoldable pub short : Text → ℕ → Text
unfolding join words short_ids
short t width =
    let s = short_ids (join (32 ∷ []) (words t)) in
    if leb (length s) width then s else take (max 1 (width - 1)) s ++ 0x2026 ∷ []

-- How many of the lines fit when `used` characters are taken already. No line fits in a room below
-- zero, which is zero here.
unfoldable pub fit_from : ℕ → List Text → ℕ → ℕ
fit_from used [] room = 0
fit_from used (line ∷ lines) room =
    let rest = fit_from (used + length line + 1) lines room in
    if ltb room (used + length line + 1) then 0 else suc rest

unfoldable pub fit_lines : List Text → ℕ → ℕ
unfolding fit_from
fit_lines lines room = fit_from 0 lines room

-- A section's own number: what its ref has after the last dot.
unfoldable pub num : Section → Text
unfolding text rfind
num s = elim (rfind (text ".") s.ref) [ none ↦ s.ref | some i ↦ drop (suc i) s.ref ]
