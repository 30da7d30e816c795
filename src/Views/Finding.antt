-- ===== src/Views/Finding.antt =====
-- Which section a number names and which a match falls in: `_section_index` and `locate` of
-- engine/views.py.
use jarvis.Prelude.{
  ℕ, ◌+◌, Bool, false, ◌&&◌, Option, none, some, List, [], ◌∷◌, Text, text_eq, ltb, leb,
  if◌then◌else◌, decimal, strip, is_nil, contains, find,
}
use jarvis.Views.{Section, Doc, num}

-- The first section that has the number, none where the code raises an IndexError.
unfoldable pub index_from : List Section → ℕ → Text → Option ℕ
unfolding num text_eq
index_from [] i number = none
index_from (s ∷ ss) i number =
    let rest = index_from ss (i + 1) number in if text_eq (num s) number then some i else rest

unfoldable pub section_index : Doc → ℕ → Option ℕ
unfolding index_from decimal
section_index doc number = index_from doc.sections 0 (decimal number)

-- Is the offset in the slice? A section that is no slice holds no offset.
unfoldable pub holds_offset : ℕ → Section → Bool
holds_offset offset s = elim s.start [
  | none ↦ false
  | some a ↦ elim s.end [ none ↦ false | some b ↦ leb a offset && ltb offset b ]
]

-- The lower case of a text is a parameter: Python's is Unicode's.
unfoldable pub locate : (Text → Text) → Doc → ℕ → Text → Option Section
unfolding find holds_offset strip contains
locate lower doc offset needle =
    let low = lower needle in
    elim (find (holds_offset offset) doc.sections) [
      | some s ↦ some s
      | none ↦
          if is_nil (strip low) then none else find (λ s. contains low (lower s.body)) doc.sections
    ]
