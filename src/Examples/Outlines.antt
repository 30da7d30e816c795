-- ===== src/Examples/Outlines.antt =====
-- Views of long results.
use jarvis.Prelude.{
  arith, decimal, ◌≤◌, ◌≡◌, refl, true, none, [], ◌∷◌, text, map, length, is_some, Holds,
}
use jarvis.Views.{Section, Doc, Shape, short, fit_lines}
use jarvis.Views.Outline.{
  render, room_of, marker, outline_head, outline_line, render_outline, kb, commas,
}
use jarvis.Views.Prose.{text_doc}
use jarvis.Views.Fitting.{render-returns}
use jarvis.Views.Lengths.{length-render_outline}

abbrev a_section : Section
unfolding text
a_section = record {
  ref = text "@a.1";
  title = text "Inbox";
  body = text "id: 7";
  start = none;
  end = none;
}

abbrev a_doc : Doc
unfolding text
a_doc = record {
  ref = text "@a";
  total_chars = 3000;
  shape = Shape.text_shape;
  sections = a_section ∷ a_section ∷ a_section ∷ [];
  preamble = [];
}

-- 2,500 characters and half of one, and 1234567 with its commas.
a_kb : kb 2500 ≡ text "2.5k"
unfolding kb text
a_kb = refl

a_kb_up : kb 3456 ≡ text "3.5k"
unfolding kb text
a_kb_up = refl

a_comma : commas 1234567 ≡ text "1,234,567"
unfolding commas text
a_comma = refl

an_id : short (text "id 0123456789abcdef0123456789abcdef of  it") 20 ≡ text "id …89abcdef of it"
unfolding short text
an_id = refl

-- A text with two headings, and what stands before the first.
a_text :
    map (λ s. s.title) (text_doc (text "x\n\n# A b\ny\n## C") (text "@a") 14 0).sections
    ≡ text "x" ∷ text "A b" ∷ text "C" ∷ []
unfolding text_doc text
a_text = refl

-- An outline of three sections, under 300 characters and under 400.

render-returns_example : is_some (render a_doc 300) ≡ true
render-returns_example = render-returns a_doc 300

length-render_outline_example :
    Holds (λ t. length t ≤ 400) (render_outline a_doc (room_of a_doc 400))
unfolding decimal text fit_lines room_of outline_head outline_line marker a_doc
length-render_outline_example = length-render_outline a_doc 400 (omega arith) refl
