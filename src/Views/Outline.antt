-- ===== src/Views/Outline.antt =====
-- The view of a document under a limit of characters: `render` and what it is written with, in
-- engine/views.py.
use jarvis.Prelude.{
  ℕ, zero, suc, ◌+◌, ◌-◌, ◌*◌, ◌/◌, ◌%◌, min, max, Bool, true, false, ◌&&◌, ◌||◌, Option, none,
  some, List, [], ◌∷◌, ◌++◌, map, Text, text, ltb, leb, ◌==◌, if◌then◌else◌, is_nil, or_else,
  decimal, join, length, take, drop, last?,
}
use Prim.Native.Nat.{◌^◌}
use mathlib.Core.List.{reverse}
use jarvis.Views.{Section, Doc, Shape, short, fit_lines, num}

-- `f"{n:,}"`: a comma before every third digit from the right.
unfoldable thousands : Text → Text
thousands (a ∷ b ∷ c ∷ d ∷ ds) = a ∷ b ∷ c ∷ 44 ∷ thousands (d ∷ ds)
thousands ds = ds

unfoldable pub commas : ℕ → Text
unfolding thousands decimal
commas n = reverse (thousands (reverse (decimal n)))

-- A quotient to the nearest whole number, to the even one of two.
unfoldable nearest : ℕ → ℕ → ℕ
nearest a b =
    let q = a / b in
    let twice = 2 * (a % b) in if ltb twice b then q else if ltb b twice then q + 1 else q + q % 2

-- The exponent of the leading bit; a number has fewer bits than its successor.
unfoldable leading_bit : ℕ → ℕ → ℕ
leading_bit zero n = 0
leading_bit (suc fuel) n = let rest = leading_bit fuel (n / 2) in if ltb n 2 then 0 else suc rest

-- `f"{n / 1000:.1f}k"` from a thousand on: the quotient as a double of 53 bits, then its nearest tenth.
unfoldable pub kb : ℕ → Text
unfolding decimal nearest leading_bit text
kb n =
    let scale = 2 ^ (52 - leading_bit (n + 1) (n / 1000)) in
    let tenths = nearest (10 * nearest (n * scale) 1000) scale in
    if leb 1000 n
    then decimal (tenths / 10) ++ text "." ++ decimal (tenths % 10) ++ text "k"
    else decimal n

unfoldable pub outline_line : Section → Text
unfolding kb text
outline_line s =
    s.ref
    ++ text " "
    ++ (if leb 2000 (length s.body) then text "[" ++ kb (length s.body) ++ text "] " else [])
    ++ s.title

unfoldable pub marker : Text → ℕ → ℕ → Text → Text
unfolding commas text decimal
marker ref total n shown =
    text "["
    ++ ref
    ++ text ": "
    ++ commas total
    ++ text " chars in "
    ++ decimal n
    ++ text " section"
    ++ (if n == 1 then [] else text "s")
    ++ text "; shown: "
    ++ shown
    ++ text ". jarvis.result_read(ref=\""
    ++ ref
    ++ text ".N\") reads section N, \""
    ++ ref
    ++ text ".N-M\" a range; jarvis.result_search(ref=\""
    ++ ref
    ++ text "\", pattern=...) finds inside]"

-- The lines, after the head line the result came with and before the marker.
unfoldable pub assemble : Doc → List Text → Text → Text
unfolding join marker
assemble doc parts shown =
    let body = join (10 ∷ []) parts in
    (if is_nil doc.preamble then body else doc.preamble ++ 10 ∷ body)
    ++ 10 ∷ marker doc.ref doc.total_chars (length doc.sections) shown

-- The sections in ranges of `per`; a document has no more ranges than sections.
unfoldable pub ranges : ℕ → ℕ → List Section → List (List Section)
ranges zero per ss = []
ranges (suc fuel) per [] = []
ranges (suc fuel) per (s ∷ ss) = take per (s ∷ ss) ∷ ranges fuel per (drop per (s ∷ ss))

unfoldable total_size : List Section → ℕ
total_size [] = 0
total_size (s ∷ ss) = length s.body + total_size ss

unfoldable range_line : List Section → Text
unfolding num kb short total_size text
range_line [] = []
range_line (s ∷ []) = s.ref ++ text " [" ++ kb (length s.body) ++ text "] " ++ s.title
range_line (s ∷ t ∷ ts) =
    let end = or_else (last? (t ∷ ts)) t in
    s.ref
    ++ text "-"
    ++ num end
    ++ text " ["
    ++ kb (total_size (s ∷ t ∷ ts))
    ++ text "] "
    ++ short s.title 50
    ++ text " … "
    ++ short end.title 50

-- One line for each range, where the ranges are `groups` at most.
unfoldable pub per_group : Doc → ℕ → ℕ
per_group doc groups = (length doc.sections + (groups - 1)) / groups

unfoldable pub grouped : Doc → ℕ → List Text
unfolding ranges range_line per_group
grouped doc groups =
    map range_line (ranges (length doc.sections) (per_group doc groups) doc.sections)

unfoldable pub group_fits : Doc → ℕ → ℕ → Bool
unfolding grouped fit_lines
group_fits doc room groups =
    let lines = grouped doc groups in leb (length lines) (fit_lines lines room)

-- The loop that makes the ranges fewer and wider until every line fits: how many groups it ends with.
unfoldable pub regroup : ℕ → Doc → ℕ → ℕ → Option ℕ
unfolding group_fits
regroup zero doc room groups = none
regroup (suc fuel) doc room groups = elim (group_fits doc room groups || leb groups 2) [
  | true ↦ some groups
  | false ↦ regroup fuel doc room (groups - 1)
]

unfoldable pub room_of : Doc → ℕ → ℕ
unfolding marker text
room_of doc limit =
    limit
    - length (marker doc.ref doc.total_chars (length doc.sections) (text "outline"))
    - length doc.preamble
    - 2

unfoldable whole_of : List Section → Text
unfolding join
whole_of ss = join (10 ∷ []) (map (λ s. s.ref ++ 10 ∷ s.body) ss)

unfoldable shape_words : Shape → Text
unfolding text
shape_words Shape.list_shape = text "list"
shape_words Shape.object_shape = text "object"
shape_words Shape.text_shape = text "text"

abbrev is_text : Shape → Bool
is_text Shape.text_shape = true
is_text s = false

unfoldable whole_head : Doc → Text
unfolding text decimal
whole_head doc = doc.ref ++ text ": " ++ decimal (length doc.sections) ++ text " sections, whole:"

unfoldable pub outline_head : Doc → Text
unfolding text decimal commas
outline_head doc =
    doc.ref
    ++ text ": "
    ++ decimal (length doc.sections)
    ++ text " sections ("
    ++ commas doc.total_chars
    ++ text " chars) — outline:"

abbrev num_of : Option Section → Text
unfolding num
num_of none = []
num_of (some s) = num s

-- The first `k` sections, and the range of those that are left.
unfoldable first_of : Doc → List Text → ℕ → Text
unfolding outline_head num decimal text assemble
first_of doc lines k =
    let n = length doc.sections in
    let left = num_of (last? (take 1 (drop k doc.sections))) in
    let note =
      text "… +"
      ++ decimal (n - k)
      ++ text " more sections: "
      ++ doc.ref
      ++ text "."
      ++ left
      ++ text "-"
      ++ num_of (last? doc.sections) in
    assemble doc (outline_head doc ∷ take k lines ++ note ∷ [])
      (text "the first " ++ decimal k ++ text " of " ++ decimal n ++ text " sections")

unfoldable pub first_groups : Doc → ℕ → ℕ
first_groups doc room = max 2 (min (length doc.sections) (room / (length doc.ref + 125)))

unfoldable pub render_grouped : Doc → ℕ → Option Text
unfolding outline_head regroup first_groups grouped assemble text
render_grouped doc room =
    let groups = first_groups doc room in
    elim (regroup groups doc room groups) [
      | none ↦ none
      | some g ↦ some (assemble doc (outline_head doc ∷ grouped doc g) (text "grouped outline"))
    ]

unfoldable pub render_outline : Doc → ℕ → Option Text
unfolding outline_head outline_line fit_lines first_of render_grouped assemble text
render_outline doc room =
    let n = length doc.sections in
    let lines = map outline_line doc.sections in
    let left = room - (length (outline_head doc) + 1) in
    let fit = fit_lines lines left in
    if leb n fit
    then some (assemble doc (outline_head doc ∷ lines) (text "outline"))
    else if leb 8 fit && leb (n / 3) fit
    then some (first_of doc lines (fit - 1))
    else render_grouped doc left

-- `render`: whole where that fits, else the outline, all of it or its first lines, else the ranges.
-- The room is at least zero here, where Python's may be negative: what is compared with it has a
-- character at least.
unfoldable pub render : Doc → ℕ → Option Text
unfolding whole_of whole_head shape_words render_outline assemble text room_of
render doc limit =
    let whole = whole_of doc.sections in
    let head = whole_head doc in
    if is_nil doc.sections
    then some ((if is_nil doc.preamble then [] else doc.preamble ++ 10 ∷ []) ++ text "(nothing)")
    else if is_text doc.shape
    then render_outline doc (room_of doc limit)
    else if leb (length whole + length head + 1) (room_of doc limit)
    then some (
        assemble doc (head ∷ whole ∷ [])
          (text "whole (" ++ shape_words doc.shape ++ text ", compact)"))
    else render_outline doc (room_of doc limit)
