-- ===== src/Ocr/HitTest.antt =====
-- src/ocr/hittest.cpp: the character under a point of the image.
pub mod Gaps
pub mod Hits
pub mod Answers
mod Tests
use marupop.Prelude.{
  ℕ, zero, suc, ◌+◌, ◌-◌, Bool, true, false, not, ◌&&◌, ◌||◌, Option, none, some, List, [], ◌∷◌,
  ltb, length, get_elem?, get_or, if◌then◌else◌,
}
use marupop.Prelude.Int.{ℤ, pos, negsuc, pos_part, ◌+ℤ◌, ◌-ℤ◌, ltb_ℤ, max_ℤ}
use marupop.Dict.Records.{Text}
use marupop.Ocr.Shapes.{Rect, CharBox, no_rect}

pub record Point : Type 0 where
  pub x : ℤ
  pub y : ℤ

pub record Paragraph : Type 0 where
  pub text : Text
  pub chars : List CharBox
  pub box : Rect
  pub vertical : Bool
  pub line_starts : List ℤ

pub record Hit : Type 0 where
  pub paragraph : ℕ
  pub char_index : ℕ

-- What the hit test calls of Qt and of the C++ library: QRect::contains() and united(), the distance
-- std::hypot() of two ints, the test of a distance against an int, and the comparison of two distances.
pub record Geometry : Type 1 where
  pub Distance : Type 0
  pub contains : Rect → Point → Bool
  pub united : Rect → Rect → Rect
  pub hypot : ℤ → ℤ → Distance
  pub exceeds : Distance → ℤ → Bool
  pub is_nearer : Distance → Distance → Bool

-- kHitTolerancePx.
abbrev pub hit_tolerance_px : ℤ
hit_tolerance_px = pos 6

abbrev pub min_ℤ : ℤ → ℤ → ℤ
min_ℤ a b = if ltb_ℤ b a then b else a

-- QRect's edges, which are inclusive.
unfoldable pub right : Rect → ℤ
right r = (r.x +ℤ r.width) -ℤ pos 1

unfoldable pub bottom : Rect → ℤ
bottom r = (r.y +ℤ r.height) -ℤ pos 1

-- QRect{QPoint, QPoint}.
unfoldable pub rect_between : ℤ → ℤ → ℤ → ℤ → Rect
rect_between left top right bottom = record {
  x = left;
  y = top;
  width = (right -ℤ left) +ℤ pos 1;
  height = (bottom -ℤ top) +ℤ pos 1;
}

-- The loop of lineRange() over the line starts.
unfoldable pub range_from : List ℤ → ℤ → ℤ → ℤ → ℤ × ℤ
range_from [] char_index start end = (start, end)
range_from (line_start ∷ line_starts) char_index start end =
    let rest = range_from line_starts char_index line_start end in
    if ltb_ℤ char_index line_start then (start, line_start) else rest

unfoldable pub line_range : Paragraph → ℤ → ℤ × ℤ
line_range paragraph char_index =
    range_from paragraph.line_starts char_index (pos 0) (pos (length paragraph.chars))

abbrev pub no_char : CharBox
no_char = record { code_point = 0; box = no_rect; confidence = 0 }

-- `chars.at(index).box`.
abbrev pub box_at : List CharBox → ℕ → Rect
box_at chars index = (get_or chars index no_char).box

abbrev pub has_previous : ℤ × ℤ → ℕ → Bool
has_previous (start, end) index = ltb_ℤ start (pos index)

abbrev pub has_next : ℤ × ℤ → ℕ → Bool
has_next (start, end) index = ltb_ℤ (pos (index + 1)) end

unfoldable pub extended_at : Paragraph → ℕ → Rect
extended_at paragraph index =
    let box = box_at paragraph.chars index in
    let before = box_at paragraph.chars (index - 1) in
    let after = box_at paragraph.chars (index + 1) in
    let range = line_range paragraph (pos index) in
    if paragraph.vertical
    then rect_between box.x
        (if has_previous range index then min_ℤ box.y (bottom before +ℤ pos 1) else box.y)
        (right box)
        (if has_next range index then max_ℤ (bottom box) (after.y -ℤ pos 1) else bottom box)
    else rect_between
        (if has_previous range index then min_ℤ box.x (right before +ℤ pos 1) else box.x) box.y
        (if has_next range index then max_ℤ (right box) (after.x -ℤ pos 1) else right box)
        (bottom box)

unfoldable pub extended_char_box : Paragraph → ℤ → Rect
extended_char_box paragraph (negsuc n) = no_rect
extended_char_box paragraph (pos index) =
    if ltb index (length paragraph.chars) then extended_at paragraph index else no_rect

module _ (g : Geometry) where
  -- The union of the boxes from `index` on, with the rounds that are left.
  unfoldable pub span_from : List CharBox → ℕ → ℕ → Rect → Rect
  span_from chars zero index span = span
  span_from chars (suc rounds) index span =
      span_from chars rounds (index + 1) (g.united span (box_at chars index))

  unfoldable pub char_span_rect : Paragraph → ℤ → ℤ → Rect
  char_span_rect paragraph from count =
      let first = max_ℤ from (pos 0) in
      let last = min_ℤ (from +ℤ count) (pos (length paragraph.chars)) in
      span_from paragraph.chars (pos_part (last -ℤ first)) (pos_part first) no_rect

  -- The first character from `index` on whose extended box holds the point.
  unfoldable pub inside_from : Paragraph → Point → ℕ → ℕ → Option ℕ
  inside_from paragraph point zero index = none
  inside_from paragraph point (suc rounds) index =
      let rest = inside_from paragraph point rounds (index + 1) in
      if g.contains (extended_char_box paragraph (pos index)) point then some index else rest

  abbrev pub hit_in : ℕ → Option ℕ → Option Hit → Option Hit
  hit_in paragraph none rest = rest
  hit_in paragraph (some index) rest = some (record { paragraph = paragraph; char_index = index })

  -- The search through the paragraphs whose box holds the point.
  unfoldable pub find_inside : List Paragraph → Point → ℕ → Option Hit
  find_inside [] point number = none
  find_inside (paragraph ∷ paragraphs) point number =
      let rest = find_inside paragraphs point (number + 1) in
      if g.contains paragraph.box point
      then hit_in number (inside_from paragraph point (length paragraph.chars) 0) rest
      else rest

  -- The distance on one axis: 0 between the edges.
  abbrev pub axis_distance : ℤ → ℤ → ℤ → ℤ
  axis_distance low high at = max_ℤ (max_ℤ (low -ℤ at) (pos 0)) (at -ℤ high)

  unfoldable pub distance_to : Rect → Point → g.Distance
  distance_to box point =
      g.hypot (axis_distance box.x (right box) point.x) (axis_distance box.y (bottom box) point.y)

  -- The nearest character so far, with its distance.
  abbrev pub Nearest : Type 0
  Nearest = Option (Hit × g.Distance)

  abbrev pub is_better : g.Distance → Nearest → Bool
  is_better distance none = true
  is_better distance (some (hit, nearest)) = g.is_nearer distance nearest

  abbrev pub is_beyond : g.Distance → Bool
  is_beyond distance = g.exceeds distance hit_tolerance_px

  unfoldable pub nearest_char : Point → ℕ → List CharBox → ℕ → Nearest → Nearest
  nearest_char point number [] index nearest = nearest
  nearest_char point number (c ∷ cs) index nearest =
      let distance = distance_to c.box point in
      nearest_char point number cs (index + 1) (
        if not (is_beyond distance) && is_better distance nearest
        then some (record { paragraph = number; char_index = index }, distance)
        else nearest)

  unfoldable pub find_nearest : List Paragraph → Point → ℕ → Nearest → Nearest
  find_nearest [] point number nearest = nearest
  find_nearest (paragraph ∷ paragraphs) point number nearest =
      find_nearest paragraphs point (number + 1)
        (nearest_char point number paragraph.chars 0 nearest)

  abbrev pub hit_of : Nearest → Option Hit
  hit_of none = none
  hit_of (some (hit, distance)) = some hit

  abbrev pub or_else : Option Hit → Option Hit → Option Hit
  or_else (some hit) other = some hit
  or_else none other = other

  unfoldable pub hit_test : List Paragraph → Point → Option Hit
  hit_test paragraphs point =
      or_else (find_inside paragraphs point 0) (hit_of (find_nearest paragraphs point 0 none))
