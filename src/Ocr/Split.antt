-- ===== src/Ocr/Split.antt =====
-- appendSplitCharBoxes() of src/ocr/screenaiproto.cpp: a box divided among the code points of a text.
-- Products and sums of coordinates are exact: the source computes them in an int, whose overflow has
-- no defined result.
pub mod Tiling
use marupop.Prelude.{ℕ, suc, ◌+◌, ◌*◌, ◌/◌, Bool, not, List, [], ◌∷◌, ltb, length, if◌then◌else◌}
use marupop.Prelude.Int.{ℤ, pos, negsuc, ◌+ℤ◌, ◌-ℤ◌, sub_ℕ}
use marupop.Dict.Records.{Text}
use marupop.Ocr.Shapes.{Rect, Qt, CharBox}

-- The product of an int and an index, and the quotient, which rounds towards zero.
abbrev pub times : ℤ → ℕ → ℤ
times (pos n) k = pos (n * k)
times (negsuc n) k = sub_ℕ 0 (suc n * k)

abbrev pub quotient : ℤ → ℕ → ℤ
quotient (pos n) k = pos (n / k)
quotient (negsuc n) k = sub_ℕ 0 (suc n / k)

-- Where part `index` of `count` begins, `extent * index / count` after `start`.
unfoldable pub division : ℤ → ℤ → ℕ → ℕ → ℤ
division start extent count index = start +ℤ quotient (times extent index) count

unfoldable pub part_of : Rect → Bool → ℕ → ℕ → Rect
part_of box vertical count index =
    let top = division box.y box.height count index in
    let bottom = division box.y box.height count (index + 1) in
    let left = division box.x box.width count index in
    let right = division box.x box.width count (index + 1) in
    if not (ltb 1 count)
    then box
    else if vertical
    then record box { y = top; height = bottom -ℤ top }
    else record box { x = left; width = right -ℤ left }

-- The loop of appendSplitCharBoxes() from `index` on, which ends at `count`.
unfoldable pub split_from : Rect → Bool → ℕ → ℕ → ℕ → List ℕ → List CharBox
split_from box vertical confidence count index [] = []
split_from box vertical confidence count index (code_point ∷ code_points) =
    let rest = split_from box vertical confidence count (index + 1) code_points in
    let char : CharBox = record {
      code_point = code_point;
      box = part_of box vertical count index;
      confidence = confidence;
    } in
    if ltb 65535 code_point then rest else char ∷ rest

unfoldable pub split_char_boxes : Qt → Text → Rect → Bool → ℕ → List CharBox
split_char_boxes qt text box vertical confidence =
    split_from box vertical confidence (length (qt.to_ucs4 text)) 0 (qt.to_ucs4 text)
