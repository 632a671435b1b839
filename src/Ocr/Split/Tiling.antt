-- ===== src/Ocr/Split/Tiling.antt =====
-- Where the parts of a box divided by appendSplitCharBoxes() of src/ocr/screenaiproto.cpp lie.
use marupop.Prelude.{
  ℕ, zero, suc, ◌+◌, ◌*◌, ◌/◌, ◌≤◌, ◌<◌, ◌≡◌, refl, sym, ap, ◌∙◌, subst, Bool, true, false, not,
  List, [], ◌∷◌, All, arith, ltb, leb, lt→ltb, ltb→lt, Bool-cases, inl, inr, length, if_true,
  if_false,
}
use marupop.Prelude.Int.{ℤ, pos, negsuc, ◌+ℤ◌, ◌-ℤ◌, sub_ℕ, int_laws}
use native.Mathlib.Nat.{mul-div_cancel, zero-div}
use marupop.Dict.Records.{Text}
use marupop.Ocr.Shapes.{Rect, Qt, CharBox}
use marupop.Ocr.Split.{times, quotient, division, part_of, split_from, split_char_boxes}

-- Along the reading axis.
abbrev pub start_of : Bool → Rect → ℤ
start_of true r = r.y
start_of false r = r.x

abbrev pub extent_of : Bool → Rect → ℤ
extent_of true r = r.height
extent_of false r = r.width

-- Across the reading axis a part is as the box is.
abbrev pub SameAcross : Bool → Rect → Rect → Type 0
SameAcross true r s = (r.x ≡ s.x) × (r.width ≡ s.width)
SameAcross false r s = (r.y ≡ s.y) × (r.height ≡ s.height)

-- The characters divide the box from `start` to its end.
unfoldable pub Tiles : Bool → Rect → ℤ → List CharBox → Type 0
Tiles vertical box start [] = start ≡ start_of vertical box +ℤ extent_of vertical box
Tiles vertical box start (char ∷ chars) =
    (start_of vertical char.box ≡ start)
    × SameAcross vertical char.box box
    × Tiles vertical box (start_of vertical char.box +ℤ extent_of vertical char.box) chars

minus_plus : (a b : ℤ) → a +ℤ (b -ℤ a) ≡ b
minus_plus a b = omega int_laws

plus_zero : (a : ℤ) → a +ℤ pos 0 ≡ a
plus_zero a = omega int_laws

sub_zero_suc : (n : ℕ) → sub_ℕ 0 (suc n) ≡ negsuc n
sub_zero_suc n =
    let above : leb (suc n) 0 ≡ false = ground arith in if_false _ above ∙ ap negsuc (omega arith)

quotient_negative : (m k : ℕ) → quotient (sub_ℕ 0 m) k ≡ sub_ℕ 0 (m / k)
quotient_negative zero k = ap (λ q. pos q) (zero-div k) ∙ ap (sub_ℕ 0) (sym (zero-div k))
quotient_negative (suc m) k = ap (λ v. quotient v k) (sub_zero_suc m)

quotient-times : (a : ℤ) (k : ℕ) → 1 ≤ k → quotient (times a k) k ≡ a
quotient-times (pos n) k h = ap (λ q. pos q) (mul-div_cancel n h)
quotient-times (negsuc n) k h =
    quotient_negative (suc n * k) k ∙ ap (sub_ℕ 0) (mul-div_cancel (suc n) h) ∙ sub_zero_suc n

quotient-times_zero : (a : ℤ) (k : ℕ) → quotient (times a 0) k ≡ pos 0
quotient-times_zero (pos n) k =
    ap (λ q. pos (q / k)) {y = 0} (omega arith) ∙ ap (λ q. pos q) (zero-div k)
quotient-times_zero (negsuc n) k =
    ap (λ q. quotient (sub_ℕ 0 q) k) {y = 0} (omega arith) ∙ ap (λ q. pos q) (zero-div k)

division_first : (start extent : ℤ) (count : ℕ) → division start extent count 0 ≡ start
unfolding division
division_first start extent count =
    ap (λ q. start +ℤ q) (quotient-times_zero extent count) ∙ plus_zero start

division_last :
    (start extent : ℤ) (count : ℕ) → 1 ≤ count → division start extent count count ≡ start +ℤ extent
unfolding division
division_last start extent count h = ap (λ q. start +ℤ q) (quotient-times extent count h)

-- Where the part with an index begins and ends, and that it is as wide as the box.
abbrev IsPart : Bool → Rect → ℕ → ℕ → Rect → Type 0
IsPart vertical box count index part =
    (start_of vertical part ≡ division (start_of vertical box) (extent_of vertical box) count index)
    × SameAcross vertical part box
    × (start_of vertical part +ℤ extent_of vertical part
        ≡ division (start_of vertical box) (extent_of vertical box) count (index + 1))

SameAcross-refl : (vertical : Bool) (r : Rect) → SameAcross vertical r r
SameAcross-refl true r = (refl, refl)
SameAcross-refl false r = (refl, refl)

-- A box that is not divided.
whole-IsPart :
    (vertical : Bool) (box : Rect) (count index : ℕ)
    → count ≡ 1
    → index ≡ 0
    → IsPart vertical box count index box
whole-IsPart vertical box count index h k =
    let start = start_of vertical box in
    let extent = extent_of vertical box in
    let first : start ≡ division start extent count index =
      sym (ap (division start extent count) k ∙ division_first start extent count) in
    let last : start +ℤ extent ≡ division start extent count (index + 1) = sym (
      ap (division start extent count) (omega arith)
      ∙ division_last start extent count (omega arith)) in
    (first, SameAcross-refl vertical box, last)

divided-IsPart :
    (vertical : Bool) (box : Rect) (count index : ℕ)
    → 1 < count
    → IsPart vertical box count index (part_of box vertical count index)
unfolding part_of
divided-IsPart true box count index h =
    let several : not (ltb 1 count) ≡ false = ap not (lt→ltb 1 count h) in
    subst (IsPart true box count index) (sym (if_false box several))
      (refl, (refl, refl), minus_plus _ _)
divided-IsPart false box count index h =
    let several : not (ltb 1 count) ≡ false = ap not (lt→ltb 1 count h) in
    subst (IsPart false box count index) (sym (if_false box several))
      (refl, (refl, refl), minus_plus _ _)

part_of-IsPart :
    (vertical : Bool) (box : Rect) (count index : ℕ)
    → index < count
    → IsPart vertical box count index (part_of box vertical count index)
unfolding part_of
part_of-IsPart vertical box count index h = elim (Bool-cases (ltb 1 count)) [
  | inl t ↦ divided-IsPart vertical box count index (ltb→lt 1 count t)
  | inr f ↦
      let one : count ≡ 1 = ground (arith, lt→ltb 1 count) in
      let single : not (ltb 1 count) ≡ true = ap not f in
      subst (IsPart vertical box count index) (sym (if_true _ single))
        (whole-IsPart vertical box count index one (omega arith))
]

split_from-Tiles :
    (box : Rect) (vertical : Bool) (confidence count index : ℕ) (code_points : List ℕ)
    → 1 ≤ count
    → index + length code_points ≡ count
    → All (λ c. c ≤ 65535) code_points
    → Tiles vertical box
        (division (start_of vertical box) (extent_of vertical box) count index)
        (split_from box vertical confidence count index code_points)
unfolding split_from Tiles
split_from-Tiles box vertical confidence count index [] p h b =
    ap (division (start_of vertical box) (extent_of vertical box) count) (omega arith)
    ∙ division_last (start_of vertical box) (extent_of vertical box) count p
split_from-Tiles box vertical confidence count index (c ∷ cs) p h (b, bs) =
    let (start, across, end) = part_of-IsPart vertical box count index (omega arith) in
    let kept : ltb 65535 c ≡ false = ground arith in
    let rest = split_from box vertical confidence count (index + 1) cs in
    let tail = split_from-Tiles box vertical confidence count (index + 1) cs p (omega arith) bs in
    subst
      (Tiles vertical box (division (start_of vertical box) (extent_of vertical box) count index))
      (sym (if_false rest kept))
      (start, across, subst (λ s. Tiles vertical box s rest) (sym end) tail)

-- The parts of a box that is divided among code points of one UTF-16 unit each, one or more, cover
-- it along the reading axis without a gap or an overlap: the first begins where the box begins, each
-- other one where the one before it ends, the last ends where the box ends, and across the axis each
-- is as the box is. Coordinates are taken without overflow.
pub split_char_boxes-Tiles :
    (qt : Qt) (text : Text) (box : Rect) (vertical : Bool) (confidence : ℕ)
    → 1 ≤ length (qt.to_ucs4 text)
    → All (λ c. c ≤ 65535) (qt.to_ucs4 text)
    → Tiles vertical box (start_of vertical box) (split_char_boxes qt text box vertical confidence)
unfolding split_char_boxes
split_char_boxes-Tiles qt text box vertical confidence h b =
    subst (λ s. Tiles vertical box s (split_char_boxes qt text box vertical confidence))
      (division_first (start_of vertical box) (extent_of vertical box) _)
      (split_from-Tiles box vertical confidence _ 0 (qt.to_ucs4 text) h (omega arith) b)
