-- ===== src/Popup/Placement.antt =====
-- src/popup/placement.cpp: the rectangle of the card next to the pointer. Sums of coordinates are
-- exact, where the source computes them in an int.
pub mod Inside
pub mod Bands
pub mod Avoiding
mod Tests
use marupop.Prelude.{
  ℕ, zero, suc, ◌+◌, ◌/◌, Bool, true, false, not, ◌&&◌, ◌||◌, ◌==◌, Option, none, some, List, [],
  ◌∷◌, if◌then◌else◌,
}
use marupop.Prelude.Int.{ℤ, pos, negsuc, ◌+ℤ◌, ◌-ℤ◌, ltb_ℤ}
use marupop.Ocr.Shapes.{Rect}
use marupop.Ocr.Split.{quotient, times}
use marupop.Ocr.HitTest.{Point, right, bottom}

pub record Size : Type 0 where
  pub width : ℤ
  pub height : ℤ

pub data Mode : Type 0 where
  flip_both flip_vertically flip_horizontally visual_novel : Mode

pub record PopupSides : Type 0 where
  pub known : Bool
  pub left : Bool
  pub above : Bool
  pub band : ℤ

-- What the placement calls of Qt and of the C++ library: arithmetic on qreal with std::lround() to an
-- int and std::hypot() of two ints, qBound(), and the functions of QRect.
pub record Platform : Type 1 where
  pub Real : Type 0
  pub of_int : ℤ → Real
  pub plus : Real → Real → Real
  pub minus : Real → Real → Real
  pub product : Real → Real → Real
  pub over : Real → Real → Real
  pub is_less : Real → Real → Bool
  pub bound_real : Real → Real → Real → Real
  pub lround : Real → ℤ
  pub hypot : ℤ → ℤ → Real
  pub bound : ℤ → ℤ → ℤ → ℤ
  pub is_empty : Rect → Bool
  pub intersects : Rect → Rect → Bool
  pub intersected : Rect → Rect → Rect
  pub center : Rect → Point

abbrev pub side_hysteresis_px : ℤ
side_hysteresis_px = pos 32

abbrev pub is_visual_novel : Mode → Bool
is_visual_novel visual_novel = true
is_visual_novel flip_horizontally = false
is_visual_novel flip_vertically = false
is_visual_novel flip_both = false

abbrev pub may_flip_left : Mode → Bool
may_flip_left flip_vertically = false
may_flip_left visual_novel = false
may_flip_left flip_horizontally = true
may_flip_left flip_both = true

abbrev pub may_flip_above : Mode → Bool
may_flip_above flip_horizontally = false
may_flip_above visual_novel = false
may_flip_above flip_vertically = true
may_flip_above flip_both = true

-- VisualNovel's choice of the lower side.
unfoldable pub is_below : ℤ → ℤ → Bool → Bool → Bool
is_below cursor_y screen_height known was_above =
    if ltb_ℤ (quotient (times screen_height 2) 3) cursor_y
    then false
    else if ltb_ℤ cursor_y (quotient screen_height 3)
    then true
    else if known
    then if was_above
      then ltb_ℤ cursor_y (quotient screen_height 2 -ℤ side_hysteresis_px)
      else ltb_ℤ cursor_y (quotient screen_height 2 +ℤ side_hysteresis_px)
    else ltb_ℤ cursor_y (quotient screen_height 2)

-- Whether the card leaves the edge that it has to clear.
unfoldable pub is_past : Bool → ℤ → ℤ → ℤ → ℤ → Bool
is_past was_flipped at offset span edge =
    ltb_ℤ (if was_flipped then edge -ℤ side_hysteresis_px else edge) ((at +ℤ offset) +ℤ span)

abbrev pub was_known : PopupSides → Bool → Bool
was_known sides flag = sides.known && flag

unfoldable pub is_left : Point → Size → Rect → Mode → ℤ → PopupSides → Bool
is_left cursor popup screen mode offset sides =
    may_flip_left mode
    && is_past (was_known sides sides.left) cursor.x offset popup.width (screen.x +ℤ screen.width)

unfoldable pub is_above : Point → Size → Rect → Mode → ℤ → PopupSides → Bool
is_above cursor popup screen mode offset sides =
    if is_visual_novel mode
    then not
        (is_below (cursor.y -ℤ screen.y) screen.height sides.known (was_known sides sides.above))
    else may_flip_above mode
      && is_past (was_known sides sides.above) cursor.y offset popup.height
          (screen.y +ℤ screen.height)

-- The bands of the screen above, below, left and right of what is blocked.
unfoldable pub bands_of : Rect → Rect → List Rect
bands_of screen blocked =
    record { x = screen.x; y = screen.y; width = screen.width; height = blocked.y -ℤ screen.y }
    ∷ record {
      x = screen.x;
      y = bottom blocked +ℤ pos 1;
      width = screen.width;
      height = bottom screen -ℤ bottom blocked;
    }
    ∷ record { x = screen.x; y = screen.y; width = blocked.x -ℤ screen.x; height = screen.height }
    ∷ record {
      x = right blocked +ℤ pos 1;
      y = screen.y;
      width = right screen -ℤ right blocked;
      height = screen.height;
    }
    ∷ []

abbrev pub fits : Size → Rect → Bool
fits popup band = not (ltb_ℤ band.width popup.width || ltb_ℤ band.height popup.height)

abbrev pub is_index : ℤ → ℕ → Bool
is_index (pos n) index = n == index
is_index (negsuc n) index = false

module _ (q : Platform) where
  unfoldable pub clamp_to_range : q.Real → ℤ → ℤ → ℤ → ℤ
  clamp_to_range value low_edge high_edge span =
      let limit = high_edge -ℤ span in
      if not (ltb_ℤ low_edge limit) then low_edge else q.bound low_edge (q.lround value) limit

  -- VisualNovel's horizontal anchor.
  unfoldable pub anchor : Point → Size → Rect → ℤ → q.Real
  anchor cursor popup screen offset =
      let one = q.of_int (pos 1) in
      let two = q.of_int (pos 2) in
      let half = q.over (q.of_int screen.width) two in
      let cursor_x = q.of_int (cursor.x -ℤ screen.x) in
      let anchor_right = q.of_int (cursor.x +ℤ offset) in
      let anchor_center = q.minus (q.of_int cursor.x) (q.over (q.of_int popup.width) two) in
      let anchor_left = q.of_int ((cursor.x -ℤ popup.width) -ℤ offset) in
      let early = q.over cursor_x half in
      let late = q.bound_real (q.of_int (pos 0)) (q.over (q.minus cursor_x half) half) one in
      if not (q.is_less (q.of_int (pos 0)) half)
      then anchor_center
      else if q.is_less cursor_x half
      then q.plus (q.product anchor_right (q.minus one early)) (q.product anchor_center early)
      else q.plus (q.product anchor_center (q.minus one late)) (q.product anchor_left late)

  -- The position on the vertical axis, and on the horizontal one in the flip modes.
  abbrev pub beside : Bool → ℤ → ℤ → ℤ → q.Real
  beside flipped at offset span =
      if flipped then q.of_int ((at -ℤ span) -ℤ offset) else q.of_int (at +ℤ offset)

  unfoldable pub place_popup : Point → Size → Rect → Mode → ℤ → PopupSides → Rect × PopupSides
  place_popup cursor popup screen mode offset sides =
      let flipped_left = is_left cursor popup screen mode offset sides in
      let flipped_above = is_above cursor popup screen mode offset sides in
      let x =
        if is_visual_novel mode
        then anchor cursor popup screen offset
        else beside flipped_left cursor.x offset popup.width in
      let y = beside flipped_above cursor.y offset popup.height in
      (
        record {
          x = clamp_to_range x screen.x (screen.x +ℤ screen.width) popup.width;
          y = clamp_to_range y screen.y (screen.y +ℤ screen.height) popup.height;
          width = popup.width;
          height = popup.height;
        },
        record { known = true; left = flipped_left; above = flipped_above; band = negsuc 0 },
      )

  -- The card in a band, next to where it would be.
  unfoldable pub candidate_in : Rect → Size → Rect → Rect
  candidate_in unconstrained popup band = record {
    x = clamp_to_range (q.of_int unconstrained.x) band.x (right band +ℤ pos 1) popup.width;
    y = clamp_to_range (q.of_int unconstrained.y) band.y (bottom band +ℤ pos 1) popup.height;
    width = popup.width;
    height = popup.height;
  }

  abbrev pub Best : Type 0
  Best = Option (Rect × ℤ × q.Real)

  abbrev pub is_better : q.Real → Best → Bool
  is_better distance none = true
  is_better distance (some (card, band, best)) = q.is_less distance best

  unfoldable pub distance_from : Rect → Rect → Bool → q.Real
  distance_from unconstrained candidate kept =
      let a = q.center candidate in
      let b = q.center unconstrained in
      q.minus (q.hypot (a.x -ℤ b.x) (a.y -ℤ b.y))
        (if kept then q.of_int side_hysteresis_px else q.of_int (pos 0))

  -- The loop over the bands.
  unfoldable pub best_band : Rect → Size → ℤ → List Rect → ℕ → Best → Best
  best_band unconstrained popup kept [] index best = best
  best_band unconstrained popup kept (band ∷ bands) index best =
      let card = candidate_in unconstrained popup band in
      let distance = distance_from unconstrained card (is_index kept index) in
      best_band unconstrained popup kept bands (index + 1) (
        if fits popup band && is_better distance best
        then some (card, pos index, distance)
        else best)

  abbrev pub placed : Rect × PopupSides → Best → Rect × PopupSides
  placed (unconstrained, sides) none = (unconstrained, sides)
  placed (unconstrained, sides) (some (card, band, distance)) = (card, record sides { band = band })

  unfoldable pub move_off : Rect → Size → Rect → ℤ → Rect × PopupSides → Rect × PopupSides
  move_off avoid popup screen kept (unconstrained, sides) =
      let blocked = q.intersected avoid screen in
      if q.is_empty avoid || not (q.intersects unconstrained avoid)
      then (unconstrained, sides)
      else if q.is_empty blocked
      then (unconstrained, sides)
      else placed (unconstrained, sides)
          (best_band unconstrained popup kept (bands_of screen blocked) 0 none)

  unfoldable pub place_popup_avoiding :
      Point → Size → Rect → Mode → ℤ → Rect → PopupSides → Rect × PopupSides
  place_popup_avoiding cursor popup screen mode offset avoid sides =
      let kept = if sides.known then sides.band else negsuc 0 in
      move_off avoid popup screen kept (place_popup cursor popup screen mode offset sides)
