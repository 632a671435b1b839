-- ===== src/Popup/Placement/Tests.antt =====
-- Placements of src/popup/placement.cpp with whole numbers for qreal, and the theorems at them.
use marupop.Prelude.{
  ap, ◌∙◌, ◌+◌, ◌≡◌, refl, inl, inr, Bool, true, false, not, ◌&&◌, arith, if◌then◌else◌, if_true,
  if_false, Bool-cases, sym, subst,
}
use marupop.Prelude.Int.{ℤ, pos, negsuc, pos_part, neg_part, ◌+ℤ◌, ◌-ℤ◌, ◌≤ℤ◌, ltb_ℤ, max_ℤ}
use marupop.Ocr.Shapes.{Rect}
use marupop.Ocr.HitTest.{Point, min_ℤ, right, bottom}
use marupop.Popup.Placement.{
  Size, flip_both, PopupSides, Platform, clamp_to_range, is_past, is_left, is_above, place_popup,
  bands_of, candidate_in, distance_from, best_band, move_off, place_popup_avoiding,
}
use marupop.Popup.Placement.Inside.{
  le_of_not_less, le_of_less, IsBounding, IsInside, card_of, place_popup-IsInside,
}
use marupop.Popup.Placement.Bands.{IsPart}
use marupop.Popup.Placement.Avoiding.{IsIntersecting, Avoids, place_popup_avoiding-Avoids}

abbrev is_void : Rect → Bool
is_void r = not (ltb_ℤ (pos 0) r.width && ltb_ℤ (pos 0) r.height)

-- The common part where it is the first rectangle, and else nothing.
abbrev common : Rect → Rect → Rect
common r s =
    if not (ltb_ℤ r.x s.x)
      && (not (ltb_ℤ (s.x +ℤ s.width) (r.x +ℤ r.width))
          && (not (ltb_ℤ r.y s.y) && not (ltb_ℤ (s.y +ℤ s.height) (r.y +ℤ r.height))))
    then r
    else record r { width = pos 0; height = pos 0 }

abbrev meets : Rect → Rect → Bool
meets r s =
    (ltb_ℤ r.x (s.x +ℤ s.width) && ltb_ℤ s.x (r.x +ℤ r.width))
    && (ltb_ℤ r.y (s.y +ℤ s.height) && ltb_ℤ s.y (r.y +ℤ r.height))

abbrev platform : Platform
platform = record {
  Real = ℤ;
  of_int = λ n. n;
  plus = λ a b. a +ℤ b;
  minus = λ a b. a -ℤ b;
  product = λ a b. a;
  over = λ a b. a;
  is_less = ltb_ℤ;
  bound_real = λ a v b. max_ℤ a (min_ℤ v b);
  lround = λ n. n;
  hypot = λ dx dy. pos ((pos_part dx + neg_part dx) + (pos_part dy + neg_part dy));
  bound = λ a v b. max_ℤ a (min_ℤ v b);
  is_empty = is_void;
  intersects = meets;
  intersected = common;
  center = λ r. record { x = r.x; y = r.y };
}

platform-IsBounding : IsBounding platform
platform-IsBounding = record { low = λ a v b h. ground arith; high = λ a v b h. ground arith }

four_tests :
    (a b c d : Bool)
    → (not a && (not b && (not c && not d))) ≡ true
    → (a ≡ false) × (b ≡ false) × (c ≡ false) × (d ≡ false)
four_tests a b c d h = (ground arith, ground arith, ground arith, ground arith)

has_extent : (r : Rect) → is_void r ≡ false → (pos 0 ≤ℤ r.width) × (pos 0 ≤ℤ r.height)
has_extent r e = (
  le_of_less (pos 0) r.width (both (ltb_ℤ (pos 0) r.width) (ltb_ℤ (pos 0) r.height) e),
  le_of_less (pos 0) r.height (other (ltb_ℤ (pos 0) r.width) (ltb_ℤ (pos 0) r.height) e),
)
  where
    both : (a b : Bool) → not (a && b) ≡ false → a ≡ true
    both a b h = ground arith

    other : (a b : Bool) → not (a && b) ≡ false → b ≡ true
    other a b h = ground arith

platform-IsIntersecting : IsIntersecting platform
platform-IsIntersecting r s e =
    let none_in : Rect = record r { width = pos 0; height = pos 0 } in
    elim (Bool-cases (
      not (ltb_ℤ r.x s.x)
      && (not (ltb_ℤ (s.x +ℤ s.width) (r.x +ℤ r.width))
          && (not (ltb_ℤ r.y s.y) && not (ltb_ℤ (s.y +ℤ s.height) (r.y +ℤ r.height)))))) [
            | inl t ↦
                (let (a, b, c, d) =
                    four_tests (ltb_ℤ r.x s.x) (ltb_ℤ (s.x +ℤ s.width) (r.x +ℤ r.width))
                      (ltb_ℤ r.y s.y) (ltb_ℤ (s.y +ℤ s.height) (r.y +ℤ r.height)) t in
                  let same : common r s ≡ r = if_true none_in t in
                  let (w, h) = has_extent r (ap is_void (sym same) ∙ e) in
                  subst (λ (b : Rect). IsPart b s) (sym same)
                    (record {
                      inside = record {
                        left = le_of_not_less r.x s.x a;
                        right = le_of_not_less (s.x +ℤ s.width) (r.x +ℤ r.width) b;
                        top = le_of_not_less r.y s.y c;
                        bottom = le_of_not_less (s.y +ℤ s.height) (r.y +ℤ r.height) d;
                      };
                      width = w;
                      height = h;
                    }))
            | inr f ↦
                (let void : is_void (common r s) ≡ true = ap is_void (if_false r {y = none_in} f) in
                  cc)
          ]

abbrev cursor : Point
cursor = record { x = pos 90; y = pos 20 }

abbrev popup : Size
popup = record { width = pos 30; height = pos 20 }

abbrev screen : Rect
screen = record { x = pos 0; y = pos 0; width = pos 100; height = pos 100 }

abbrev sides : PopupSides
sides = record { known = false; left = false; above = false; band = negsuc 0 }

abbrev line : Rect
line = record { x = pos 40; y = pos 15; width = pos 55; height = pos 30 }

-- The card flips to the left, over the line, and is moved below it.
moved_below :
    card_of (place_popup_avoiding platform cursor popup screen flip_both (pos 5) line sides)
    ≡ record { x = pos 55; y = pos 45; width = pos 30; height = pos 20 }
unfolding place_popup_avoiding move_off place_popup best_band candidate_in distance_from bands_of
    clamp_to_range is_left is_above is_past right bottom ◌+ℤ◌ ◌-ℤ◌
moved_below = refl

place_popup_avoiding-Avoids_example :
    Avoids platform
      (card_of (place_popup platform cursor popup screen flip_both (pos 5) sides))
      line
      popup
      screen
      (card_of (place_popup_avoiding platform cursor popup screen flip_both (pos 5) line sides))
place_popup_avoiding-Avoids_example =
    place_popup_avoiding-Avoids platform cursor popup screen flip_both (pos 5) line sides
      platform-IsBounding platform-IsIntersecting (omega arith) (omega arith)

place_popup-IsInside_example :
    IsInside (card_of (place_popup platform cursor popup screen flip_both (pos 5) sides)) screen
place_popup-IsInside_example =
    place_popup-IsInside platform cursor popup screen flip_both (pos 5) sides platform-IsBounding
      (omega arith) (omega arith)
