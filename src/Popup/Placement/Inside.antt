-- ===== src/Popup/Placement/Inside.antt =====
-- The clamp of src/popup/placement.cpp: a card that fits stays on its screen.
use marupop.Prelude.{
  ◌≡◌, sym, ap, subst, inl, inr, true, false, not, if_true, if_false, Bool-cases, arith,
}
use marupop.Prelude.Int.{ℤ, ◌+ℤ◌, ◌-ℤ◌, ◌≤ℤ◌, ltb_ℤ, int_laws}
use marupop.Ocr.Shapes.{Rect}
use marupop.Ocr.HitTest.{Point}
use marupop.Popup.Placement.{Size, Mode, PopupSides, Platform, clamp_to_range, place_popup}

-- qBound() gives a value between its bounds.
pub record IsBounding (q : Platform) : Type 0 where
  pub low : (a v b : ℤ) → a ≤ℤ b → a ≤ℤ q.bound a v b
  pub high : (a v b : ℤ) → a ≤ℤ b → q.bound a v b ≤ℤ b

pub record IsInside (r screen : Rect) : Type 0 where
  pub left : screen.x ≤ℤ r.x
  pub right : r.x +ℤ r.width ≤ℤ screen.x +ℤ screen.width
  pub top : screen.y ≤ℤ r.y
  pub bottom : r.y +ℤ r.height ≤ℤ screen.y +ℤ screen.height

abbrev pub card_of : Rect × PopupSides → Rect
card_of (card, sides) = card

pub le_of_not_less : (a b : ℤ) → ltb_ℤ a b ≡ false → b ≤ℤ a
le_of_not_less a b h = ground arith

pub le_of_less : (a b : ℤ) → ltb_ℤ a b ≡ true → a ≤ℤ b
le_of_less a b h = ground arith

-- A span that fits between two edges.
pub clamp-fits :
    (q : Platform) (v : q.Real) (low high span : ℤ)
    → IsBounding q
    → low +ℤ span ≤ℤ high
    → (low ≤ℤ clamp_to_range q v low high span) × (clamp_to_range q v low high span +ℤ span ≤ℤ high)
unfolding clamp_to_range
clamp-fits q v low high span laws h =
    let limit = high -ℤ span in
    let Goal : ℤ → Type 0 = λ r. (low ≤ℤ r) × (r +ℤ span ≤ℤ high) in
    elim (Bool-cases (ltb_ℤ low limit)) [
      | inl t ↦
          (let le : low ≤ℤ limit = le_of_less low limit t in
            let b = q.bound low (q.lround v) limit in
            let lower : low ≤ℤ b = laws.low low (q.lround v) limit le in
            let upper : b ≤ℤ limit = laws.high low (q.lround v) limit le in
            let parts : b +ℤ span ≤ℤ high = fits_below b high span upper in
            subst Goal (sym (if_false low {y = b} (ap not t))) (lower, parts))
      | inr f ↦
          subst Goal (sym (if_true {x = low} (q.bound low (q.lround v) limit) (ap not f)))
            (le_self low, h)
    ]
  where
    le_self : (a : ℤ) → a ≤ℤ a
    le_self a = omega arith

    fits_below : (b high span : ℤ) → b ≤ℤ (high -ℤ span) → b +ℤ span ≤ℤ high
    fits_below b high span h = omega int_laws

add_le : (a b c : ℤ) → b ≤ℤ c → a +ℤ b ≤ℤ a +ℤ c
add_le a b c h = omega int_laws

-- In every mode, and whatever side the card had, a card that fits in the screen is placed inside it.
pub place_popup-IsInside :
    (q : Platform) (cursor : Point) (popup : Size) (screen : Rect) (mode : Mode) (offset : ℤ)
    (sides : PopupSides)
    → IsBounding q
    → popup.width ≤ℤ screen.width
    → popup.height ≤ℤ screen.height
    → IsInside (card_of (place_popup q cursor popup screen mode offset sides)) screen
unfolding place_popup
place_popup-IsInside q cursor popup screen mode offset sides laws w h =
    let (l, r) =
      clamp-fits q _ screen.x (screen.x +ℤ screen.width) popup.width laws
        (add_le screen.x popup.width screen.width w) in
    let (t, b) =
      clamp-fits q _ screen.y (screen.y +ℤ screen.height) popup.height laws
        (add_le screen.y popup.height screen.height h) in
    record { left = l; right = r; top = t; bottom = b }
