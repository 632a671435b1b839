-- ===== src/Popup/Placement/Avoiding.antt =====
-- placePopupAvoiding() of src/popup/placement.cpp.
use marupop.Prelude.{
  ◌≡◌, refl, sym, subst, ◌⊎◌, inl, inr, true, false, not, ◌||◌, none, some, if◌then◌else◌, if_true,
  if_false, Bool-cases, All,
}
use marupop.Prelude.Int.{ℤ, ◌≤ℤ◌}
use marupop.Ocr.Shapes.{Rect}
use marupop.Ocr.HitTest.{Point}
use marupop.Popup.Placement.{
  Size, Mode, PopupSides, Platform, bands_of, candidate_in, Best, fits, best_band, placed, move_off,
  place_popup, place_popup_avoiding,
}
use marupop.Popup.Placement.Inside.{IsBounding, IsInside, card_of, place_popup-IsInside}
use marupop.Popup.Placement.Bands.{
  Misses, IsPart, IsMoved, candidate-IsInside, BestIs, best_band-BestIs, best_band-none,
  bands-IsMoved,
}

-- QRect::intersected() gives a part of its argument, where the two have one in common.
abbrev pub IsIntersecting : Platform → Type 0
IsIntersecting q =
    (r s : Rect) → q.is_empty (q.intersected r s) ≡ false → IsPart (q.intersected r s) s

-- Why a card stays where the mode puts it: it is not over the text, or no band holds it.
abbrev pub Stays : Platform → Rect → Rect → Size → Rect → Type 0
Stays q unconstrained avoid popup screen =
    (q.is_empty avoid || not (q.intersects unconstrained avoid) ≡ true)
    ⊎ (q.is_empty (q.intersected avoid screen) ≡ true)
    ⊎ All (λ band. fits popup band ≡ false) (bands_of screen (q.intersected avoid screen))

-- A card that is inside the screen, and either misses the text or stays for a reason.
abbrev pub Avoids : Platform → Rect → Rect → Size → Rect → Rect → Type 0
Avoids q unconstrained avoid popup screen card =
    IsInside card screen
    × (Misses card (q.intersected avoid screen)
        ⊎ ((card ≡ unconstrained) × Stays q unconstrained avoid popup screen))

placed-Avoids :
    (q : Platform) (u avoid screen : Rect) (popup : Size) (kept : ℤ) (sides : PopupSides)
    (best : Best q)
    → IsInside u screen
    → BestIs q u popup kept (IsMoved screen (q.intersected avoid screen)) best
    → (best ≡ none → Stays q u avoid popup screen)
    → Avoids q u avoid popup screen (card_of (placed q (u, sides) best))
placed-Avoids q u avoid screen popup kept sides none i b s = (i, inr (refl, s refl))
placed-Avoids q u avoid screen popup kept sides (some (card, band, distance)) i (j, m) s =
    (j, inl m)

move_off-Avoids :
    (q : Platform) (avoid screen : Rect) (popup : Size) (kept : ℤ) (placement : Rect × PopupSides)
    → IsBounding q
    → IsIntersecting q
    → IsInside (card_of placement) screen
    → Avoids q
        (card_of placement)
        avoid
        popup
        screen
        (card_of (move_off q avoid popup screen kept placement))
unfolding move_off
move_off-Avoids q avoid screen popup kept (u, sides) laws parts i =
    let blocked = q.intersected avoid screen in
    let best = best_band q u popup kept (bands_of screen blocked) 0 none in
    let moved = placed q (u, sides) best in
    let over = if q.is_empty blocked then (u, sides) else moved in
    let Goal : Rect × PopupSides → Type 0 = λ r. Avoids q u avoid popup screen (card_of r) in
    elim (Bool-cases (q.is_empty avoid || not (q.intersects u avoid))) [
      | inl t ↦ subst Goal (sym (if_true {x = (u, sides)} over t)) (i, inr (refl, inl t))
      | inr f ↦
          subst Goal (sym (if_false (u, sides) {y = over} f))
            (elim (Bool-cases (q.is_empty blocked)) [
              | inl t ↦
                  subst Goal (sym (if_true {x = (u, sides)} moved t)) (i, inr (refl, inr (inl t)))
              | inr e ↦ subst Goal (sym (if_false (u, sides) {y = moved} e)) (
                  placed-Avoids q u avoid screen popup kept sides best i
                    (best_band-BestIs q u popup kept (IsMoved screen blocked)
                      (bands_of screen blocked) 0 none
                      (bands-IsMoved screen blocked (candidate_in q u popup) (fits popup)
                        (parts avoid screen e) (λ band h. candidate-IsInside q u popup band laws h))
                      tt)
                    (λ n. inr (inr (best_band-none q u popup kept (bands_of screen blocked) 0 n))))
            ])
    ]

-- A card that fits in the screen is placed inside it, and it misses the part of the text that is on
-- the screen, or else it is where the mode alone puts it, because it does not meet the text there,
-- because no part of the text is on the screen, or because no band beside the text holds it.
pub place_popup_avoiding-Avoids :
    (q : Platform) (cursor : Point) (popup : Size) (screen : Rect) (mode : Mode) (offset : ℤ)
    (avoid : Rect) (sides : PopupSides)
    → IsBounding q
    → IsIntersecting q
    → popup.width ≤ℤ screen.width
    → popup.height ≤ℤ screen.height
    → Avoids q
        (card_of (place_popup q cursor popup screen mode offset sides))
        avoid
        popup
        screen
        (card_of (place_popup_avoiding q cursor popup screen mode offset avoid sides))
unfolding place_popup_avoiding
place_popup_avoiding-Avoids q cursor popup screen mode offset avoid sides laws parts w h =
    move_off-Avoids q avoid screen popup _ (place_popup q cursor popup screen mode offset sides)
      laws parts (place_popup-IsInside q cursor popup screen mode offset sides laws w h)
