-- ===== src/Popup/Placement/Bands.antt =====
-- The bands of src/popup/placement.cpp: a card that is moved off the text misses it.
use marupop.Prelude.{
  ◌≢◌, ℕ, ◌+◌, ◌≡◌, sym, ap, ◌∙◌, subst, inl, inr, Bool, true, false, not, ◌&&◌, ◌||◌, none, some,
  List, [], ◌∷◌, if_true, if_false, Bool-cases, All, arith,
}
use marupop.Prelude.Int.{ℤ, pos, ◌+ℤ◌, ◌-ℤ◌, ◌≤ℤ◌, ltb_ℤ, int_laws}
use marupop.Ocr.Shapes.{Rect}
use marupop.Ocr.HitTest.{right, bottom}
use marupop.Popup.Placement.{
  Size, Platform, bands_of, candidate_in, Best, is_better, distance_from, fits, is_index, best_band,
}
use marupop.Popup.Placement.Inside.{IsBounding, IsInside, clamp-fits}

-- Two rectangles with an edge between them.
pub data Misses (r s : Rect) : Type 0 where
  above : r.y +ℤ r.height ≤ℤ s.y → Misses r s
  below : s.y +ℤ s.height ≤ℤ r.y → Misses r s
  left_of : r.x +ℤ r.width ≤ℤ s.x → Misses r s
  right_of : s.x +ℤ s.width ≤ℤ r.x → Misses r s

fits-width : (popup : Size) (band : Rect) → fits popup band ≡ true → popup.width ≤ℤ band.width
fits-width popup band h = fits_le popup.width band.width (ltb_ℤ band.height popup.height) h
  where
    fits_le : (a b : ℤ) (o : Bool) → not (ltb_ℤ b a || o) ≡ true → a ≤ℤ b
    fits_le a b o h = ground arith

fits-height : (popup : Size) (band : Rect) → fits popup band ≡ true → popup.height ≤ℤ band.height
fits-height popup band h = fits_le popup.height band.height (ltb_ℤ band.width popup.width) h
  where
    fits_le : (a b : ℤ) (o : Bool) → not (o || ltb_ℤ b a) ≡ true → a ≤ℤ b
    fits_le a b o h = ground arith

past_end : (x w s : ℤ) → s ≤ℤ w → x +ℤ s ≤ℤ ((x +ℤ w) -ℤ pos 1) +ℤ pos 1
past_end x w s h = omega int_laws

end_eq : (x w : ℤ) → ((x +ℤ w) -ℤ pos 1) +ℤ pos 1 ≡ x +ℤ w
end_eq x w = omega int_laws

-- A card that fits in a band is placed inside the band.
pub candidate-IsInside :
    (q : Platform) (unconstrained : Rect) (popup : Size) (band : Rect)
    → IsBounding q
    → fits popup band ≡ true
    → IsInside (candidate_in q unconstrained popup band) band
unfolding candidate_in right bottom
candidate-IsInside q u popup band laws h =
    let (l, r) =
      clamp-fits q (q.of_int u.x) band.x (right band +ℤ pos 1) popup.width laws
        (past_end band.x band.width popup.width (fits-width popup band h)) in
    let (t, b) =
      clamp-fits q (q.of_int u.y) band.y (bottom band +ℤ pos 1) popup.height laws
        (past_end band.y band.height popup.height (fits-height popup band h)) in
    record {
      left = l;
      right =
          subst (λ e. (candidate_in q u popup band).x +ℤ popup.width ≤ℤ e)
            (end_eq band.x band.width) r;
      top = t;
      bottom =
          subst (λ e. (candidate_in q u popup band).y +ℤ popup.height ≤ℤ e)
            (end_eq band.y band.height) b;
    }

module _ (q : Platform) (unconstrained : Rect) (popup : Size) (kept : ℤ) (P : Rect → Type 0) where
  abbrev pub BestIs : Best q → Type 0
  BestIs none = Unit
  BestIs (some (card, band, distance)) = P card

  -- What every band gives a card that fits holds of the best card.
  pub best_band-BestIs :
      (bands : List Rect) (index : ℕ) (best : Best q)
      → All (λ band. fits popup band ≡ true → P (candidate_in q unconstrained popup band)) bands
      → BestIs best
      → BestIs (best_band q unconstrained popup kept bands index best)
  unfolding best_band
  best_band-BestIs [] index best h b = b
  best_band-BestIs (band ∷ bands) index best (h, hs) b =
      let card = candidate_in q unconstrained popup band in
      let distance = distance_from q unconstrained card (is_index kept index) in
      let next : Best q = some (card, pos index, distance) in
      elim (Bool-cases (fits popup band && is_better q distance best)) [
        | inl t ↦
            best_band-BestIs bands (index + 1) _ hs
              (subst BestIs (sym (if_true {x = next} best t)) (h (ground arith)))
        | inr f ↦
            best_band-BestIs bands (index + 1) _ hs
              (subst BestIs (sym (if_false next {y = best} f)) b)
      ]

-- Where the loop ends on no card, none of the bands holds one.
best_band-some :
    (q : Platform) (u : Rect) (popup : Size) (kept : ℤ) (bands : List Rect) (index : ℕ)
    (b : Rect × ℤ × q.Real)
    → best_band q u popup kept bands index (some b) ≢ none
unfolding best_band
best_band-some q u popup kept [] index b = λ e. cc
best_band-some q u popup kept (band ∷ bands) index b =
    let card = candidate_in q u popup band in
    let distance = distance_from q u card (is_index kept index) in
    let next : Best q = some (card, pos index, distance) in
    elim (Bool-cases (fits popup band && is_better q distance (some b))) [
      | inl t ↦ λ e.
          best_band-some q u popup kept bands (index + 1) (card, pos index, distance)
            (ap (best_band q u popup kept bands (index + 1)) (sym (if_true {x = next} (some b) t))
              ∙ e)
      | inr f ↦ λ e.
          best_band-some q u popup kept bands (index + 1) b (
            ap (best_band q u popup kept bands (index + 1)) (sym (if_false next {y = some b} f))
            ∙ e)
    ]

pub best_band-none :
    (q : Platform) (u : Rect) (popup : Size) (kept : ℤ) (bands : List Rect) (index : ℕ)
    → best_band q u popup kept bands index none ≡ none
    → All (λ band. fits popup band ≡ false) bands
unfolding best_band
best_band-none q u popup kept [] index e = tt
best_band-none q u popup kept (band ∷ bands) index e =
    let card = candidate_in q u popup band in
    let distance = distance_from q u card (is_index kept index) in
    let next : Best q = some (card, pos index, distance) in
    elim (Bool-cases (fits popup band)) [
      | inl t ↦
          (let c : (fits popup band && true) ≡ true = ground arith in
            absurd (
              best_band-some q u popup kept bands (index + 1) (card, pos index, distance)
                (ap (best_band q u popup kept bands (index + 1)) (sym (if_true {x = next} none c))
                  ∙ e)))
      | inr f ↦
          (let c : (fits popup band && true) ≡ false = ground arith in
            (
              f,
              best_band-none q u popup kept bands (index + 1) (
                  ap (best_band q u popup kept bands (index + 1)) (sym (if_false next {y = none} c))
                  ∙ e),
            ))
    ]

-- What is blocked is a part of the screen with an extent.
pub record IsPart (blocked screen : Rect) : Type 0 where
  pub inside : IsInside blocked screen
  pub width : pos 0 ≤ℤ blocked.width
  pub height : pos 0 ≤ℤ blocked.height

le_trans_ℤ : (a b c : ℤ) → a ≤ℤ b → b ≤ℤ c → a ≤ℤ c
le_trans_ℤ a b c h k = omega arith

to_start : (s b e : ℤ) → e ≤ℤ s +ℤ (b -ℤ s) → e ≤ℤ b
to_start s b e h = omega int_laws

le_from_start :
    (s b w t : ℤ) → s ≤ℤ b → b +ℤ w ≤ℤ t → pos 0 ≤ℤ w → s ≤ℤ ((b +ℤ w) -ℤ pos 1) +ℤ pos 1
le_from_start s b w t h k l = omega int_laws

to_end :
    (b w s v e : ℤ)
    → e ≤ℤ (((b +ℤ w) -ℤ pos 1) +ℤ pos 1) +ℤ (((s +ℤ v) -ℤ pos 1) -ℤ ((b +ℤ w) -ℤ pos 1))
    → e ≤ℤ s +ℤ v
to_end b w s v e h = omega int_laws

after_end : (b w x : ℤ) → ((b +ℤ w) -ℤ pos 1) +ℤ pos 1 ≤ℤ x → b +ℤ w ≤ℤ x
after_end b w x h = omega int_laws

start_le : (b w t : ℤ) → b +ℤ w ≤ℤ t → pos 0 ≤ℤ w → b ≤ℤ t
start_le b w t h k = omega int_laws

abbrev pub IsMoved : Rect → Rect → Rect → Type 0
IsMoved screen blocked card = IsInside card screen × Misses card blocked

-- A card inside one of the four bands is inside the screen and misses what is blocked.
pub bands-IsMoved :
    (screen blocked : Rect) (f : Rect → Rect) (fit : Rect → Bool)
    → IsPart blocked screen
    → ((band : Rect) → fit band ≡ true → IsInside (f band) band)
    → All (λ band. fit band ≡ true → IsMoved screen blocked (f band)) (bands_of screen blocked)
unfolding bands_of right bottom
bands-IsMoved screen b f fit part inside =
    let i = part.inside in
    (
      (λ t.
          let c = inside _ t in
          let e = to_start screen.y b.y _ c.bottom in
          (
            record {
              left = c.left;
              right = c.right;
              top = c.top;
              bottom = le_trans_ℤ _ b.y _ e (start_le b.y b.height _ i.bottom part.height);
            },
            above e,
          )),
      (
        (λ t.
            let c = inside _ t in
            (
              record {
                left = c.left;
                right = c.right;
                top =
                    le_trans_ℤ screen.y _ _
                      (le_from_start screen.y b.y b.height _ i.top i.bottom part.height) c.top;
                bottom = to_end b.y b.height screen.y screen.height _ c.bottom;
              },
              below (after_end b.y b.height _ c.top),
            )),
        (
          (λ t.
              let c = inside _ t in
              let e = to_start screen.x b.x _ c.right in
              (
                record {
                  left = c.left;
                  right = le_trans_ℤ _ b.x _ e (start_le b.x b.width _ i.right part.width);
                  top = c.top;
                  bottom = c.bottom;
                },
                left_of e,
              )),
          (
            (λ t.
                let c = inside _ t in
                (
                  record {
                    left =
                        le_trans_ℤ screen.x _ _
                          (le_from_start screen.x b.x b.width _ i.left i.right part.width) c.left;
                    right = to_end b.x b.width screen.x screen.width _ c.right;
                    top = c.top;
                    bottom = c.bottom;
                  },
                  right_of (after_end b.x b.width _ c.left),
                )),
            tt,
          ),
        ),
      ),
    )
