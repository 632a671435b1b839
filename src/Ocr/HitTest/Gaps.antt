-- ===== src/Ocr/HitTest/Gaps.antt =====
-- The extended boxes of src/ocr/hittest.cpp: neighbours on a line leave no gap.
use marupop.Prelude.{
  ℕ, ◌+◌, ◌-◌, ◌<◌, ◌≡◌, ◌≢◌, refl, sym, ap, ◌∙◌, subst, inl, inr, Bool, true, false, List, [], ◌∷◌,
  ltb, length, if◌then◌else◌, if_true, if_false, Bool-cases, All, arith,
}
use marupop.Prelude.Int.{ℤ, pos, negsuc, ◌+ℤ◌, ◌-ℤ◌, ◌≤ℤ◌, ltb_ℤ, max_ℤ, int_laws}
use marupop.Ocr.Shapes.{Rect}
use marupop.Ocr.HitTest.{
  Paragraph, min_ℤ, right, bottom, rect_between, range_from, line_range, box_at, has_previous,
  has_next, extended_at, extended_char_box,
}

-- The edges of a box along the reading axis.
abbrev pub start_of : Bool → Rect → ℤ
start_of true box = box.y
start_of false box = box.x

abbrev pub end_of : Bool → Rect → ℤ
end_of true box = bottom box
end_of false box = right box

above : (i : ℕ) (s : ℤ) → s ≢ pos (i + 1) → ltb_ℤ (pos i) s ≡ true → ltb_ℤ (pos (i + 1)) s ≡ true
above i (pos n) h t = elim (Bool-cases (ltb_ℤ (pos (i + 1)) (pos n))) [
  | inl e ↦ e
  | inr f ↦ (let d : n ≡ i + 1 = ground arith in absurd (h (ap pos d)))
]
above i (negsuc n) h t = absurd (ground arith)

below : (i : ℕ) (s : ℤ) → s ≢ pos i → ltb_ℤ (pos i) s ≡ false → ltb_ℤ s (pos i) ≡ true
below i (pos n) h t = elim (Bool-cases (ltb_ℤ (pos n) (pos i))) [
  | inl e ↦ e
  | inr f ↦ (let d : n ≡ i = ground arith in absurd (h (ap pos d)))
]
below i (negsuc n) h t = ground arith

has_next-range :
    (i : ℕ) (starts : List ℤ) (start end : ℤ)
    → All (λ s. s ≢ pos (i + 1)) starts
    → ltb_ℤ (pos (i + 1)) end ≡ true
    → has_next (range_from starts (pos i) start end) i ≡ true
unfolding range_from
has_next-range i [] start end h e = e
has_next-range i (s ∷ starts) start end (h, hs) e = elim (Bool-cases (ltb_ℤ (pos i) s)) [
  | inl t ↦
      ap (λ (r : ℤ × ℤ). has_next r i) (if_true (range_from starts (pos i) s end) t) ∙ above i s h t
  | inr f ↦
      ap (λ (r : ℤ × ℤ). has_next r i) (if_false (start, s) f) ∙ has_next-range i starts s end hs e
]

has_previous-range :
    (i : ℕ) (starts : List ℤ) (start end : ℤ)
    → All (λ s. s ≢ pos (i + 1)) starts
    → ltb_ℤ start (pos (i + 1)) ≡ true
    → has_previous (range_from starts (pos (i + 1)) start end) (i + 1) ≡ true
unfolding range_from
has_previous-range i [] start end h e = e
has_previous-range i (s ∷ starts) start end (h, hs) e = elim (Bool-cases (ltb_ℤ (pos (i + 1)) s)) [
  | inl t ↦
      ap (λ (r : ℤ × ℤ). has_previous r (i + 1)) (if_true (range_from starts (pos (i + 1)) s end) t)
      ∙ e
  | inr f ↦
      ap (λ (r : ℤ × ℤ). has_previous r (i + 1)) (if_false (start, s) f)
      ∙ has_previous-range i starts s end hs (below (i + 1) s h f)
]

right-between : (l t r b : ℤ) → right (rect_between l t r b) ≡ r
unfolding right rect_between
right-between l t r b = omega int_laws

bottom-between : (l t r b : ℤ) → bottom (rect_between l t r b) ≡ b
unfolding bottom rect_between
bottom-between l t r b = omega int_laws

le_max : (v w : ℤ) → w ≤ℤ max_ℤ v w
le_max v w = ground arith

min_le : (v w : ℤ) → min_ℤ v w ≤ℤ w
min_le v w = ground arith

le_next : (m w : ℤ) → (w -ℤ pos 1) ≤ℤ m → w ≤ℤ m +ℤ pos 1
le_next m w h = omega int_laws

end-if :
    (v : Bool) (a b c d a' b' c' d' : ℤ)
    → end_of v (if v then rect_between a b c d else rect_between a' b' c' d')
      ≡ (if v then d else c')
end-if true a b c d a' b' c' d' = bottom-between a b c d
end-if false a b c d a' b' c' d' = right-between a' b' c' d'

start-if :
    (v : Bool) (a b c d a' b' c' d' : ℤ)
    → start_of v (if v then rect_between a b c d else rect_between a' b' c' d')
      ≡ (if v then b else a')
unfolding rect_between
start-if true a b c d a' b' c' d' = refl
start-if false a b c d a' b' c' d' = refl

reaches :
    (v next : Bool) (box after : Rect)
    → next ≡ true
    → start_of v after
      ≤ℤ (if v
          then if next then max_ℤ (bottom box) (after.y -ℤ pos 1) else bottom box
          else if next
          then max_ℤ (right box) (after.x -ℤ pos 1)
          else right box)
        +ℤ pos 1
reaches true true box after e = le_next _ after.y (le_max (bottom box) (after.y -ℤ pos 1))
reaches false true box after e = le_next _ after.x (le_max (right box) (after.x -ℤ pos 1))
reaches v false box after e = cc

reaches_back :
    (v previous : Bool) (box before : Rect)
    → previous ≡ true
    → (if v
        then if previous then min_ℤ box.y (bottom before +ℤ pos 1) else box.y
        else if previous
        then min_ℤ box.x (right before +ℤ pos 1)
        else box.x)
      ≤ℤ end_of v before +ℤ pos 1
reaches_back true true box before e = min_le box.y (bottom before +ℤ pos 1)
reaches_back false true box before e = min_le box.x (right before +ℤ pos 1)
reaches_back v false box before e = cc

next_reached :
    (p : Paragraph) (i : ℕ)
    → has_next (line_range p (pos i)) i ≡ true
    → start_of p.vertical (box_at p.chars (i + 1)) ≤ℤ end_of p.vertical (extended_at p i) +ℤ pos 1
unfolding extended_at
next_reached p i e =
    subst (λ r. start_of p.vertical (box_at p.chars (i + 1)) ≤ℤ r +ℤ pos 1)
      (sym (end-if p.vertical _ _ _ _ _ _ _ _))
      (reaches p.vertical (has_next (line_range p (pos i)) i) (box_at p.chars i)
        (box_at p.chars (i + 1)) e)

previous_reached :
    (p : Paragraph) (i : ℕ)
    → has_previous (line_range p (pos (i + 1))) (i + 1) ≡ true
    → start_of p.vertical (extended_at p (i + 1)) ≤ℤ end_of p.vertical (box_at p.chars i) +ℤ pos 1
unfolding extended_at
previous_reached p i e =
    subst (λ r. r ≤ℤ end_of p.vertical (box_at p.chars i) +ℤ pos 1)
      (sym (start-if p.vertical _ _ _ _ _ _ _ _))
      (subst
        (λ j.
          (if p.vertical
            then if has_previous (line_range p (pos (i + 1))) (i + 1)
              then min_ℤ (box_at p.chars (i + 1)).y (bottom (box_at p.chars j) +ℤ pos 1)
              else (box_at p.chars (i + 1)).y
            else if has_previous (line_range p (pos (i + 1))) (i + 1)
            then min_ℤ (box_at p.chars (i + 1)).x (right (box_at p.chars j) +ℤ pos 1)
            else (box_at p.chars (i + 1)).x)
          ≤ℤ end_of p.vertical (box_at p.chars i) +ℤ pos 1)
        {x = i} {y = i + 1 - 1} (omega arith)
        (reaches_back p.vertical (has_previous (line_range p (pos (i + 1))) (i + 1))
          (box_at p.chars (i + 1)) (box_at p.chars i) e))

-- Of two characters of a paragraph, one after the other, of which the second starts no line, no
-- pixel lies along the reading axis between the extended box of the first and the box of the second,
-- and none between the box of the first and the extended box of the second.
pub extended_char_box-no_gap :
    (p : Paragraph) (i : ℕ)
    → i + 1 < length p.chars
    → All (λ s. s ≢ pos (i + 1)) p.line_starts
    → (start_of p.vertical (box_at p.chars (i + 1))
        ≤ℤ end_of p.vertical (extended_char_box p (pos i)) +ℤ pos 1)
      × (start_of p.vertical (extended_char_box p (pos (i + 1)))
          ≤ℤ end_of p.vertical (box_at p.chars i) +ℤ pos 1)
unfolding extended_char_box line_range
extended_char_box-no_gap p i h starts =
    let first : ltb i (length p.chars) ≡ true = ground arith in
    let second : ltb (i + 1) (length p.chars) ≡ true = ground arith in
    let end = pos (length p.chars) in
    (
      subst (λ r. start_of p.vertical (box_at p.chars (i + 1)) ≤ℤ end_of p.vertical r +ℤ pos 1)
          (sym (if_true _ first))
          (next_reached p i (has_next-range i p.line_starts (pos 0) end starts (ground arith))),
      subst (λ r. start_of p.vertical r ≤ℤ end_of p.vertical (box_at p.chars i) +ℤ pos 1)
          (sym (if_true _ second))
          (previous_reached p i
            (has_previous-range i p.line_starts (pos 0) end starts (ground arith))),
    )
