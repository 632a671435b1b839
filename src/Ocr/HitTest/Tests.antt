-- ===== src/Ocr/HitTest/Tests.antt =====
-- Hit tests of src/ocr/hittest.cpp on two lines of two characters, and the theorems at them.
use marupop.Prelude.{
  ℕ, ◌+◌, ◌*◌, ◌≡◌, ◌≢◌, refl, Bool, false, not, ◌&&◌, Option, none, some, [], ◌∷◌, ltb, arith, All,
}
use marupop.Prelude.Int.{pos, pos_part, ◌+ℤ◌, ◌-ℤ◌, ◌≤ℤ◌, ltb_ℤ}
use marupop.Prelude.Text.{codes}
use marupop.Ocr.Shapes.{Rect, CharBox}
use marupop.Ocr.HitTest.{
  Point, Paragraph, Hit, Geometry, right, bottom, rect_between, range_from, line_range, box_at,
  extended_at, extended_char_box, inside_from, find_inside, distance_to, nearest_char, find_nearest,
  hit_test,
}
use marupop.Ocr.HitTest.Gaps.{start_of, end_of, extended_char_box-no_gap}
use marupop.Ocr.HitTest.Hits.{IsDistance}
use marupop.Ocr.HitTest.Answers.{Answers, hit_test-Answers}

abbrev holds : Rect → Point → Bool
holds r p =
    not (ltb_ℤ p.x r.x)
    && (ltb_ℤ p.x (r.x +ℤ r.width) && (not (ltb_ℤ p.y r.y) && ltb_ℤ p.y (r.y +ℤ r.height)))

-- The distances are squares.
abbrev geometry : Geometry
geometry = record {
  Distance = ℕ;
  contains = holds;
  united = λ r s. s;
  hypot = λ dx dy. pos_part dx * pos_part dx + pos_part dy * pos_part dy;
  exceeds = λ d px. ltb (pos_part px * pos_part px) d;
  is_nearer = ltb;
}

geometry-IsDistance : IsDistance geometry
geometry-IsDistance = record {
  irreflexive = λ d. ground arith;
  transitive = λ a b c h k. ground arith;
}

abbrev char_at : ℕ → ℕ → CharBox
char_at x y = record {
  code_point = 12354;
  box = record { x = pos x; y = pos y; width = pos 10; height = pos 10 };
  confidence = 0;
}

abbrev paragraph : Paragraph
paragraph = record {
  text = codes "ああああ";
  chars = char_at 0 0 ∷ char_at 20 0 ∷ char_at 0 30 ∷ char_at 20 30 ∷ [];
  box = record { x = pos 0; y = pos 0; width = pos 30; height = pos 40 };
  vertical = false;
  line_starts = pos 0 ∷ pos 2 ∷ [];
}

abbrev point : ℕ → ℕ → Point
point x y = record { x = pos x; y = pos y }

abbrev answered : Option Hit → Option ℕ
answered none = none
answered (some hit) = some hit.char_index

-- Between two characters of a line, between the lines but near the first, and near nothing.
between : answered (hit_test geometry (paragraph ∷ []) (point 15 35)) ≡ some 2
unfolding hit_test find_inside inside_from extended_char_box extended_at line_range range_from right
    bottom rect_between ◌+ℤ◌ ◌-ℤ◌
between = refl

below_first : answered (hit_test geometry (paragraph ∷ []) (point 3 13)) ≡ some 0
unfolding hit_test find_inside inside_from find_nearest nearest_char distance_to extended_char_box
    extended_at line_range range_from right bottom rect_between ◌+ℤ◌ ◌-ℤ◌
below_first = refl

far : answered (hit_test geometry (paragraph ∷ []) (point 3 20)) ≡ none
unfolding hit_test find_inside inside_from find_nearest nearest_char distance_to extended_char_box
    extended_at line_range range_from right bottom rect_between ◌+ℤ◌ ◌-ℤ◌
far = refl

hit_test-Answers_example :
    Answers geometry (point 3 13) (paragraph ∷ []) (hit_test geometry (paragraph ∷ []) (point 3 13))
hit_test-Answers_example =
    hit_test-Answers geometry (point 3 13) (paragraph ∷ []) geometry-IsDistance

starts_elsewhere : All (λ s. s ≢ pos (2 + 1)) paragraph.line_starts
starts_elsewhere = ((λ e. cc), ((λ e. cc), tt))

extended_char_box-no_gap_example :
    (start_of false (box_at paragraph.chars (2 + 1))
      ≤ℤ end_of false (extended_char_box paragraph (pos 2)) +ℤ pos 1)
    × (start_of false (extended_char_box paragraph (pos (2 + 1)))
        ≤ℤ end_of false (box_at paragraph.chars 2) +ℤ pos 1)
extended_char_box-no_gap_example =
    extended_char_box-no_gap paragraph 2 (omega arith) starts_elsewhere
