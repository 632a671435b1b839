-- ===== src/Ocr/HitTest/Answers.antt =====
-- hitTest() of src/ocr/hittest.cpp: every answer, against what it stands for.
use marupop.Prelude.{
  ℕ, zero, suc, ◌+◌, ◌≤◌, ◌<◌, ◌≡◌, refl, sym, ap, ◌∙◌, subst, ◌⊎◌, inl, inr, true, false, Option,
  none, some, List, [], ◌∷◌, length, get_elem?, drop, if_true, if_false, Bool-cases, All, arith,
}
use marupop.Prelude.Int.{pos}
use marupop.Ocr.Shapes.{CharBox}
use marupop.Ocr.HitTest.{
  Point, is_beyond, Paragraph, Hit, Geometry, extended_char_box, inside_from, hit_in, find_inside,
  distance_to, Nearest, nearest_char, find_nearest, hit_of, or_else, hit_test,
}
use marupop.Ocr.HitTest.Hits.{
  IsDistance, IsInside, IsAt, Beaten, step, IsNear, hit_at, step-IsNear, paragraphs-Beaten,
}

-- The element at which a list is dropped.
get_elem?-drop :
    {A : Type 0} (i : ℕ) (all xs : List A) (x : A) → drop i all ≡ x ∷ xs → get_elem? all i ≡ some x
get_elem?-drop zero all xs x e = ap (λ ys. get_elem? ys 0) e
get_elem?-drop (suc i) [] xs x e = cc
get_elem?-drop (suc i) (y ∷ all) xs x e = get_elem?-drop i all xs x e

drop-next :
    {A : Type 0} (i : ℕ) (all xs : List A) (x : A) → drop i all ≡ x ∷ xs → drop (i + 1) all ≡ xs
drop-next zero all xs x e = ap (drop 1) e
drop-next (suc i) [] xs x e = cc
drop-next (suc i) (y ∷ all) xs x e =
    ap (λ n. drop n (y ∷ all)) {x = suc i + 1} {y = suc (i + 1)} (omega arith)
    ∙ drop-next i all xs x e

get_elem?-bound :
    {A : Type 0} (i : ℕ) (all : List A) (x : A) → get_elem? all i ≡ some x → i < length all
get_elem?-bound i [] x e = cc
get_elem?-bound zero (y ∷ all) x e = omega arith
get_elem?-bound (suc i) (y ∷ all) x e = omega (arith, get_elem?-bound i all x e)

-- No element is left at or after a place where nothing is left.
drop-end : {A : Type 0} (i : ℕ) (all : List A) → drop i all ≡ [] → length all ≤ i
drop-end zero [] e = omega arith
drop-end zero (y ∷ all) e = cc
drop-end (suc i) [] e = omega arith
drop-end (suc i) (y ∷ all) e = omega (arith, drop-end i all e)

module _ (g : Geometry) (point : Point) where
  -- What the search for an extended box in one paragraph gives.
  abbrev CharOutcome : Paragraph → ℕ → Option ℕ → Type 0
  CharOutcome p index none =
      (j : ℕ)
      → index ≤ j
      → j < length p.chars
      → g.contains (extended_char_box p (pos j)) point ≡ false
  CharOutcome p index (some j) =
      (j < length p.chars) × (g.contains (extended_char_box p (pos j)) point ≡ true)

  CharOutcome-next :
      (p : Paragraph) (index : ℕ) (o : Option ℕ)
      → g.contains (extended_char_box p (pos index)) point ≡ false
      → CharOutcome p (index + 1) o
      → CharOutcome p index o
  CharOutcome-next p index none f h = λ j le less. elim (split index j le) [
    | inl e ↦ subst (λ j. g.contains (extended_char_box p (pos j)) point ≡ false) e f
    | inr l ↦ h j l less
  ]
    where
      split : (i j : ℕ) → i ≤ j → (i ≡ j) ⊎ (i + 1 ≤ j)
      split i j le = ground arith
  CharOutcome-next p index (some j) f h = h

  inside_from-CharOutcome :
      (p : Paragraph) (rounds index : ℕ)
      → index + rounds ≡ length p.chars
      → CharOutcome p index (inside_from g p point rounds index)
  unfolding inside_from
  inside_from-CharOutcome p zero index e = λ j le less. absurd (omega arith)
  inside_from-CharOutcome p (suc rounds) index e =
      let rest = inside_from g p point rounds (index + 1) in
      elim (Bool-cases (g.contains (extended_char_box p (pos index)) point)) [
        | inl t ↦
            subst (CharOutcome p index) (sym (if_true {x = some index} rest t)) (omega arith, t)
        | inr f ↦ subst (CharOutcome p index) (sym (if_false (some index) {y = rest} f)) (
            CharOutcome-next p index rest f
              (inside_from-CharOutcome p rounds (index + 1) (omega arith)))
      ]

  -- What the search through the paragraphs gives, from one of them on.
  abbrev InsideOutcome : List Paragraph → ℕ → Option Hit → Type 0
  InsideOutcome all number none = (hit : Hit) → IsInside g all point hit → hit.paragraph < number
  InsideOutcome all number (some hit) = IsInside g all point hit

  -- A paragraph without a character that holds the point, in front of the others.
  InsideOutcome-next :
      (all : List Paragraph) (p : Paragraph) (number : ℕ) (o : Option Hit)
      → get_elem? all number ≡ some p
      → ((j : ℕ)
          → j < length p.chars
          → g.contains p.box point ≡ true
          → g.contains (extended_char_box p (pos j)) point ≡ true
          → ⊥)
      → InsideOutcome all (number + 1) o
      → InsideOutcome all number o
  InsideOutcome-next all p number none e clear h = λ hit i.
      elim (split hit.paragraph number (h hit i)) [
        | inl l ↦ l
        | inr d ↦
            (let q : i.paragraph ≡ p =
                injective i.paragraph p (sym i.at ∙ (ap (get_elem? all) d ∙ e)) in
              absurd (
                clear hit.char_index
                  (subst (λ (q : Paragraph). hit.char_index < length q.chars) q i.char_in)
                  (subst (λ (q : Paragraph). g.contains q.box point ≡ true) q i.box)
                  (subst
                    (λ (q : Paragraph).
                      g.contains (extended_char_box q (pos hit.char_index)) point ≡ true)
                    q i.char_box)))
      ]
    where
      split : (m n : ℕ) → m < n + 1 → (m < n) ⊎ (m ≡ n)
      split m n l = ground arith

      injective : (a b : Paragraph) → some a ≡ some b → a ≡ b
      injective a b e = cc
  InsideOutcome-next all p number (some hit) e clear h = h

  hit_in-InsideOutcome :
      (all : List Paragraph) (p : Paragraph) (number : ℕ) (o : Option ℕ) (rest : Option Hit)
      → get_elem? all number ≡ some p
      → g.contains p.box point ≡ true
      → CharOutcome p 0 o
      → InsideOutcome all (number + 1) rest
      → InsideOutcome all number (hit_in g number o rest)
  hit_in-InsideOutcome all p number none rest e t c h =
      InsideOutcome-next all p number rest e (λ j less b k. let f = c j (omega arith) less in cc) h
  hit_in-InsideOutcome all p number (some j) rest e t (less, k) h = record {
    paragraph = p;
    at = e;
    char_in = less;
    box = t;
    char_box = k;
  }

  find_inside-InsideOutcome :
      (all ps : List Paragraph) (number : ℕ)
      → drop number all ≡ ps
      → InsideOutcome all number (find_inside g ps point number)
  unfolding find_inside
  find_inside-InsideOutcome all [] number e = λ hit i.
      let l = drop-end number all e in
      let k = get_elem?-bound hit.paragraph all i.paragraph i.at in omega arith
  find_inside-InsideOutcome all (p ∷ ps) number e =
      let rest = find_inside g ps point (number + 1) in
      let o = inside_from g p point (length p.chars) 0 in
      let at = get_elem?-drop number all ps p e in
      let h = find_inside-InsideOutcome all ps (number + 1) (drop-next number all ps p e) in
      elim (Bool-cases (g.contains p.box point)) [
        | inl t ↦
            subst (InsideOutcome all number) (sym (if_true {x = hit_in g number o rest} rest t)) (
              hit_in-InsideOutcome all p number o rest at t
                (inside_from-CharOutcome p (length p.chars) 0 (omega arith)) h)
        | inr f ↦
            subst (InsideOutcome all number) (sym (if_false (hit_in g number o rest) {y = rest} f))
              (InsideOutcome-next all p number rest at (λ j less t k. cc) h)
      ]

  IsNear-chars :
      (all : List Paragraph) (p : Paragraph) (number : ℕ) (cs : List CharBox) (index : ℕ)
      (nearest : Nearest g)
      → get_elem? all number ≡ some p
      → drop index p.chars ≡ cs
      → IsNear g all point nearest
      → IsNear g all point (nearest_char g point number cs index nearest)
  unfolding nearest_char
  IsNear-chars all p number [] index nearest at e n = n
  IsNear-chars all p number (c ∷ cs) index nearest at e n =
      let d = distance_to g c.box point in
      IsNear-chars all p number cs (index + 1) (step g d (hit_at g number index) nearest) at
        (drop-next index p.chars cs c e)
        (step-IsNear g all point d (hit_at g number index) nearest
          (record {
            paragraph = p;
            at = at;
            char = c;
            char_at = get_elem?-drop index p.chars cs c e;
            distance = refl;
          })
          n)

  IsNear-paragraphs :
      (all ps : List Paragraph) (number : ℕ) (nearest : Nearest g)
      → drop number all ≡ ps
      → IsNear g all point nearest
      → IsNear g all point (find_nearest g ps point number nearest)
  unfolding find_nearest
  IsNear-paragraphs all [] number nearest e n = n
  IsNear-paragraphs all (p ∷ ps) number nearest e n =
      IsNear-paragraphs all ps (number + 1) (nearest_char g point number p.chars 0 nearest)
        (drop-next number all ps p e)
        (IsNear-chars all p number p.chars 0 nearest (get_elem?-drop number all ps p e) refl n)

  -- Every character, against the nearest one.
  abbrev pub AllBeaten : List Paragraph → Nearest g → Type 0
  AllBeaten ps nearest =
      All (λ (p : Paragraph). All (λ c. Beaten g (distance_to g c.box point) nearest) p.chars) ps

  abbrev pub NothingInside : List Paragraph → Type 0
  NothingInside ps = (hit : Hit) → ¬ IsInside g ps point hit

  -- What an answer stands for: a character whose extended box holds the point; or, where there is
  -- none, a character within the tolerance that no other is nearer than; or no such character.
  abbrev pub Answers : List Paragraph → Option Hit → Type 0
  Answers ps none = NothingInside ps × AllBeaten ps none
  Answers ps (some hit) =
      IsInside g ps point hit
      ⊎ (NothingInside ps
          × ((d : g.Distance) × IsAt g ps point hit d
              × (is_beyond g d ≡ false)
              × AllBeaten ps (some (hit, d))))

  answer-nearest :
      (ps : List Paragraph) (nearest : Nearest g)
      → NothingInside ps
      → IsNear g ps point nearest
      → AllBeaten ps nearest
      → Answers ps (hit_of g nearest)
  answer-nearest ps none clear n b = (clear, b)
  answer-nearest ps (some (hit, d)) clear (at, near) b = inr (clear, (d, at, near, b))

  answer-or_else :
      (ps : List Paragraph) (found : Option Hit) (nearest : Nearest g)
      → InsideOutcome ps 0 found
      → IsNear g ps point nearest
      → AllBeaten ps nearest
      → Answers ps (or_else g found (hit_of g nearest))
  answer-or_else ps none nearest o n b =
      answer-nearest ps nearest (λ hit i. let l = o hit i in omega arith) n b
  answer-or_else ps (some hit) nearest o n b = inl o

-- hitTest() answers a character of some paragraph whose box holds the point and whose extended box
-- does; where there is none, a character within the tolerance that no other character is nearer
-- than; and where there is none of these either, nothing. Its indices are in range in each case.
pub hit_test-Answers :
    (g : Geometry) (point : Point) (ps : List Paragraph)
    → IsDistance g
    → Answers g point ps (hit_test g ps point)
unfolding hit_test
hit_test-Answers g point ps laws =
    answer-or_else g point ps (find_inside g ps point 0) (find_nearest g ps point 0 none)
      (find_inside-InsideOutcome g point ps ps 0 refl)
      (IsNear-paragraphs g point ps ps 0 none refl tt) (paragraphs-Beaten g laws point ps 0 none)
