-- ===== src/Ocr/HitTest/Hits.antt =====
-- The answers of hitTest() of src/ocr/hittest.cpp.
use marupop.Prelude.{
  ℕ, ◌+◌, ◌<◌, ◌≡◌, sym, subst, ◌⊎◌, inl, inr, true, false, not, ◌&&◌, none, some, List, [], ◌∷◌,
  length, get_elem?, if◌then◌else◌, if_true, if_false, Bool-cases, All, arith,
}
use marupop.Prelude.Int.{pos}
use marupop.Ocr.Shapes.{CharBox}
use marupop.Ocr.HitTest.{
  Point, is_beyond, Paragraph, Hit, Geometry, extended_char_box, distance_to, Nearest, is_better,
  nearest_char, find_nearest,
}

-- What the nearest character needs of distances: nothing is nearer than itself, and what is nearer
-- than something nearer is nearer.
pub record IsDistance (g : Geometry) : Type 0 where
  pub irreflexive : (d : g.Distance) → g.is_nearer d d ≡ false
  pub transitive :
      (a b c : g.Distance)
      → g.is_nearer a b ≡ true
      → g.is_nearer b c ≡ true
      → g.is_nearer a c ≡ true

module _ (g : Geometry) where
  -- A character whose extended box holds the point, in a paragraph whose box does.
  pub record IsInside (ps : List Paragraph) (point : Point) (hit : Hit) : Type 0 where
    pub paragraph : Paragraph
    pub at : get_elem? ps hit.paragraph ≡ some paragraph
    pub char_in : hit.char_index < length paragraph.chars
    pub box : g.contains paragraph.box point ≡ true
    pub char_box : g.contains (extended_char_box paragraph (pos hit.char_index)) point ≡ true

  -- A character at a distance.
  pub record IsAt (ps : List Paragraph) (point : Point) (hit : Hit) (d : g.Distance) : Type 0 where
    pub paragraph : Paragraph
    pub at : get_elem? ps hit.paragraph ≡ some paragraph
    pub char : CharBox
    pub char_at : get_elem? paragraph.chars hit.char_index ≡ some char
    pub distance : d ≡ distance_to g char.box point

  -- A distance that the nearest character makes no use of.
  abbrev pub Beaten : g.Distance → Nearest g → Type 0
  Beaten d none = is_beyond g d ≡ true
  Beaten d (some (hit, e)) = (is_beyond g d ≡ true) ⊎ (g.is_nearer d e ≡ false)

  -- One character of a paragraph, compared with the nearest one so far.
  abbrev pub step : g.Distance → Hit → Nearest g → Nearest g
  step d hit nearest =
      if not (is_beyond g d) && is_better g d nearest then some (hit, d) else nearest

  Beaten-better :
      (laws : IsDistance g) (d e : g.Distance) (hit : Hit) (nearest : Nearest g)
      → is_beyond g d ≡ false
      → is_better g d nearest ≡ true
      → Beaten e nearest
      → Beaten e (some (hit, d))
  Beaten-better laws d e hit none h k b = inl b
  Beaten-better laws d e hit (some (old, f)) h k (inl b) = inl b
  Beaten-better laws d e hit (some (old, f)) h k (inr b) = elim (Bool-cases (g.is_nearer e d)) [
    | inl t ↦ (let c = laws.transitive e d f t k in cc)
    | inr t ↦ inr t
  ]

  Beaten-worse :
      (d : g.Distance) (nearest : Nearest g)
      → (not (is_beyond g d) && is_better g d nearest) ≡ false
      → Beaten d nearest
  Beaten-worse d none h = ground arith
  Beaten-worse d (some (old, f)) h = elim (Bool-cases (is_beyond g d)) [
    | inl t ↦ inl t
    | inr t ↦ inr (ground arith)
  ]

  step-keeps :
      (laws : IsDistance g) (d e : g.Distance) (hit : Hit) (nearest : Nearest g)
      → Beaten e nearest
      → Beaten e (step d hit nearest)
  step-keeps laws d e hit nearest b =
      elim (Bool-cases (not (is_beyond g d) && is_better g d nearest)) [
        | inl t ↦
            subst (Beaten e) (sym (if_true nearest t))
              (Beaten-better laws d e hit nearest (ground arith) (ground arith) b)
        | inr t ↦ subst (Beaten e) (sym (if_false (some (hit, d)) t)) b
      ]

  step-beats :
      (laws : IsDistance g) (d : g.Distance) (hit : Hit) (nearest : Nearest g)
      → Beaten d (step d hit nearest)
  step-beats laws d hit nearest = elim (Bool-cases (not (is_beyond g d) && is_better g d nearest)) [
    | inl t ↦ subst (Beaten d) (sym (if_true nearest t)) (inr (laws.irreflexive d))
    | inr t ↦ subst (Beaten d) (sym (if_false (some (hit, d)) t)) (Beaten-worse d nearest t)
  ]

  -- The nearest character so far is a character, at a distance within the tolerance.
  abbrev pub IsNear : List Paragraph → Point → Nearest g → Type 0
  IsNear ps point none = Unit
  IsNear ps point (some (hit, d)) = IsAt ps point hit d × (is_beyond g d ≡ false)

  pub step-IsNear :
      (ps : List Paragraph) (point : Point) (d : g.Distance) (hit : Hit) (nearest : Nearest g)
      → IsAt ps point hit d
      → IsNear ps point nearest
      → IsNear ps point (step d hit nearest)
  step-IsNear ps point d hit nearest a n =
      elim (Bool-cases (not (is_beyond g d) && is_better g d nearest)) [
        | inl t ↦ subst (IsNear ps point) (sym (if_true nearest t)) (a, ground arith)
        | inr t ↦ subst (IsNear ps point) (sym (if_false (some (hit, d)) t)) n
      ]

  abbrev pub hit_at : ℕ → ℕ → Hit
  hit_at number index = record { paragraph = number; char_index = index }

  module _ (laws : IsDistance g) (point : Point) where
    chars-keep :
        (e : g.Distance) (cs : List CharBox) (number index : ℕ) (nearest : Nearest g)
        → Beaten e nearest
        → Beaten e (nearest_char g point number cs index nearest)
    unfolding nearest_char
    chars-keep e [] number index nearest b = b
    chars-keep e (c ∷ cs) number index nearest b =
        let d = distance_to g c.box point in
        chars-keep e cs number (index + 1) (step d (hit_at number index) nearest)
          (step-keeps laws d e (hit_at number index) nearest b)

    chars-Beaten :
        (cs : List CharBox) (number index : ℕ) (nearest : Nearest g)
        → All
            (λ c. Beaten (distance_to g c.box point) (nearest_char g point number cs index nearest))
            cs
    unfolding nearest_char
    chars-Beaten [] number index nearest = tt
    chars-Beaten (c ∷ cs) number index nearest =
        let d = distance_to g c.box point in
        let next = step d (hit_at number index) nearest in
        (
          chars-keep d cs number (index + 1) next (step-beats laws d (hit_at number index) nearest),
          chars-Beaten cs number (index + 1) next,
        )

    paragraphs-keep :
        (e : g.Distance) (ps : List Paragraph) (number : ℕ) (nearest : Nearest g)
        → Beaten e nearest
        → Beaten e (find_nearest g ps point number nearest)
    unfolding find_nearest
    paragraphs-keep e [] number nearest b = b
    paragraphs-keep e (p ∷ ps) number nearest b =
        paragraphs-keep e ps (number + 1) (nearest_char g point number p.chars 0 nearest)
          (chars-keep e p.chars number 0 nearest b)

    All-keep :
        (cs : List CharBox) (ps : List Paragraph) (number : ℕ) (nearest : Nearest g)
        → All (λ c. Beaten (distance_to g c.box point) nearest) cs
        → All (λ c. Beaten (distance_to g c.box point) (find_nearest g ps point number nearest)) cs
    All-keep [] ps number nearest h = tt
    All-keep (c ∷ cs) ps number nearest (h, hs) = (
      paragraphs-keep (distance_to g c.box point) ps number nearest h,
      All-keep cs ps number nearest hs,
    )

    pub paragraphs-Beaten :
        (ps : List Paragraph) (number : ℕ) (nearest : Nearest g)
        → All
            (λ p.
              All
                (λ c. Beaten (distance_to g c.box point) (find_nearest g ps point number nearest))
                p.chars)
            ps
    unfolding find_nearest
    paragraphs-Beaten [] number nearest = tt
    paragraphs-Beaten (p ∷ ps) number nearest =
        let next = nearest_char g point number p.chars 0 nearest in
        (
          All-keep p.chars ps (number + 1) next (chars-Beaten p.chars number 0 nearest),
          paragraphs-Beaten ps (number + 1) next,
        )
