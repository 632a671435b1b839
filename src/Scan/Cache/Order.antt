-- ===== src/Scan/Cache/Order.antt =====
-- What the calls of the scan cache do to its list of entries (src/scan/scancache.cpp).
use marupop.Prelude.{
  ℕ, zero, suc, ◌+◌, ◌-◌, ◌≤◌, ◌<◌, ◌≡◌, ◌↔◌, inl, inr, refl, sym, ap, ◌∙◌, subst, true, false,
  Option, none, some, List, [], ◌∷◌, ◌++◌, ltb, length, take, arith, Bool-cases, if_true, if_false,
  All,
}
use marupop.Scan.Cache.{Geometry, CachedScan, matches, keep_first, take_match, pop_back, evict}

module _ {g : Geometry} {Content : Type 0} where
  pop_back-take :
      (es : List (CachedScan g Content)) (n : ℕ) → length es ≡ suc n → pop_back es ≡ take n es
  unfolding pop_back
  pop_back-take [] n h = absurd (omega arith)
  pop_back-take (e ∷ []) zero h = refl
  pop_back-take (e ∷ []) (suc n) h = absurd (omega arith)
  pop_back-take (e ∷ f ∷ es) zero h = absurd (omega arith)
  pop_back-take (e ∷ f ∷ es) (suc n) h = ap (λ t. e ∷ t) (pop_back-take (f ∷ es) n (omega arith))

  take_all : (n : ℕ) (es : List (CachedScan g Content)) → length es ≤ n → take n es ≡ es
  take_all zero [] h = refl
  take_all zero (e ∷ es) h = absurd (omega arith)
  take_all (suc n) [] h = refl
  take_all (suc n) (e ∷ es) h = ap (λ t. e ∷ t) (take_all n es (omega arith))

  take-take : (n m : ℕ) (es : List (CachedScan g Content)) → n ≤ m → take n (take m es) ≡ take n es
  take-take zero m es h = refl
  take-take (suc n) zero es h = absurd (omega arith)
  take-take (suc n) (suc m) [] h = refl
  take-take (suc n) (suc m) (e ∷ es) h = ap (λ t. e ∷ t) (take-take n m es (omega arith))

  length-pop_back : (es : List (CachedScan g Content)) → length (pop_back es) ≡ length es - 1
  unfolding pop_back
  length-pop_back [] = omega arith
  length-pop_back (e ∷ []) = omega arith
  length-pop_back (e ∷ f ∷ es) = omega (arith, length-pop_back (f ∷ es))

  evict_step :
      (fuel capacity : ℕ) (es : List (CachedScan g Content))
      → length es ≤ capacity + suc fuel
      → capacity < length es
      → evict fuel capacity (pop_back es) ≡ take capacity (pop_back es)
      → evict fuel capacity (pop_back es) ≡ take capacity es
  evict_step fuel capacity es h l ih =
      ih
      ∙ ap (take capacity) (pop_back-take es (length es - 1) (omega arith))
      ∙ take-take capacity (length es - 1) es (omega arith)

  -- The loop leaves the first `capacity` entries.
  pub evict-take :
      (fuel capacity : ℕ) (es : List (CachedScan g Content))
      → length es ≤ capacity + fuel
      → evict fuel capacity es ≡ take capacity es
  unfolding evict
  evict-take zero capacity es h = sym (take_all capacity es (omega arith))
  evict-take (suc fuel) capacity es h =
      let ih = evict-take fuel capacity (pop_back es) (omega (arith, length-pop_back es)) in
      elim (Bool-cases (ltb capacity (length es))) [
        | inl more ↦ if_true _ more ∙ evict_step fuel capacity es h (ground arith) ih
        | inr done ↦ if_false _ done ∙ sym (take_all capacity es (ground arith))
      ]

  -- The key of an entry is the pair (logical rect, hash).
  pub matches_iff :
      (r : g.Rect) (h : ℕ) (e : CachedScan g Content)
      → (matches r h e ≡ true) ↔ ((e.hash ≡ h) × (e.logical_rect ≡ r))
  matches_iff r h e = ground (arith, g.rect_eq_iff e.logical_rect r)

  -- What take_match() finds: the first match, and the others in their order.
  abbrev pub Taken :
      g.Rect
      → ℕ
      → List (CachedScan g Content)
      → Option (CachedScan g Content × List (CachedScan g Content))
      → Type 0
  Taken r h es none = All (λ f. matches r h f ≡ false) es
  Taken r h es (some (e, fs)) =
      (before after : List (CachedScan g Content)) × (es ≡ before ++ (e ∷ after))
      × (fs ≡ before ++ after)
      × All (λ f. matches r h f ≡ false) before
      × (matches r h e ≡ true)

  Taken-cons :
      (r : g.Rect) (h : ℕ) (e : CachedScan g Content) (es : List (CachedScan g Content))
      (o : Option (CachedScan g Content × List (CachedScan g Content)))
      → matches r h e ≡ false
      → Taken r h es o
      → Taken r h (e ∷ es) (keep_first e o)
  Taken-cons r h e es none miss t = (miss, t)
  Taken-cons r h e es (some (f, fs)) miss (before, after, p, q, none_before, hit) =
      (e ∷ before, after, ap (λ t. e ∷ t) p, ap (λ t. e ∷ t) q, (miss, none_before), hit)

  pub take_match-Taken :
      (r : g.Rect) (h : ℕ) (es : List (CachedScan g Content)) → Taken r h es (take_match r h es)
  unfolding take_match
  take_match-Taken r h [] = tt
  take_match-Taken r h (e ∷ es) = elim (Bool-cases (matches r h e)) [
    | inl hit ↦ subst (Taken r h (e ∷ es)) (sym (if_true _ hit)) ([], es, refl, refl, tt, hit)
    | inr miss ↦
        subst (Taken r h (e ∷ es)) (sym (if_false _ miss))
          (Taken-cons r h e es (take_match r h es) miss (take_match-Taken r h es))
  ]
