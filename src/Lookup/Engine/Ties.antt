-- ===== src/Lookup/Engine/Ties.antt =====
-- The cut of src/lookup/engine.cpp on a sorted list: what is dropped is behind all that is kept.
use marupop.Prelude.{
  ℕ, zero, suc, ◌≤◌, ◌≡◌, refl, sym, ap, ◌∙◌, subst, inl, inr, true, false, List, [], ◌∷◌, ◌++◌,
  arith, if_true, if_false, Bool-cases, All, length,
}
use marupop.Lookup.Ranking.{Order, before, same, after}
use marupop.Lookup.Ranking.Compare.{is_before}
use marupop.Lookup.Ranking.Weak.{Comparison, IsWeakOrder, Follows, opposite}
use marupop.Lookup.Engine.{insert_stable, stable_sort, is_same, tie_run, cut}
use marupop.Lookup.Engine.Sorting.{
  less_by, insert-less, insert-not_less, All-insert, less_through, not_less_back, is_before-eq,
}

-- Each element is not above those behind it.
abbrev pub IsSorted : {A : Type 0} → Comparison A → List A → Type 0
IsSorted f [] = Unit
IsSorted f (x ∷ xs) = All (λ y. less_by f y x ≡ false) xs × IsSorted f xs

not_before_trans :
    (p q r : Order)
    → is_before (opposite p) ≡ false
    → is_before (opposite q) ≡ false
    → Follows p q r
    → is_before (opposite r) ≡ false
not_before_trans before before r h k e = ap (λ r. is_before (opposite r)) e
not_before_trans before same r h k e = ap (λ r. is_before (opposite r)) e
not_before_trans before after r h k e = cc
not_before_trans same before r h k e = ap (λ r. is_before (opposite r)) e
not_before_trans same same r h k e = ap (λ r. is_before (opposite r)) e
not_before_trans same after r h k e = cc
not_before_trans after q r h k e = cc

through_before :
    (p q r : Order)
    → is_before (opposite p) ≡ false
    → q ≡ before
    → Follows p q r
    → is_before r ≡ true
through_before before before r h k e = ap is_before e
through_before same before r h k e = ap is_before e
through_before after q r h k e = cc
through_before p same r h k e = cc
through_before p after r h k e = cc

not_same_before :
    (o : Order) → is_same o ≡ false → is_before (opposite o) ≡ false → is_before o ≡ true
not_same_before before h k = refl
not_same_before same h k = cc
not_same_before after h k = cc

is_same-opposite : (o : Order) → is_same o ≡ true → is_before (opposite o) ≡ false
is_same-opposite before h = cc
is_same-opposite same h = refl
is_same-opposite after h = cc

module _ {A : Type 0} (f : Comparison A) (w : IsWeakOrder (λ a. Unit) f) where
  less_trans : (a b c : A) → less_by f b a ≡ false → less_by f c b ≡ false → less_by f c a ≡ false
  less_trans a b c h k =
      ap is_before (w.swap a c tt tt)
      ∙ not_before_trans (f a b) (f b c) (f a c) (sym (ap is_before (w.swap a b tt tt)) ∙ h)
          (sym (ap is_before (w.swap b c tt tt)) ∙ k) (w.follows a b c tt tt tt)

  -- What is not above `b` is before what `b` is before.
  le_before : (a b c : A) → less_by f b a ≡ false → less_by f b c ≡ true → less_by f a c ≡ true
  le_before a b c h k =
      through_before (f a b) (f b c) (f a c) (sym (ap is_before (w.swap a b tt tt)) ∙ h)
        (is_before-eq (f b c) k) (w.follows a b c tt tt tt)

  All-le :
      (x y : A) (ys : List A)
      → less_by f y x ≡ false
      → All (λ z. less_by f z y ≡ false) ys
      → All (λ z. less_by f z x ≡ false) ys
  All-le x y [] h k = tt
  All-le x y (z ∷ zs) h (k, ks) = (less_trans x y z h k, All-le x y zs h ks)

  insert-IsSorted :
      (x : A) (ys : List A) → IsSorted f ys → IsSorted f (insert_stable (less_by f) x ys)
  unfolding insert_stable
  insert-IsSorted x [] h = (tt, tt)
  insert-IsSorted x (y ∷ ys) (h, hs) = elim (Bool-cases (less_by f y x)) [
    | inl e ↦ subst (IsSorted f) (sym (insert-less (less_by f) x y ys e)) (
      All-insert (λ z. less_by f z y ≡ false) (less_by f) x ys
          (not_less_back (λ a. Unit) f w y x tt tt e) h,
      insert-IsSorted x ys hs,
    )
    | inr e ↦
        subst (IsSorted f) (sym (insert-not_less (less_by f) x y ys e))
          ((e, All-le x y ys e h), (h, hs))
  ]

  pub stable_sort-IsSorted : (xs : List A) → IsSorted f (stable_sort (less_by f) xs)
  unfolding stable_sort
  stable_sort-IsSorted [] = tt
  stable_sort-IsSorted (x ∷ xs) =
      insert-IsSorted x (stable_sort (less_by f) xs) (stable_sort-IsSorted xs)

  -- `u` is before all of `vs`.
  abbrev pub Leads : A → List A → Type 0
  Leads u vs = All (λ v. less_by f u v ≡ true) vs

  Leads-le : (a b : A) (vs : List A) → less_by f b a ≡ false → Leads b vs → Leads a vs
  Leads-le a b [] h k = tt
  Leads-le a b (v ∷ vs) h (k, ks) = (le_before a b v h k, Leads-le a b vs h ks)

  Leads-sorted :
      (x y : A) (ys : List A)
      → less_by f x y ≡ true
      → All (λ z. less_by f z y ≡ false) ys
      → Leads x ys
  Leads-sorted x y [] h k = tt
  Leads-sorted x y (z ∷ zs) h (k, ks) =
      (less_through (λ a. Unit) f w x y z tt tt tt h k, Leads-sorted x y zs h ks)

  -- A sorted list in two parts, of which the first leads the second.
  pub record Splits (us xs : List A) : Type 0 where
    pub dropped : List A
    pub shape : xs ≡ us ++ dropped
    pub leads : All (λ u. Leads u dropped) us

  tie_run-Splits :
      (x : A) (xs : List A) → IsSorted f (x ∷ xs) → Splits (x ∷ tie_run f x xs) (x ∷ xs)
  unfolding tie_run
  tie_run-Splits x [] h = record { dropped = []; shape = refl; leads = (tt, tt) }
  tie_run-Splits x (y ∷ ys) ((e, es), (h, hs)) = elim (Bool-cases (is_same (f x y))) [
    | inl t ↦
        (let s = tie_run-Splits y ys (h, hs) in
          let (l, ls) = s.leads in
          subst (λ us. Splits (x ∷ us) (x ∷ y ∷ ys)) (sym (if_true [] t))
            (record {
              dropped = s.dropped;
              shape = ap (λ t. x ∷ t) s.shape;
              leads = (Leads-le x y s.dropped e l, (l, ls));
            }))
    | inr t ↦
        (let b : less_by f x y ≡ true =
            not_same_before (f x y) t (sym (ap is_before (w.swap x y tt tt)) ∙ e) in
          subst (λ us. Splits (x ∷ us) (x ∷ y ∷ ys)) (sym (if_false (y ∷ tie_run f y ys) t))
            (record { dropped = y ∷ ys; shape = refl; leads = ((b, Leads-sorted x y ys b h), tt) }))
  ]

  Splits-cons :
      (x y : A) (us ys : List A)
      → less_by f y x ≡ false
      → Splits (y ∷ us) (y ∷ ys)
      → Splits (x ∷ y ∷ us) (x ∷ y ∷ ys)
  Splits-cons x y us ys h s =
      let (l, ls) = s.leads in
      record {
        dropped = s.dropped;
        shape = ap (λ t. x ∷ t) s.shape;
        leads = (Leads-le x y s.dropped h l, (l, ls));
      }

  pub cut-Splits : (n : ℕ) (xs : List A) → IsSorted f xs → Splits (cut f (suc n) xs) xs
  unfolding cut
  cut-Splits n [] h = record { dropped = []; shape = refl; leads = tt }
  cut-Splits zero (x ∷ xs) h = tie_run-Splits x xs h
  cut-Splits (suc n) (x ∷ []) h = record { dropped = []; shape = refl; leads = (tt, tt) }
  cut-Splits (suc zero) (x ∷ y ∷ ys) ((e, es), h) =
      Splits-cons x y (tie_run f y ys) ys e (cut-Splits zero (y ∷ ys) h)
  cut-Splits (suc (suc n)) (x ∷ y ∷ ys) ((e, es), h) =
      Splits-cons x y (cut f (suc n) ys) ys e (cut-Splits (suc n) (y ∷ ys) h)

  pub length-cut : (n : ℕ) (xs : List A) → n ≤ length xs → n ≤ length (cut f n xs)
  unfolding cut
  length-cut n [] h = h
  length-cut zero (x ∷ xs) h = omega arith
  length-cut (suc zero) (x ∷ xs) h = omega arith
  length-cut (suc (suc n)) (x ∷ xs) h = omega (arith, length-cut (suc n) xs (omega arith))
