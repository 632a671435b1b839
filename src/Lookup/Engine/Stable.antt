-- ===== src/Lookup/Engine/Stable.antt =====
-- Two stable sorts in a row, and a sort of a list in two parts, for src/lookup/engine.cpp.
use marupop.Prelude.{
  suc, ◌≡◌, refl, sym, ap, ◌∙◌, inl, inr, Bool, true, false, List, [], ◌∷◌, ◌++◌, map, if_true,
  if_false, Bool-cases, All, length,
}
use marupop.Lookup.Ranking.Weak.{Comparison, IsWeakOrder}
use marupop.Lookup.Engine.{insert_stable, stable_sort}
use marupop.Lookup.Engine.Sorting.{
  less_by, insert-less, insert-not_less, insert-insert, All-stable_sort,
}

module _ {A : Type 0} (P : A → Type 0) (coarse : A → A → Bool) (f : Comparison A)
    (w : IsWeakOrder P f) (finer : (a b : A) → coarse a b ≡ true → less_by f a b ≡ true) where
  stable_sort-insert :
      (y : A) (zs : List A)
      → P y
      → All P zs
      → stable_sort (less_by f) (insert_stable coarse y zs)
        ≡ insert_stable (less_by f) y (stable_sort (less_by f) zs)
  unfolding stable_sort insert_stable
  stable_sort-insert y [] py h = refl
  stable_sort-insert y (z ∷ zs) py (pz, h) = elim (Bool-cases (coarse z y)) [
    | inl e ↦
        ap (stable_sort (less_by f)) (insert-less coarse y z zs e)
        ∙ (ap (insert_stable (less_by f) z) (stable_sort-insert y zs py h)
            ∙ insert-insert P f w z y (stable_sort (less_by f) zs) pz py
                (All-stable_sort P (less_by f) zs h) (finer z y e))
    | inr e ↦ ap (stable_sort (less_by f)) (insert-not_less coarse y z zs e)
  ]

  -- A stable sort by a coarser test before the sort changes nothing.
  pub stable_sort-stable_sort :
      (ys : List A)
      → All P ys
      → stable_sort (less_by f) (stable_sort coarse ys) ≡ stable_sort (less_by f) ys
  unfolding stable_sort
  stable_sort-stable_sort [] h = refl
  stable_sort-stable_sort (y ∷ ys) (py, h) =
      stable_sort-insert y (stable_sort coarse ys) py (All-stable_sort P coarse ys h)
      ∙ ap (insert_stable (less_by f) y) (stable_sort-stable_sort ys h)

module _ {A : Type 0} (less : A → A → Bool) where
  -- No element of `vs` is less than `u`.
  abbrev pub Above : A → List A → Type 0
  Above u vs = All (λ v. less v u ≡ false) vs

  insert-append :
      (u : A) (xs vs : List A)
      → Above u vs
      → insert_stable less u (xs ++ vs) ≡ insert_stable less u xs ++ vs
  unfolding insert_stable
  insert-append u [] [] h = refl
  insert-append u [] (v ∷ vs) (h, hs) = insert-not_less less u v vs h
  insert-append u (x ∷ xs) vs h = elim (Bool-cases (less x u)) [
    | inl e ↦
        insert-less less u x (xs ++ vs) e
        ∙ (ap (λ t. x ∷ t) (insert-append u xs vs h)
            ∙ ap (λ t. t ++ vs) (sym (insert-less less u x xs e)))
    | inr e ↦
        insert-not_less less u x (xs ++ vs) e
        ∙ ap (λ t. t ++ vs) (sym (insert-not_less less u x xs e))
  ]

  -- A list whose second part is above its first is sorted part by part.
  pub stable_sort-append :
      (us vs : List A)
      → All (λ u. Above u vs) us
      → stable_sort less (us ++ vs) ≡ stable_sort less us ++ stable_sort less vs
  unfolding stable_sort
  stable_sort-append [] vs h = refl
  stable_sort-append (u ∷ us) vs (h, hs) =
      ap (insert_stable less u) (stable_sort-append us vs hs)
      ∙ insert-append u (stable_sort less us) (stable_sort less vs)
          (All-stable_sort (λ v. less v u ≡ false) less vs h)

  length-insert : (x : A) (ys : List A) → length (insert_stable less x ys) ≡ suc (length ys)
  unfolding insert_stable
  length-insert x [] = refl
  length-insert x (y ∷ ys) = elim (Bool-cases (less y x)) [
    | inl e ↦ ap length (if_true (x ∷ y ∷ ys) e) ∙ ap suc (length-insert x ys)
    | inr e ↦ ap length (if_false (y ∷ insert_stable less x ys) e)
  ]

  pub length-stable_sort : (xs : List A) → length (stable_sort less xs) ≡ length xs
  unfolding stable_sort
  length-stable_sort [] = refl
  length-stable_sort (x ∷ xs) =
      length-insert x (stable_sort less xs) ∙ ap suc (length-stable_sort xs)

-- A map that keeps a test keeps the sort by it.
module _ {A : Type 0} (less : A → A → Bool) (g : A → A)
    (keeps : (a b : A) → less (g a) (g b) ≡ less a b) where
  insert-map :
      (x : A) (ys : List A) → insert_stable less (g x) (map g ys) ≡ map g (insert_stable less x ys)
  unfolding insert_stable
  insert-map x [] = refl
  insert-map x (y ∷ ys) = elim (Bool-cases (less y x)) [
    | inl e ↦
        insert-less less (g x) (g y) (map g ys) (keeps y x ∙ e)
        ∙ (ap (λ t. g y ∷ t) (insert-map x ys) ∙ ap (map g) (sym (insert-less less x y ys e)))
    | inr e ↦
        insert-not_less less (g x) (g y) (map g ys) (keeps y x ∙ e)
        ∙ ap (map g) (sym (insert-not_less less x y ys e))
  ]

  pub stable_sort-map : (xs : List A) → stable_sort less (map g xs) ≡ map g (stable_sort less xs)
  unfolding stable_sort
  stable_sort-map [] = refl
  stable_sort-map (x ∷ xs) =
      ap (insert_stable less (g x)) (stable_sort-map xs) ∙ insert-map x (stable_sort less xs)
