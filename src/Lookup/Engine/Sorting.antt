-- ===== src/Lookup/Engine/Sorting.antt =====
-- Stable sorting by a criterion and by a finer one, for src/lookup/engine.cpp.
use marupop.Prelude.{
  ◌≡◌, refl, sym, ap, ◌∙◌, subst, inl, inr, Bool, true, false, List, [], ◌∷◌, if_true, if_false,
  Bool-cases, All,
}
use marupop.Lookup.Ranking.{Order, before, same, after}
use marupop.Lookup.Ranking.Compare.{is_before}
use marupop.Lookup.Ranking.Weak.{Comparison, IsWeakOrder, Follows, opposite}
use marupop.Lookup.Engine.{insert_stable, stable_sort}

-- The test that a comparison gives a sort.
abbrev pub less_by : {A : Type 0} → Comparison A → A → A → Bool
less_by f a b = is_before (f a b)

pub insert-less :
    {A : Type 0} (less : A → A → Bool) (x y : A) (ys : List A)
    → less y x ≡ true
    → insert_stable less x (y ∷ ys) ≡ y ∷ insert_stable less x ys
unfolding insert_stable
insert-less less x y ys e = if_true (x ∷ y ∷ ys) e

pub insert-not_less :
    {A : Type 0} (less : A → A → Bool) (x y : A) (ys : List A)
    → less y x ≡ false
    → insert_stable less x (y ∷ ys) ≡ x ∷ y ∷ ys
unfolding insert_stable
insert-not_less less x y ys e = if_false (y ∷ insert_stable less x ys) e

pub All-insert :
    {A : Type 0} (P : A → Type 0) (less : A → A → Bool) (x : A) (ys : List A)
    → P x
    → All P ys
    → All P (insert_stable less x ys)
unfolding insert_stable
All-insert P less x [] h k = (h, tt)
All-insert P less x (y ∷ ys) h (k, ks) = elim (Bool-cases (less y x)) [
  | inl e ↦ subst (All P) (sym (if_true (x ∷ y ∷ ys) e)) (k, All-insert P less x ys h ks)
  | inr e ↦ subst (All P) (sym (if_false (y ∷ insert_stable less x ys) e)) (h, (k, ks))
]

pub All-stable_sort :
    {A : Type 0} (P : A → Type 0) (less : A → A → Bool) (xs : List A)
    → All P xs
    → All P (stable_sort less xs)
unfolding stable_sort
All-stable_sort P less [] h = tt
All-stable_sort P less (x ∷ xs) (h, hs) =
    All-insert P less x (stable_sort less xs) h (All-stable_sort P less xs hs)

-- What a comparison says of three elements.
pub is_before-eq : (o : Order) → is_before o ≡ true → o ≡ before
is_before-eq before e = refl
is_before-eq same e = cc
is_before-eq after e = cc

not_before_opposite : (o : Order) → o ≡ before → is_before (opposite o) ≡ false
not_before_opposite o e = ap (λ o. is_before (opposite o)) e

pub before_through :
    (p q r : Order)
    → p ≡ before
    → is_before (opposite q) ≡ false
    → Follows p q r
    → is_before r ≡ true
before_through before before r e h k = ap is_before k
before_through before same r e h k = ap is_before k
before_through before after r e h k = cc
before_through same q r e h k = cc
before_through after q r e h k = cc

module _ {A : Type 0} (P : A → Type 0) (f : Comparison A) (w : IsWeakOrder P f) where
  -- What is not less than `y` is above what is less than `y`.
  pub less_through :
      (z y x : A)
      → P z
      → P y
      → P x
      → less_by f z y ≡ true
      → less_by f x y ≡ false
      → less_by f z x ≡ true
  less_through z y x pz py px h k =
      before_through (f z y) (f y x) (f z x) (is_before-eq (f z y) h)
        (ap is_before (sym (w.swap y x py px)) ∙ k) (w.follows z y x pz py px)

  pub not_less_back : (z y : A) → P z → P y → less_by f z y ≡ true → less_by f y z ≡ false
  not_less_back z y pz py h =
      ap is_before (w.swap z y pz py) ∙ not_before_opposite (f z y) (is_before-eq (f z y) h)

  -- Insertions of a smaller and a larger element commute.
  pub insert-insert :
      (z y : A) (ws : List A)
      → P z
      → P y
      → All P ws
      → less_by f z y ≡ true
      → insert_stable (less_by f) z (insert_stable (less_by f) y ws)
        ≡ insert_stable (less_by f) y (insert_stable (less_by f) z ws)
  unfolding insert_stable
  insert-insert z y [] pz py h e =
      insert-not_less (less_by f) z y [] (not_less_back z y pz py e)
      ∙ sym (insert-less (less_by f) y z [] e)
  insert-insert z y (x ∷ ws) pz py (px, h) e = elim (Bool-cases (less_by f x y)) [
    | inl a ↦ elim (Bool-cases (less_by f x z)) [
      | inl b ↦
          ap (insert_stable (less_by f) z) (insert-less (less_by f) y x ws a)
          ∙ (insert-less (less_by f) z x (insert_stable (less_by f) y ws) b
              ∙ (ap (λ t. x ∷ t) (insert-insert z y ws pz py h e)
                  ∙ (sym (insert-less (less_by f) y x (insert_stable (less_by f) z ws) a)
                      ∙ ap (insert_stable (less_by f) y) (sym (insert-less (less_by f) z x ws b)))))
      | inr b ↦
          ap (insert_stable (less_by f) z) (insert-less (less_by f) y x ws a)
          ∙ (insert-not_less (less_by f) z x (insert_stable (less_by f) y ws) b
              ∙ (ap (λ t. z ∷ t) (sym (insert-less (less_by f) y x ws a))
                  ∙ (sym (insert-less (less_by f) y z (x ∷ ws) e)
                      ∙ ap (insert_stable (less_by f) y)
                          (sym (insert-not_less (less_by f) z x ws b)))))
    ]
    | inr a ↦
        (let b : less_by f x z ≡ false =
            not_less_back z x pz px (less_through z y x pz py px e a) in
          ap (insert_stable (less_by f) z) (insert-not_less (less_by f) y x ws a)
          ∙ (insert-not_less (less_by f) z y (x ∷ ws) (not_less_back z y pz py e)
              ∙ (ap (λ t. z ∷ t) (sym (insert-not_less (less_by f) y x ws a))
                  ∙ (sym (insert-less (less_by f) y z (x ∷ ws) e)
                      ∙ ap (insert_stable (less_by f) y)
                          (sym (insert-not_less (less_by f) z x ws b))))))
  ]
