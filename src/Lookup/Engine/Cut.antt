-- ===== src/Lookup/Engine/Cut.antt =====
-- The closure `order` of src/lookup/engine.cpp against one sort of all decorated results.
use marupop.Prelude.{
  ℕ, zero, suc, ◌≤◌, ◌≡◌, refl, sym, ap, ◌∙◌, subst, inl, inr, true, false, List, [], ◌∷◌, ◌++◌,
  map, arith, if_true, if_false, Bool-cases, All, length, take, length-map,
}
use marupop.Prelude.Int.{ℤ, pos, negsuc, pos_part}
use marupop.Lookup.Ranking.{
  FrequencyHit, Result, ◌<+>◌, matched_primary_spelling, reading_index_of_matched_text,
  primary_spelling_orthography_score, reading_orthography_score, jmdict_record,
}
use marupop.Lookup.Ranking.Compare.{
  compare_undecorated, compare_frequencies, compare_last, compare_results, less_than,
  less_than_undecorated, is_before,
}
use marupop.Lookup.Ranking.Weak.{Comparison, IsWeakOrder, opposite}
use marupop.Lookup.Ranking.Orders.{
  IsRankable, compare_undecorated-IsWeakOrder, compare_results-IsWeakOrder,
}
use marupop.Lookup.Engine.{
  Decorators, decorate, decorate_frequencies, decorate_kanji_frequencies, is_kanji_dictionary_type,
  stable_sort, is_same, tie_run, cut, is_over, limited, cut_undecorated, order,
}
use marupop.Lookup.Engine.Sorting.{less_by, is_before-eq}
use marupop.Lookup.Engine.Stable.{
  stable_sort-stable_sort, Above, stable_sort-append, length-stable_sort, stable_sort-map,
}
use marupop.Lookup.Engine.Ties.{stable_sort-IsSorted, Leads, cut-Splits, length-cut}

module _ {A : Type 0} (p : Comparison A) (g : A → A)
    (keeps : (a b : A) → p (g a) (g b) ≡ p a b) where
  tie_run-map : (x : A) (xs : List A) → tie_run p (g x) (map g xs) ≡ map g (tie_run p x xs)
  unfolding tie_run
  tie_run-map x [] = refl
  tie_run-map x (y ∷ ys) = elim (Bool-cases (is_same (p x y))) [
    | inl e ↦
        if_true [] (ap is_same (keeps x y) ∙ e)
        ∙ (ap (λ t. g y ∷ t) (tie_run-map y ys) ∙ ap (map g) (sym (if_true [] e)))
    | inr e ↦
        if_false (g y ∷ tie_run p (g y) (map g ys)) (ap is_same (keeps x y) ∙ e)
        ∙ ap (map g) (sym (if_false (y ∷ tie_run p y ys) e))
  ]

  cut-map : (n : ℕ) (xs : List A) → cut p n (map g xs) ≡ map g (cut p n xs)
  unfolding cut
  cut-map n [] = refl
  cut-map zero (x ∷ xs) = refl
  cut-map (suc zero) (x ∷ xs) = ap (λ t. g x ∷ t) (tie_run-map x xs)
  cut-map (suc (suc n)) (x ∷ xs) = ap (λ t. g x ∷ t) (cut-map (suc n) xs)

take-left : {A : Type 0} (n : ℕ) (xs ys : List A) → n ≤ length xs → take n (xs ++ ys) ≡ take n xs
take-left zero xs ys h = refl
take-left (suc n) [] ys h = absurd (omega arith)
take-left (suc n) (x ∷ xs) ys h = ap (λ t. x ∷ t) (take-left n xs ys (omega arith))

take-all : {A : Type 0} (n : ℕ) (xs : List A) → length xs ≤ n → take n xs ≡ xs
take-all zero [] h = refl
take-all zero (x ∷ xs) h = absurd (omega arith)
take-all (suc n) [] h = refl
take-all (suc n) (x ∷ xs) h = ap (λ t. x ∷ t) (take-all n xs (omega arith))

module _ {A : Type 0} (P : A → Type 0) (p f : Comparison A) (u : IsWeakOrder (λ a. Unit) p)
    (w : IsWeakOrder P f) (finer : (a b : A) → less_by p a b ≡ true → less_by f a b ≡ true)
    (apart : (a b : A) → less_by p a b ≡ true → less_by f b a ≡ false) where
  Leads-Above : (a : A) (vs : List A) → Leads p u a vs → Above (less_by f) a vs
  Leads-Above a [] h = tt
  Leads-Above a (v ∷ vs) (h, hs) = (apart a v h, Leads-Above a vs hs)

  All-Above : (us vs : List A) → All (λ a. Leads p u a vs) us → All (λ a. Above (less_by f) a vs) us
  All-Above [] vs h = tt
  All-Above (a ∷ us) vs (h, hs) = (Leads-Above a vs h, All-Above us vs hs)

  -- The first results of a sort are those of the sort of a cut.
  cut-first :
      (n : ℕ) (ys : List A)
      → All P ys
      → suc n ≤ length ys
      → take (suc n) (stable_sort (less_by f) (cut p (suc n) (stable_sort (less_by p) ys)))
        ≡ take (suc n) (stable_sort (less_by f) ys)
  cut-first n ys h long =
      let zs = stable_sort (less_by p) ys in
      let us = cut p (suc n) zs in
      let s = cut-Splits p u n zs (stable_sort-IsSorted p u ys) in
      let size : suc n ≤ length us =
        length-cut p u (suc n) zs (let l = length-stable_sort (less_by p) ys in omega arith) in
      let sorted_size = length-stable_sort (less_by f) us in
      sym (
        ap (take (suc n)) (
          sym (stable_sort-stable_sort P (less_by p) f w finer ys h)
          ∙ (ap (stable_sort (less_by f)) s.shape
              ∙ stable_sort-append (less_by f) us s.dropped (All-Above us s.dropped s.leads)))
        ∙ take-left (suc n) (stable_sort (less_by f) us) (stable_sort (less_by f) s.dropped)
            (omega arith))

-- Decoration changes two fields, and neither of them is read by criteria 1 to 7.
decorate-fields :
    (d : Decorators) (r : Result)
    → (fs : List FrequencyHit) × (n : ℤ) × (decorate d r
        ≡ record r { frequencies = fs; priority_rank = n })
unfolding decorate decorate_frequencies decorate_kanji_frequencies
decorate-fields d r = elim (Bool-cases (is_kanji_dictionary_type r.dictionary.dict_type)) [
  | inl e ↦ (_, _, if_true (decorate_frequencies d r) e)
  | inr e ↦ (_, _, if_false (decorate_kanji_frequencies d r) e)
]

compare_undecorated-decorate :
    (d : Decorators) (a b : Result)
    → compare_undecorated (decorate d a) (decorate d b) ≡ compare_undecorated a b
unfolding compare_undecorated matched_primary_spelling reading_index_of_matched_text
    primary_spelling_orthography_score reading_orthography_score jmdict_record
compare_undecorated-decorate d a b =
    let (_, _, e) = decorate-fields d a in
    let (_, _, k) = decorate-fields d b in
    ap (λ (r : Result). compare_undecorated r (decorate d b)) e
    ∙ ap
        (λ (r : Result).
          compare_undecorated
            (record a {
              frequencies = (decorate d a).frequencies;
              priority_rank = (decorate d a).priority_rank;
            })
            r)
        k

is_over-pos :
    (max_results : ℤ) (size : ℕ)
    → is_over max_results size ≡ true
    → (n : ℕ) × (max_results ≡ pos (suc n)) × (suc n ≤ size)
is_over-pos (pos zero) size h = absurd (ground arith)
is_over-pos (pos (suc n)) size h = (n, refl, ground arith)
is_over-pos (negsuc n) size h = absurd (ground arith)

limited-take : {A : Type 0} (n : ℕ) (xs : List A) → limited (pos (suc n)) xs ≡ take (suc n) xs
limited-take n xs = elim (Bool-cases (is_over (pos (suc n)) (length xs))) [
  | inl e ↦ if_true xs e
  | inr e ↦ if_false (take (suc n) xs) e ∙ sym (take-all (suc n) xs (ground arith))
]

finer_results :
    (a b : Result) → less_by compare_undecorated a b ≡ true → less_by compare_results a b ≡ true
unfolding compare_results
finer_results a b h =
    ap (λ o. is_before (o <+> (compare_frequencies a b <+> compare_last a b)))
      (is_before-eq (compare_undecorated a b) h)

apart_results :
    (a b : Result) → less_by compare_undecorated a b ≡ true → less_by compare_results b a ≡ false
unfolding compare_results
apart_results a b h =
    ap (λ o. is_before (o <+> (compare_frequencies b a <+> compare_last b a)))
      (compare_undecorated-IsWeakOrder.swap a b tt tt
        ∙ ap opposite (is_before-eq (compare_undecorated a b) h))

-- Sorting a cut of the list decorates fewer results and gives the first of all.
order-first :
    (d : Decorators) (n : ℕ) (list : List Result)
    → All IsRankable (map (decorate d) list)
    → suc n ≤ length list
    → take (suc n) (
        stable_sort less_than (
          map
            (decorate d)
            (cut compare_undecorated (suc n) (stable_sort less_than_undecorated list))))
      ≡ take (suc n) (stable_sort less_than (map (decorate d) list))
unfolding less_than less_than_undecorated
order-first d n list h long =
    let g = decorate d in
    let keeps = compare_undecorated-decorate d in
    ap (λ xs. take (suc n) (stable_sort (less_by compare_results) xs))
      (sym (
          cut-map compare_undecorated g keeps (suc n)
            (stable_sort (less_by compare_undecorated) list))
        ∙ ap (cut compare_undecorated (suc n)) (
            sym (
              stable_sort-map (less_by compare_undecorated) g (λ a b. ap is_before (keeps a b))
                list)))
    ∙ cut-first IsRankable compare_undecorated compare_results compare_undecorated-IsWeakOrder
        compare_results-IsWeakOrder finer_results apart_results n (map g list) h
        (let l = length-map list g in omega arith)

-- Where one frequency dictionary at most covers each decorated result and its popularity score is a
-- number, the cut, the decoration of what it leaves, the sort and the limit give the results that
-- decorating all, one stable sort and the limit give, ties included.
pub order-stable_sort :
    (d : Decorators) (max_results : ℤ) (list : List Result)
    → All IsRankable (map (decorate d) list)
    → order d max_results list ≡ limited max_results (stable_sort less_than (map (decorate d) list))
unfolding order cut_undecorated
order-stable_sort d max_results list h = elim (Bool-cases (is_over max_results (length list))) [
  | inl e ↦
      (let (n, m, long) = is_over-pos max_results (length list) e in
        let kept =
          cut compare_undecorated (pos_part max_results) (stable_sort less_than_undecorated list) in
        ap (λ xs. limited max_results (stable_sort less_than (map (decorate d) xs)))
          (if_true list e)
        ∙ subst
            (λ (max_results : ℤ).
              limited max_results (
                stable_sort less_than (
                  map (decorate d) (
                    cut compare_undecorated (pos_part max_results)
                      (stable_sort less_than_undecorated list))))
              ≡ limited max_results (stable_sort less_than (map (decorate d) list)))
            (sym m) (limited-take n _ ∙ (order-first d n list h long ∙ sym (limited-take n _))))
  | inr e ↦
      ap (λ xs. limited max_results (stable_sort less_than (map (decorate d) xs)))
        (if_false
          (cut compare_undecorated (pos_part max_results) (stable_sort less_than_undecorated list))
          e)
]
