-- ===== src/Lookup/Ranking/Orders.antt =====
-- The orders of src/lookup/ranking.cpp: what std::stable_sort asks of its comparisons.
use marupop.Prelude.{
  ℕ, ◌≤◌, ◌≡◌, refl, sym, ap, ◌∙◌, Bool, false, not, ◌&&◌, ◌||◌, Option, none, some, [], ◌∷◌, arith,
  ltb, if_false, length, if◌then◌else◌,
}
use marupop.Prelude.Int.{ℤ, ltb_ℤ}
use marupop.Prelude.Text.{Text}
use marupop.Dict.Records.{Double}
use marupop.Lookup.Ranking.{
  Result, Order, before, same, after, ◌<+>◌, compare_int, larger_first, is_found,
  matched_primary_spelling, reading_index_of_matched_text, primary_spelling_orthography_score,
  reading_orthography_score, frequency_score, definition_text, entry_id_of, popularity_score_of,
}
use marupop.Lookup.Ranking.Compare.{
  positive_or_absent, compare_undecorated, compare_index, compare_text, is_nan, magnitude,
  compare_popularity, reads_secondary, compare_secondary_frequencies, compare_frequencies,
  compare_last, compare_results,
}
use marupop.Lookup.Ranking.Weak.{
  opposite, Comparison, Follows, IsWeakOrder, opposite-<+>, Follows-<+>, IsWeakOrder-<+>,
  IsWeakOrder-key, IsWeakOrder-agrees, Any, larger_first-IsWeakOrder, compare_int-IsWeakOrder,
  holder_first-IsWeakOrder,
}

smaller_first-swap : (m n : ℕ) → larger_first m n ≡ opposite (larger_first n m)
unfolding larger_first
smaller_first-swap m n = ground arith

smaller_first-Follows :
    (l m n : ℕ) → Follows (larger_first m l) (larger_first n m) (larger_first n l)
unfolding larger_first
smaller_first-Follows l m n = ground arith

compare_text-swap : (t u : Text) → compare_text u t ≡ opposite (compare_text t u)
compare_text-swap [] [] = refl
compare_text-swap [] (d ∷ ds) = refl
compare_text-swap (c ∷ cs) [] = refl
compare_text-swap (c ∷ cs) (d ∷ ds) =
    ap (λ o. o <+> compare_text ds cs) (smaller_first-swap c d)
    ∙ (ap (λ o. opposite (larger_first d c) <+> o) (compare_text-swap cs ds)
        ∙ sym (opposite-<+> (larger_first d c) (compare_text cs ds)))

-- A list that is not empty is after the empty one.
end_first : (o p : Order) → Follows before o before
end_first before p = refl
end_first same p = refl
end_first after p = tt

compare_text-Follows :
    (t u v : Text) → Follows (compare_text t u) (compare_text u v) (compare_text t v)
compare_text-Follows [] [] [] = refl
compare_text-Follows [] [] (e ∷ es) = refl
compare_text-Follows [] (d ∷ ds) [] = tt
compare_text-Follows [] (d ∷ ds) (e ∷ es) = end_first (compare_text (d ∷ ds) (e ∷ es)) same
compare_text-Follows (c ∷ cs) [] v = tt
compare_text-Follows (c ∷ cs) (d ∷ ds) [] = ends (larger_first d c <+> compare_text cs ds)
  where
    ends : (o : Order) → Follows o after after
    ends before = tt
    ends same = tt
    ends after = tt
compare_text-Follows (c ∷ cs) (d ∷ ds) (e ∷ es) =
    Follows-<+> (larger_first d c) (larger_first e d) (larger_first e c) (compare_text cs ds)
      (compare_text ds es) (compare_text cs es) (smaller_first-Follows c d e)
      (compare_text-Follows cs ds es)

compare_text-IsWeakOrder : IsWeakOrder Any compare_text
compare_text-IsWeakOrder = record {
  swap = λ t u x y. compare_text-swap t u;
  follows = λ t u v x y z. compare_text-Follows t u v;
}

compare_index-swap : (i j : Option ℕ) → compare_index j i ≡ opposite (compare_index i j)
compare_index-swap none none = refl
compare_index-swap none (some j) = refl
compare_index-swap (some i) none = refl
compare_index-swap (some i) (some j) = smaller_first-swap i j

compare_index-Follows :
    (i j k : Option ℕ) → Follows (compare_index i j) (compare_index j k) (compare_index i k)
compare_index-Follows none none none = refl
compare_index-Follows none none (some k) = tt
compare_index-Follows none (some j) k = tt
compare_index-Follows (some i) none none = refl
compare_index-Follows (some i) none (some k) = tt
compare_index-Follows (some i) (some j) none = index_ends (larger_first j i)
  where
    index_ends : (o : Order) → Follows o before before
    index_ends before = refl
    index_ends same = refl
    index_ends after = tt
compare_index-Follows (some i) (some j) (some k) = smaller_first-Follows i j k

compare_index-IsWeakOrder : IsWeakOrder Any compare_index
compare_index-IsWeakOrder = record {
  swap = λ i j x y. compare_index-swap i j;
  follows = λ i j k x y z. compare_index-Follows i j k;
}

-- A key that has no condition.
keyed :
    {B : Type 0} {f : Comparison B} (P : Result → Type 0) (key : Result → B)
    → IsWeakOrder Any f
    → IsWeakOrder P (λ a b. f (key a) (key b))
keyed {f = f} P key u = IsWeakOrder-key P Any f key (λ r h. tt) u

compare_back : (l m n : ℤ) → Follows (compare_int m l) (compare_int n m) (compare_int n l)
unfolding compare_int
compare_back l m n = ground arith

-- A double that is a number.
abbrev pub IsNumber : Double → Type 0
IsNumber d = is_nan d ≡ false

numbers_differ :
    (m n : Bool) (g l : Bool)
    → m ≡ false
    → n ≡ false
    → (if m || (n || ((not m && (not n && g)) || (not n && (not m && l))))
        then if not m && (not n && g) then before else after
        else same)
      ≡ (if g then before else if l then after else same)
numbers_differ m n g l h k = ground arith

compare_popularity-magnitude :
    (a b : Double)
    → IsNumber a
    → IsNumber b
    → compare_popularity a b ≡ compare_int (magnitude b) (magnitude a)
unfolding compare_popularity compare_int
compare_popularity-magnitude a b h k =
    numbers_differ (is_nan a) (is_nan b) (ltb_ℤ (magnitude b) (magnitude a))
      (ltb_ℤ (magnitude a) (magnitude b)) h k

compare_popularity-IsWeakOrder : IsWeakOrder IsNumber compare_popularity
compare_popularity-IsWeakOrder =
    IsWeakOrder-agrees IsNumber compare_popularity (λ a b. compare_int (magnitude b) (magnitude a))
      compare_popularity-magnitude
      (record {
        swap = λ a b x y. compare_int-IsWeakOrder.swap (magnitude b) (magnitude a) tt tt;
        follows = λ a b c x y z. compare_back (magnitude a) (magnitude b) (magnitude c);
      })

-- Criteria 1 to 7 are a strict weak order on all results: each way round they say the opposite,
-- and they are transitive, ties included.
pub compare_undecorated-IsWeakOrder : IsWeakOrder Any compare_undecorated
unfolding compare_undecorated
compare_undecorated-IsWeakOrder =
    IsWeakOrder-<+> Any _ _ (keyed Any (λ r. length r.matched_text) larger_first-IsWeakOrder) (
      IsWeakOrder-<+> Any _ _ (keyed Any matched_primary_spelling holder_first-IsWeakOrder) (
        IsWeakOrder-<+> Any _ _
          (keyed Any (λ r. is_found (reading_index_of_matched_text r)) holder_first-IsWeakOrder)
          (IsWeakOrder-<+> Any _ _
            (keyed Any (λ r. r.min_proper_step_count) compare_int-IsWeakOrder)
            (IsWeakOrder-<+> Any _ _
              (keyed Any (λ r. positive_or_absent r.dictionary.priority) compare_int-IsWeakOrder)
              (IsWeakOrder-<+> Any _ _
                (keyed Any primary_spelling_orthography_score compare_int-IsWeakOrder)
                (keyed Any reading_orthography_score compare_int-IsWeakOrder))))))

-- A result with a popularity score that is a number.
abbrev pub HasNumber : Result → Type 0
HasNumber r = IsNumber (popularity_score_of r.dict_record)

compare_last-IsWeakOrder : IsWeakOrder HasNumber compare_last
unfolding compare_last
compare_last-IsWeakOrder =
    IsWeakOrder-<+> HasNumber _ _
      (IsWeakOrder-key HasNumber IsNumber compare_popularity
        (λ r. popularity_score_of r.dict_record) (λ r h. h) compare_popularity-IsWeakOrder)
      (IsWeakOrder-<+> HasNumber _ _
        (keyed HasNumber reading_index_of_matched_text compare_index-IsWeakOrder)
        (IsWeakOrder-<+> HasNumber _ _
          (keyed HasNumber (λ r. positive_or_absent (entry_id_of r.dict_record))
            compare_int-IsWeakOrder)
          (IsWeakOrder-<+> HasNumber _ _
            (keyed HasNumber (λ r. r.primary_spelling) compare_text-IsWeakOrder)
            (IsWeakOrder-<+> HasNumber _ _
              (keyed HasNumber (λ r. length (definition_text r)) larger_first-IsWeakOrder)
              (keyed HasNumber definition_text compare_text-IsWeakOrder)))))

-- A result that one frequency dictionary at most covers.
abbrev pub IsRankable : Result → Type 0
IsRankable r = HasNumber r × (length r.frequencies ≤ 1)

compare_frequencies-one :
    (a b : Result)
    → IsRankable a
    → IsRankable b
    → compare_frequencies a b ≡ (compare_int (frequency_score a) (frequency_score b) <+> same)
unfolding compare_frequencies reads_secondary
compare_frequencies-one a b (_, h) (_, k) =
    let few : ltb 1 (length a.frequencies) ≡ false = ground arith in
    let none_read : reads_secondary a b ≡ false = ground arith in
    ap (λ o. compare_int (frequency_score a) (frequency_score b) <+> o)
      (if_false (compare_secondary_frequencies a b) none_read)

same-IsWeakOrder : {A : Type 0} (P : A → Type 0) → IsWeakOrder P (λ a b. same)
same-IsWeakOrder P = record { swap = λ a b x y. refl; follows = λ a b c x y z. refl }

-- All criteria are a strict weak order on the results that one frequency dictionary at most covers
-- and whose popularity score is a number.
pub compare_results-IsWeakOrder : IsWeakOrder IsRankable compare_results
unfolding compare_results
compare_results-IsWeakOrder =
    IsWeakOrder-<+> IsRankable _ _
      (IsWeakOrder-key IsRankable Any compare_undecorated (λ r. r) (λ r h. tt)
        compare_undecorated-IsWeakOrder)
      (IsWeakOrder-<+> IsRankable _ _
        (IsWeakOrder-agrees IsRankable compare_frequencies
          (λ a b. compare_int (frequency_score a) (frequency_score b) <+> same)
          compare_frequencies-one
          (IsWeakOrder-<+> IsRankable _ _ (keyed IsRankable frequency_score compare_int-IsWeakOrder)
            (same-IsWeakOrder IsRankable)))
        (IsWeakOrder-key IsRankable HasNumber compare_last (λ r. r) (λ r (h, _). h)
          compare_last-IsWeakOrder))
