-- ===== src/Dict/KeyFilter/Sorting.antt =====
-- The sorting and deduplication in KeyFilterWriter::write() of src/dict/keyfilter.cpp.
use marupop.Prelude.{
  ℕ, zero, suc, ◌≤◌, ◌<◌, ◌≡◌, ◌⊎◌, inl, inr, sym, ◌∙◌, subst, List, [], ◌∷◌, arith, leb, ◌==◌,
  length, get_or, if_true, if_false, Bool-cases, All, leb→le, ==_iff,
}
use marupop.Dict.KeyFilter.{insert_sorted, sort, unique_after, unique}
use marupop.Dict.KeyFilter.Search.{IsSorted}

abbrev pub Has : List ℕ → ℕ → Type 0
Has [] v = ⊥
Has (x ∷ xs) v = (x ≡ v) ⊎ Has xs v

abbrev Ascends : List ℕ → Type 0
Ascends [] = Unit
Ascends (x ∷ xs) = All (λ y. x ≤ y) xs × Ascends xs

All-le : (x y : ℕ) (ys : List ℕ) → x ≤ y → All (λ z. y ≤ z) ys → All (λ z. x ≤ z) ys
All-le x y [] h k = tt
All-le x y (z ∷ zs) h (k, ks) = (omega arith, All-le x y zs h ks)

All-insert_sorted :
    (b x : ℕ) (ys : List ℕ) → b ≤ x → All (λ z. b ≤ z) ys → All (λ z. b ≤ z) (insert_sorted x ys)
unfolding insert_sorted
All-insert_sorted b x [] h k = (h, tt)
All-insert_sorted b x (y ∷ ys) h (k, ks) = elim (Bool-cases (leb x y)) [
  | inl t ↦ subst (All (λ z. b ≤ z)) (sym (if_true _ t)) (h, (k, ks))
  | inr f ↦ subst (All (λ z. b ≤ z)) (sym (if_false _ f)) (k, All-insert_sorted b x ys h ks)
]

Ascends-insert_sorted : (x : ℕ) (ys : List ℕ) → Ascends ys → Ascends (insert_sorted x ys)
unfolding insert_sorted
Ascends-insert_sorted x [] h = (tt, tt)
Ascends-insert_sorted x (y ∷ ys) (h, hs) = elim (Bool-cases (leb x y)) [
  | inl t ↦
      let l = leb→le x y t in subst Ascends (sym (if_true _ t)) ((l, All-le x y ys l h), (h, hs))
  | inr f ↦
      subst Ascends (sym (if_false _ f))
        (All-insert_sorted y x ys (ground arith) h, Ascends-insert_sorted x ys hs)
]

Ascends-sort : (xs : List ℕ) → Ascends (sort xs)
unfolding sort
Ascends-sort [] = tt
Ascends-sort (x ∷ xs) = Ascends-insert_sorted x (sort xs) (Ascends-sort xs)

All-unique_after :
    (b x : ℕ) (ys : List ℕ) → All (λ z. b ≤ z) ys → All (λ z. b ≤ z) (unique_after x ys)
unfolding unique_after
All-unique_after b x [] h = tt
All-unique_after b x (y ∷ ys) (h, hs) = elim (Bool-cases (x == y)) [
  | inl t ↦ subst (All (λ z. b ≤ z)) (sym (if_true _ t)) (All-unique_after b x ys hs)
  | inr f ↦ subst (All (λ z. b ≤ z)) (sym (if_false _ f)) (h, All-unique_after b y ys hs)
]

Ascends-unique_after : (x : ℕ) (ys : List ℕ) → Ascends ys → Ascends (unique_after x ys)
unfolding unique_after
Ascends-unique_after x [] h = tt
Ascends-unique_after x (y ∷ ys) (h, hs) = elim (Bool-cases (x == y)) [
  | inl t ↦ subst Ascends (sym (if_true _ t)) (Ascends-unique_after x ys hs)
  | inr f ↦
      subst Ascends (sym (if_false _ f)) (All-unique_after y y ys h, Ascends-unique_after y ys hs)
]

Ascends-unique : (xs : List ℕ) → Ascends xs → Ascends (unique xs)
unfolding unique
Ascends-unique [] h = tt
Ascends-unique (x ∷ xs) (h, hs) = (All-unique_after x x xs h, Ascends-unique_after x xs hs)

get_or-All : (b : ℕ) (xs : List ℕ) (j : ℕ) → All (λ z. b ≤ z) xs → j < length xs → b ≤ get_or xs j 0
get_or-All b [] j h l = absurd (omega arith)
get_or-All b (x ∷ xs) zero (h, hs) l = h
get_or-All b (x ∷ xs) (suc j) (h, hs) l = get_or-All b xs j hs (omega arith)

Ascends-IsSorted : (xs : List ℕ) → Ascends xs → IsSorted xs
Ascends-IsSorted [] h i j l m = absurd (omega arith)
Ascends-IsSorted (x ∷ xs) (h, hs) zero zero l m = omega arith
Ascends-IsSorted (x ∷ xs) (h, hs) zero (suc j) l m = get_or-All x xs j h (omega arith)
Ascends-IsSorted (x ∷ xs) (h, hs) (suc i) zero l m = absurd (omega arith)
Ascends-IsSorted (x ∷ xs) (h, hs) (suc i) (suc j) l m =
    Ascends-IsSorted xs hs i j (omega arith) (omega arith)

pub unique-sort-IsSorted : (xs : List ℕ) → IsSorted (unique (sort xs))
unique-sort-IsSorted xs =
    Ascends-IsSorted (unique (sort xs)) (Ascends-unique (sort xs) (Ascends-sort xs))

Has-insert_sorted : (x v : ℕ) (ys : List ℕ) → (x ≡ v) ⊎ Has ys v → Has (insert_sorted x ys) v
unfolding insert_sorted
Has-insert_sorted x v [] h = h
Has-insert_sorted x v (y ∷ ys) h = elim (Bool-cases (leb x y)) [
  | inl t ↦ subst (λ l. Has l v) (sym (if_true _ t)) h
  | inr f ↦
      subst (λ l. Has l v) (sym (if_false _ f))
        (elim h [
          | inl e ↦ inr (Has-insert_sorted x v ys (inl e))
          | inr (inl e) ↦ inl e
          | inr (inr e) ↦ inr (Has-insert_sorted x v ys (inr e))
        ])
]

Has-sort : (xs : List ℕ) (v : ℕ) → Has xs v → Has (sort xs) v
unfolding sort
Has-sort [] v h = elim h [ ]
Has-sort (x ∷ xs) v (inl e) = Has-insert_sorted x v (sort xs) (inl e)
Has-sort (x ∷ xs) v (inr h) = Has-insert_sorted x v (sort xs) (inr (Has-sort xs v h))

Has-unique_after : (x : ℕ) (ys : List ℕ) (v : ℕ) → Has ys v → (x ≡ v) ⊎ Has (unique_after x ys) v
unfolding unique_after
Has-unique_after x [] v h = elim h [ ]
Has-unique_after x (y ∷ ys) v h = elim (Bool-cases (x == y)) [
  | inl t ↦
      let same = (==_iff x y).0 t in
      subst (λ l. (x ≡ v) ⊎ Has l v) (sym (if_true _ t))
        (elim h [ inl e ↦ inl (same ∙ e) | inr g ↦ Has-unique_after x ys v g ])
  | inr f ↦ inr (
      subst (λ l. Has l v) (sym (if_false _ f))
        (elim h [ inl e ↦ inl e | inr g ↦ Has-unique_after y ys v g ]))
]

Has-unique : (xs : List ℕ) (v : ℕ) → Has xs v → Has (unique xs) v
unfolding unique
Has-unique [] v h = elim h [ ]
Has-unique (x ∷ xs) v (inl e) = inl e
Has-unique (x ∷ xs) v (inr h) = Has-unique_after x xs v h

pub Has-unique-sort : (xs : List ℕ) (v : ℕ) → Has xs v → Has (unique (sort xs)) v
Has-unique-sort xs v h = Has-unique (sort xs) v (Has-sort xs v h)

pub get_or-Has : (xs : List ℕ) (v : ℕ) → Has xs v → (i : ℕ) × (i < length xs) × (get_or xs i 0 ≡ v)
get_or-Has [] v h = elim h [ ]
get_or-Has (x ∷ xs) v (inl e) = (0, omega arith, e)
get_or-Has (x ∷ xs) v (inr h) = let (i, l, e) = get_or-Has xs v h in (suc i, omega arith, e)

module _ (P : ℕ → Type 0) where
  All-inserted : (x : ℕ) (ys : List ℕ) → P x → All P ys → All P (insert_sorted x ys)
  unfolding insert_sorted
  All-inserted x [] h k = (h, tt)
  All-inserted x (y ∷ ys) h (k, ks) = elim (Bool-cases (leb x y)) [
    | inl t ↦ subst (All P) (sym (if_true _ t)) (h, (k, ks))
    | inr f ↦ subst (All P) (sym (if_false _ f)) (k, All-inserted x ys h ks)
  ]

  All-sort : (xs : List ℕ) → All P xs → All P (sort xs)
  unfolding sort
  All-sort [] h = tt
  All-sort (x ∷ xs) (h, hs) = All-inserted x (sort xs) h (All-sort xs hs)

  All-after : (x : ℕ) (ys : List ℕ) → All P ys → All P (unique_after x ys)
  unfolding unique_after
  All-after x [] h = tt
  All-after x (y ∷ ys) (h, hs) = elim (Bool-cases (x == y)) [
    | inl t ↦ subst (All P) (sym (if_true _ t)) (All-after x ys hs)
    | inr f ↦ subst (All P) (sym (if_false _ f)) (h, All-after y ys hs)
  ]

  All-unique : (xs : List ℕ) → All P xs → All P (unique xs)
  unfolding unique
  All-unique [] h = tt
  All-unique (x ∷ xs) (h, hs) = (h, All-after x xs hs)

  pub All-unique-sort : (xs : List ℕ) → All P xs → All P (unique (sort xs))
  All-unique-sort xs h = All-unique (sort xs) (All-sort xs h)
