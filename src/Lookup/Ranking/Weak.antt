-- ===== src/Lookup/Ranking/Weak.antt =====
-- Comparisons that order, of which the criteria of src/lookup/ranking.cpp are built.
use marupop.Prelude.{ℕ, ◌≡◌, refl, sym, ap, ◌∙◌, subst, Bool, arith}
use marupop.Prelude.Int.{ℤ}
use marupop.Lookup.Ranking.{
  Order, before, same, after, ◌<+>◌, compare_int, larger_first, holder_first,
}

abbrev pub opposite : Order → Order
opposite before = after
opposite same = same
opposite after = before

abbrev pub Comparison : Type 0 → Type 0
Comparison A = A → A → Order

-- What two comparisons in a row say of the outer two: as long as neither is `after`, the result is
-- `same` where both are and else `before`.
abbrev pub Follows : Order → Order → Order → Type 0
Follows same same o = o ≡ same
Follows same before o = o ≡ before
Follows before same o = o ≡ before
Follows before before o = o ≡ before
Follows after p o = Unit
Follows before after o = Unit
Follows same after o = Unit

-- A comparison that is a strict weak order on what has a property: each way round it says the
-- opposite, and it is transitive, ties included.
pub record IsWeakOrder {A : Type 0} (P : A → Type 0) (compare : Comparison A) : Type 0 where
  pub swap : (a b : A) → P a → P b → compare b a ≡ opposite (compare a b)
  pub follows : (a b c : A) → P a → P b → P c → Follows (compare a b) (compare b c) (compare a c)

pub opposite-<+> : (o p : Order) → opposite (o <+> p) ≡ (opposite o <+> opposite p)
opposite-<+> before p = refl
opposite-<+> same p = refl
opposite-<+> after p = refl

pub Follows-<+> :
    (a b c p q r : Order) → Follows a b c → Follows p q r → Follows (a <+> p) (b <+> q) (c <+> r)
Follows-<+> before before c p q r h k = ap (λ c. c <+> r) h
Follows-<+> before same c p before r h k = ap (λ c. c <+> r) h
Follows-<+> before same c p same r h k = ap (λ c. c <+> r) h
Follows-<+> before same c p after r h k = tt
Follows-<+> before after c p q r h k = tt
Follows-<+> after b c p q r h k = tt
Follows-<+> same before c before q r h k = ap (λ c. c <+> r) h
Follows-<+> same before c same q r h k = ap (λ c. c <+> r) h
Follows-<+> same before c after q r h k = tt
Follows-<+> same same c p q r h k = subst (λ c. Follows p q (c <+> r)) (sym h) k
Follows-<+> same after c before q r h k = tt
Follows-<+> same after c same q r h k = tt
Follows-<+> same after c after q r h k = tt

-- Two criteria, the second for the ties of the first.
pub IsWeakOrder-<+> :
    {A : Type 0} (P : A → Type 0) (f g : Comparison A)
    → IsWeakOrder P f
    → IsWeakOrder P g
    → IsWeakOrder P (λ a b. f a b <+> g a b)
IsWeakOrder-<+> P f g u v = record {
  swap = λ a b x y.
      ap (λ o. o <+> g b a) (u.swap a b x y)
      ∙ ap (λ o. opposite (f a b) <+> o) (v.swap a b x y)
      ∙ sym (opposite-<+> (f a b) (g a b));
  follows = λ a b c x y z.
      Follows-<+> (f a b) (f b c) (f a c) (g a b) (g b c) (g a c) (u.follows a b c x y z)
        (v.follows a b c x y z);
}

-- A comparison of a key.
pub IsWeakOrder-key :
    {A B : Type 0} (P : A → Type 0) (Q : B → Type 0) (f : Comparison B) (key : A → B)
    → ((a : A) → P a → Q (key a))
    → IsWeakOrder Q f
    → IsWeakOrder P (λ a b. f (key a) (key b))
IsWeakOrder-key P Q f key h u = record {
  swap = λ a b x y. u.swap (key a) (key b) (h a x) (h b y);
  follows = λ a b c x y z. u.follows (key a) (key b) (key c) (h a x) (h b y) (h c z);
}

-- Comparisons that agree where the property holds.
pub IsWeakOrder-agrees :
    {A : Type 0} (P : A → Type 0) (f g : Comparison A)
    → ((a b : A) → P a → P b → f a b ≡ g a b)
    → IsWeakOrder P g
    → IsWeakOrder P f
IsWeakOrder-agrees P f g h u = record {
  swap = λ a b x y. h b a y x ∙ (u.swap a b x y ∙ ap opposite (sym (h a b x y)));
  follows = λ a b c x y z.
      subst (λ o. Follows o (f b c) (f a c)) (sym (h a b x y))
        (subst (λ o. Follows (g a b) o (f a c)) (sym (h b c y z))
          (subst (λ o. Follows (g a b) (g b c) o) (sym (h a c x z)) (u.follows a b c x y z)));
}

abbrev pub Any : {A : Type 0} → A → Type 0
Any a = Unit

larger_first-swap : (m n : ℕ) → larger_first n m ≡ opposite (larger_first m n)
unfolding larger_first
larger_first-swap m n = ground arith

larger_first-Follows :
    (l m n : ℕ) → Follows (larger_first l m) (larger_first m n) (larger_first l n)
unfolding larger_first
larger_first-Follows l m n = ground arith

pub larger_first-IsWeakOrder : IsWeakOrder Any larger_first
larger_first-IsWeakOrder = record {
  swap = λ m n x y. larger_first-swap m n;
  follows = λ l m n x y z. larger_first-Follows l m n;
}

compare_int-swap : (m n : ℤ) → compare_int n m ≡ opposite (compare_int m n)
unfolding compare_int
compare_int-swap m n = ground arith

compare_int-Follows : (l m n : ℤ) → Follows (compare_int l m) (compare_int m n) (compare_int l n)
unfolding compare_int
compare_int-Follows l m n = ground arith

pub compare_int-IsWeakOrder : IsWeakOrder Any compare_int
compare_int-IsWeakOrder = record {
  swap = λ m n x y. compare_int-swap m n;
  follows = λ l m n x y z. compare_int-Follows l m n;
}

holder_first-swap : (a b : Bool) → holder_first b a ≡ opposite (holder_first a b)
holder_first-swap a b = ground arith

holder_first-Follows :
    (a b c : Bool) → Follows (holder_first a b) (holder_first b c) (holder_first a c)
holder_first-Follows a b c = ground arith

pub holder_first-IsWeakOrder : IsWeakOrder Any holder_first
holder_first-IsWeakOrder = record {
  swap = λ a b x y. holder_first-swap a b;
  follows = λ a b c x y z. holder_first-Follows a b c;
}
