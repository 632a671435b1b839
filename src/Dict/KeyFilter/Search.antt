-- ===== src/Dict/KeyFilter/Search.antt =====
-- The binary search that src/dict/keyfilter.cpp calls, against membership in a sorted array.
use marupop.Prelude.{
  ℕ, zero, suc, ◌+◌, ◌-◌, ◌/◌, ◌≤◌, ◌<◌, ◌≡◌, ◌↔◌, refl, subst, Bool, true, false, List, arith, ltb,
  ltb→lt, lt→ltb, length, get_or, if◌then◌else◌, and_true,
}
use marupop.Dict.KeyFilter.{lower_bound, contains_hash}

abbrev pub IsSorted : List ℕ → Type 0
IsSorted xs = (i j : ℕ) → i ≤ j → j < length xs → get_or xs i 0 ≤ get_or xs j 0

-- What lies below `p` is less than `v`, and what lies from `q` on is not.
abbrev Between : List ℕ → ℕ → ℕ → ℕ → Type 0
Between xs v p q =
    ((j : ℕ) → j < p → get_or xs j 0 < v) × ((j : ℕ) → q ≤ j → j < length xs → v ≤ get_or xs j 0)

-- One round leaves what was known, about the half that it keeps.
round :
    (right : Bool) (fuel : ℕ) (xs : List ℕ) (v first rest : ℕ)
    → IsSorted xs
    → rest ≤ fuel
    → first + suc rest ≤ length xs
    → Between xs v first (first + suc rest)
    → ltb (get_or xs (first + suc rest / 2) 0) v ≡ right
    → let first' = if right then first + suc rest / 2 + 1 else first in
      let size' = if right then rest - suc rest / 2 else suc rest / 2 in
      (size' ≤ fuel) × (first' + size' ≤ length xs) × Between xs v first' (first' + size')
round true fuel xs v first rest s h k (below, above) e =
    let mid = first + suc rest / 2 in
    let less = ltb→lt (get_or xs mid 0) v e in
    (
      omega arith,
      omega arith,
      (
        (λ j l. omega (arith, s j mid (omega arith) (omega arith), less)),
        λ j l m. above j (omega arith) m,
      ),
    )
round false fuel xs v first rest s h k (below, above) e =
    let mid = first + suc rest / 2 in
    let more : v ≤ get_or xs mid 0 = ground (arith, lt→ltb (get_or xs mid 0) v) in
    (omega arith, omega arith, (below, λ j l m. omega (arith, s mid j (omega arith) m, more)))

lower_bound-Between :
    (fuel : ℕ) (xs : List ℕ) (v first size : ℕ)
    → IsSorted xs
    → size ≤ fuel
    → first + size ≤ length xs
    → Between xs v first (first + size)
    → Between xs v (lower_bound fuel xs v first size) (lower_bound fuel xs v first size)
unfolding lower_bound
lower_bound-Between zero xs v first size s h k b = subst (Between xs v first) (omega arith) b
lower_bound-Between (suc fuel) xs v first zero s h k b = subst (Between xs v first) (omega arith) b
lower_bound-Between (suc fuel) xs v first (suc rest) s h k b =
    let (small, inside, between) =
      round (ltb (get_or xs (first + suc rest / 2) 0) v) fuel xs v first rest s (omega arith) k b
        refl in
    lower_bound-Between fuel xs v _ _ s small inside between

-- On a sorted array the search answers whether the hash is in it.
pub contains_hash_iff :
    (v : ℕ) (xs : List ℕ)
    → IsSorted xs
    → (contains_hash v xs ≡ true) ↔ ((i : ℕ) × (i < length xs) × (get_or xs i 0 ≡ v))
unfolding contains_hash
contains_hash_iff v xs s =
    let place = lower_bound (length xs) xs v 0 (length xs) in
    let (below, above) =
      lower_bound-Between (length xs) xs v 0 (length xs) s (omega arith) (omega arith)
        ((λ j l. absurd (omega arith)), λ j l m. absurd (omega arith)) in
    (
      λ h.
          let inside : place < length xs = ground (arith, ltb→lt place (length xs)) in
          let at_most : get_or xs place 0 ≤ v = ground (arith, lt→ltb v (get_or xs place 0)) in
          (place, inside, omega (arith, above place (omega arith) inside, at_most)),
      λ (i, l, e).
          let reached : place ≤ i = ground (arith, below i) in
          let at_most : get_or xs place 0 ≤ v = omega (arith, s place i reached l) in
          and_true (lt→ltb place (length xs) (omega arith)) (ground (arith)),
    )
