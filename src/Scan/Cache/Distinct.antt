-- ===== src/Scan/Cache/Distinct.antt =====
-- Lists of cache entries no two of which have one key (src/scan/scancache.cpp).
use marupop.Prelude.{
  ℕ, zero, suc, ◌≤◌, ◌≡◌, inl, inr, sym, subst, Bool, false, List, [], ◌∷◌, ◌++◌, if_true, if_false,
  length, take, arith, Bool-cases, All,
}
use marupop.Scan.Cache.{Geometry, CachedScan, matches, remove_if}
use marupop.Scan.Cache.Order.{matches_iff}

module _ {g : Geometry} {Content : Type 0} where
  abbrev Misses : CachedScan g Content → CachedScan g Content → Type 0
  Misses e f = matches e.logical_rect e.hash f ≡ false

  -- No two entries have one key.
  abbrev pub Distinct : List (CachedScan g Content) → Type 0
  Distinct [] = Unit
  Distinct (e ∷ es) = All (λ f. matches e.logical_rect e.hash f ≡ false) es × Distinct es

  pub All-remove_if :
      (P : CachedScan g Content → Type 0) (p : CachedScan g Content → Bool)
      (es : List (CachedScan g Content))
      → All P es
      → All P (remove_if p es)
  All-remove_if P p [] v = tt
  All-remove_if P p (e ∷ es) (v, vs) = elim (Bool-cases (p e)) [
    | inl t ↦ subst (All P) (sym (if_true _ t)) (All-remove_if P p es vs)
    | inr f ↦ subst (All P) (sym (if_false _ f)) (v, All-remove_if P p es vs)
  ]

  pub removed :
      (p : CachedScan g Content → Bool) (es : List (CachedScan g Content))
      → All (λ e. p e ≡ false) (remove_if p es)
  removed p [] = tt
  removed p (e ∷ es) = elim (Bool-cases (p e)) [
    | inl t ↦ subst (All (λ e. p e ≡ false)) (sym (if_true _ t)) (removed p es)
    | inr f ↦ subst (All (λ e. p e ≡ false)) (sym (if_false _ f)) (f, removed p es)
  ]

  pub remove_if-Distinct :
      (p : CachedScan g Content → Bool) (es : List (CachedScan g Content))
      → Distinct es
      → Distinct (remove_if p es)
  remove_if-Distinct p [] v = tt
  remove_if-Distinct p (e ∷ es) (v, vs) = elim (Bool-cases (p e)) [
    | inl t ↦ subst Distinct (sym (if_true _ t)) (remove_if-Distinct p es vs)
    | inr f ↦
        subst Distinct (sym (if_false _ f))
          (All-remove_if (Misses e) p es v, remove_if-Distinct p es vs)
  ]

  pub length-remove_if :
      (p : CachedScan g Content → Bool) (es : List (CachedScan g Content))
      → length (remove_if p es) ≤ length es
  length-remove_if p [] = omega arith
  length-remove_if p (e ∷ es) = ground (arith, length-remove_if p es)

  pub All-take :
      (P : CachedScan g Content → Type 0) (n : ℕ) (es : List (CachedScan g Content))
      → All P es
      → All P (take n es)
  All-take P zero es v = tt
  All-take P (suc n) [] v = tt
  All-take P (suc n) (e ∷ es) (v, vs) = (v, All-take P n es vs)

  pub take-Distinct :
      (n : ℕ) (es : List (CachedScan g Content)) → Distinct es → Distinct (take n es)
  take-Distinct zero es v = tt
  take-Distinct (suc n) [] v = tt
  take-Distinct (suc n) (e ∷ es) (v, vs) = (All-take (Misses e) n es v, take-Distinct n es vs)

  -- List (CachedScan g Content) miss one another both ways.
  Misses-symm : (e f : CachedScan g Content) → Misses e f → Misses f e
  Misses-symm e f m =
      ground (arith, matches_iff f.logical_rect f.hash e, matches_iff e.logical_rect e.hash f)

  pub All-remove :
      (P : CachedScan g Content → Type 0) (before after : List (CachedScan g Content))
      (e : CachedScan g Content)
      → All P (before ++ (e ∷ after))
      → P e × All P (before ++ after)
  All-remove P [] after e v = v
  All-remove P (b ∷ before) after e (v, vs) =
      let (w, ws) = All-remove P before after e vs in (w, (v, ws))

  -- Moving an entry to the front keeps the keys distinct.
  pub move-Distinct :
      (before after : List (CachedScan g Content)) (e : CachedScan g Content)
      → Distinct (before ++ (e ∷ after))
      → Distinct (e ∷ (before ++ after))
  move-Distinct [] after e v = v
  move-Distinct (b ∷ before) after e (v, vs) =
      let (w, ws) = All-remove (Misses b) before after e v in
      let (u, us) = move-Distinct before after e vs in ((Misses-symm b e w, u), (ws, us))
