-- ===== src/Deconj/Search/Accept.antt =====
-- The scan of src/deconj/deconjugator.cpp over the forms that are kept, at one form.
use marupop.Prelude.{
  ℕ, zero, suc, ◌≡◌, refl, sym, ap, ◌∙◌, subst, ◌⊎◌, inl, inr, false, some, List, [], ◌∷◌, ◌++◌,
  append_assoc, append-nil, arith, length, length-append, Has,
}
use marupop.Deconj.Search.{Form, remove_at, Verdict, passes, stops, removes, verdict, scan}
use marupop.Deconj.Search.Removal.{
  Scanned, Scanned-trans, Kept-self, Passing, remove_at-Removed, snoc_cases, get_elem?-append,
}

Verdict-cases : (v : Verdict) → (v ≡ passes) ⊎ (v ≡ stops) ⊎ (v ≡ removes)
Verdict-cases passes = inl refl
Verdict-cases stops = inr (inl refl)
Verdict-cases removes = inr (inr refl)

Has-middle : {A : Type 0} (front rest : List A) (p : A) → Has (front ++ p ∷ rest) p
Has-middle [] rest p = inl refl
Has-middle (x ∷ front) rest p = inr (Has-middle front rest p)

-- The scan reads the entry before the ones that passed.
scan-step :
    (f : Form) (front rest : List Form) (p : Form) (v : Verdict)
    → verdict f (some p) ≡ v
    → let ps = front ++ p ∷ rest in
      scan (suc (length front)) f ps ≡ elim v [
        | passes ↦ scan (length front) f ps
        | stops ↦ (false, ps)
        | removes ↦ scan (length front) f (remove_at (length front) ps)
      ]
unfolding scan
scan-step f front rest p v e =
    let ps = front ++ p ∷ rest in
    ap
      (λ (v : Verdict). elim v [
        | passes ↦ scan (length front) f ps
        | stops ↦ (false, ps)
        | removes ↦ scan (length front) f (remove_at (length front) ps)
      ])
      (ap (verdict f) (get_elem?-append front rest p) ∙ e)

scan-snoc :
    (f : Form) (ys rest : List Form) (p : Form)
    → ((front after : List Form)
        → length front ≡ length ys
        → Passing f after
        → Scanned f (front ++ after) (scan (length ys) f (front ++ after)))
    → Passing f rest
    → Scanned f (ys ++ p ∷ rest) (scan (suc (length ys)) f (ys ++ p ∷ rest))
scan-snoc f ys rest p ih h =
    let ps = ys ++ p ∷ rest in
    elim (Verdict-cases (verdict f (some p))) [
      | inl e ↦
          subst (Scanned f ps) (sym (scan-step f ys rest p passes e)) (ih ys (p ∷ rest) refl (e, h))
      | inr (inl e) ↦
          subst (Scanned f ps) (sym (scan-step f ys rest p stops e))
            (Kept-self f ps, (p, Has-middle ys rest p, e))
      | inr (inr e) ↦
          let r = remove_at-Removed f ys rest p e in
          subst (Scanned f ps) (sym (scan-step f ys rest p removes e)) (
            Scanned-trans f ps (remove_at (length ys) ps)
              (scan (length ys) f (remove_at (length ys) ps)) r.kept
              (subst (λ qs. Scanned f qs (scan (length ys) f qs)) (sym r.shape)
                (ih ys r.left refl (r.passing h))))
    ]

scan-Scanned :
    (n : ℕ) (f : Form) (front rest : List Form)
    → length front ≡ n
    → Passing f rest
    → Scanned f (front ++ rest) (scan n f (front ++ rest))
unfolding scan
scan-Scanned zero f [] rest e h = (Kept-self f rest, h)
scan-Scanned zero f (x ∷ front) rest e h = cc
scan-Scanned (suc n) f front rest e h = elim (snoc_cases front) [
  | inl d ↦ (let k : length front ≡ 0 = ap length d in absurd (omega arith))
  | inr (ys, p, d) ↦
      (let k : length front ≡ length (ys ++ p ∷ []) = ap length d in
        let l = length-append ys (p ∷ []) in
        let m : length ys ≡ n = omega arith in
        subst (λ xs. Scanned f xs (scan (suc n) f xs))
          (sym (ap (λ t. t ++ rest) d ∙ append_assoc ys (p ∷ []) rest))
          (subst (λ n. Scanned f (ys ++ p ∷ rest) (scan (suc n) f (ys ++ p ∷ rest))) m
            (scan-snoc f ys rest p
              (λ fr after g k.
                subst (λ n. Scanned f (fr ++ after) (scan n f (fr ++ after))) (sym m)
                  (scan-Scanned n f fr after (g ∙ m) k))
              h)))
]

-- The scan over all entries.
pub scan-all : (f : Form) (ps : List Form) → Scanned f ps (scan (length ps) f ps)
scan-all f ps =
    subst (λ xs. Scanned f xs (scan (length ps) f xs)) (append-nil ps)
      (scan-Scanned (length ps) f ps [] refl tt)
