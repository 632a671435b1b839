-- ===== src/Deconj/Search/Fewest.antt =====
-- The forms that src/deconj/deconjugator.cpp keeps of the forms it visits, against their definition
-- by the number of proper steps.
use marupop.Prelude.{
  ◌≤◌, ◌<◌, ◌≡◌, refl, sym, ap, ◌∙◌, subst, ◌⊎◌, inl, inr, Bool, true, false, some, List, [], ◌∷◌,
  ◌++◌, arith, append_assoc, append-nil, length, if_true, if_false, Bool-cases, Has, Has-append,
  Has-append_left, Has-append_right, All-Has,
}
use marupop.Deconj.Search.{Form, is_terminal_word_class, add_if, accept, scan, verdict, passes}
use marupop.Deconj.Search.Removal.{
  SameLemma, steps_of, verdict-removes, verdict-stops, verdict-passes, Kept, Passing, Scanned,
}
use marupop.Deconj.Search.Accept.{scan-all}

SameLemma-trans : (p q r : Form) → SameLemma p q → SameLemma q r → SameLemma p r
SameLemma-trans p q r s t = record { text = s.text ∙ t.text; last_tag = s.last_tag ∙ t.last_tag }

SameLemma-sym : (p q : Form) → SameLemma p q → SameLemma q p
SameLemma-sym p q s = record { text = sym s.text; last_tag = sym s.last_tag }

SameLemma-self : (p : Form) → SameLemma p p
SameLemma-self p = record { text = refl; last_tag = refl }

abbrev pub IsTerminal : Form → Type 0
IsTerminal f = is_terminal_word_class f.last_tag ≡ true

SameLemma-IsTerminal : (p q : Form) → SameLemma p q → IsTerminal p → IsTerminal q
SameLemma-IsTerminal p q s t = ap is_terminal_word_class (sym s.last_tag) ∙ t

-- No form of `vs` is the same lemma and word class in fewer steps.
abbrev pub IsFewest : List Form → Form → Type 0
IsFewest vs q = (v : Form) → Has vs v → SameLemma v q → steps_of q ≤ steps_of v

-- `ps` holds the terminal forms of `vs` that have the fewest steps, and one for each lemma and word
-- class that `vs` has in a terminal form.
pub record IsKeptOf (vs ps : List Form) : Type 0 where
  pub sound : (q : Form) → Has ps q → Has vs q × IsTerminal q × IsFewest vs q
  pub complete : (v : Form) → Has vs v → IsTerminal v → IsFewest vs v → Has ps v
  pub covers :
      (v : Form)
      → Has vs v
      → IsTerminal v
      → (q : Form) × Has ps q × SameLemma q v × (steps_of q ≤ steps_of v)

IsFewest-snoc :
    (vs : List Form) (f q : Form)
    → IsFewest vs q
    → (SameLemma f q → steps_of q ≤ steps_of f)
    → IsFewest (vs ++ f ∷ []) q
IsFewest-snoc vs f q h k v g s = elim (Has-append vs (f ∷ []) v g) [
  | inl a ↦ h v a s
  | inr (inl e) ↦ subst (λ (v : Form). SameLemma v q → steps_of q ≤ steps_of v) e k s
  | inr (inr e) ↦ elim e [ ]
]

IsFewest-init : (vs : List Form) (f q : Form) → IsFewest (vs ++ f ∷ []) q → IsFewest vs q
IsFewest-init vs f q h v g s = h v (Has-append_left vs (f ∷ []) v g) s

-- A form of no terminal class changes nothing.
IsKeptOf-other :
    (vs ps : List Form) (f : Form)
    → is_terminal_word_class f.last_tag ≡ false
    → IsKeptOf vs ps
    → IsKeptOf (vs ++ f ∷ []) ps
IsKeptOf-other vs ps f e k =
    let no : (q : Form) → IsTerminal q → SameLemma f q → ⊥ =
      λ q t s. let u = SameLemma-IsTerminal q f (SameLemma-sym f q s) t in cc in
    let old : (v : Form) → Has (vs ++ f ∷ []) v → IsTerminal v → Has vs v = λ v g t.
      elim (Has-append vs (f ∷ []) v g) [
        | inl a ↦ a
        | inr (inl d) ↦ absurd (no v t (subst (SameLemma f) d (SameLemma-self f)))
        | inr (inr d) ↦ elim d [ ]
      ] in
    record {
      sound = λ q h.
          let (g, t, m) = k.sound q h in
          (Has-append_left vs (f ∷ []) q g, t, IsFewest-snoc vs f q m (λ s. absurd (no q t s)));
      complete = λ v g t m. k.complete v (old v g t) t (IsFewest-init vs f v m);
      covers = λ v g t. k.covers v (old v g t) t;
    }

-- The scan adds the form: what is left has its number of steps, where it is the same lemma.
IsKeptOf-added :
    (vs ps qs : List Form) (f : Form)
    → IsTerminal f
    → IsKeptOf vs ps
    → Kept f ps qs
    → Passing f qs
    → IsKeptOf (vs ++ f ∷ []) (qs ++ f ∷ [])
IsKeptOf-added vs ps qs f t k s pass =
    let keeps : (q : Form) → Has ps q → Has qs q ⊎ (SameLemma q f × (steps_of f < steps_of q)) =
      λ q h. elim (s.kept q h) [ inl a ↦ inl a | inr e ↦ inr (verdict-removes f q e) ] in
    let equal : (q : Form) → Has qs q → SameLemma q f → steps_of q ≡ steps_of f =
      λ q h l. verdict-passes f q (All-Has (λ q. verdict f (some q) ≡ passes) qs q pass h) l in
    let last : Has (qs ++ f ∷ []) f = Has-append_right qs (f ∷ []) f (inl refl) in
    let fewest : IsFewest vs f = λ v h l.
      let (q, g, m, n) = k.covers v h (SameLemma-IsTerminal f v (SameLemma-sym v f l) t) in
      elim (keeps q g) [
        | inl a ↦ (let d = equal q a (SameLemma-trans q v f m l) in omega arith)
        | inr (_, b) ↦ omega arith
      ] in
    record {
      sound = λ q h. elim (Has-append qs (f ∷ []) q h) [
        | inl a ↦
            (let (g, u, m) = k.sound q (s.from q a) in
              (
                Has-append_left vs (f ∷ []) q g,
                u,
                IsFewest-snoc vs f q m
                    (λ l. let d = equal q a (SameLemma-sym f q l) in omega arith),
              ))
        | inr (inl e) ↦
            subst (λ q. Has (vs ++ f ∷ []) q × IsTerminal q × IsFewest (vs ++ f ∷ []) q) e
              (
                Has-append_right vs (f ∷ []) f (inl refl),
                t,
                IsFewest-snoc vs f f fewest (λ l. omega arith),
              )
        | inr (inr e) ↦ elim e [ ]
      ];
      complete = λ v h u m. elim (Has-append vs (f ∷ []) v h) [
        | inl a ↦ elim (keeps v (k.complete v a u (IsFewest-init vs f v m))) [
          | inl b ↦ Has-append_left qs (f ∷ []) v b
          | inr (l, b) ↦
              (let d = m f (Has-append_right vs (f ∷ []) f (inl refl)) (SameLemma-sym v f l) in
                absurd (omega arith))
        ]
        | inr (inl e) ↦ subst (Has (qs ++ f ∷ [])) e last
        | inr (inr e) ↦ elim e [ ]
      ];
      covers = λ v h u. elim (Has-append vs (f ∷ []) v h) [
        | inl a ↦
            (let (q, g, m, n) = k.covers v a u in
              elim (keeps q g) [
                | inl b ↦ (q, Has-append_left qs (f ∷ []) q b, m, n)
                | inr (l, b) ↦ (f, last, SameLemma-trans f q v (SameLemma-sym q f l) m, omega arith)
              ])
        | inr (inl e) ↦
            subst
              (λ v. (q : Form) × Has (qs ++ f ∷ []) q × SameLemma q v × (steps_of q ≤ steps_of v)) e
              (f, last, SameLemma-self f, omega arith)
        | inr (inr e) ↦ elim e [ ]
      ];
    }

-- The scan stops at a form that is the same lemma in fewer steps.
IsKeptOf-stopped :
    (vs ps qs : List Form) (f p : Form)
    → IsKeptOf vs ps
    → Kept f ps qs
    → Has qs p
    → SameLemma p f
    → steps_of p < steps_of f
    → IsKeptOf (vs ++ f ∷ []) qs
IsKeptOf-stopped vs ps qs f p k s h l less =
    let keeps : (q : Form) → Has ps q → Has qs q ⊎ (SameLemma q f × (steps_of f < steps_of q)) =
      λ q h. elim (s.kept q h) [ inl a ↦ inl a | inr e ↦ inr (verdict-removes f q e) ] in
    let (p_visited, _, _) = k.sound p (s.from p h) in
    record {
      sound = λ q h.
          let (g, u, m) = k.sound q (s.from q h) in
          (
            Has-append_left vs (f ∷ []) q g,
            u,
            IsFewest-snoc vs f q m
                (λ l'. let d = m p p_visited (SameLemma-trans p f q l l') in omega arith),
          );
      complete = λ v h u m. elim (Has-append vs (f ∷ []) v h) [
        | inl a ↦ elim (keeps v (k.complete v a u (IsFewest-init vs f v m))) [
          | inl b ↦ b
          | inr (l', b) ↦
              (let d = m f (Has-append_right vs (f ∷ []) f (inl refl)) (SameLemma-sym v f l') in
                absurd (omega arith))
        ]
        | inr (inl e) ↦
            (let d = m p (Has-append_left vs (f ∷ []) p p_visited) (subst (SameLemma p) e l) in
              let c : steps_of f ≡ steps_of v = ap steps_of e in absurd (omega arith))
        | inr (inr e) ↦ elim e [ ]
      ];
      covers = λ v h' u. elim (Has-append vs (f ∷ []) v h') [
        | inl a ↦
            (let (q, g, m, n) = k.covers v a u in
              elim (keeps q g) [
                | inl b ↦ (q, b, m, n)
                | inr (l', b) ↦ (
                  p,
                  h,
                  SameLemma-trans p f v l (SameLemma-trans f q v (SameLemma-sym q f l') m),
                  omega arith,
                )
              ])
        | inr (inl e) ↦
            subst (λ v. (q : Form) × Has qs q × SameLemma q v × (steps_of q ≤ steps_of v)) e
              (p, h, l, omega arith)
        | inr (inr e) ↦ elim e [ ]
      ];
    }

add_if-IsKeptOf :
    (vs ps : List Form) (f : Form) (r : Bool × List Form)
    → IsTerminal f
    → IsKeptOf vs ps
    → Scanned f ps r
    → IsKeptOf (vs ++ f ∷ []) (add_if r f)
add_if-IsKeptOf vs ps f (true, qs) t k (s, pass) = IsKeptOf-added vs ps qs f t k s pass
add_if-IsKeptOf vs ps f (false, qs) t k (s, (p, h, e)) =
    let (l, less) = verdict-stops f p e in IsKeptOf-stopped vs ps qs f p k s h l less

accept-IsKeptOf :
    (vs ps : List Form) (f : Form) → IsKeptOf vs ps → IsKeptOf (vs ++ f ∷ []) (accept ps f)
unfolding accept
accept-IsKeptOf vs ps f k = elim (Bool-cases (is_terminal_word_class f.last_tag)) [
  | inl t ↦
      subst (IsKeptOf (vs ++ f ∷ [])) (sym (if_true ps t))
        (add_if-IsKeptOf vs ps f (scan (length ps) f ps) t k (scan-all f ps))
  | inr e ↦
      subst (IsKeptOf (vs ++ f ∷ [])) (sym (if_false (add_if (scan (length ps) f ps) f) e))
        (IsKeptOf-other vs ps f e k)
]

-- The forms that are kept of forms that are visited in some order.
unfoldable pub keep_all : List Form → List Form → List Form
keep_all ps [] = ps
keep_all ps (v ∷ vs) = keep_all (accept ps v) vs

keep_all-from : (us vs ps : List Form) → IsKeptOf us ps → IsKeptOf (us ++ vs) (keep_all ps vs)
unfolding keep_all
keep_all-from us [] ps k = subst (λ xs. IsKeptOf xs ps) (sym (append-nil us)) k
keep_all-from us (v ∷ vs) ps k =
    subst (λ xs. IsKeptOf xs (keep_all (accept ps v) vs)) (append_assoc us (v ∷ []) vs)
      (keep_all-from (us ++ v ∷ []) vs (accept ps v) (accept-IsKeptOf us ps v k))

-- Whatever forms are visited, and in whatever order, what is kept of them is the forms of a terminal
-- word class that no visited form of the same text and class beats in proper steps, and each text
-- and terminal class that is visited has such a form among them.
pub keep_all-IsKeptOf : (vs : List Form) → IsKeptOf vs (keep_all [] vs)
keep_all-IsKeptOf vs = keep_all-from [] vs [] (record {
  sound = λ q h. elim h [ ];
  complete = λ v h t m. elim h [ ];
  covers = λ v h t. elim h [ ];
})
