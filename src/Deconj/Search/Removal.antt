-- ===== src/Deconj/Search/Removal.antt =====
-- What the scan of src/deconj/deconjugator.cpp does to the forms that are kept: verdicts and removals.
use marupop.Prelude.{
  ℕ, ◌-◌, ◌<◌, ◌≡◌, refl, sym, ap, ◌∙◌, subst, ◌⊎◌, inl, inr, Bool, true, false, ◌&&◌, some, List,
  [], ◌∷◌, ◌++◌, append_assoc, append-nil, arith, length, get_elem?, set, take, length-append, All,
  Has, Has-append, Has-append_left, Has-append_right, take-append,
}
use marupop.Prelude.Text.{text_eq, text_eq_eq, text_eq_self}
use marupop.Deconj.Process.{proper_step_count}
use marupop.Deconj.Search.{
  Form, same_lemma, pop_back, move_last, remove_at, passes, stops, removes, verdict,
}

-- Forms that are one lemma and word class.
pub record SameLemma (p f : Form) : Type 0 where
  pub text : p.text ≡ f.text
  pub last_tag : p.last_tag ≡ f.last_tag

abbrev pub steps_of : Form → ℕ
steps_of f = proper_step_count f.process

SameLemma-same_lemma : (p f : Form) → same_lemma p f ≡ true → SameLemma p f
SameLemma-same_lemma p f h = record {
  text = text_eq_eq p.text f.text (ground arith);
  last_tag = text_eq_eq p.last_tag f.last_tag (ground arith);
}

same_lemma-SameLemma : (p f : Form) → SameLemma p f → same_lemma p f ≡ true
same_lemma-SameLemma p f s =
    ap (λ t. text_eq t f.text && text_eq p.last_tag f.last_tag) s.text
    ∙ ap (λ t. text_eq f.text f.text && text_eq t f.last_tag) s.last_tag
    ∙ (let a = text_eq_self f.text in let b = text_eq_self f.last_tag in ground arith)

pub verdict-removes :
    (f p : Form) → verdict f (some p) ≡ removes → SameLemma p f × (steps_of f < steps_of p)
unfolding verdict
verdict-removes f p h = (SameLemma-same_lemma p f (ground arith), ground arith)

pub verdict-stops :
    (f p : Form) → verdict f (some p) ≡ stops → SameLemma p f × (steps_of p < steps_of f)
unfolding verdict
verdict-stops f p h = (SameLemma-same_lemma p f (ground arith), ground arith)

pub verdict-passes :
    (f p : Form) → verdict f (some p) ≡ passes → SameLemma p f → steps_of p ≡ steps_of f
unfolding verdict
verdict-passes f p h s = let e = same_lemma-SameLemma p f s in ground arith

pop_back-snoc : {A : Type 0} (ys : List A) (x : A) → pop_back (ys ++ x ∷ []) ≡ ys
unfolding pop_back
pop_back-snoc ys x =
    ap (λ n. take n (ys ++ x ∷ [])) {y = length ys}
      (let h = length-append ys (x ∷ []) in omega arith)
    ∙ take-append ys (x ∷ [])

pub get_elem?-append :
    {A : Type 0} (ys zs : List A) (x : A) → get_elem? (ys ++ x ∷ zs) (length ys) ≡ some x
get_elem?-append [] zs x = refl
get_elem?-append (y ∷ ys) zs x = get_elem?-append ys zs x

set-append :
    {A : Type 0} (ys zs : List A) (x p : A) → set (ys ++ p ∷ zs) (length ys) x ≡ ys ++ x ∷ zs
set-append [] zs x p = refl
set-append (y ∷ ys) zs x p = ap (λ t. y ∷ t) (set-append ys zs x p)

last-snoc :
    {A : Type 0} (ys : List A) (x : A)
    → get_elem? (ys ++ x ∷ []) (length (ys ++ x ∷ []) - 1) ≡ some x
last-snoc ys x =
    ap (λ n. get_elem? (ys ++ x ∷ []) n) {y = length ys}
      (let h = length-append ys (x ∷ []) in omega arith)
    ∙ get_elem?-append ys [] x

-- The last element takes the place of the one that is removed.
remove_at-last :
    {A : Type 0} (front ys : List A) (p x : A)
    → remove_at (length front) (front ++ p ∷ (ys ++ x ∷ [])) ≡ front ++ x ∷ ys
unfolding remove_at
remove_at-last front ys p x =
    subst (λ xs. remove_at (length front) xs ≡ front ++ x ∷ ys)
      (append_assoc front (p ∷ ys) (x ∷ []))
      (ap (λ o. pop_back (move_last (length front) o ((front ++ p ∷ ys) ++ x ∷ [])))
          (last-snoc (front ++ p ∷ ys) x)
        ∙ (ap (λ xs. pop_back (set xs (length front) x)) (append_assoc front (p ∷ ys) (x ∷ []))
            ∙ (ap pop_back
                  (set-append front (ys ++ x ∷ []) x p ∙ sym (append_assoc front (x ∷ ys) (x ∷ [])))
                ∙ pop_back-snoc (front ++ x ∷ ys) x)))

remove_at-end :
    {A : Type 0} (front : List A) (p : A) → remove_at (length front) (front ++ p ∷ []) ≡ front
unfolding remove_at
remove_at-end front p =
    ap (λ o. pop_back (move_last (length front) o (front ++ p ∷ []))) (last-snoc front p)
    ∙ (ap pop_back (set-append front [] p p) ∙ pop_back-snoc front p)

-- A list is empty, or some elements and a last one.
pub snoc_cases :
    {A : Type 0} (xs : List A) → (xs ≡ []) ⊎ ((ys : List A) × (x : A) × (xs ≡ ys ++ x ∷ []))
snoc_cases [] = inl refl
snoc_cases (a ∷ xs) = elim (snoc_cases xs) [
  | inl e ↦ inr ([], a, ap (λ t. a ∷ t) e)
  | inr (ys, x, e) ↦ inr (a ∷ ys, x, ap (λ t. a ∷ t) e)
]

-- What a scan keeps of `ps`: all but entries that it removes for `f`.
pub record Kept (f : Form) (ps qs : List Form) : Type 0 where
  pub kept : (q : Form) → Has ps q → Has qs q ⊎ (verdict f (some q) ≡ removes)
  pub from : (q : Form) → Has qs q → Has ps q

abbrev pub Passing : Form → List Form → Type 0
Passing f qs = All (λ q. verdict f (some q) ≡ passes) qs

-- What a scan shows: all that is left passes, or some entry that is left stops the form.
abbrev pub Scanned : Form → List Form → Bool × List Form → Type 0
Scanned f ps (true, qs) = Kept f ps qs × Passing f qs
Scanned f ps (false, qs) = Kept f ps qs × ((q : Form) × Has qs q × (verdict f (some q) ≡ stops))

pub Kept-self : (f : Form) (ps : List Form) → Kept f ps ps
Kept-self f ps = record { kept = λ q h. inl h; from = λ q h. h }

Kept-trans : (f : Form) (ps qs rs : List Form) → Kept f ps qs → Kept f qs rs → Kept f ps rs
Kept-trans f ps qs rs k l = record {
  kept = λ q h. elim (k.kept q h) [ inl g ↦ l.kept q g | inr e ↦ inr e ];
  from = λ q h. k.from q (l.from q h);
}

pub Scanned-trans :
    (f : Form) (ps qs : List Form) (r : Bool × List Form)
    → Kept f ps qs
    → Scanned f qs r
    → Scanned f ps r
Scanned-trans f ps qs (true, rs) k (l, a) = (Kept-trans f ps qs rs k l, a)
Scanned-trans f ps qs (false, rs) k (l, a) = (Kept-trans f ps qs rs k l, a)

-- Removal keeps the entries before and after, the last of them moved.
pub record Removed (f : Form) (front rest ps qs : List Form) : Type 0 where
  pub left : List Form
  pub shape : qs ≡ front ++ left
  pub passing : Passing f rest → Passing f left
  pub kept : Kept f ps qs

Kept-moved :
    (f : Form) (front ys : List Form) (p x : Form)
    → verdict f (some p) ≡ removes
    → Kept f (front ++ p ∷ (ys ++ x ∷ [])) (front ++ x ∷ ys)
Kept-moved f front ys p x e = record {
  kept = λ q h. elim (Has-append front (p ∷ (ys ++ x ∷ [])) q h) [
    | inl g ↦ inl (Has-append_left front (x ∷ ys) q g)
    | inr (inl d) ↦ inr (ap (λ t. verdict f (some t)) (sym d) ∙ e)
    | inr (inr g) ↦ elim (Has-append ys (x ∷ []) q g) [
      | inl a ↦ inl (Has-append_right front (x ∷ ys) q (inr a))
      | inr (inl d) ↦ inl (Has-append_right front (x ∷ ys) q (inl d))
      | inr (inr d) ↦ elim d [ ]
    ]
  ];
  from = λ q h. elim (Has-append front (x ∷ ys) q h) [
    | inl g ↦ Has-append_left front (p ∷ (ys ++ x ∷ [])) q g
    | inr (inl d) ↦
        Has-append_right front (p ∷ (ys ++ x ∷ [])) q (inr (Has-append_right ys (x ∷ []) q (inl d)))
    | inr (inr g) ↦
        Has-append_right front (p ∷ (ys ++ x ∷ [])) q (inr (Has-append_left ys (x ∷ []) q g))
  ];
}

Kept-dropped :
    (f : Form) (front : List Form) (p : Form)
    → verdict f (some p) ≡ removes
    → Kept f (front ++ p ∷ []) front
Kept-dropped f front p e = record {
  kept = λ q h. elim (Has-append front (p ∷ []) q h) [
    | inl g ↦ inl g
    | inr (inl d) ↦ inr (ap (λ t. verdict f (some t)) (sym d) ∙ e)
    | inr (inr d) ↦ elim d [ ]
  ];
  from = λ q h. Has-append_left front (p ∷ []) q h;
}

Passing-moved : (f x : Form) (ys : List Form) → Passing f (ys ++ x ∷ []) → Passing f (x ∷ ys)
Passing-moved f x [] h = h
Passing-moved f x (y ∷ ys) (h, hs) = let (a, b) = Passing-moved f x ys hs in (a, (h, b))

pub remove_at-Removed :
    (f : Form) (front rest : List Form) (p : Form)
    → verdict f (some p) ≡ removes
    → Removed f front rest (front ++ p ∷ rest) (remove_at (length front) (front ++ p ∷ rest))
remove_at-Removed f front rest p e = elim (snoc_cases rest) [
  | inl d ↦
      subst
        (λ rest.
          Removed f front rest (front ++ p ∷ rest) (remove_at (length front) (front ++ p ∷ rest)))
        (sym d)
        (record {
          left = [];
          shape = remove_at-end front p ∙ sym (append-nil front);
          passing = λ h. tt;
          kept =
              subst (Kept f (front ++ p ∷ [])) (sym (remove_at-end front p))
                (Kept-dropped f front p e);
        })
  | inr (ys, x, d) ↦
      subst
        (λ rest.
          Removed f front rest (front ++ p ∷ rest) (remove_at (length front) (front ++ p ∷ rest)))
        (sym d)
        (record {
          left = x ∷ ys;
          shape = remove_at-last front ys p x;
          passing = Passing-moved f x ys;
          kept =
              subst (Kept f (front ++ p ∷ (ys ++ x ∷ []))) (sym (remove_at-last front ys p x))
                (Kept-moved f front ys p x e);
        })
]
