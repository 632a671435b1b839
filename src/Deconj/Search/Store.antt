-- ===== src/Deconj/Search/Store.antt =====
-- The process nodes that the search of src/deconj/deconjugator.cpp shares: one address is one node,
-- so the comparison of parents by their address compares paths.
use marupop.Prelude.{
  ℕ, zero, suc, ◌≡◌, refl, sym, ap, ◌∙◌, subst, inl, inr, true, some, List, [], ◌∷◌, ◌++◌,
  append_assoc, append-nil, length, get_elem?, take, drop, take-append-drop, Bool-cases, Has, All,
  arith,
}
use marupop.Prelude.Text.{text_eq_eq}
use marupop.Deconj.Rules.{Rule}
use marupop.Deconj.Process.{Process, null, node, same_pointer}
use marupop.Deconj.Search.{
  Form, NewForms, same_step, is_discovered, discovered_forms_contain, stem_of,
}
use marupop.Deconj.Search.Derivation.{details_of}

-- A process whose nodes are in the store, each at its address.
unfoldable pub Stored : List Process → Process → Type 0
Stored store null = Unit
Stored store (node a parent detail n) =
    (get_elem? store a ≡ some (node a parent detail n)) × Stored store parent

get_elem?-left :
    {A : Type 0} (xs ys : List A) (i : ℕ) (v : A)
    → get_elem? xs i ≡ some v
    → get_elem? (xs ++ ys) i ≡ some v
get_elem?-left [] ys i v e = cc
get_elem?-left (x ∷ xs) ys zero v e = e
get_elem?-left (x ∷ xs) ys (suc i) v e = get_elem?-left xs ys i v e

pub get_elem?-last :
    {A : Type 0} (xs : List A) (v : A) → get_elem? (xs ++ v ∷ []) (length xs) ≡ some v
get_elem?-last [] v = refl
get_elem?-last (x ∷ xs) v = get_elem?-last xs v

pub Stored-append :
    (store more : List Process) (p : Process) → Stored store p → Stored (store ++ more) p
unfolding Stored
Stored-append store more null h = tt
Stored-append store more (node a parent detail n) (e, h) =
    (get_elem?-left store more a (node a parent detail n) e, Stored-append store more parent h)

some_injective : {A : Type 0} (x y : A) → some x ≡ some y → x ≡ y
some_injective x y e = cc

same_pointer-eq :
    (store : List Process) (p q : Process)
    → Stored store p
    → Stored store q
    → same_pointer p q ≡ true
    → p ≡ q
unfolding Stored
same_pointer-eq store null null h k e = refl
same_pointer-eq store null (node b q d m) h k e = cc
same_pointer-eq store (node a p d n) null h k e = cc
same_pointer-eq store (node a p d n) (node b q c m) (h, _) (k, _) e =
    let f : a ≡ b = ground arith in
    some_injective (node a p d n) (node b q c m) (sym h ∙ (ap (get_elem? store) f ∙ k))

-- The vector and the next address that a store accounts for.
pub record IsStore (store : List Process) (new : NewForms) : Type 0 where
  pub size : new.next ≡ length store
  pub stored : All (λ f. Stored store f.process) new.forms

-- A vector that has grown, with the nodes that were added.
pub record Grown (store : List Process) (before after : NewForms) : Type 0 where
  pub more : List Process
  pub is_store : IsStore (store ++ more) after
  pub keeps : (w : Form) → Has before.forms w → Has after.forms w

pub Grown-self : (store : List Process) (new : NewForms) → IsStore store new → Grown store new new
Grown-self store new s = record {
  more = [];
  is_store = subst (λ xs. IsStore xs new) (sym (append-nil store)) s;
  keeps = λ w h. h;
}

pub Grown-trans :
    (store : List Process) (a b c : NewForms) (g : Grown store a b)
    → Grown (store ++ g.more) b c
    → Grown store a c
Grown-trans store a b c g h = record {
  more = g.more ++ h.more;
  is_store = subst (λ xs. IsStore xs c) (append_assoc store g.more h.more) h.is_store;
  keeps = λ w x. h.keeps w (g.keeps w x);
}

-- What the rule gives for the form: the text, the tag and the path, whatever the address.
pub record Realises (f : Form) (r : Rule) (w : Form) : Type 0 where
  pub text : w.text ≡ stem_of f.text r ++ r.dec_end
  pub last_tag : w.last_tag ≡ r.dec_tag
  pub details : details_of w.process ≡ r.detail ∷ details_of f.process

abbrev pub HasRealised : Form → Rule → List Form → Type 0
HasRealised f r ws = (w : Form) × Has ws w × Realises f r w

same_step-details :
    (store : List Process) (p parent : Process) (r : Rule)
    → Stored store p
    → Stored store parent
    → same_step p r parent ≡ true
    → details_of p ≡ r.detail ∷ details_of parent
unfolding details_of Stored
same_step-details store null parent r h k e = cc
same_step-details store (node a p d n) parent r (_, h) k e =
    let f : d ≡ r.detail = text_eq_eq d r.detail (ground arith) in
    let g : p ≡ parent = same_pointer-eq store p parent h k (ground arith) in
    ap (λ x. x ∷ details_of p) f ∙ ap (λ q. r.detail ∷ details_of q) g

is_discovered-Realises :
    (store : List Process) (f w : Form) (r : Rule)
    → Stored store f.process
    → Stored store w.process
    → is_discovered (stem_of f.text r) r f.process w ≡ true
    → Realises f r w
unfolding is_discovered
is_discovered-Realises store f w r h k e =
    let stem = stem_of f.text r in
    let a : take (length stem) w.text ≡ stem = text_eq_eq _ _ (ground arith) in
    let b : drop (length stem) w.text ≡ r.dec_end = text_eq_eq _ _ (ground arith) in
    record {
      text =
          sym (take-append-drop (length stem) w.text)
          ∙ (ap (λ t. t ++ drop (length stem) w.text) a ∙ ap (λ t. stem ++ t) b);
      last_tag = text_eq_eq w.last_tag r.dec_tag (ground arith);
      details = same_step-details store w.process f.process r k h (ground arith);
    }

pub discovered-HasRealised :
    (store : List Process) (f : Form) (r : Rule) (ws : List Form)
    → Stored store f.process
    → All (λ w. Stored store w.process) ws
    → discovered_forms_contain ws (stem_of f.text r) r f.process ≡ true
    → HasRealised f r ws
unfolding discovered_forms_contain
discovered-HasRealised store f r [] h k e = cc
discovered-HasRealised store f r (w ∷ ws) h (k, ks) e =
    elim (Bool-cases (is_discovered (stem_of f.text r) r f.process w)) [
      | inl d ↦ (w, inl refl, is_discovered-Realises store f w r h k d)
      | inr d ↦
          (let (v, g, x) = discovered-HasRealised store f r ws h ks (ground arith) in (v, inr g, x))
    ]
