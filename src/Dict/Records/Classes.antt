-- ===== src/Dict/Records/Classes.antt =====
-- wordClasses() of src/dict/records.cpp against the tags of the senses.
use marupop.Prelude.{
  ℕ, zero, suc, ◌≡◌, ◌↔◌, ◌⊎◌, refl, sym, ap, ◌∙◌, subst, true, false, ◌||◌, Option, none, some,
  List, [], ◌∷◌, ◌++◌, get_elem?, if◌then◌else◌, if_true, if_false, Bool-cases, inl, inr, arith,
}
use marupop.Prelude.Int.{pos}
use marupop.Prelude.Text.{text_eq, contains, text_eq_sym, text_eq_eq}
use marupop.Dict.Records.{Text, JmdictRecord, RecordData}
use marupop.Dict.Records.Queries.{with_extras, for_sense, add_classes, add_senses, word_classes}

contains-append :
    (xs ys : List Text) (t : Text) → contains (xs ++ ys) t ≡ (contains xs t || contains ys t)
contains-append [] ys t = refl
contains-append (x ∷ xs) ys t = ground (arith, contains-append xs ys t)

-- A class that is contained already adds nothing.
absorbed :
    (classes : List Text) (c t : Text)
    → contains classes c ≡ true
    → contains classes t ≡ (contains classes t || text_eq c t)
absorbed classes c t h = elim (Bool-cases (text_eq c t)) [
  | inl e ↦
      let same : contains classes t ≡ true =
        subst (λ u. contains classes u ≡ true) (text_eq_eq c t e) h in
      ground arith
  | inr e ↦ ground arith
]

-- Adding a class changes what is contained by that class alone.
contains-add :
    (classes : List Text) (c t : Text)
    → contains (if contains classes c then classes else classes ++ c ∷ []) t
      ≡ (contains classes t || text_eq c t)
contains-add classes c t = elim (Bool-cases (contains classes c)) [
  | inl e ↦ ap (λ l. contains l t) (if_true _ e) ∙ absorbed classes c t e
  | inr e ↦
      ap (λ l. contains l t) (if_false _ e) ∙ contains-append classes (c ∷ []) t ∙ ground arith
]

contains-add_classes :
    (classes cs : List Text) (t : Text)
    → contains (add_classes classes cs) t ≡ (contains classes t || contains cs t)
unfolding add_classes
contains-add_classes classes [] t = ground arith
contains-add_classes classes (c ∷ cs) t = ground (
  arith,
  contains-add_classes (if contains classes c then classes else classes ++ c ∷ []) cs t,
  contains-add classes c t,
)

-- No text stands twice.
abbrev pub Distinct : List Text → Type 0
Distinct [] = Unit
Distinct (t ∷ ts) = (contains ts t ≡ false) × Distinct ts

Distinct-append :
    (ts : List Text) (t : Text) → Distinct ts → contains ts t ≡ false → Distinct (ts ++ t ∷ [])
Distinct-append [] t h k = (refl, tt)
Distinct-append (u ∷ us) t (h, hs) k =
    let fresh : contains (us ++ t ∷ []) u ≡ false =
      ground (arith, contains-append us (t ∷ []) u, text_eq_sym t u) in
    (fresh, Distinct-append us t hs (ground arith))

Distinct-add_classes :
    (classes cs : List Text) → Distinct classes → Distinct (add_classes classes cs)
unfolding add_classes
Distinct-add_classes classes [] h = h
Distinct-add_classes classes (c ∷ cs) h =
    Distinct-add_classes (if contains classes c then classes else classes ++ c ∷ []) cs
      (elim (Bool-cases (contains classes c)) [
        | inl e ↦ subst Distinct (sym (if_true _ e)) h
        | inr e ↦ subst Distinct (sym (if_false _ e)) (Distinct-append classes c h e)
      ])

Distinct-add_senses :
    (classes : List Text) (senses : List (List Text))
    → Distinct classes
    → Distinct (add_senses classes senses)
unfolding add_senses
Distinct-add_senses classes [] h = h
Distinct-add_senses classes (s ∷ ss) h =
    Distinct-add_senses (add_classes classes s) ss (Distinct-add_classes classes s h)

-- Where the classes that all senses share are distinct, so are the word classes of a JMdict record.
pub word_classes-Distinct :
    (d : JmdictRecord)
    → Distinct d.word_classes.shared_by_all_senses
    → Distinct (word_classes (RecordData.jmdict d))
unfolding word_classes
word_classes-Distinct d h =
    Distinct-add_senses d.word_classes.shared_by_all_senses d.word_classes.per_sense h

-- A sense that holds the text.
abbrev InSense : List (List Text) → Text → Type 0
InSense senses t = (i : ℕ) × (s : List Text) × (get_elem? senses i ≡ some s) × (contains s t ≡ true)

from_senses :
    (classes : List Text) (senses : List (List Text)) (t : Text)
    → contains (add_senses classes senses) t ≡ true
    → (contains classes t ≡ true) ⊎ InSense senses t
unfolding add_senses
from_senses classes [] t h = inl h
from_senses classes (s ∷ ss) t h = elim (from_senses (add_classes classes s) ss t h) [
  | inl e ↦ elim (Bool-cases (contains s t)) [
    | inl f ↦ inr (0, s, refl, f)
    | inr f ↦ inl (ground (arith, contains-add_classes classes s t))
  ]
  | inr (i, u, e, f) ↦ inr (suc i, u, e, f)
]

to_senses_shared :
    (classes : List Text) (senses : List (List Text)) (t : Text)
    → contains classes t ≡ true
    → contains (add_senses classes senses) t ≡ true
unfolding add_senses
to_senses_shared classes [] t h = h
to_senses_shared classes (s ∷ ss) t h =
    to_senses_shared (add_classes classes s) ss t (ground (arith, contains-add_classes classes s t))

to_senses :
    (classes : List Text) (senses : List (List Text)) (t : Text) (i : ℕ) (u : List Text)
    → get_elem? senses i ≡ some u
    → contains u t ≡ true
    → contains (add_senses classes senses) t ≡ true
unfolding add_senses
to_senses classes [] t i u e h = cc
to_senses classes (s ∷ ss) t zero u e h =
    let same : s ≡ u = cc in
    let in_sense : contains s t ≡ true = subst (λ v. contains v t ≡ true) (sym same) h in
    to_senses_shared (add_classes classes s) ss t (ground (arith, contains-add_classes classes s t))
to_senses classes (s ∷ ss) t (suc i) u e h = to_senses (add_classes classes s) ss t i u e h

contains-with_extras :
    (tags : List Text) (extras : Option (List Text)) (t : Text)
    → contains (with_extras tags extras) t ≡ true
    → (contains tags t ≡ true) ⊎ ((s : List Text) × (extras ≡ some s) × (contains s t ≡ true))
contains-with_extras tags none t h = inl h
contains-with_extras tags (some s) t h = elim (Bool-cases (contains s t)) [
  | inl f ↦ inr (s, refl, f)
  | inr f ↦ inl (ground (arith, contains-append tags s t))
]

shared-with_extras :
    (tags : List Text) (extras : Option (List Text)) (t : Text)
    → contains tags t ≡ true
    → contains (with_extras tags extras) t ≡ true
shared-with_extras tags none t h = h
shared-with_extras tags (some s) t h = ground (arith, contains-append tags s t)

-- A text is a word class of a JMdict record exactly when it is a tag of one of the senses, as
-- forSense() gives them; without tags of its own sense 0 has those that all senses share.
pub word_classes-for_sense :
    (d : JmdictRecord) (t : Text)
    → (contains (word_classes (RecordData.jmdict d)) t ≡ true)
      ↔ ((i : ℕ) × (contains (for_sense (pos i) d.word_classes) t ≡ true))
unfolding word_classes for_sense
word_classes-for_sense d t =
    let shared = d.word_classes.shared_by_all_senses in
    let senses = d.word_classes.per_sense in
    (
      λ h. elim (from_senses shared senses t h) [
        | inl e ↦ (0, shared-with_extras shared (get_elem? senses 0) t e)
        | inr (i, s, e, f) ↦ (
          i,
          subst (λ o. contains (with_extras shared o) t ≡ true) (sym e)
              (ground (arith, contains-append shared s t)),
        )
      ],
      λ (i, h). elim (contains-with_extras shared (get_elem? senses i) t h) [
        | inl e ↦ to_senses_shared shared senses t e
        | inr (s, e, f) ↦ to_senses shared senses t i s e f
      ],
    )
