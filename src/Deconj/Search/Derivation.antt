-- ===== src/Deconj/Search/Derivation.antt =====
-- Derivations by the virtual rules, as a relation, and the forms that the search of
-- src/deconj/deconjugator.cpp visits.
use marupop.Prelude.{
  ℕ, ◌+◌, ◌-◌, ◌≤◌, ◌<◌, ◌≡◌, ◌≢◌, refl, sym, ap, ◌∙◌, subst, ◌⊎◌, inl, inr, true, false, List, [],
  ◌∷◌, ◌++◌, ◌==◌, length, drop, take-append-drop, length-take, if◌then◌else◌, Has, arith,
}
use marupop.Prelude.Text.{Text, text_eq_eq}
use marupop.Deconj.Rules.{RuleType, standard, rewrite, only_final, never_final, Rule, RuleSet}
use marupop.Deconj.Process.{Process, null, node, is_null, proper_step_count}
use marupop.Deconj.Search.{
  Form, is_empty, is_guarded, is_proper_step, steps_after, stem_of, applies, produced,
}
use marupop.Deconj.Search.Expanded.{Allows}

-- The details of a path, from the leaf to the root, and the proper steps among them, of which the
-- first step is one in any case.
unfoldable pub details_of : Process → List Text
details_of null = []
details_of (node a parent detail n) = detail ∷ details_of parent

unfoldable pub count_steps : List Text → ℕ
count_steps [] = 0
count_steps (d ∷ []) = 1
count_steps (d ∷ e ∷ es) = count_steps (e ∷ es) + (if is_proper_step d then 1 else 0)

-- What the type of a rule asks of the text and the tag that it consumes.
abbrev pub Permits : RuleType → Text → Text → Text → Type 0
Permits standard text tag con_end = Unit
Permits rewrite text tag con_end = text ≡ con_end
Permits only_final text tag con_end = tag ≡ []
Permits never_final text tag con_end = tag ≢ []

-- What some of the rules make of a text, with the tag and the details of the steps: a step takes a
-- suffix away and writes another, follows the tag after the first step, leaves no empty text, and is
-- the ninth proper step nowhere.
pub data Derives (rules : List Rule) (text : Text) : Text → Text → List Text → Type 0 where
  start : Derives rules text text [] []
  step :
      {tag : Text} {details : List Text} (stem : Text) (r : Rule)
      → Derives rules text (stem ++ r.con_end) tag details
      → Has rules r
      → (details ≡ []) ⊎ (r.con_tag ≡ tag)
      → Permits r.rule_type (stem ++ r.con_end) tag r.con_end
      → stem ++ r.dec_end ≢ []
      → count_steps details < 8
      → Derives rules text (stem ++ r.dec_end) r.dec_tag (r.detail ∷ details)

is_empty-eq : (t : Text) → is_empty t ≡ true → t ≡ []
is_empty-eq [] e = refl
is_empty-eq (c ∷ cs) e = cc

-- The guard by type, read.
guard-Permits :
    (type : RuleType) (f : Form) (con_end : Text)
    → is_guarded type f con_end ≡ false
    → Permits type f.text f.last_tag con_end
unfolding is_guarded
guard-Permits standard f con_end e = tt
guard-Permits rewrite f con_end e = text_eq_eq f.text con_end (ground arith)
guard-Permits only_final f con_end e = is_empty-eq f.last_tag (ground arith)
guard-Permits never_final f con_end e =
    λ h. let g : is_empty f.last_tag ≡ true = ap is_empty h in cc

-- The conditions of a rule that applies.
pub record Applied (f : Form) (r : Rule) : Type 0 where
  pub stem : f.text ≡ stem_of f.text r ++ r.con_end
  pub permits : Permits r.rule_type f.text f.last_tag r.con_end
  pub not_empty : stem_of f.text r ++ r.dec_end ≢ []
  pub steps : proper_step_count f.process < 8

append_empty : (s t : Text) → s ++ t ≡ [] → (length s ≡ 0) × (is_empty t ≡ true)
append_empty [] t e = (refl, ap is_empty e)
append_empty (c ∷ s) t e = cc

pub applies-Applied : (f : Form) (r : Rule) → applies f r ≡ true → Applied f r
unfolding applies
applies-Applied f r h =
    let suffix : drop (length f.text - length r.con_end) f.text ≡ r.con_end =
      text_eq_eq _ _ (ground arith) in
    let le : length r.con_end ≤ length f.text = ground arith in
    record {
      stem =
          sym (take-append-drop (length f.text - length r.con_end) f.text)
          ∙ ap (λ t. stem_of f.text r ++ t) suffix;
      permits = guard-Permits r.rule_type f r.con_end (ground arith);
      not_empty = λ e.
          let (a, b) = append_empty (stem_of f.text r) r.dec_end e in
          let c = length-take (length f.text - length r.con_end) f.text in
          let d : length f.text ≡ length r.con_end = omega arith in
          let k : (length f.text == length r.con_end) ≡ true = ground arith in ground arith;
      steps = ground arith;
    }

-- Step counts as the details tell them.
pub record IsDerived (rules : RuleSet) (text : Text) (f : Form) : Type 0 where
  pub derives : Derives rules.virtual_rules text f.text f.last_tag (details_of f.process)
  pub steps : proper_step_count f.process ≡ count_steps (details_of f.process)
  pub original_text : f.original_text ≡ text

steps_after-count :
    (p : Process) (detail : Text)
    → proper_step_count p ≡ count_steps (details_of p)
    → steps_after p detail ≡ count_steps (detail ∷ details_of p)
unfolding steps_after proper_step_count count_steps details_of
steps_after-count null detail e = refl
steps_after-count (node a p d n) detail e = ap (λ k. k + (if is_proper_step detail then 1 else 0)) e

first_or_tag :
    (p : Process) {con_tag tag : Text}
    → (is_null p ≡ true) ⊎ (con_tag ≡ tag)
    → (details_of p ≡ []) ⊎ (con_tag ≡ tag)
unfolding details_of
first_or_tag null h = inl refl
first_or_tag (node a p d n) (inl e) = cc
first_or_tag (node a p d n) (inr e) = inr e

pub produced-IsDerived :
    (rules : RuleSet) (text : Text) (f : Form) (r : Rule)
    → IsDerived rules text f
    → Allows rules f r
    → applies f r ≡ true
    → (address : ℕ) → IsDerived rules text (produced address f r)
unfolding produced details_of proper_step_count
produced-IsDerived rules text f r d a h address =
    let x = applies-Applied f r h in
    record {
      derives =
          step (stem_of f.text r) r
            (subst (λ t. Derives rules.virtual_rules text t f.last_tag (details_of f.process))
              x.stem d.derives)
            a.virtual (first_or_tag f.process a.tag)
            (subst (λ t. Permits r.rule_type t f.last_tag r.con_end) x.stem x.permits) x.not_empty
            (subst (λ n. n < 8) d.steps x.steps);
      steps = steps_after-count f.process r.detail d.steps;
      original_text = d.original_text;
    }
