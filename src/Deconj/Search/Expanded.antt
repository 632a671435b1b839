-- ===== src/Deconj/Search/Expanded.antt =====
-- The rules that the search of src/deconj/deconjugator.cpp applies to a form, by the virtual rules
-- of its rule set.
use marupop.Prelude.{
  ℕ, suc, ◌≡◌, refl, sym, ap, ◌∙◌, subst, ◌⊎◌, inl, inr, Bool, true, not, ◌&&◌, Option, none, some,
  List, [], ◌∷◌, ◌++◌, if_true, if_false, Bool-cases, Has, All, All-append, arith,
}
use marupop.Prelude.Text.{text_eq, text_eq_eq}
use marupop.Deconj.Rules.{Rule, RuleBucket, RuleSet, back, bucket_for_last_char}
use marupop.Deconj.Rules.Buckets.{select, IsBucket, IsIndexed, ends_in, is_free}
use marupop.Deconj.Process.{is_null}
use marupop.Deconj.Search.{
  Form, NewForms, applies, discovered_forms_contain, stem_of, produced, apply_rule, apply_rules,
  rules_for, apply_bucket, apply_last, expand_form,
}

-- A virtual rule that may consume the form: any for the seed, else one of its tag.
pub record Allows (rules : RuleSet) (form : Form) (r : Rule) : Type 0 where
  pub virtual : Has rules.virtual_rules r
  pub tag : (is_null form.process ≡ true) ⊎ (r.con_tag ≡ form.last_tag)

pub select-Has :
    (test : Rule → Bool) (rs : List Rule) (r : Rule)
    → Has (select test rs) r
    → Has rs r × (test r ≡ true)
unfolding select
select-Has test [] r h = elim h [ ]
select-Has test (q ∷ qs) r h = elim (Bool-cases (test q)) [
  | inl t ↦ elim (subst (λ (l : List Rule). Has l r) (if_true (select test qs) t) h) [
    | inl e ↦ (inl e, ap test (sym e) ∙ t)
    | inr g ↦ (let (a, b) = select-Has test qs r g in (inr a, b))
  ]
  | inr f ↦
      (let (a, b) =
          select-Has test qs r
            (subst (λ (l : List Rule). Has l r) (if_false (q ∷ select test qs) f) h) in
        (inr a, b))
]

rules_for-Allows :
    (rules : RuleSet) (form : Form) (test : Rule → Bool) (b : RuleBucket) (r : Rule)
    → IsBucket test rules.virtual_rules b
    → Has (rules_for form b) r
    → Allows rules form r
rules_for-Allows rules form test b r i h = elim (Bool-cases (is_null form.process)) [
  | inl t ↦
      (let g : Has b.all_rules r =
          subst (λ (l : List Rule). Has l r) (if_true (b.rules_by_con_tag form.last_tag) t) h in
        let (a, _) =
          select-Has test rules.virtual_rules r (subst (λ (l : List Rule). Has l r) i.all g) in
        record { virtual = a; tag = inl t })
  | inr f ↦
      (let g : Has (b.rules_by_con_tag form.last_tag) r =
          subst (λ (l : List Rule). Has l r) (if_false b.all_rules f) h in
        let (a, e) =
          select-Has (λ r. test r && text_eq r.con_tag form.last_tag) rules.virtual_rules r
            (subst (λ (l : List Rule). Has l r) (i.tagged form.last_tag) g) in
        record { virtual = a; tag = inr (text_eq_eq r.con_tag form.last_tag (ground arith)) })
]

module _ (rules : RuleSet) (form : Form) (P : Form → Type 0)
    (step : (r : Rule)
      → Allows rules form r
      → applies form r ≡ true
      → (address : ℕ) → P (produced address form r)) where
  apply_rule-All :
      (r : Rule) (new : NewForms)
      → Allows rules form r
      → All P new.forms
      → All P (apply_rule form r new).forms
  unfolding apply_rule
  apply_rule-All r new a h =
      let added : NewForms = record {
        forms = new.forms ++ produced new.next form r ∷ [];
        next = suc new.next;
      } in
      let test =
        applies form r
        && not (discovered_forms_contain new.forms (stem_of form.text r) r form.process) in
      elim (Bool-cases test) [
        | inl t ↦
            subst (λ (n : NewForms). All P n.forms) (sym (if_true {x = added} new t))
              (All-append P new.forms (produced new.next form r ∷ []) h
                (step r a (ground arith) new.next, tt))
        | inr f ↦ subst (λ (n : NewForms). All P n.forms) (sym (if_false added {y = new} f)) h
      ]

  apply_rules-All :
      (rs : List Rule) (new : NewForms)
      → ((r : Rule) → Has rs r → Allows rules form r)
      → All P new.forms
      → All P (apply_rules form rs new).forms
  unfolding apply_rules
  apply_rules-All [] new a h = h
  apply_rules-All (r ∷ rs) new a h =
      apply_rules-All rs (apply_rule form r new) (λ q g. a q (inr g))
        (apply_rule-All r new (a r (inl refl)) h)

  apply_bucket-All :
      (test : Rule → Bool) (b : RuleBucket) (new : NewForms)
      → IsBucket test rules.virtual_rules b
      → All P new.forms
      → All P (apply_bucket form b new).forms
  unfolding apply_bucket
  apply_bucket-All test b new i h =
      apply_rules-All (rules_for form b) new (λ r g. rules_for-Allows rules form test b r i g) h

  apply_last-All :
      (o : Option ℕ) (new : NewForms)
      → IsIndexed rules
      → All P new.forms
      → All P (apply_last o rules form new).forms
  unfolding bucket_for_last_char
  apply_last-All none new i h = h
  apply_last-All (some c) new i h =
      apply_bucket-All (ends_in c) (rules.by_last_con_end_char c) new (i.by_last c) h

  -- A predicate that every allowed rule gives the form it produces holds of the forms that a form
  -- adds.
  pub expand_form-All :
      (new : NewForms)
      → IsIndexed rules
      → All P new.forms
      → All P (expand_form rules form new).forms
  unfolding expand_form
  expand_form-All new i h =
      apply_bucket-All is_free rules.empty_con_end (apply_last (back form.text) rules form new)
        i.free (apply_last-All (back form.text) new i h)
