-- ===== src/Deconj/Search/Ends.antt =====
-- The end of the search of src/deconj/deconjugator.cpp, by a rank on the tags of the rules that add
-- no proper step.
use marupop.Prelude.{
  ℕ, zero, suc, ◌+◌, ◌-◌, ◌*◌, ◌≤◌, ◌<◌, ◌≡◌, refl, ap, ◌∙◌, subst, ◌⊎◌, inl, inr, Bool, true,
  false, some, List, [], ◌∷◌, ◌++◌, if◌then◌else◌, All, All-Has, arith,
}
use native.Mathlib.Nat.{mul-suc}
use marupop.Prelude.Text.{Text}
use marupop.Deconj.Rules.{Rule, RuleSet}
use marupop.Deconj.Rules.Buckets.{IsIndexed}
use marupop.Deconj.Process.{Process, null, node, is_null, proper_step_count}
use marupop.Deconj.Search.{
  Form, NewForms, is_proper_step, steps_after, applies, produced, expand_form, seed_form,
}
use marupop.Deconj.Search.Visits.{visits, append_visits, expand_all, no_forms}
use marupop.Deconj.Search.Expanded.{Allows, expand_form-All}

-- A rule whose detail is empty or starts with a parenthesis leads to a tag of a lower rank.
pub record Descends (rank : Text → ℕ) (bound : ℕ) (r : Rule) : Type 0 where
  pub bounded : rank r.dec_tag ≤ bound
  pub falls : is_proper_step r.detail ≡ false → rank r.dec_tag < rank r.con_tag

-- The generations that are left to a form.
abbrev pub weight : (Text → ℕ) → ℕ → Process → Text → ℕ
weight rank bound null tag = suc bound * 8
weight rank bound (node a p d n) tag = suc bound * (8 - n) + rank tag

less_by_one : (n m : ℕ) → n < 8 → m * (8 - n) ≡ m * (8 - (n + 1)) + m
less_by_one n m h =
    ap (λ k. m * k) {x = 8 - n} {y = suc (8 - (n + 1))} (omega arith) ∙ mul-suc m (8 - (n + 1))

weight-next :
    (rank : Text → ℕ) (bound n : ℕ) (proper : Bool) (tag dec_tag : Text)
    → n < 8
    → rank dec_tag ≤ bound
    → (proper ≡ false → rank dec_tag < rank tag)
    → suc bound * (8 - (n + (if proper then 1 else 0))) + rank dec_tag
      < suc bound * (8 - n) + rank tag
weight-next rank bound n true tag dec_tag h b f = omega (arith, less_by_one n (suc bound) h)
weight-next rank bound n false tag dec_tag h b f =
    let d = f refl in
    subst (λ k. suc bound * (8 - k) + rank dec_tag < suc bound * (8 - n) + rank tag) {x = n}
      (omega arith) (omega arith)

weight-step :
    (rank : Text → ℕ) (bound a : ℕ) (p : Process) (tag : Text) (r : Rule)
    → Descends rank bound r
    → (is_null p ≡ true) ⊎ (r.con_tag ≡ tag)
    → proper_step_count p < 8
    → weight rank bound (node a p r.detail (steps_after p r.detail)) r.dec_tag
      < weight rank bound p tag
unfolding steps_after proper_step_count
weight-step rank bound a null tag r d t h =
    let b = d.bounded in omega (arith, weight-next rank bound 0 true tag r.dec_tag)
weight-step rank bound a (node b p e n) tag r d (inl t) h = cc
weight-step rank bound a (node b p e n) tag r d (inr t) h =
    weight-next rank bound n (is_proper_step r.detail) tag r.dec_tag h d.bounded
      (λ f. subst (λ u. rank r.dec_tag < rank u) t (d.falls f))

applies-count : (f : Form) (r : Rule) → applies f r ≡ true → proper_step_count f.process < 8
unfolding applies
applies-count f r h = ground arith

module _ (rank : Text → ℕ) (bound : ℕ) (rules : RuleSet)
    (descends : All (Descends rank bound) rules.virtual_rules) (indexed : IsIndexed rules) where
  abbrev Within : ℕ → Form → Type 0
  Within n f = weight rank bound f.process f.last_tag < n

  produced-Within :
      (n : ℕ) (f : Form) (r : Rule)
      → Within (suc n) f
      → Allows rules f r
      → applies f r ≡ true
      → (address : ℕ) → Within n (produced address f r)
  unfolding produced
  produced-Within n f r w a h address =
      let d = All-Has (Descends rank bound) rules.virtual_rules r descends a.virtual in
      let s = weight-step rank bound address f.process f.last_tag r d a.tag (applies-count f r h) in
      omega arith

  expand_all-Within :
      (n : ℕ) (fs : List Form) (new : NewForms)
      → All (Within (suc n)) fs
      → All (Within n) new.forms
      → All (Within n) (expand_all rules fs new).forms
  unfolding expand_all
  expand_all-Within n [] new w h = h
  expand_all-Within n (f ∷ fs) new (w, ws) h = expand_all-Within n fs (expand_form rules f new) ws (
      expand_form-All rules f (Within n) (λ r a e address. produced-Within n f r w a e address) new
        indexed h)

  visits-ends :
      (n : ℕ) (fs : List Form) (next : ℕ)
      → All (Within n) fs
      → (vs : List Form) × (visits n rules fs next ≡ some vs)
  unfolding visits
  visits-ends n [] next w = ([], refl)
  visits-ends zero (f ∷ fs) next (w, ws) = absurd (omega arith)
  visits-ends (suc n) (f ∷ fs) next w =
      let new = expand_all rules (f ∷ fs) (no_forms next) in
      let (vs, e) =
        visits-ends n new.forms new.next (expand_all-Within n (f ∷ fs) (no_forms next) w tt) in
      ((f ∷ fs) ++ vs, ap (append_visits (f ∷ fs)) e)

  pub visits-end :
      (text : Text)
      → (vs : List Form) × (visits (suc bound * 8 + 1) rules (seed_form text ∷ []) 0 ≡ some vs)
  unfolding seed_form
  visits-end text = visits-ends (suc bound * 8 + 1) (seed_form text ∷ []) 0 (omega arith, tt)
