-- ===== src/Deconj/Search/Optimal.antt =====
-- The result of the search of src/deconj/deconjugator.cpp against the derivations by its rules.
use marupop.Prelude.{
  ℕ, zero, suc, ◌≤◌, ◌<◌, ◌≡◌, refl, sym, ap, ◌∙◌, subst, ◌⊎◌, inl, inr, true, none, some, List, [],
  ◌∷◌, ◌++◌, Has, All, All-Has, All-append, Option-cases,
}
use marupop.Prelude.Text.{Text}
use marupop.Deconj.Rules.{RuleSet}
use marupop.Deconj.Rules.Buckets.{IsIndexed}
use marupop.Deconj.Process.{Process, null, node, is_null, proper_step_count}
use marupop.Deconj.Search.{Form, NewForms, is_terminal_word_class, expand_form, seed_form}
use marupop.Deconj.Search.Removal.{steps_of}
use marupop.Deconj.Search.Fewest.{IsTerminal, IsKeptOf}
use marupop.Deconj.Search.Visits.{visits, append_visits, expand_all, no_forms}
use marupop.Deconj.Search.Derivation.{
  details_of, count_steps, Permits, Derives, start, step, IsDerived, produced-IsDerived,
}
use marupop.Deconj.Search.Expanded.{Allows, expand_form-All}
use marupop.Deconj.Search.Store.{Stored}
use marupop.Deconj.Search.Complete.{IsClosed}
use marupop.Deconj.Search.Permitted.{Permits-applies, stem_of-append}

module _ (rules : RuleSet) (text : Text) (indexed : IsIndexed rules) where
  expand_all-IsDerived :
      (fs : List Form) (new : NewForms)
      → All (IsDerived rules text) fs
      → All (IsDerived rules text) new.forms
      → All (IsDerived rules text) (expand_all rules fs new).forms
  unfolding expand_all
  expand_all-IsDerived [] new h k = k
  expand_all-IsDerived (f ∷ fs) new (h, hs) k =
      expand_all-IsDerived fs (expand_form rules f new) hs (
        expand_form-All rules f (IsDerived rules text)
          (λ r a e address. produced-IsDerived rules text f r h a e address) new indexed k)

  pub visits-IsDerived :
      (n : ℕ) (fs : List Form) (next : ℕ) (vs : List Form)
      → All (IsDerived rules text) fs
      → visits n rules fs next ≡ some vs
      → All (IsDerived rules text) vs
  unfolding visits
  visits-IsDerived n [] next vs h e =
      let y : [] ≡ vs = cc in subst (All (IsDerived rules text)) y tt
  visits-IsDerived zero (g ∷ gs) next vs h e = cc
  visits-IsDerived (suc n) (g ∷ gs) next vs h e =
      let fs = g ∷ gs in
      let new = expand_all rules fs (no_forms next) in
      elim (Option-cases (visits n rules new.forms new.next)) [
        | inl d ↦
            (let x : append_visits fs none ≡ some vs = ap (append_visits fs) (sym d) ∙ e in cc)
        | inr (us, d) ↦
            (let x : append_visits fs (some us) ≡ some vs = ap (append_visits fs) (sym d) ∙ e in
              let y : fs ++ us ≡ vs = cc in
              subst (All (IsDerived rules text)) y (
                All-append (IsDerived rules text) fs us h (
                  visits-IsDerived n new.forms new.next us
                    (expand_all-IsDerived fs (no_forms next) h tt) d)))
      ]

-- A derivation ends on a form that is visited, where the visited forms are closed.
pub derives-visited :
    (rules : RuleSet) (text : Text) (vs : List Form)
    → Has vs (seed_form text)
    → All (IsDerived rules text) vs
    → IsClosed rules vs vs
    → {t tag : Text} {details : List Text} → Derives rules.virtual_rules text t tag details
    → (v : Form) × Has vs v × (v.text ≡ t) × (v.last_tag ≡ tag) × (details_of v.process ≡ details)
unfolding seed_form details_of
derives-visited rules text vs h d c start = (seed_form text, h, refl, refl, refl)
derives-visited rules text vs h d c
      (step {tag = tag} {details = details} stem r x virtual first permits full few) =
    let (v, g, e, t, s) = derives-visited rules text vs h d c x in
    let i = All-Has (IsDerived rules text) vs v d g in
    let n : proper_step_count v.process < 8 =
      subst (λ n. n < 8) (sym (i.steps ∙ ap count_steps s)) few in
    let p : Permits r.rule_type v.text v.last_tag r.con_end =
      subst (λ t. Permits r.rule_type t v.last_tag r.con_end) (sym e)
        (subst (λ t. Permits r.rule_type (stem ++ r.con_end) t r.con_end) (sym t) permits) in
    let a : Allows rules v r = record {
      virtual = virtual;
      tag = tag_or_seed v.process (ap (λ ds. ds) s) first (sym t);
    } in
    let (w, k, z) = c v g r a (Permits-applies v r stem e p full n) in
    (
      w,
      k,
      z.text ∙ ap (λ q. q ++ r.dec_end) (stem_of-append v.text stem r e),
      z.last_tag,
      z.details ∙ ap (λ ds. r.detail ∷ ds) s,
    )
  where
    tag_or_seed :
        (p : Process) {ds : List Text} {con_tag tag last_tag : Text}
        → details_of p ≡ ds
        → (ds ≡ []) ⊎ (con_tag ≡ tag)
        → tag ≡ last_tag
        → (is_null p ≡ true) ⊎ (con_tag ≡ last_tag)
    tag_or_seed null e f t = inl refl
    tag_or_seed (node a p d n) e (inl f) t = let x : d ∷ details_of p ≡ [] = e ∙ f in cc
    tag_or_seed (node a p d n) e (inr f) t = inr (f ∙ t)

-- What the search promises: derived forms of a terminal word class in the fewest steps, one for
-- each text and terminal class that some derivation reaches.
pub record Solves (rules : RuleSet) (text : Text) (ps : List Form) : Type 0 where
  pub derived : (q : Form) → Has ps q → IsDerived rules text q × IsTerminal q
  pub fewest :
      (q : Form) (details : List Text)
      → Has ps q
      → Derives rules.virtual_rules text q.text q.last_tag details
      → steps_of q ≤ count_steps details
  pub complete :
      (t tag : Text) (details : List Text)
      → Derives rules.virtual_rules text t tag details
      → is_terminal_word_class tag ≡ true
      → (q : Form) × Has ps q × (q.text ≡ t) × (q.last_tag ≡ tag)

pub seed-IsDerived : (rules : RuleSet) (text : Text) → IsDerived rules text (seed_form text)
unfolding seed_form details_of count_steps proper_step_count
seed-IsDerived rules text = record { derives = start; steps = refl; original_text = refl }

pub seed-Stored : (text : Text) → Stored [] (seed_form text).process
unfolding seed_form Stored
seed-Stored text = tt

pub kept-Solves :
    (rules : RuleSet) (text : Text) (vs ps : List Form)
    → IsKeptOf vs ps
    → Has vs (seed_form text)
    → All (IsDerived rules text) vs
    → IsClosed rules vs vs
    → Solves rules text ps
kept-Solves rules text vs ps k h d c = record {
  derived = λ q g. let (a, t, _) = k.sound q g in (All-Has (IsDerived rules text) vs q d a, t);
  fewest = λ q details g x.
      let (_, _, m) = k.sound q g in
      let (v, a, e, t, s) = derives-visited rules text vs h d c x in
      let i = All-Has (IsDerived rules text) vs v d a in
      subst (λ n. steps_of q ≤ n) (i.steps ∙ ap count_steps s)
        (m v a (record { text = e; last_tag = t }));
  complete = λ t tag details x terminal.
      let (v, a, e, f, s) = derives-visited rules text vs h d c x in
      let (q, g, l, _) = k.covers v a (ap is_terminal_word_class f ∙ terminal) in
      (q, g, l.text ∙ e, l.last_tag ∙ f);
}
