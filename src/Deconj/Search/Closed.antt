-- ===== src/Deconj/Search/Closed.antt =====
-- What a form adds to a generation of src/deconj/deconjugator.cpp: a form for each rule that applies.
use marupop.Prelude.{
  get_elem?, ℕ, suc, ◌≡◌, refl, sym, ap, ◌∙◌, subst, inl, inr, Bool, true, not, ◌&&◌, some, List,
  [], ◌∷◌, ◌++◌, length-append, if_true, if_false, Bool-cases, Has, Has-append_left,
  Has-append_right, All, All-append, arith,
}
use marupop.Prelude.Text.{text_eq, text_eq_self}
use marupop.Deconj.Rules.{Rule, RuleBucket, RuleSet}
use marupop.Deconj.Rules.Buckets.{select, IsBucket}
use marupop.Deconj.Process.{Process, node, is_null}
use marupop.Deconj.Search.{
  Form, NewForms, applies, discovered_forms_contain, stem_of, steps_after, produced, apply_rule,
  apply_rules, rules_for,
}
use marupop.Deconj.Search.Derivation.{details_of}
use marupop.Deconj.Search.Expanded.{Allows}
use marupop.Deconj.Search.Store.{
  Stored, Stored-append, get_elem?-last, IsStore, Grown, Grown-self, Grown-trans, Realises,
  HasRealised, discovered-HasRealised,
}

produced-Realises : (a : ℕ) (f : Form) (r : Rule) → Realises f r (produced a f r)
unfolding produced details_of
produced-Realises a f r = record { text = refl; last_tag = refl; details = refl }

abbrev pub added : Form → Rule → NewForms → NewForms
added f r new = record { forms = new.forms ++ produced new.next f r ∷ []; next = suc new.next }

All-Stored-append :
    (store more : List Process) (ws : List Form)
    → All (λ w. Stored store w.process) ws
    → All (λ w. Stored (store ++ more) w.process) ws
All-Stored-append store more [] h = tt
All-Stored-append store more (w ∷ ws) (h, hs) =
    (Stored-append store more w.process h, All-Stored-append store more ws hs)

added-Grown :
    (store : List Process) (f : Form) (r : Rule) (new : NewForms)
    → Stored store f.process
    → IsStore store new
    → Grown store new (added f r new)
unfolding produced Stored
added-Grown store f r new h s =
    let n : Process = node new.next f.process r.detail (steps_after f.process r.detail) in
    record {
      more = n ∷ [];
      is_store = record {
        size = (let l = length-append store (n ∷ []) in let m = s.size in omega arith);
        stored =
            All-append (λ w. Stored (store ++ n ∷ []) w.process) new.forms
              (produced new.next f r ∷ []) (All-Stored-append store (n ∷ []) new.forms s.stored)
              (
                (
                  subst (λ i. get_elem? (store ++ n ∷ []) i ≡ some n) (sym s.size)
                      (get_elem?-last store n),
                  Stored-append store (n ∷ []) f.process h,
                ),
                tt,
              );
      };
      keeps = λ w g. Has-append_left new.forms (produced new.next f r ∷ []) w g;
    }

apply_rule-Grown :
    (store : List Process) (f : Form) (r : Rule) (new : NewForms)
    → Stored store f.process
    → IsStore store new
    → Grown store new (apply_rule f r new)
      × (applies f r ≡ true → HasRealised f r (apply_rule f r new).forms)
unfolding apply_rule
apply_rule-Grown store f r new h s =
    let known = discovered_forms_contain new.forms (stem_of f.text r) r f.process in
    let test = applies f r && not known in
    let Goal : NewForms → Type 0 =
      λ after. Grown store new after × (applies f r ≡ true → HasRealised f r after.forms) in
    elim (Bool-cases test) [
      | inl t ↦ subst Goal (sym (if_true {x = added f r new} new t)) (
        added-Grown store f r new h s,
        λ e. (
          produced new.next f r,
          Has-append_right new.forms (produced new.next f r ∷ []) (produced new.next f r)
              (inl refl),
          produced-Realises new.next f r,
        ),
      )
      | inr t ↦ subst Goal (sym (if_false (added f r new) {y = new} t)) (
        Grown-self store new s,
        λ e. discovered-HasRealised store f r new.forms h s.stored (ground arith),
      )
    ]

pub HasRealised-keeps :
    (store : List Process) (f : Form) (r : Rule) (before after : NewForms)
    → Grown store before after
    → HasRealised f r before.forms
    → HasRealised f r after.forms
HasRealised-keeps store f r before after g (w, h, x) = (w, g.keeps w h, x)

-- A vector that has grown and has a form for each of the rules that applies.
pub record Completed (f : Form) (rs : List Rule) (store : List Process) (before after : NewForms)
    : Type 0 where
  pub grown : Grown store before after
  pub realised : (r : Rule) → Has rs r → applies f r ≡ true → HasRealised f r after.forms

pub apply_rules-Completed :
    (rs : List Rule) (store : List Process) (f : Form) (new : NewForms)
    → Stored store f.process
    → IsStore store new
    → Completed f rs store new (apply_rules f rs new)
unfolding apply_rules
apply_rules-Completed [] store f new h s = record {
  grown = Grown-self store new s;
  realised = λ r h. elim h [ ];
}
apply_rules-Completed (r ∷ rs) store f new h s =
    let (g, x) = apply_rule-Grown store f r new h s in
    let mid = apply_rule f r new in
    let c =
      apply_rules-Completed rs (store ++ g.more) f mid (Stored-append store g.more f.process h)
        g.is_store in
    record {
      grown = Grown-trans store new mid (apply_rules f rs mid) g c.grown;
      realised = λ q k. elim k [
        | inl e ↦ λ t.
            subst (λ q. HasRealised f q (apply_rules f rs mid).forms) e
              (HasRealised-keeps (store ++ g.more) f r mid (apply_rules f rs mid) c.grown
                (x (ap (applies f) e ∙ t)))
        | inr k ↦ c.realised q k
      ];
    }

Has-select :
    (test : Rule → Bool) (rs : List Rule) (r : Rule)
    → Has rs r
    → test r ≡ true
    → Has (select test rs) r
unfolding select
Has-select test [] r h t = elim h [ ]
Has-select test (q ∷ qs) r (inl e) t =
    subst (λ (l : List Rule). Has l r) (sym (if_true (select test qs) (ap test e ∙ t))) (inl e)
Has-select test (q ∷ qs) r (inr h) t = elim (Bool-cases (test q)) [
  | inl d ↦
      subst (λ (l : List Rule). Has l r) (sym (if_true (select test qs) d))
        (inr (Has-select test qs r h t))
  | inr d ↦
      subst (λ (l : List Rule). Has l r) (sym (if_false (q ∷ select test qs) d))
        (Has-select test qs r h t)
]

-- A rule that the form may be consumed by is among those of its bucket.
pub Allows-rules_for :
    (rules : RuleSet) (f : Form) (test : Rule → Bool) (b : RuleBucket) (r : Rule)
    → IsBucket test rules.virtual_rules b
    → Allows rules f r
    → test r ≡ true
    → Has (rules_for f b) r
Allows-rules_for rules f test b r i a t = elim (Bool-cases (is_null f.process)) [
  | inl e ↦
      subst (λ (l : List Rule). Has l r) (sym (if_true (b.rules_by_con_tag f.last_tag) e ∙ i.all))
        (Has-select test rules.virtual_rules r a.virtual t)
  | inr e ↦ elim a.tag [
    | inl d ↦ cc
    | inr d ↦
        (let g : text_eq r.con_tag f.last_tag ≡ true =
            ap (text_eq r.con_tag) (sym d) ∙ text_eq_self r.con_tag in
          subst (λ (l : List Rule). Has l r) (sym (if_false b.all_rules e ∙ i.tagged f.last_tag))
            (Has-select (λ r. test r && text_eq r.con_tag f.last_tag) rules.virtual_rules r
              a.virtual (ground arith)))
  ]
]
