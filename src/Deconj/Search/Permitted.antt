-- ===== src/Deconj/Search/Permitted.antt =====
-- When a rule of src/deconj/deconjugator.cpp applies, by the conditions of a step of a derivation.
use marupop.Prelude.{
  ◌+◌, ◌-◌, ◌<◌, ◌≡◌, ◌≢◌, refl, ap, ◌∙◌, true, false, not, ◌&&◌, [], ◌∷◌, ◌++◌, and_true, ltb, leb,
  ◌==◌, length, length-append, take, drop, take-append, drop-append, arith,
}
use marupop.Prelude.Text.{Text, text_eq, text_eq_self}
use marupop.Deconj.Rules.{RuleType, standard, rewrite, only_final, never_final, Rule}
use marupop.Deconj.Process.{proper_step_count}
use marupop.Deconj.Search.{Form, is_empty, is_guarded, stem_of, applies, last}
use marupop.Deconj.Search.Derivation.{Permits}

Permits-guard :
    (type : RuleType) (f : Form) (con_end : Text)
    → Permits type f.text f.last_tag con_end
    → is_guarded type f con_end ≡ false
unfolding is_guarded
Permits-guard standard f con_end p = refl
Permits-guard rewrite f con_end p =
    let e : text_eq f.text con_end ≡ true = ap (λ t. text_eq t con_end) p ∙ text_eq_self con_end in
    ground arith
Permits-guard only_final f con_end p = ap (λ t. not (is_empty t)) p
Permits-guard never_final f con_end p = tag_is_not_empty f.last_tag p
  where
    tag_is_not_empty : (t : Text) → t ≢ [] → is_empty t ≡ false
    tag_is_not_empty [] h = absurd (h refl)
    tag_is_not_empty (c ∷ cs) h = refl

take-stem :
    (stem con_end : Text)
    → take (length (stem ++ con_end) - length con_end) (stem ++ con_end) ≡ stem
take-stem stem con_end =
    ap (λ n. take n (stem ++ con_end)) {y = length stem}
      (let h = length-append stem con_end in omega arith)
    ∙ take-append stem con_end

last-suffix : (stem con_end : Text) → last (length con_end) (stem ++ con_end) ≡ con_end
last-suffix stem con_end =
    ap (λ n. drop n (stem ++ con_end)) {y = length stem}
      (let h = length-append stem con_end in omega arith)
    ∙ drop-append stem con_end

-- A text that is nothing but the ending, for which nothing is written.
not_emptied :
    (stem con_end dec_end : Text)
    → stem ++ dec_end ≢ []
    → ((length (stem ++ con_end) == length con_end) && is_empty dec_end) ≡ false
not_emptied [] con_end [] h = absurd (h refl)
not_emptied [] con_end (d ∷ ds) h = ground arith
not_emptied (c ∷ stem) con_end dec_end h = let l = length-append stem con_end in ground arith

-- A rule whose conditions hold applies.
pub Permits-applies :
    (f : Form) (r : Rule) (stem : Text)
    → f.text ≡ stem ++ r.con_end
    → Permits r.rule_type f.text f.last_tag r.con_end
    → stem ++ r.dec_end ≢ []
    → proper_step_count f.process < 8
    → applies f r ≡ true
unfolding applies
Permits-applies f r stem e p h n =
    let guard = Permits-guard r.rule_type f r.con_end p in
    let empty : ((length f.text == length r.con_end) && is_empty r.dec_end) ≡ false =
      ap (λ t. (length t == length r.con_end) && is_empty r.dec_end) e
      ∙ not_emptied stem r.con_end r.dec_end h in
    let size : length f.text ≡ length stem + length r.con_end =
      ap length e ∙ length-append stem r.con_end in
    let suffix : text_eq (last (length r.con_end) f.text) r.con_end ≡ true =
      ap (λ t. text_eq (last (length r.con_end) t) r.con_end) e
      ∙ (ap (λ t. text_eq t r.con_end) (last-suffix stem r.con_end) ∙ text_eq_self r.con_end) in
    let unguarded : not (is_guarded r.rule_type f r.con_end) ≡ true = ap not guard in
    let written : not ((length f.text == length r.con_end) && is_empty r.dec_end) ≡ true =
      ap not empty in
    let few : not (ltb 7 (proper_step_count f.process)) ≡ true = ground arith in
    let long : leb (length r.con_end) (length f.text) ≡ true = ground arith in
    and_true unguarded (and_true written (and_true few (and_true long suffix)))

pub stem_of-append : (t stem : Text) (r : Rule) → t ≡ stem ++ r.con_end → stem_of t r ≡ stem
stem_of-append t stem r e = ap (λ t. stem_of t r) e ∙ take-stem stem r.con_end
