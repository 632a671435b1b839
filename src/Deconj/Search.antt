-- ===== src/Deconj/Search.antt =====
-- The search of src/deconj/deconjugator.cpp. `none` is the model's own, for a search that does not end.
pub mod Removal
pub mod Accept
pub mod Fewest
pub mod Visits
pub mod Expanded
pub mod Derivation
pub mod Store
pub mod Closed
pub mod Complete
pub mod Permitted
pub mod Optimal
pub mod Result
pub mod Ends
mod Tests
use marupop.Prelude.{
  ℕ, zero, suc, ◌+◌, ◌-◌, Bool, true, false, not, ◌&&◌, ◌||◌, Option, none, some, List, [], ◌∷◌,
  ◌++◌, ltb, leb, ◌==◌, length, get_elem?, set, take, drop, min, if◌then◌else◌,
}
use marupop.Prelude.Text.{Text, text_eq, contains, codes}
use marupop.Deconj.Rules.{
  RuleType, standard, rewrite, only_final, never_final, Rule, RuleBucket, RuleSet, back,
  bucket_for_last_char,
}
use marupop.Deconj.Process.{
  Process, null, node, same_pointer, proper_step_count, starts_with, is_null,
}

pub record Form : Type 0 where
  pub text : Text
  pub original_text : Text
  pub last_tag : Text
  pub process : Process

-- A vector that is filled, with the address that the next node will have.
pub record NewForms : Type 0 where
  pub forms : List Form
  pub next : ℕ

abbrev pub max_proper_steps : ℕ
max_proper_steps = 8

abbrev pub terminal_word_classes : List Text
terminal_word_classes =
    codes "adj-i"
    ∷ codes "adj-ix"
    ∷ codes "cop"
    ∷ codes "v1"
    ∷ codes "v1-s"
    ∷ codes "v4r"
    ∷ codes "v5aru"
    ∷ codes "v5b"
    ∷ codes "v5g"
    ∷ codes "v5k"
    ∷ codes "v5k-s"
    ∷ codes "v5m"
    ∷ codes "v5n"
    ∷ codes "v5r"
    ∷ codes "v5r-i"
    ∷ codes "v5s"
    ∷ codes "v5t"
    ∷ codes "v5u"
    ∷ codes "v5u-s"
    ∷ codes "vk"
    ∷ codes "vs-c"
    ∷ codes "vs-i"
    ∷ codes "vs-s"
    ∷ codes "vz"
    ∷ []

-- The array is sorted, so a binary search is the test for membership.
unfoldable pub is_terminal_word_class : Text → Bool
is_terminal_word_class tag = contains terminal_word_classes tag

abbrev pub is_empty : Text → Bool
is_empty [] = true
is_empty (c ∷ cs) = false

-- The test on the process in discoveredFormsContain().
abbrev pub same_step : Process → Rule → Process → Bool
same_step null rule parent = false
same_step (node a p detail n) rule parent =
    (n == proper_step_count parent) && (text_eq detail rule.detail && same_pointer p parent)

unfoldable pub is_discovered : Text → Rule → Process → Form → Bool
is_discovered stem rule parent form =
    (text_eq form.last_tag rule.dec_tag && (length form.text == length stem + length rule.dec_end))
    && ((text_eq (take (length stem) form.text) stem
          && text_eq (drop (length stem) form.text) rule.dec_end)
        && same_step form.process rule parent)

unfoldable pub discovered_forms_contain : List Form → Text → Rule → Process → Bool
discovered_forms_contain [] stem rule parent = false
discovered_forms_contain (form ∷ forms) stem rule parent =
    is_discovered stem rule parent form || discovered_forms_contain forms stem rule parent

-- Where the guard of the rule's type turns the form away.
unfoldable pub is_guarded : RuleType → Form → Text → Bool
is_guarded only_final form con_end = not (is_empty form.last_tag)
is_guarded rewrite form con_end = not (text_eq form.text con_end)
is_guarded never_final form con_end = is_empty form.last_tag
is_guarded standard form con_end = false

-- The last `count` code units.
abbrev pub last : ℕ → Text → Text
last count text = drop (length text - count) text

abbrev pub is_proper_step : Text → Bool
is_proper_step detail = not (is_empty detail) && not (starts_with 40 detail)

unfoldable pub steps_after : Process → Text → ℕ
steps_after null detail = 1
steps_after (node a p d n) detail = n + (if is_proper_step detail then 1 else 0)

abbrev pub stem_of : Text → Rule → Text
stem_of text rule = take (length text - length rule.con_end) text

-- The conditions of applyRule() but the last, which looks at the forms found so far.
unfoldable pub applies : Form → Rule → Bool
applies form rule =
    not (is_guarded rule.rule_type form rule.con_end)
    && (not ((length form.text == length rule.con_end) && is_empty rule.dec_end)
        && (not (ltb (max_proper_steps - 1) (proper_step_count form.process))
            && (leb (length rule.con_end) (length form.text)
                && text_eq (last (length rule.con_end) form.text) rule.con_end)))

unfoldable pub produced : ℕ → Form → Rule → Form
produced address form rule = record {
  text = stem_of form.text rule ++ rule.dec_end;
  original_text = form.original_text;
  last_tag = rule.dec_tag;
  process = node address form.process rule.detail (steps_after form.process rule.detail);
}

unfoldable pub apply_rule : Form → Rule → NewForms → NewForms
apply_rule form rule new =
    if applies form rule
      && not (discovered_forms_contain new.forms (stem_of form.text rule) rule form.process)
    then record { forms = new.forms ++ produced new.next form rule ∷ []; next = suc new.next }
    else new

unfoldable pub apply_rules : Form → List Rule → NewForms → NewForms
apply_rules form [] new = new
apply_rules form (rule ∷ rules) new = apply_rules form rules (apply_rule form rule new)

abbrev pub rules_for : Form → RuleBucket → List Rule
rules_for form bucket =
    if is_null form.process then bucket.all_rules else bucket.rules_by_con_tag form.last_tag

unfoldable pub apply_bucket : Form → RuleBucket → NewForms → NewForms
apply_bucket form bucket new = apply_rules form (rules_for form bucket) new

abbrev pub apply_last : Option ℕ → RuleSet → Form → NewForms → NewForms
apply_last none rules form new = new
apply_last (some c) rules form new = apply_bucket form (bucket_for_last_char c rules) new

-- What the loop does with a form before the test for a terminal class.
unfoldable pub expand_form : RuleSet → Form → NewForms → NewForms
expand_form rules form new =
    apply_bucket form rules.empty_con_end (apply_last (back form.text) rules form new)

abbrev pub same_lemma : Form → Form → Bool
same_lemma p form = text_eq p.text form.text && text_eq p.last_tag form.last_tag

-- `pop_back()`, after the last element has been moved to `i`.
unfoldable pub pop_back : {A : Type 0} → List A → List A
pop_back xs = take (length xs - 1) xs

abbrev pub move_last : {A : Type 0} → ℕ → Option A → List A → List A
move_last i none xs = xs
move_last i (some x) xs = set xs i x

unfoldable pub remove_at : {A : Type 0} → ℕ → List A → List A
remove_at i xs = pop_back (move_last i (get_elem? xs (length xs - 1)) xs)

-- What the scan does at an entry: it goes past it, it stops, or it removes it.
pub data Verdict : Type 0 where
  passes stops removes : Verdict

unfoldable pub verdict : Form → Option Form → Verdict
verdict form none = passes
verdict form (some p) =
    let existing = proper_step_count p.process in
    let steps = proper_step_count form.process in
    if not (same_lemma p form)
    then passes
    else if ltb existing steps
    then stops
    else if ltb steps existing
    then removes
    else passes

-- The scan from entry `i - 1` down: whether the form is added, and the entries that are left.
unfoldable pub scan : ℕ → Form → List Form → Bool × List Form
unfolding verdict
scan zero form processed = (true, processed)
scan (suc i) form processed = elim (verdict form (get_elem? processed i)) [
  | passes ↦ scan i form processed
  | stops ↦ (false, processed)
  | removes ↦ scan i form (remove_at i processed)
]

abbrev pub add_if : Bool × List Form → Form → List Form
add_if (true, processed) form = processed ++ form ∷ []
add_if (false, processed) form = processed

unfoldable pub accept : List Form → Form → List Form
accept processed form =
    if is_terminal_word_class form.last_tag
    then add_if (scan (length processed) form processed) form
    else processed

-- The variables of the search that outlive a generation.
pub record Found : Type 0 where
  pub processed : List Form
  pub shortest : ℕ

-- The loop over one generation.
unfoldable pub generation : RuleSet → List Form → Found → NewForms → Found × NewForms
generation rules [] found new = (found, new)
generation rules (form ∷ forms) found new =
    generation rules forms
      (record {
        processed = accept found.processed form;
        shortest = min found.shortest (length form.text);
      })
      (expand_form rules form new)

unfoldable pub search_loop : ℕ → RuleSet → List Form → Found → ℕ → Option Found
search_loop fuel rules [] found next = some found
search_loop zero rules (form ∷ forms) found next = none
search_loop (suc fuel) rules (form ∷ forms) found next =
    let (found', new) =
      generation rules (form ∷ forms) found (record { forms = []; next = next }) in
    search_loop fuel rules new.forms found' new.next

unfoldable pub seed_form : Text → Form
seed_form text = record { text = text; original_text = text; last_tag = []; process = null }

-- The forms, and the code units that no rule read; on fuel, one round for each generation.
unfoldable pub deconjugate : ℕ → RuleSet → Text → Option (List Form × ℕ)
deconjugate fuel rules text =
    elim (search_loop fuel rules (seed_form text ∷ [])
      (record { processed = []; shortest = length text }) 0) [
        | none ↦ none
        | some found ↦ some (found.processed, found.shortest - rules.longest_con_end)
      ]
