-- ===== src/Deconj/Search/Tests.antt =====
-- Runs of the search of src/deconj/deconjugator.cpp on three rules.
use marupop.Deconj.Search.Fewest.{keep_all, keep_all-IsKeptOf, IsKeptOf}
use marupop.Prelude.{
  if◌then◌else◌, ℕ, ◌≡◌, refl, inl, inr, Option, none, some, List, [], ◌∷◌, ◌++◌, map, All, take,
  arith,
}
use marupop.Prelude.Text.{Text, codes, text_eq}
use marupop.Deconj.Rules.{
  bucket_for_last_char, add_to_bucket, standard, RawRule, RuleSet, new_rule_set, expand,
  expand_from, add_virtual_rule, add_at, virtual_rule,
}
use marupop.Deconj.Rules.Buckets.{IsIndexed, expand-IsIndexed, new_rule_set-IsIndexed}
use marupop.Deconj.Process.{proper_step_count, null, node}
use marupop.Deconj.Search.{
  search_loop, generation, expand_form, apply_bucket, apply_rules, apply_rule, applies, is_guarded,
  produced, steps_after, discovered_forms_contain, is_discovered, accept, scan, verdict, remove_at,
  pop_back, is_terminal_word_class, seed_form, Form, deconjugate,
}
use marupop.Deconj.Search.Removal.{steps_of}
use marupop.Deconj.Search.Ends.{Descends}
use marupop.Deconj.Search.Derivation.{count_steps, Derives, start, step}
use marupop.Deconj.Search.Optimal.{Solves}
use marupop.Deconj.Search.Result.{generations_for, deconjugate-Solves, deconjugate-untouched}

-- The past, the stem that it leaves, and a request.
abbrev third : RawRule
third = record {
  rule_type = standard;
  dec_ends = codes "べる" ∷ [];
  con_ends = codes "べた" ∷ [];
  dec_tags = codes "v1" ∷ [];
  con_tags = codes "stem-past" ∷ [];
  detail = codes "past";
}

abbrev raws : List RawRule
raws =
    record {
      rule_type = standard;
      dec_ends = codes "" ∷ [];
      con_ends = codes "た" ∷ [];
      dec_tags = codes "stem" ∷ [];
      con_tags = codes "stem-past" ∷ [];
      detail = codes "past";
    }
    ∷ record {
      rule_type = standard;
      dec_ends = codes "る" ∷ [];
      con_ends = codes "" ∷ [];
      dec_tags = codes "v1" ∷ [];
      con_tags = codes "stem" ∷ [];
      detail = codes "(stem)";
    }
    ∷ third
    ∷ []

abbrev few_rules : RuleSet
few_rules = expand raws (record new_rule_set { rule_count = 3 })

abbrev rank : Text → ℕ
rank tag = if text_eq tag (codes "stem") then 1 else 0

few_rules-IsIndexed : IsIndexed few_rules
few_rules-IsIndexed = expand-IsIndexed raws _ (new_rule_set-IsIndexed 3)

few_rules-Descends : All (Descends rank 1) few_rules.virtual_rules
unfolding expand expand_from add_virtual_rule add_at virtual_rule new_rule_set
few_rules-Descends = (
  record { bounded = omega arith; falls = λ e. cc },
  (
    record { bounded = omega arith; falls = λ e. omega arith },
    (record { bounded = omega arith; falls = λ e. cc }, tt),
  ),
)

-- The texts, the classes and the steps, and the untouched prefix.
abbrev shown : Option (List Form × ℕ) → List (Text × Text × ℕ)
shown none = []
shown (some (ps, n)) = map (λ (f : Form). (f.text, f.last_tag, steps_of f)) ps ++ ([], [], n) ∷ []

eat :
    shown (deconjugate (generations_for 1) few_rules (codes "食べた"))
    ≡ (codes "食べる", codes "v1", 1)
      ∷ (codes "食べたる", codes "v1", 1)
      ∷ (codes "食べる", codes "v1", 1)
      ∷ ([], [], 0)
      ∷ []
unfolding deconjugate search_loop generation expand_form apply_bucket apply_rules apply_rule applies
    is_guarded produced steps_after discovered_forms_contain is_discovered accept scan verdict
    remove_at pop_back is_terminal_word_class seed_form proper_step_count expand expand_from
    add_virtual_rule add_at add_to_bucket virtual_rule new_rule_set bucket_for_last_char
eat = refl

deconjugate-Solves_example :
    (ps : List Form) × (n : ℕ) × (deconjugate (generations_for 1) few_rules (codes "食べた")
      ≡ some (ps, n))
    × Solves few_rules (codes "食べた") ps
deconjugate-Solves_example =
    deconjugate-Solves rank 1 few_rules few_rules-Descends few_rules-IsIndexed (codes "食べた")

past_derived :
    Derives few_rules.virtual_rules (codes "私は食べた") (codes "私は食べる") (codes "v1") (codes "past" ∷ [])
unfolding expand expand_from add_virtual_rule add_at virtual_rule new_rule_set count_steps
past_derived =
    step (codes "私は食") (virtual_rule third 0) start (inr (inr (inl refl))) (inl refl) tt (λ e. cc)
      (omega arith)

deconjugate-untouched_example :
    (ps : List Form) × (n : ℕ) × (deconjugate (generations_for 1) few_rules (codes "私は食べた")
      ≡ some (ps, n))
    × (take n (codes "私は食べる") ≡ take n (codes "私は食べた"))
deconjugate-untouched_example =
    deconjugate-untouched rank 1 few_rules few_rules-Descends few_rules-IsIndexed (codes "私は食べた")
      (codes "私は食べる") (codes "v1") (codes "past" ∷ []) past_derived

abbrev walked : Text → ℕ → Form
walked text steps = record {
  text = text;
  original_text = codes "食べた";
  last_tag = codes "v1";
  process = node 0 null (codes "past") steps;
}

keep_all-IsKeptOf_example :
    IsKeptOf
      (walked (codes "食べる") 2 ∷ walked (codes "食う") 1 ∷ walked (codes "食べる") 1 ∷ [])
      (keep_all [] (walked (codes "食べる") 2 ∷ walked (codes "食う") 1 ∷ walked (codes "食べる") 1 ∷ []))
keep_all-IsKeptOf_example =
    keep_all-IsKeptOf (walked (codes "食べる") 2 ∷ walked (codes "食う") 1 ∷ walked (codes "食べる") 1 ∷ [])
