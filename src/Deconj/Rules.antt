-- ===== src/Deconj/Rules.antt =====
-- The rule set of src/deconj/deconjugator.h and deconjugator.cpp: its JSON, the virtual rules that a
-- rule object expands to, and their buckets. A view into the arena of strings is the text it shows.
pub mod Buckets
mod Tests
use marupop.Prelude.{
  ℕ, zero, suc, ◌+◌, ◌-◌, Bool, true, false, not, ◌&&◌, ◌||◌, Option, none, some, List, [], ◌∷◌,
  ◌++◌, ltb, ◌==◌, length, get_or, if◌then◌else◌,
}
use marupop.Prelude.Text.{Text, text_eq, codes}

pub data RuleType : Type 0 where
  standard rewrite only_final never_final : RuleType

pub record Rule : Type 0 where
  pub rule_type : RuleType
  pub dec_end : Text
  pub con_end : Text
  pub dec_tag : Text
  pub con_tag : Text
  pub detail : Text

pub record RawRule : Type 0 where
  pub rule_type : RuleType
  pub dec_ends : List Text
  pub con_ends : List Text
  pub dec_tags : List Text
  pub con_tags : List Text
  pub detail : Text

-- The fields of a rule object that are arrays of strings.
pub data Key : Type 0 where
  dec_end con_end dec_tag con_tag : Key

-- What QJsonObject::value() gives: a string, an array with its elements, or any other value. An
-- element of an array is a string or it is not.
pub data Field : Type 0 where
  string : Text → Field
  array : List (Option Text) → Field
  other : Field

-- An element of the document's array: an object by its fields, or no object.
pub record RuleObject : Type 0 where
  pub rule_type : Field
  pub detail : Field
  pub value : Key → Field

pub data Element : Type 0 where
  rule_object : RuleObject → Element
  no_object : Element

-- QJsonDocument::fromJson(): an error, an array or another document.
pub data Document : Type 0 where
  parse_error : Document
  no_array : Document
  json_array : List Element → Document

-- The reasons of errorString, each with the index of its rule.
pub data LoadError : Type 0 where
  bad_json : LoadError
  not_an_array : LoadError
  not_an_object : ℕ → LoadError
  no_type : ℕ → LoadError
  unknown_type : ℕ → Text → LoadError
  no_detail : ℕ → LoadError
  no_string_array : ℕ → Key → LoadError
  non_string : ℕ → Key → LoadError
  end_lengths : ℕ → ℕ → ℕ → LoadError
  tag_length : ℕ → Key → ℕ → ℕ → LoadError

pub data Loaded (A : Type 0) : Type 0 where
  ok : A → Loaded A
  refused : LoadError → Loaded A

infixl 5 ◌>>=◌ ◌>>◌
abbrev pub ◌>>=◌ : {A B : Type 0} → Loaded A → (A → Loaded B) → Loaded B
ok a >>= f = f a
refused e >>= f = refused e

abbrev pub ◌>>◌ : {B : Type 0} → Loaded (Unit {0}) → Loaded B → Loaded B
m >> k = m >>= λ _. k

abbrev pub check : Bool → LoadError → Loaded (Unit {0})
check true e = ok tt
check false e = refused e

unfoldable pub rule_type_from_string : Text → Option RuleType
rule_type_from_string text =
    if text_eq text (codes "stdrule")
    then some standard
    else if text_eq text (codes "onlyfinalrule")
    then some only_final
    else if text_eq text (codes "rewriterule")
    then some rewrite
    else if text_eq text (codes "neverfinalrule")
    then some never_final
    else none

unfoldable pub strings : ℕ → Key → List (Option Text) → Loaded (List Text)
strings index key [] = ok []
strings index key (none ∷ elements) = refused (non_string index key)
strings index key (some text ∷ elements) = do texts ← strings index key elements; ok (text ∷ texts)

unfoldable pub read_string_array : RuleObject → Key → ℕ → Loaded (List Text)
read_string_array object key index = elim (object.value key) [
  | array elements ↦ strings index key elements
  | string text ↦ refused (no_string_array index key)
  | other ↦ refused (no_string_array index key)
]

unfoldable pub read_type : ℕ → Field → Loaded RuleType
read_type index (string text) = elim (rule_type_from_string text) [
  | none ↦ refused (unknown_type index text)
  | some type ↦ ok type
]
read_type index (array elements) = refused (no_type index)
read_type index other = refused (no_type index)

unfoldable pub read_detail : ℕ → Field → Loaded Text
read_detail index (string text) = ok text
read_detail index (array elements) = refused (no_detail index)
read_detail index other = refused (no_detail index)

-- A tag array names one tag, or one for each ending.
abbrev pub is_tag_length : ℕ → ℕ → Bool
is_tag_length tags ends = (tags == 1) || (tags == ends)

unfoldable pub read_raw_rule : ℕ → Element → Loaded RawRule
read_raw_rule index no_object = refused (not_an_object index)
read_raw_rule index (rule_object o) = do
  type ← read_type index o.rule_type
  detail ← read_detail index o.detail
  dec_ends ← read_string_array o dec_end index
  con_ends ← read_string_array o con_end index
  dec_tags ← read_string_array o dec_tag index
  con_tags ← read_string_array o con_tag index
  check (length dec_ends == length con_ends) (end_lengths index (length dec_ends) (length con_ends))
  check (is_tag_length (length dec_tags) (length con_ends))
      (tag_length index dec_tag (length dec_tags) (length con_ends))
  check (is_tag_length (length con_tags) (length con_ends))
      (tag_length index con_tag (length con_tags) (length con_ends))
  ok (record {
    rule_type = type;
    dec_ends = dec_ends;
    con_ends = con_ends;
    dec_tags = dec_tags;
    con_tags = con_tags;
    detail = detail;
  })

unfoldable pub read_raw_rules : ℕ → List Element → Loaded (List RawRule)
read_raw_rules index [] = ok []
read_raw_rules index (element ∷ elements) = do
  rule ← read_raw_rule index element
  rules ← read_raw_rules (index + 1) elements
  ok (rule ∷ rules)

-- The rules of a bucket, and those of one con_tag. A tag without an entry has no rules.
pub record RuleBucket : Type 0 where
  pub all_rules : List Rule
  pub rules_by_con_tag : Text → List Rule

-- A last character without an entry has a bucket without rules.
pub record RuleSet : Type 0 where
  pub virtual_rules : List Rule
  pub by_last_con_end_char : ℕ → RuleBucket
  pub empty_con_end : RuleBucket
  pub rule_count : ℕ
  pub longest_con_end : ℕ

abbrev pub empty_bucket : RuleBucket
empty_bucket = record { all_rules = []; rules_by_con_tag = λ tag. [] }

unfoldable pub new_rule_set : RuleSet
new_rule_set = record {
  virtual_rules = [];
  by_last_con_end_char = λ c. empty_bucket;
  empty_con_end = empty_bucket;
  rule_count = 0;
  longest_con_end = 0;
}

-- The last code unit, where there is one.
abbrev pub back : Text → Option ℕ
back [] = none
back (c ∷ []) = some c
back (c ∷ d ∷ ds) = back (d ∷ ds)

unfoldable pub add_to_bucket : Rule → RuleBucket → RuleBucket
add_to_bucket rule bucket = record {
  all_rules = bucket.all_rules ++ rule ∷ [];
  rules_by_con_tag = λ tag.
      if text_eq rule.con_tag tag
      then bucket.rules_by_con_tag tag ++ rule ∷ []
      else bucket.rules_by_con_tag tag;
}

abbrev pub larger : ℕ → ℕ → ℕ
larger a b = if ltb a b then b else a

unfoldable pub add_at : Option ℕ → Rule → RuleSet → RuleSet
unfolding add_to_bucket
add_at none rule set = record set { empty_con_end = add_to_bucket rule set.empty_con_end }
add_at (some last) rule set = record set {
  by_last_con_end_char = λ c.
      if last == c
      then add_to_bucket rule (set.by_last_con_end_char c)
      else set.by_last_con_end_char c;
}

unfoldable pub add_virtual_rule : Rule → RuleSet → RuleSet
add_virtual_rule rule set = add_at (back rule.con_end) rule (record set {
  virtual_rules = set.virtual_rules ++ rule ∷ [];
  longest_con_end = larger set.longest_con_end (length rule.con_end);
})

-- `tags.at(single ? 0 : i)`.
abbrev pub tag_at : List Text → ℕ → Text
tag_at tags i = get_or tags (if length tags == 1 then 0 else i) []

unfoldable pub virtual_rule : RawRule → ℕ → Rule
virtual_rule rule i = record {
  rule_type = rule.rule_type;
  dec_end = get_or rule.dec_ends i [];
  con_end = get_or rule.con_ends i [];
  dec_tag = tag_at rule.dec_tags i;
  con_tag = tag_at rule.con_tags i;
  detail = rule.detail;
}

-- The loop over the endings from `i` on, with the rounds that are left.
unfoldable pub expand_from : RawRule → ℕ → ℕ → RuleSet → RuleSet
expand_from rule zero i set = set
expand_from rule (suc rounds) i set =
    expand_from rule rounds (i + 1) (add_virtual_rule (virtual_rule rule i) set)

unfoldable pub expand : List RawRule → RuleSet → RuleSet
expand [] set = set
expand (rule ∷ rules) set = expand rules (expand_from rule (length rule.con_ends) 0 set)

unfoldable pub load_from_json : Document → Loaded RuleSet
load_from_json parse_error = refused bad_json
load_from_json no_array = refused not_an_array
load_from_json (json_array es) = do
  rules ← read_raw_rules 0 es
  ok (expand rules (record new_rule_set { rule_count = length rules }))

unfoldable pub bucket_for_last_char : ℕ → RuleSet → RuleBucket
bucket_for_last_char c set = set.by_last_con_end_char c
