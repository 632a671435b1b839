-- ===== src/Deconj/Rules/Tests.antt =====
-- Runs of the loader of src/deconj/deconjugator.cpp.
use marupop.Prelude.{ℕ, ◌≡◌, refl, Option, none, some, List, [], ◌∷◌}
use marupop.Prelude.Text.{Text, codes}
use marupop.Deconj.Rules.{
  read_raw_rules, read_raw_rule, read_type, rule_type_from_string, read_detail, read_string_array,
  strings, expand, expand_from, add_virtual_rule, add_at, virtual_rule, new_rule_set, Key, dec_end,
  con_end, dec_tag, con_tag, Field, string, array, Element, rule_object, no_object, json_array,
  RuleSet, Loaded, ok, refused, end_lengths, not_an_object, unknown_type, load_from_json,
}
use marupop.Deconj.Rules.Buckets.{LoadsIndexed, load_from_json-LoadsIndexed}

abbrev one : Text → Field
one text = array (some text ∷ [])

abbrev field_of : Key → Field
field_of dec_end = array (some (codes "る") ∷ some (codes "") ∷ [])
field_of con_end = array (some (codes "た") ∷ some (codes "た") ∷ [])
field_of dec_tag = one (codes "v1")
field_of con_tag = one (codes "stem-past")

abbrev uneven : Key → Field
uneven dec_end = one (codes "る")
uneven con_end = field_of con_end
uneven dec_tag = field_of dec_tag
uneven con_tag = field_of con_tag

abbrev past : (Key → Field) → Text → Element
past value type =
    rule_object (record { rule_type = string type; detail = string (codes "past"); value = value })

abbrev reason : Loaded RuleSet → Option Text
reason (ok set) = none
reason (refused (not_an_object i)) = some (codes "object")
reason (refused (unknown_type i type)) = some type
reason (refused (end_lengths i m n)) = some (m ∷ n ∷ [])
reason (refused e) = some []

abbrev sizes : Loaded RuleSet → List ℕ
sizes (ok set) = set.rule_count ∷ set.longest_con_end ∷ []
sizes (refused e) = []

load_two : sizes (load_from_json (json_array (past field_of (codes "stdrule") ∷ []))) ≡ 1 ∷ 1 ∷ []
unfolding load_from_json read_raw_rules read_raw_rule read_type rule_type_from_string read_detail
    read_string_array strings expand expand_from add_virtual_rule add_at virtual_rule new_rule_set
load_two = refl

load_uneven :
    reason (load_from_json (json_array (past uneven (codes "stdrule") ∷ []))) ≡ some (1 ∷ 2 ∷ [])
unfolding load_from_json read_raw_rules read_raw_rule read_type rule_type_from_string read_detail
    read_string_array strings
load_uneven = refl

load_no_object :
    reason (load_from_json (json_array (past field_of (codes "stdrule") ∷ no_object ∷ [])))
    ≡ some (codes "object")
unfolding load_from_json read_raw_rules read_raw_rule read_type rule_type_from_string read_detail
    read_string_array strings
load_no_object = refl

load_from_json-LoadsIndexed_example :
    LoadsIndexed (load_from_json (json_array (past field_of (codes "stdrule") ∷ [])))
load_from_json-LoadsIndexed_example =
    load_from_json-LoadsIndexed (json_array (past field_of (codes "stdrule") ∷ []))
