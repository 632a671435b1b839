-- ===== src/Lookup/Ranking.antt =====
-- src/lookup/ranking.cpp: the order of results, with the shapes of src/lookup/lookuptypes.h and the
-- two getters of src/lookup/query.cpp that it reads. An int and a double compare as in C++.
pub mod Compare
pub mod Orders
pub mod Weak
pub mod Cycle
mod Tests
use marupop.Prelude.{
  suc, ℕ, ◌-◌, ◌*◌, ◌^◌, ◌%◌, Bool, true, false, not, ◌&&◌, ◌||◌, Option, none, some, List, [], ◌∷◌,
  map, ltb, leb, ◌==◌, length, get_elem?, drop, if◌then◌else◌,
}
use marupop.Prelude.Int.{ℤ, pos, negsuc, ◌-ℤ◌, ltb_ℤ}
use marupop.Prelude.Text.{Text, text_eq, contains, codes, join}
use marupop.Dict.Records.{Double, SenseTags, JmdictRecord, RecordData, Record, DictType}
use marupop.Dict.Records.Queries.{as_jmdict, as_jmnedict, as_yomitan_term}

pub record FrequencyHit : Type 0 where
  pub dictionary_name : Text
  pub rank : ℤ
  pub higher_is_better : Bool

-- The fields of a DictionaryHandle that are values; its id, options and store are left out.
pub record DictionaryHandle : Type 0 where
  pub dict_type : DictType
  pub name : Text
  pub priority : ℤ
  pub max_key_length : ℤ

pub record Result : Type 0 where
  pub primary_spelling : Text
  pub readings : List Text
  pub alternative_spellings : List Text
  pub matched_text : Text
  pub deconjugated_matched_text : Text
  pub deconjugation_paths : List Text
  pub min_proper_step_count : ℤ
  pub matched_by_variant : Bool
  pub frequencies : List FrequencyHit
  pub priority_rank : ℤ
  pub pitch_positions : List (Option ℕ)
  pub dict_record : Option Record
  pub kanji_record : Option Record
  pub kanji_examples : List Text
  pub kanji_components : List Text
  pub dictionary : DictionaryHandle

-- A comparison below, at or above zero.
pub data Order : Type 0 where
  before same after : Order

-- The next criterion, where the first does not decide.
infixr 4 ◌<+>◌
abbrev pub ◌<+>◌ : Order → Order → Order
before <+> o = before
after <+> o = after
same <+> o = o

-- INT_MAX.
abbrev pub absent_score : ℤ
absent_score = pos 2147483647

unfoldable pub compare_int : ℤ → ℤ → Order
compare_int left right =
    if ltb_ℤ left right then before else if ltb_ℤ right left then after else same

-- The larger size first.
unfoldable pub larger_first : ℕ → ℕ → Order
larger_first left right = if ltb right left then before else if ltb left right then after else same

-- The one of two results that has what the other has not.
abbrev pub holder_first : Bool → Bool → Order
holder_first true true = same
holder_first true false = before
holder_first false true = after
holder_first false false = same

abbrev pub any : {A : Type 0} → (A → Bool) → List A → Bool
any test [] = false
any test (x ∷ xs) = test x || any test xs

abbrev pub contains_any : List Text → List Text → Bool
contains_any values wanted = any (contains wanted) values

abbrev pub found_record : Option Record → Option JmdictRecord
found_record none = none
found_record (some r) = as_jmdict r

unfoldable pub jmdict_record : Result → Option JmdictRecord
jmdict_record result = found_record result.dict_record

unfoldable pub matched_primary_spelling : Result → Bool
matched_primary_spelling result = text_eq result.primary_spelling result.matched_text

-- The index of a text, where -1 is `none`.
abbrev pub shift : Option ℕ → Option ℕ
shift none = none
shift (some i) = some (suc i)

abbrev pub index_of : List Text → Text → Option ℕ
index_of [] text = none
index_of (t ∷ ts) text = if text_eq t text then some 0 else shift (index_of ts text)

unfoldable pub reading_index_of_matched_text : Result → Option ℕ
reading_index_of_matched_text result = index_of result.readings result.matched_text

abbrev pub is_found : Option ℕ → Bool
is_found none = false
is_found (some i) = true

-- A rank of a list, and a count mirrored. The difference is exact; for a negative rank, which no
-- frequency dictionary has, the source's would leave the range of an int.
unfoldable pub normalized_frequency_score : FrequencyHit → ℤ
normalized_frequency_score hit =
    if not hit.higher_is_better
    then hit.rank
    else if not (ltb_ℤ hit.rank absent_score) && not (ltb_ℤ absent_score hit.rank)
    then absent_score
    else absent_score -ℤ hit.rank

abbrev pub orthography_of : Option JmdictRecord → Bool → ℤ
orthography_of none matched = absent_score
orthography_of (some r) false = absent_score
orthography_of (some r) true =
    if contains_any r.primary_spelling_orthography_info (codes "oK" ∷ codes "iK" ∷ codes "rK" ∷ [])
    then pos 1
    else pos 0

unfoldable pub primary_spelling_orthography_score : Result → ℤ
primary_spelling_orthography_score result =
    orthography_of (jmdict_record result) (matched_primary_spelling result)

abbrev pub is_rare : Option (List Text) → Bool
is_rare none = false
is_rare (some info) = contains_any info (codes "ok" ∷ codes "ik" ∷ codes "rk" ∷ [])

abbrev pub is_kana : SenseTags → Bool
is_kana misc =
    let uk = codes "uk" ∷ [] in
    contains_any misc.shared_by_all_senses uk
    || any (λ senses. contains_any senses uk) misc.per_sense

abbrev pub reading_orthography_of : Option JmdictRecord → Option ℕ → ℤ
reading_orthography_of none index = absent_score
reading_orthography_of (some r) none = absent_score
reading_orthography_of (some r) (some index) =
    if is_rare (get_elem? r.readings_orthography_info index)
    then pos 2
    else if is_kana r.misc
    then pos 0
    else pos 1

unfoldable pub reading_orthography_score : Result → ℤ
reading_orthography_score result =
    reading_orthography_of (jmdict_record result) (reading_index_of_matched_text result)

abbrev pub frequency_of : List FrequencyHit → ℤ → ℤ
frequency_of [] rank = if ltb_ℤ (pos 0) rank then rank else absent_score
frequency_of (hit ∷ hits) rank = normalized_frequency_score hit

unfoldable pub frequency_score : Result → ℤ
frequency_score result = frequency_of result.frequencies result.priority_rank

-- The parts joined as senses, and those joined by U+FF1B.
abbrev pub senses_text : List (List Text) → Text
senses_text senses = join (codes "；") (map (join (codes "; ")) senses)

abbrev pub definitions_of : RecordData → Text
definitions_of (RecordData.jmdict r) = senses_text r.definitions
definitions_of (RecordData.jmnedict r) = senses_text r.definitions
definitions_of (RecordData.yomitan_term r) = join (codes "\n") r.definitions_plain
definitions_of (RecordData.yomitan_kanji r) = join (codes "; ") r.definitions
definitions_of (RecordData.kanjidic r) = join (codes "; ") r.definitions
definitions_of (RecordData.custom_word r) = join (codes "; ") r.definitions
definitions_of (RecordData.custom_name r) = r.extra_info
definitions_of (RecordData.pitch_accent r) = []
definitions_of (RecordData.frequency r) = []
definitions_of (RecordData.kanji_examples r) = []
definitions_of (RecordData.kanji_components r) = []

abbrev pub text_of_record : Option Record → Text
text_of_record none = []
text_of_record (some r) = definitions_of r.payload

unfoldable pub definition_text : Result → Text
definition_text result = text_of_record result.dict_record

abbrev pub entry_id_of_data : RecordData → ℤ
entry_id_of_data (RecordData.jmdict r) = r.entry_id
entry_id_of_data (RecordData.jmnedict r) = r.entry_id
entry_id_of_data _ = pos 0

unfoldable pub entry_id_of : Option Record → ℤ
entry_id_of none = pos 0
entry_id_of (some r) = entry_id_of_data r.payload

-- numeric_limits<double>::lowest().
abbrev pub lowest : Double
lowest = 2 ^ 64 - 1 - 2 ^ 52

abbrev pub popularity_of_data : RecordData → Double
popularity_of_data (RecordData.yomitan_term r) = r.popularity_score
popularity_of_data _ = lowest

unfoldable pub popularity_score_of : Option Record → Double
popularity_score_of none = lowest
popularity_score_of (some r) = popularity_of_data r.payload
