-- ===== src/Lookup/Engine.antt =====
-- The last step of Engine::lookupUncached() of src/lookup/engine.cpp: a list of results is cut,
-- decorated as in src/lookup/decorate.cpp, sorted and limited.
pub mod Sorting
pub mod Stable
pub mod Ties
pub mod Cut
mod Tests
use marupop.Prelude.{
  ℕ, zero, suc, ◌-◌, Bool, true, false, not, ◌&&◌, Option, none, some, List, [], ◌∷◌, ◌++◌, map,
  length, get_elem?, take, drop, if◌then◌else◌,
}
use marupop.Prelude.Int.{ℤ, pos, negsuc, pos_part, ltb_ℤ}
use marupop.Prelude.Text.{Text}
use marupop.Dict.Records.{KanjidicRecord, Record, DictType}
use marupop.Dict.Records.Queries.{as_kanjidic}
use marupop.Lookup.Ranking.{FrequencyHit, Result, Order, before, same, after}
use marupop.Lookup.Ranking.Compare.{compare_undecorated, less_than, less_than_undecorated}

-- A frequency dictionary, with what its store answers for a spelling and its readings.
pub record FrequencyDictionary : Type 0 where
  pub name : Text
  pub higher_value_means_higher_frequency : Bool
  pub frequency_for : Text → List Text → Option ℤ

pub record Decorators : Type 0 where
  pub word_frequencies : List FrequencyDictionary
  pub kanji_frequencies : List FrequencyDictionary

abbrev pub hit_of : FrequencyDictionary → Option ℤ → List FrequencyHit
hit_of dictionary none = []
hit_of dictionary (some rank) =
    record {
      dictionary_name = dictionary.name;
      rank = rank;
      higher_is_better = dictionary.higher_value_means_higher_frequency;
    }
    ∷ []

-- The hits of the dictionaries that answer, in their order.
unfoldable pub hits_of : Text → List Text → List FrequencyDictionary → List FrequencyHit
hits_of spelling readings [] = []
hits_of spelling readings (d ∷ ds) =
    hit_of d (d.frequency_for spelling readings) ++ hits_of spelling readings ds

abbrev pub rank_without : List FrequencyDictionary → ℤ → ℤ
rank_without [] rank = rank
rank_without (d ∷ ds) rank = pos 0

-- The memo of hits holds what hitsOf() gives, so it is left out.
unfoldable pub decorate_frequencies : Decorators → Result → Result
decorate_frequencies decorators result = record result {
  frequencies =
      result.frequencies
      ++ hits_of result.primary_spelling result.readings decorators.word_frequencies;
  priority_rank = rank_without decorators.word_frequencies result.priority_rank;
}

abbrev pub own_rank : Text → Option KanjidicRecord → List FrequencyHit
own_rank name none = []
own_rank name (some r) =
    if ltb_ℤ (pos 0) r.frequency
    then record { dictionary_name = name; rank = r.frequency; higher_is_better = false } ∷ []
    else []

abbrev pub kanjidic_of : Option Record → Option KanjidicRecord
kanjidic_of none = none
kanjidic_of (some r) = as_kanjidic r

unfoldable pub decorate_kanji_frequencies : Decorators → Result → Result
decorate_kanji_frequencies decorators result = record result {
  frequencies =
      (result.frequencies ++ own_rank result.dictionary.name (kanjidic_of result.kanji_record))
      ++ hits_of result.primary_spelling [] decorators.kanji_frequencies;
  priority_rank = pos 0;
}

unfoldable pub is_kanji_dictionary_type : DictType → Bool
is_kanji_dictionary_type DictType.kanjidic = true
is_kanji_dictionary_type DictType.yomitan_kanji = true
is_kanji_dictionary_type DictType.yomitan_kanji_word_schema = true
is_kanji_dictionary_type _ = false

unfoldable pub decorate : Decorators → Result → Result
decorate decorators result =
    if is_kanji_dictionary_type result.dictionary.dict_type
    then decorate_kanji_frequencies decorators result
    else decorate_frequencies decorators result

-- std::ranges::stable_sort: an element goes before those of the rest that are not less than it.
unfoldable pub insert_stable : {A : Type 0} → (A → A → Bool) → A → List A → List A
insert_stable less x [] = x ∷ []
insert_stable less x (y ∷ ys) =
    let rest = insert_stable less x ys in if less y x then y ∷ rest else x ∷ y ∷ ys

unfoldable pub stable_sort : {A : Type 0} → (A → A → Bool) → List A → List A
stable_sort less [] = []
stable_sort less (x ∷ xs) = insert_stable less x (stable_sort less xs)

abbrev pub is_same : Order → Bool
is_same before = false
is_same same = true
is_same after = false

-- The elements that the loop keeps after `previous`: the run of ties.
unfoldable pub tie_run : {A : Type 0} → (A → A → Order) → A → List A → List A
tie_run compare previous [] = []
tie_run compare previous (x ∷ xs) =
    let rest = tie_run compare x xs in if is_same (compare previous x) then x ∷ rest else []

-- The first `keep` elements of a sorted list, and the ties of the last of them.
unfoldable pub cut : {A : Type 0} → (A → A → Order) → ℕ → List A → List A
cut compare keep [] = []
cut compare zero (x ∷ xs) = []
cut compare (suc zero) (x ∷ xs) = x ∷ tie_run compare x xs
cut compare (suc (suc keep)) (x ∷ xs) = x ∷ cut compare (suc keep) xs

-- `maxResults > 0 && list.size() > maxResults`.
abbrev pub is_over : ℤ → ℕ → Bool
is_over max_results size = ltb_ℤ (pos 0) max_results && ltb_ℤ max_results (pos size)

abbrev pub limited : {A : Type 0} → ℤ → List A → List A
limited max_results xs =
    if is_over max_results (length xs) then take (pos_part max_results) xs else xs

unfoldable pub cut_undecorated : ℤ → List Result → List Result
cut_undecorated max_results list =
    if is_over max_results (length list)
    then cut compare_undecorated (pos_part max_results) (stable_sort less_than_undecorated list)
    else list

-- The closure `order` of lookupUncached().
unfoldable pub order : Decorators → ℤ → List Result → List Result
order decorators max_results list =
    limited max_results
      (stable_sort less_than (map (decorate decorators) (cut_undecorated max_results list)))
