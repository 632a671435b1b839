-- ===== src/Lookup/Engine/Tests.antt =====
-- A run of the closure `order` of src/lookup/engine.cpp.
use marupop.Prelude.{
  ◌≡◌, refl, false, Option, none, some, List, [], ◌∷◌, map, All, arith, if◌then◌else◌,
}
use marupop.Prelude.Int.{ℤ, pos}
use marupop.Prelude.Text.{Text, codes, text_eq}
use marupop.Lookup.Ranking.{
  Result, compare_int, larger_first, matched_primary_spelling, reading_index_of_matched_text,
  normalized_frequency_score, primary_spelling_orthography_score, reading_orthography_score,
  jmdict_record, frequency_score, popularity_score_of,
}
use marupop.Lookup.Ranking.Compare.{
  compare_undecorated, compare_frequencies, compare_results, less_than, less_than_undecorated,
}
use marupop.Lookup.Ranking.Cycle.{headword, news}
use marupop.Lookup.Ranking.Orders.{IsRankable}
use marupop.Lookup.Engine.{
  Decorators, decorate, decorate_frequencies, is_kanji_dictionary_type, hits_of, stable_sort,
  insert_stable, tie_run, cut, limited, cut_undecorated, order,
}
use marupop.Lookup.Engine.Cut.{order-stable_sort}

abbrev rank_of : List Text → Option ℤ
rank_of [] = none
rank_of (reading ∷ readings) = if text_eq reading (codes "なまもの") then some (pos 2) else some (pos 9)

abbrev decorators : Decorators
decorators = record {
  word_frequencies =
      record {
        name = news;
        higher_value_means_higher_frequency = false;
        frequency_for = λ spelling readings. rank_of readings;
      }
      ∷ [];
  kanji_frequencies = [];
}

abbrev shorter : Result → Result
shorter r = record r { matched_text = codes "生" }

abbrev found : List Result
found =
    shorter (headword (codes "せい") [])
    ∷ headword (codes "せいぶつ") []
    ∷ headword (codes "なまもの") []
    ∷ []

abbrev readings_of : List Result → List (List Text)
readings_of rs = map (λ (r : Result). r.readings) rs

-- The limit is one, and the tie of two is decorated before it is cut.
frequent_first : readings_of (order decorators (pos 1) found) ≡ (codes "なまもの" ∷ []) ∷ []
unfolding order cut_undecorated stable_sort insert_stable cut tie_run decorate decorate_frequencies
    is_kanji_dictionary_type hits_of less_than less_than_undecorated compare_results
    compare_undecorated compare_frequencies frequency_score compare_int larger_first
    matched_primary_spelling reading_index_of_matched_text normalized_frequency_score
    primary_spelling_orthography_score reading_orthography_score jmdict_record
frequent_first = refl

found-IsRankable : All IsRankable (map (decorate decorators) found)
unfolding decorate decorate_frequencies is_kanji_dictionary_type hits_of popularity_score_of
found-IsRankable = ((refl, omega arith), ((refl, omega arith), ((refl, omega arith), tt)))

order-stable_sort_example :
    order decorators (pos 1) found
    ≡ limited (pos 1) (stable_sort less_than (map (decorate decorators) found))
order-stable_sort_example = order-stable_sort decorators (pos 1) found found-IsRankable
