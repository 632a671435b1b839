-- ===== src/Lookup/Ranking/Cycle.antt =====
-- Three results of one headword that src/lookup/ranking.cpp orders in a circle, by frequency
-- dictionaries of which each covers only some of them.
use marupop.Lookup.Ranking.Orders.{HasNumber}
use marupop.Lookup.Ranking.Weak.{IsWeakOrder, Follows, opposite}
use marupop.Prelude.{ap, ◌∙◌, ◌≡◌, refl, false, ℕ, none, List, [], ◌∷◌}
use marupop.Prelude.Int.{pos}
use marupop.Prelude.Text.{Text, codes}
use marupop.Dict.Records.{DictType}
use marupop.Lookup.Ranking.{
  popularity_score_of, FrequencyHit, Result, Order, before, same, after, compare_int, larger_first,
  matched_primary_spelling, reading_index_of_matched_text, normalized_frequency_score,
  primary_spelling_orthography_score, reading_orthography_score, jmdict_record, frequency_score,
}
use marupop.Lookup.Ranking.Compare.{
  compare_undecorated, compare_secondary_frequencies, reads_secondary, compare_frequencies,
  compare_results,
}

abbrev pub hit : Text → ℕ → FrequencyHit
hit name rank = record { dictionary_name = name; rank = pos rank; higher_is_better = false }

-- A headword that was matched, with its reading and its frequencies.
abbrev pub headword : Text → List FrequencyHit → Result
headword reading frequencies = record {
  primary_spelling = codes "生物";
  readings = reading ∷ [];
  alternative_spellings = [];
  matched_text = codes "生物";
  deconjugated_matched_text = codes "生物";
  deconjugation_paths = [];
  min_proper_step_count = pos 0;
  matched_by_variant = false;
  frequencies = frequencies;
  priority_rank = pos 0;
  pitch_positions = [];
  dict_record = none;
  kanji_record = none;
  kanji_examples = [];
  kanji_components = [];
  dictionary = record {
    dict_type = DictType.jmdict;
    name = codes "JMdict";
    priority = pos 1;
    max_key_length = pos 20;
  };
}

abbrev pub news : Text
news = codes "news"

abbrev pub first_word : Result
first_word = headword (codes "せいぶつ") (hit news 5 ∷ hit (codes "books") 1 ∷ hit (codes "web") 3 ∷ [])

abbrev pub second_word : Result
second_word = headword (codes "なまもの") (hit news 5 ∷ hit (codes "web") 2 ∷ [])

abbrev pub third_word : Result
third_word = headword (codes "いきもの") (hit news 5 ∷ hit (codes "books") 2 ∷ hit (codes "web") 1 ∷ [])

first-third : compare_results first_word third_word ≡ before
unfolding compare_results compare_undecorated compare_frequencies frequency_score reads_secondary
    compare_secondary_frequencies compare_int larger_first matched_primary_spelling
    reading_index_of_matched_text normalized_frequency_score primary_spelling_orthography_score
    reading_orthography_score jmdict_record
first-third = refl

third-second : compare_results third_word second_word ≡ before
unfolding compare_results compare_undecorated compare_frequencies frequency_score reads_secondary
    compare_secondary_frequencies compare_int larger_first matched_primary_spelling
    reading_index_of_matched_text normalized_frequency_score primary_spelling_orthography_score
    reading_orthography_score jmdict_record
third-second = refl

second-first : compare_results second_word first_word ≡ before
unfolding compare_results compare_undecorated compare_frequencies frequency_score reads_secondary
    compare_secondary_frequencies compare_int larger_first matched_primary_spelling
    reading_index_of_matched_text normalized_frequency_score primary_spelling_orthography_score
    reading_orthography_score jmdict_record
second-first = refl

Follows-before : (p q r : Order) → p ≡ before → q ≡ before → Follows p q r → r ≡ before
Follows-before before before r d e h = h
Follows-before before same r d e h = cc
Follows-before before after r d e h = cc
Follows-before same q r d e h = cc
Follows-before after q r d e h = cc

-- All criteria together are no strict weak order on the results whose popularity score is a number,
-- since the tie-break over the lower frequency dictionaries is not transitive.
pub compare_results-is_circular : ¬ IsWeakOrder HasNumber compare_results
unfolding popularity_score_of
compare_results-is_circular w =
    let a : compare_results first_word second_word ≡ before =
      Follows-before (compare_results first_word third_word)
        (compare_results third_word second_word) (compare_results first_word second_word)
        first-third third-second (w.follows first_word third_word second_word refl refl refl) in
    let b : compare_results first_word second_word ≡ after =
      w.swap second_word first_word refl refl ∙ ap opposite second-first in
    cc
