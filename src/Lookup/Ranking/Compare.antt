-- ===== src/Lookup/Ranking/Compare.antt =====
-- The comparisons of src/lookup/ranking.cpp, criterion by criterion.
use marupop.Prelude.{
  zero, suc, ℕ, ◌*◌, ◌^◌, ◌%◌, Bool, true, false, not, ◌&&◌, ◌||◌, Option, none, some, List, [],
  ◌∷◌, ltb, length, drop, if◌then◌else◌,
}
use marupop.Prelude.Int.{ℤ, pos, negsuc, ltb_ℤ}
use marupop.Prelude.Text.{Text, text_eq}
use marupop.Dict.Records.{Double}
use marupop.Lookup.Ranking.{
  FrequencyHit, Result, Order, before, same, after, ◌<+>◌, absent_score, compare_int, larger_first,
  holder_first, is_found, matched_primary_spelling, reading_index_of_matched_text,
  normalized_frequency_score, primary_spelling_orthography_score, reading_orthography_score,
  frequency_score, definition_text, entry_id_of, popularity_score_of,
}

-- A score that is positive, or else the one that sorts last.
abbrev pub positive_or_absent : ℤ → ℤ
positive_or_absent n = if ltb_ℤ (pos 0) n then n else absent_score

-- Criteria 1 to 7.
unfoldable pub compare_undecorated : Result → Result → Order
compare_undecorated left right =
    larger_first (length left.matched_text) (length right.matched_text)
    <+> (holder_first (matched_primary_spelling left) (matched_primary_spelling right)
        <+> (holder_first (is_found (reading_index_of_matched_text left))
              (is_found (reading_index_of_matched_text right))
            <+> (compare_int left.min_proper_step_count right.min_proper_step_count
                <+> (compare_int (positive_or_absent left.dictionary.priority)
                      (positive_or_absent right.dictionary.priority)
                    <+> (compare_int (primary_spelling_orthography_score left)
                          (primary_spelling_orthography_score right)
                        <+> compare_int (reading_orthography_score left)
                            (reading_orthography_score right))))))

-- The hit of a dictionary, by its name.
abbrev pub find_name : Text → List FrequencyHit → Option FrequencyHit
find_name name [] = none
find_name name (hit ∷ hits) =
    if text_eq hit.dictionary_name name then some hit else find_name name hits

-- Two hits of one dictionary.
abbrev pub compare_hits : FrequencyHit → Option FrequencyHit → Order
compare_hits hit none = same
compare_hits hit (some other) =
    if ltb_ℤ hit.rank other.rank || ltb_ℤ other.rank hit.rank
    then if ltb_ℤ (normalized_frequency_score hit) (normalized_frequency_score other)
      then before
      else after
    else same

abbrev pub compare_secondary_from : List FrequencyHit → List FrequencyHit → Order
compare_secondary_from [] others = same
compare_secondary_from (hit ∷ hits) others =
    compare_hits hit (find_name hit.dictionary_name others) <+> compare_secondary_from hits others

unfoldable pub compare_secondary_frequencies : Result → Result → Order
compare_secondary_frequencies left right =
    compare_secondary_from (drop 1 left.frequencies) (drop 1 right.frequencies)

-- Whether two lists of readings differ.
abbrev pub same_readings : List Text → List Text → Bool
same_readings [] [] = true
same_readings [] (u ∷ us) = false
same_readings (t ∷ ts) [] = false
same_readings (t ∷ ts) (u ∷ us) = text_eq t u && same_readings ts us

abbrev pub is_absent : ℤ → Bool
is_absent n = not (ltb_ℤ n absent_score) && not (ltb_ℤ absent_score n)

unfoldable pub reads_secondary : Result → Result → Bool
reads_secondary left right =
    ltb 1 (length left.frequencies)
    && (ltb 1 (length right.frequencies)
        && (is_absent (frequency_score left)
            || (not (is_found (reading_index_of_matched_text left))
                && (not (is_found (reading_index_of_matched_text right))
                    && not (same_readings left.readings right.readings)))))

-- A double is a NaN, or its sign and its magnitude.
abbrev pub is_nan : Double → Bool
is_nan d = ltb (2047 * 2 ^ 52) (d % 2 ^ 63)

abbrev pub negated : ℕ → ℤ
negated zero = pos 0
negated (suc n) = negsuc n

abbrev pub magnitude : Double → ℤ
magnitude d = if ltb d (2 ^ 63) then pos d else negated (d % 2 ^ 63)

abbrev pub double_greater : Double → Double → Bool
double_greater a b = not (is_nan a) && (not (is_nan b) && ltb_ℤ (magnitude b) (magnitude a))

abbrev pub double_differs : Double → Double → Bool
double_differs a b = is_nan a || (is_nan b || (double_greater a b || double_greater b a))

-- The larger double first.
unfoldable pub compare_popularity : Double → Double → Order
compare_popularity left right =
    if double_differs left right then if double_greater left right then before else after else same

-- An index before a missing one. Lists are shorter than INT_MAX.
abbrev pub compare_index : Option ℕ → Option ℕ → Order
compare_index none none = same
compare_index none (some j) = after
compare_index (some i) none = before
compare_index (some i) (some j) = larger_first j i

-- QString::compare(): by code units, a proper prefix first.
abbrev pub compare_text : Text → Text → Order
compare_text [] [] = same
compare_text [] (d ∷ ds) = before
compare_text (c ∷ cs) [] = after
compare_text (c ∷ cs) (d ∷ ds) = larger_first d c <+> compare_text cs ds

-- Criterion 8, with its tie-break.
unfoldable pub compare_frequencies : Result → Result → Order
compare_frequencies left right =
    compare_int (frequency_score left) (frequency_score right)
    <+> (if reads_secondary left right then compare_secondary_frequencies left right else same)

-- Criteria 9 to 14.
unfoldable pub compare_last : Result → Result → Order
compare_last left right =
    compare_popularity (popularity_score_of left.dict_record)
      (popularity_score_of right.dict_record)
    <+> (compare_index (reading_index_of_matched_text left) (reading_index_of_matched_text right)
        <+> (compare_int (positive_or_absent (entry_id_of left.dict_record))
              (positive_or_absent (entry_id_of right.dict_record))
            <+> (compare_text left.primary_spelling right.primary_spelling
                <+> (larger_first (length (definition_text left)) (length (definition_text right))
                    <+> compare_text (definition_text left) (definition_text right)))))

unfoldable pub compare_results : Result → Result → Order
compare_results left right =
    compare_undecorated left right <+> (compare_frequencies left right <+> compare_last left right)

abbrev pub is_before : Order → Bool
is_before before = true
is_before same = false
is_before after = false

unfoldable pub less_than : Result → Result → Bool
less_than left right = is_before (compare_results left right)

unfoldable pub less_than_undecorated : Result → Result → Bool
less_than_undecorated left right = is_before (compare_undecorated left right)
