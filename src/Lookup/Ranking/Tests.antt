-- ===== src/Lookup/Ranking/Tests.antt =====
-- Runs of the criteria of src/lookup/ranking.cpp.
use marupop.Prelude.{◌≡◌, refl, true, []}
use marupop.Prelude.Int.{pos, ◌-ℤ◌}
use marupop.Prelude.Text.{codes}
use marupop.Lookup.Ranking.{larger_first, normalized_frequency_score}
use marupop.Lookup.Ranking.Compare.{compare_undecorated, less_than_undecorated}
use marupop.Lookup.Ranking.Cycle.{headword, first_word}

-- A longer match is first, whatever follows.
longer_first :
    less_than_undecorated
      (headword (codes "なま") [])
      (record first_word { matched_text = codes "生" })
    ≡ true
unfolding less_than_undecorated compare_undecorated larger_first
longer_first = refl

mirrored :
    normalized_frequency_score
      (record { dictionary_name = []; rank = pos 7; higher_is_better = true })
    ≡ pos 2147483640
unfolding normalized_frequency_score ◌-ℤ◌
mirrored = refl
