-- ===== src/Dict/Records/Tests.antt =====
-- Runs of the questions asked of a record, and their theorems at concrete records.
use marupop.Prelude.{ℕ, ◌≡◌, ◌↔◌, refl, true, [], ◌∷◌}
use marupop.Prelude.Int.{pos}
use marupop.Prelude.Text.{contains}
use marupop.Dict.Records.{Text, SenseTags, JmdictRecord, RecordData}
use marupop.Dict.Records.Queries.{for_sense, add_classes, add_senses, word_classes}
use marupop.Dict.Records.Classes.{Distinct, word_classes-Distinct, word_classes-for_sense}

abbrev noun : Text
noun = 110 ∷ []

abbrev verb : Text
verb = 118 ∷ 49 ∷ []

abbrev no_sense_tags : SenseTags
no_sense_tags = record { shared_by_all_senses = []; per_sense = [] }

abbrev headword : JmdictRecord
headword = record {
  entry_id = pos 1;
  primary_spelling = 35 ∷ [];
  primary_spelling_orthography_info = [];
  alternative_spellings = [];
  alternative_spellings_orthography_info = [];
  readings = (36 ∷ []) ∷ [];
  readings_orthography_info = [];
  definitions = [];
  word_classes = record {
    shared_by_all_senses = noun ∷ [];
    per_sense = (verb ∷ noun ∷ []) ∷ (verb ∷ []) ∷ [];
  };
  fields = no_sense_tags;
  misc = no_sense_tags;
  dialects = no_sense_tags;
  spelling_restrictions = [];
  reading_restrictions = [];
  definition_info = [];
  cross_references = [];
  loanword_etymology = [];
  info = [];
  priority_rank = pos 0;
}

headword-word_classes : word_classes (RecordData.jmdict headword) ≡ noun ∷ verb ∷ []
unfolding word_classes add_senses add_classes
headword-word_classes = refl

second_sense : for_sense (pos 1) headword.word_classes ≡ noun ∷ verb ∷ []
unfolding for_sense
second_sense = refl

word_classes-Distinct_example : Distinct (word_classes (RecordData.jmdict headword))
word_classes-Distinct_example = word_classes-Distinct headword (refl, tt)

word_classes-for_sense_example :
    (contains (word_classes (RecordData.jmdict headword)) verb ≡ true)
    ↔ ((i : ℕ) × (contains (for_sense (pos i) headword.word_classes) verb ≡ true))
word_classes-for_sense_example = word_classes-for_sense headword verb
