-- ===== src/Dict/Records/Queries.antt =====
-- src/dict/records.cpp: what is asked of a record of any kind.
use marupop.Prelude.{
  Bool, true, false, ◌&&◌, Option, none, some, List, [], ◌∷◌, ◌++◌, get_elem?, if◌then◌else◌,
}
use marupop.Prelude.Int.{ℤ, pos, negsuc}
use marupop.Prelude.Text.{contains}
use marupop.Dict.Records.{
  Text, SenseTags, JmdictRecord, JmnedictRecord, KanjidicRecord, YomitanTermRecord,
  YomitanKanjiRecord, PitchAccentRecord, CustomWordRecord, CustomNameRecord, FrequencyRecord,
  KanjiExamplesRecord, KanjiComponentsRecord, RecordData, Record,
}

abbrev pub is_empty : {A : Type 0} → List A → Bool
is_empty [] = true
is_empty (x ∷ xs) = false

unfoldable pub no_tags : SenseTags → Bool
no_tags tags = is_empty tags.shared_by_all_senses && is_empty tags.per_sense

abbrev pub with_extras : List Text → Option (List Text) → List Text
with_extras tags none = tags
with_extras tags (some extras) = tags ++ extras

-- SenseTags::forSense(). A negative index has no extras, and neither has one past the end.
unfoldable pub for_sense : ℤ → SenseTags → List Text
for_sense (pos i) tags = with_extras tags.shared_by_all_senses (get_elem? tags.per_sense i)
for_sense (negsuc i) tags = tags.shared_by_all_senses

unfoldable pub as_jmdict : Record → Option JmdictRecord
as_jmdict r = elim r.payload [ RecordData.jmdict d ↦ some d | _ ↦ none ]

unfoldable pub as_jmnedict : Record → Option JmnedictRecord
as_jmnedict r = elim r.payload [ RecordData.jmnedict d ↦ some d | _ ↦ none ]

unfoldable pub as_kanjidic : Record → Option KanjidicRecord
as_kanjidic r = elim r.payload [ RecordData.kanjidic d ↦ some d | _ ↦ none ]

unfoldable pub as_yomitan_term : Record → Option YomitanTermRecord
as_yomitan_term r = elim r.payload [ RecordData.yomitan_term d ↦ some d | _ ↦ none ]

unfoldable pub as_yomitan_kanji : Record → Option YomitanKanjiRecord
as_yomitan_kanji r = elim r.payload [ RecordData.yomitan_kanji d ↦ some d | _ ↦ none ]

unfoldable pub as_pitch_accent : Record → Option PitchAccentRecord
as_pitch_accent r = elim r.payload [ RecordData.pitch_accent d ↦ some d | _ ↦ none ]

unfoldable pub as_custom_word : Record → Option CustomWordRecord
as_custom_word r = elim r.payload [ RecordData.custom_word d ↦ some d | _ ↦ none ]

unfoldable pub as_custom_name : Record → Option CustomNameRecord
as_custom_name r = elim r.payload [ RecordData.custom_name d ↦ some d | _ ↦ none ]

unfoldable pub as_frequency : Record → Option FrequencyRecord
as_frequency r = elim r.payload [ RecordData.frequency d ↦ some d | _ ↦ none ]

unfoldable pub as_kanji_examples : Record → Option KanjiExamplesRecord
as_kanji_examples r = elim r.payload [ RecordData.kanji_examples d ↦ some d | _ ↦ none ]

unfoldable pub as_kanji_components : Record → Option KanjiComponentsRecord
as_kanji_components r = elim r.payload [ RecordData.kanji_components d ↦ some d | _ ↦ none ]

unfoldable pub primary_spelling : RecordData → Text
primary_spelling (RecordData.jmdict d) = d.primary_spelling
primary_spelling (RecordData.jmnedict d) = d.primary_spelling
primary_spelling (RecordData.yomitan_term d) = d.primary_spelling
primary_spelling (RecordData.custom_word d) = d.primary_spelling
primary_spelling (RecordData.custom_name d) = d.primary_spelling
primary_spelling (RecordData.pitch_accent d) = d.spelling
primary_spelling (RecordData.kanjidic d) = []
primary_spelling (RecordData.yomitan_kanji d) = []
primary_spelling (RecordData.frequency d) = []
primary_spelling (RecordData.kanji_examples d) = []
primary_spelling (RecordData.kanji_components d) = []

-- A single reading as a list, empty where the reading is.
abbrev pub one_reading : Text → List Text
one_reading [] = []
one_reading (c ∷ cs) = (c ∷ cs) ∷ []

unfoldable pub readings : RecordData → List Text
readings (RecordData.jmdict d) = d.readings
readings (RecordData.jmnedict d) = d.readings
readings (RecordData.custom_word d) = d.readings
readings (RecordData.yomitan_term d) = one_reading d.reading
readings (RecordData.custom_name d) = one_reading d.reading
readings (RecordData.pitch_accent d) = one_reading d.reading
readings (RecordData.kanjidic d) = []
readings (RecordData.yomitan_kanji d) = []
readings (RecordData.frequency d) = []
readings (RecordData.kanji_examples d) = []
readings (RecordData.kanji_components d) = []

unfoldable pub alternative_spellings : RecordData → List Text
alternative_spellings (RecordData.jmdict d) = d.alternative_spellings
alternative_spellings (RecordData.jmnedict d) = d.alternative_spellings
alternative_spellings (RecordData.custom_word d) = d.alternative_spellings
alternative_spellings (RecordData.kanjidic d) = []
alternative_spellings (RecordData.yomitan_term d) = []
alternative_spellings (RecordData.yomitan_kanji d) = []
alternative_spellings (RecordData.pitch_accent d) = []
alternative_spellings (RecordData.custom_name d) = []
alternative_spellings (RecordData.frequency d) = []
alternative_spellings (RecordData.kanji_examples d) = []
alternative_spellings (RecordData.kanji_components d) = []

-- The inner loop of wordClasses(): the classes that are new go to the end.
unfoldable pub add_classes : List Text → List Text → List Text
add_classes classes [] = classes
add_classes classes (c ∷ cs) =
    add_classes (if contains classes c then classes else classes ++ c ∷ []) cs

unfoldable pub add_senses : List Text → List (List Text) → List Text
unfolding add_classes
add_senses classes [] = classes
add_senses classes (sense ∷ senses) = add_senses (add_classes classes sense) senses

unfoldable pub word_classes : RecordData → List Text
word_classes (RecordData.jmdict d) =
    add_senses d.word_classes.shared_by_all_senses d.word_classes.per_sense
word_classes (RecordData.yomitan_term d) = d.word_classes
word_classes (RecordData.custom_word d) = d.word_classes
word_classes (RecordData.jmnedict d) = []
word_classes (RecordData.kanjidic d) = []
word_classes (RecordData.yomitan_kanji d) = []
word_classes (RecordData.pitch_accent d) = []
word_classes (RecordData.custom_name d) = []
word_classes (RecordData.frequency d) = []
word_classes (RecordData.kanji_examples d) = []
word_classes (RecordData.kanji_components d) = []

-- extrasKeyPrefix is U+0001; 120 and 99 are 'x' and 'c'.
unfoldable pub kanji_examples_key : Text → Text
kanji_examples_key kanji = 1 ∷ 120 ∷ kanji

unfoldable pub kanji_components_key : Text → Text
kanji_components_key kanji = 1 ∷ 99 ∷ kanji
