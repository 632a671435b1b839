-- ===== src/Dict/Codec/Valid.antt =====
-- What the field types of src/dict/records.h hold: 32-bit and 8-bit numbers, and texts that UTF-8 can
-- carry (QCborStreamWriter writes a QString as UTF-8).
use marupop.Prelude.{ℕ, ◌<◌, ◌^◌, Option, none, some, All}
use marupop.Prelude.Int.{IsInt32}
use marupop.Dict.Records.{
  ImageInfo, SenseTags, LoanwordSource, KanjiExample, JmdictRecord, JmnedictRecord, KanjidicRecord,
  YomitanTermRecord, YomitanKanjiRecord, PitchAccentRecord, CustomWordRecord, CustomNameRecord,
  FrequencyRecord, KanjiExamplesRecord, KanjiComponentsRecord, RecordData,
}
use marupop.Dict.Cbor.{IsText}

abbrev pub IsByte : ℕ → Type 0
IsByte n = n < 2 ^ 8

pub record IsValidTags (tags : SenseTags) : Type 0 where
  pub shared_by_all_senses : All IsText tags.shared_by_all_senses
  pub per_sense : All (All IsText) tags.per_sense

pub record IsValidImage (info : ImageInfo) : Type 0 where
  pub path : IsText info.path
  pub pixel_width : IsInt32 info.pixel_width
  pub pixel_height : IsInt32 info.pixel_height

abbrev pub IsValidOptionalImage : Option ImageInfo → Type 0
IsValidOptionalImage none = Unit
IsValidOptionalImage (some info) = IsValidImage info

pub record IsValidSource (source : LoanwordSource) : Type 0 where
  pub language : IsText source.language
  pub original_word : IsText source.original_word

pub record IsValidExample (example : KanjiExample) : Type 0 where
  pub spelling : IsText example.spelling
  pub reading : IsText example.reading
  pub gloss : IsText example.gloss

pub record IsValidJmdict (r : JmdictRecord) : Type 0 where
  pub entry_id : IsInt32 r.entry_id
  pub primary_spelling : IsText r.primary_spelling
  pub primary_spelling_orthography_info : All IsText r.primary_spelling_orthography_info
  pub alternative_spellings : All IsText r.alternative_spellings
  pub alternative_spellings_orthography_info :
      All (All IsText) r.alternative_spellings_orthography_info
  pub readings : All IsText r.readings
  pub readings_orthography_info : All (All IsText) r.readings_orthography_info
  pub definitions : All (All IsText) r.definitions
  pub word_classes : IsValidTags r.word_classes
  pub fields : IsValidTags r.fields
  pub misc : IsValidTags r.misc
  pub dialects : IsValidTags r.dialects
  pub spelling_restrictions : All (All IsText) r.spelling_restrictions
  pub reading_restrictions : All (All IsText) r.reading_restrictions
  pub definition_info : All IsText r.definition_info
  pub cross_references : All (All IsText) r.cross_references
  pub loanword_etymology : All IsValidSource r.loanword_etymology
  pub info : All IsText r.info
  pub priority_rank : IsInt32 r.priority_rank

pub record IsValidJmnedict (r : JmnedictRecord) : Type 0 where
  pub entry_id : IsInt32 r.entry_id
  pub primary_spelling : IsText r.primary_spelling
  pub alternative_spellings : All IsText r.alternative_spellings
  pub readings : All IsText r.readings
  pub definitions : All (All IsText) r.definitions
  pub name_types : All (All IsText) r.name_types

pub record IsValidKanjidic (r : KanjidicRecord) : Type 0 where
  pub definitions : All IsText r.definitions
  pub on_readings : All IsText r.on_readings
  pub kun_readings : All IsText r.kun_readings
  pub nanori_readings : All IsText r.nanori_readings
  pub radical_names : All IsText r.radical_names
  pub stroke_count : IsByte r.stroke_count
  pub grade : IsByte r.grade
  pub frequency : IsInt32 r.frequency

pub record IsValidYomitanTerm (r : YomitanTermRecord) : Type 0 where
  pub primary_spelling : IsText r.primary_spelling
  pub reading : IsText r.reading
  pub definitions : All IsText r.definitions
  pub definitions_plain : All IsText r.definitions_plain
  pub word_classes : All IsText r.word_classes
  pub definition_tags : All IsText r.definition_tags
  pub term_tags : All IsText r.term_tags
  pub images : All IsValidImage r.images
  pub sequence : IsInt32 r.sequence

pub record IsValidYomitanKanji (r : YomitanKanjiRecord) : Type 0 where
  pub on_readings : All IsText r.on_readings
  pub kun_readings : All IsText r.kun_readings
  pub tags : All IsText r.tags
  pub definitions : All IsText r.definitions
  pub stats : All IsText r.stats

pub record IsValidPitchAccent (r : PitchAccentRecord) : Type 0 where
  pub spelling : IsText r.spelling
  pub reading : IsText r.reading
  pub positions : All IsByte r.positions

pub record IsValidCustomWord (r : CustomWordRecord) : Type 0 where
  pub primary_spelling : IsText r.primary_spelling
  pub alternative_spellings : All IsText r.alternative_spellings
  pub readings : All IsText r.readings
  pub definitions : All IsText r.definitions
  pub word_classes : All IsText r.word_classes

pub record IsValidCustomName (r : CustomNameRecord) : Type 0 where
  pub primary_spelling : IsText r.primary_spelling
  pub reading : IsText r.reading
  pub name_type : IsText r.name_type
  pub extra_info : IsText r.extra_info
  pub image : IsValidOptionalImage r.image

pub record IsValidFrequency (r : FrequencyRecord) : Type 0 where
  pub spelling : IsText r.spelling
  pub frequency : IsInt32 r.frequency

pub record IsValidKanjiExamples (r : KanjiExamplesRecord) : Type 0 where
  pub kanji : IsText r.kanji
  pub examples : All IsValidExample r.examples

pub record IsValidKanjiComponents (r : KanjiComponentsRecord) : Type 0 where
  pub kanji : IsText r.kanji
  pub components : All IsText r.components

abbrev pub IsValidData : RecordData → Type 0
IsValidData (RecordData.jmdict r) = IsValidJmdict r
IsValidData (RecordData.jmnedict r) = IsValidJmnedict r
IsValidData (RecordData.kanjidic r) = IsValidKanjidic r
IsValidData (RecordData.yomitan_term r) = IsValidYomitanTerm r
IsValidData (RecordData.yomitan_kanji r) = IsValidYomitanKanji r
IsValidData (RecordData.pitch_accent r) = IsValidPitchAccent r
IsValidData (RecordData.custom_word r) = IsValidCustomWord r
IsValidData (RecordData.custom_name r) = IsValidCustomName r
IsValidData (RecordData.frequency r) = IsValidFrequency r
IsValidData (RecordData.kanji_examples r) = IsValidKanjiExamples r
IsValidData (RecordData.kanji_components r) = IsValidKanjiComponents r
