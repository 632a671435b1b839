-- ===== src/Dict/Records.antt =====
-- src/dict/records.h, src/dict/records.cpp and src/dict/dicttypes.h: what a store's record holds.
-- A QString is the list of its UTF-16 code units, and a double is its 64-bit pattern.
pub mod Queries
pub mod Classes
mod Tests
use marupop.Prelude.{ℕ, Bool, Option, List}
unfoldable pub use marupop.Prelude.Text.{Text}
use marupop.Prelude.Int.{ℤ}

abbrev pub Double : Type 0
Double = ℕ

pub record ImageInfo : Type 0 where
  pub path : Text
  pub pixel_width : ℤ
  pub pixel_height : ℤ
  pub width : Double
  pub height : Double

pub record SenseTags : Type 0 where
  pub shared_by_all_senses : List Text
  pub per_sense : List (List Text)

pub record LoanwordSource : Type 0 where
  pub language : Text
  pub original_word : Text
  pub is_part : Bool
  pub is_wasei : Bool

pub record JmdictRecord : Type 0 where
  pub entry_id : ℤ
  pub primary_spelling : Text
  pub primary_spelling_orthography_info : List Text
  pub alternative_spellings : List Text
  pub alternative_spellings_orthography_info : List (List Text)
  pub readings : List Text
  pub readings_orthography_info : List (List Text)
  pub definitions : List (List Text)
  pub word_classes : SenseTags
  pub fields : SenseTags
  pub misc : SenseTags
  pub dialects : SenseTags
  pub spelling_restrictions : List (List Text)
  pub reading_restrictions : List (List Text)
  pub definition_info : List Text
  pub cross_references : List (List Text)
  pub loanword_etymology : List LoanwordSource
  pub info : List Text
  pub priority_rank : ℤ

pub record JmnedictRecord : Type 0 where
  pub entry_id : ℤ
  pub primary_spelling : Text
  pub alternative_spellings : List Text
  pub readings : List Text
  pub definitions : List (List Text)
  pub name_types : List (List Text)

pub record KanjidicRecord : Type 0 where
  pub definitions : List Text
  pub on_readings : List Text
  pub kun_readings : List Text
  pub nanori_readings : List Text
  pub radical_names : List Text
  pub stroke_count : ℕ
  pub grade : ℕ
  pub frequency : ℤ

pub record YomitanTermRecord : Type 0 where
  pub primary_spelling : Text
  pub reading : Text
  pub popularity_score : Double
  pub definitions : List Text
  pub definitions_plain : List Text
  pub word_classes : List Text
  pub definition_tags : List Text
  pub term_tags : List Text
  pub images : List ImageInfo
  pub sequence : ℤ

pub record YomitanKanjiRecord : Type 0 where
  pub on_readings : List Text
  pub kun_readings : List Text
  pub tags : List Text
  pub definitions : List Text
  pub stats : List Text

pub record PitchAccentRecord : Type 0 where
  pub spelling : Text
  pub reading : Text
  pub positions : List ℕ

pub record CustomWordRecord : Type 0 where
  pub primary_spelling : Text
  pub alternative_spellings : List Text
  pub readings : List Text
  pub definitions : List Text
  pub word_classes : List Text
  pub has_user_defined_word_class : Bool

pub record CustomNameRecord : Type 0 where
  pub primary_spelling : Text
  pub reading : Text
  pub name_type : Text
  pub extra_info : Text
  pub image : Option ImageInfo

pub record FrequencyRecord : Type 0 where
  pub spelling : Text
  pub frequency : ℤ

pub record KanjiExample : Type 0 where
  pub spelling : Text
  pub reading : Text
  pub gloss : Text

pub record KanjiExamplesRecord : Type 0 where
  pub kanji : Text
  pub examples : List KanjiExample

pub record KanjiComponentsRecord : Type 0 where
  pub kanji : Text
  pub components : List Text

pub data RecordKind : Type 0 where
  jmdict jmnedict kanjidic yomitan_term yomitan_kanji pitch_accent : RecordKind
  custom_word custom_name frequency kanji_examples kanji_components : RecordKind

-- std::variant over the record shapes.
pub data RecordData : Type 0 where
  jmdict : JmdictRecord → RecordData
  jmnedict : JmnedictRecord → RecordData
  kanjidic : KanjidicRecord → RecordData
  yomitan_term : YomitanTermRecord → RecordData
  yomitan_kanji : YomitanKanjiRecord → RecordData
  pitch_accent : PitchAccentRecord → RecordData
  custom_word : CustomWordRecord → RecordData
  custom_name : CustomNameRecord → RecordData
  frequency : FrequencyRecord → RecordData
  kanji_examples : KanjiExamplesRecord → RecordData
  kanji_components : KanjiComponentsRecord → RecordData

pub data DictType : Type 0 where
  jmdict jmnedict kanjidic yomitan_word yomitan_kanji yomitan_kanji_word_schema : DictType
  yomitan_name yomitan_pitch_accent yomitan_other yomitan_frequency : DictType
  yomitan_kanji_frequency custom_word custom_name kanji_components : DictType

pub record Record : Type 0 where
  pub id : ℤ
  pub dict_type : DictType
  pub payload : RecordData

-- `data.index()`, read as a RecordKind.
unfoldable pub data_kind : RecordData → RecordKind
data_kind (RecordData.jmdict r) = RecordKind.jmdict
data_kind (RecordData.jmnedict r) = RecordKind.jmnedict
data_kind (RecordData.kanjidic r) = RecordKind.kanjidic
data_kind (RecordData.yomitan_term r) = RecordKind.yomitan_term
data_kind (RecordData.yomitan_kanji r) = RecordKind.yomitan_kanji
data_kind (RecordData.pitch_accent r) = RecordKind.pitch_accent
data_kind (RecordData.custom_word r) = RecordKind.custom_word
data_kind (RecordData.custom_name r) = RecordKind.custom_name
data_kind (RecordData.frequency r) = RecordKind.frequency
data_kind (RecordData.kanji_examples r) = RecordKind.kanji_examples
data_kind (RecordData.kanji_components r) = RecordKind.kanji_components

unfoldable pub kind : Record → RecordKind
unfolding data_kind
kind r = data_kind r.payload
