-- ===== src/Dict/Codec/FailFast/Kinds.antt =====
-- The decode functions of src/dict/codec.cpp over the reader of FailFast.antt: the fields of each
-- record kind in their order, and the payload around them.
use marupop.Prelude.{Bool, false, Option, none, some, ◌==◌, if◌then◌else◌}
use marupop.Prelude.Int.{ℤ, pos, negsuc}
use marupop.Dict.Records.{
  JmdictRecord, JmnedictRecord, KanjidicRecord, YomitanTermRecord, YomitanKanjiRecord,
  PitchAccentRecord, CustomWordRecord, CustomNameRecord, FrequencyRecord, KanjiExamplesRecord,
  KanjiComponentsRecord, RecordKind, RecordData, DictType, Record,
}
use marupop.Dict.Cbor.{Cbor}
use marupop.Dict.Codec.Encoder.{codec_version}
use marupop.Dict.Codec.Payload.{header_kind, PayloadHeader, checked_header}
use marupop.Dict.Codec.FailFast.{Step, then_with, ◌>>=◌, ◌>>◌, pure, enter, number}
use marupop.Dict.Codec.FailFast as F

module _ (c : Cbor) where
  unfoldable pub read_jmdict : Step c.Reader JmdictRecord
  read_jmdict = do
    entry_id ← F.int32 c
    primary_spelling ← F.string c
    primary_spelling_orthography_info ← F.string_list c
    alternative_spellings ← F.string_list c
    alternative_spellings_orthography_info ← F.string_list_list c
    readings ← F.string_list c
    readings_orthography_info ← F.string_list_list c
    definitions ← F.string_list_list c
    word_classes ← F.sense_tags c
    fields ← F.sense_tags c
    misc ← F.sense_tags c
    dialects ← F.sense_tags c
    spelling_restrictions ← F.string_list_list c
    reading_restrictions ← F.string_list_list c
    definition_info ← F.string_list c
    cross_references ← F.string_list_list c
    loanword_etymology ← F.loanword_sources c
    info ← F.string_list c
    priority_rank ← F.int32 c
    pure (record {
      entry_id = entry_id;
      primary_spelling = primary_spelling;
      primary_spelling_orthography_info = primary_spelling_orthography_info;
      alternative_spellings = alternative_spellings;
      alternative_spellings_orthography_info = alternative_spellings_orthography_info;
      readings = readings;
      readings_orthography_info = readings_orthography_info;
      definitions = definitions;
      word_classes = word_classes;
      fields = fields;
      misc = misc;
      dialects = dialects;
      spelling_restrictions = spelling_restrictions;
      reading_restrictions = reading_restrictions;
      definition_info = definition_info;
      cross_references = cross_references;
      loanword_etymology = loanword_etymology;
      info = info;
      priority_rank = priority_rank;
    })

  unfoldable pub read_jmnedict : Step c.Reader JmnedictRecord
  read_jmnedict = do
    entry_id ← F.int32 c
    primary_spelling ← F.string c
    alternative_spellings ← F.string_list c
    readings ← F.string_list c
    definitions ← F.string_list_list c
    name_types ← F.string_list_list c
    pure (record {
      entry_id = entry_id;
      primary_spelling = primary_spelling;
      alternative_spellings = alternative_spellings;
      readings = readings;
      definitions = definitions;
      name_types = name_types;
    })

  unfoldable pub read_kanjidic : Step c.Reader KanjidicRecord
  read_kanjidic = do
    definitions ← F.string_list c
    on_readings ← F.string_list c
    kun_readings ← F.string_list c
    nanori_readings ← F.string_list c
    radical_names ← F.string_list c
    stroke_count ← F.uint8 c
    grade ← F.uint8 c
    frequency ← F.int32 c
    pure (record {
      definitions = definitions;
      on_readings = on_readings;
      kun_readings = kun_readings;
      nanori_readings = nanori_readings;
      radical_names = radical_names;
      stroke_count = stroke_count;
      grade = grade;
      frequency = frequency;
    })

  unfoldable pub read_yomitan_term : Step c.Reader YomitanTermRecord
  read_yomitan_term = do
    primary_spelling ← F.string c
    reading ← F.string c
    popularity_score ← F.real c
    definitions ← F.string_list c
    definitions_plain ← F.string_list c
    word_classes ← F.string_list c
    definition_tags ← F.string_list c
    term_tags ← F.string_list c
    images ← F.image_list c
    sequence ← F.int32 c
    pure (record {
      primary_spelling = primary_spelling;
      reading = reading;
      popularity_score = popularity_score;
      definitions = definitions;
      definitions_plain = definitions_plain;
      word_classes = word_classes;
      definition_tags = definition_tags;
      term_tags = term_tags;
      images = images;
      sequence = sequence;
    })

  unfoldable pub read_yomitan_kanji : Step c.Reader YomitanKanjiRecord
  read_yomitan_kanji = do
    on_readings ← F.string_list c
    kun_readings ← F.string_list c
    tags ← F.string_list c
    definitions ← F.string_list c
    stats ← F.string_list c
    pure (record {
      on_readings = on_readings;
      kun_readings = kun_readings;
      tags = tags;
      definitions = definitions;
      stats = stats;
    })

  unfoldable pub read_pitch_accent : Step c.Reader PitchAccentRecord
  read_pitch_accent = do
    spelling ← F.string c
    reading ← F.string c
    positions ← F.byte_list c
    pure (record { spelling = spelling; reading = reading; positions = positions })

  unfoldable pub read_custom_word : Step c.Reader CustomWordRecord
  read_custom_word = do
    primary_spelling ← F.string c
    alternative_spellings ← F.string_list c
    readings ← F.string_list c
    definitions ← F.string_list c
    word_classes ← F.string_list c
    has_user_defined_word_class ← F.boolean c
    pure (record {
      primary_spelling = primary_spelling;
      alternative_spellings = alternative_spellings;
      readings = readings;
      definitions = definitions;
      word_classes = word_classes;
      has_user_defined_word_class = has_user_defined_word_class;
    })

  unfoldable pub read_custom_name : Step c.Reader CustomNameRecord
  read_custom_name = do
    primary_spelling ← F.string c
    reading ← F.string c
    name_type ← F.string c
    extra_info ← F.string c
    image ← F.optional_image c
    pure (record {
      primary_spelling = primary_spelling;
      reading = reading;
      name_type = name_type;
      extra_info = extra_info;
      image = image;
    })

  unfoldable pub read_frequency : Step c.Reader FrequencyRecord
  read_frequency = do
    spelling ← F.string c
    frequency ← F.int32 c
    pure (record { spelling = spelling; frequency = frequency })

  unfoldable pub read_kanji_examples : Step c.Reader KanjiExamplesRecord
  read_kanji_examples = do
    kanji ← F.string c
    examples ← F.kanji_examples c
    pure (record { kanji = kanji; examples = examples })

  unfoldable pub read_kanji_components : Step c.Reader KanjiComponentsRecord
  read_kanji_components = do
    kanji ← F.string c
    components ← F.string_list c
    pure (record { kanji = kanji; components = components })

  unfoldable pub read_data : RecordKind → Step c.Reader RecordData
  read_data RecordKind.jmdict = do r ← read_jmdict; pure (RecordData.jmdict r)
  read_data RecordKind.jmnedict = do r ← read_jmnedict; pure (RecordData.jmnedict r)
  read_data RecordKind.kanjidic = do r ← read_kanjidic; pure (RecordData.kanjidic r)
  read_data RecordKind.yomitan_term = do r ← read_yomitan_term; pure (RecordData.yomitan_term r)
  read_data RecordKind.yomitan_kanji = do r ← read_yomitan_kanji; pure (RecordData.yomitan_kanji r)
  read_data RecordKind.pitch_accent = do r ← read_pitch_accent; pure (RecordData.pitch_accent r)
  read_data RecordKind.custom_word = do r ← read_custom_word; pure (RecordData.custom_word r)
  read_data RecordKind.custom_name = do r ← read_custom_name; pure (RecordData.custom_name r)
  read_data RecordKind.frequency = do r ← read_frequency; pure (RecordData.frequency r)
  read_data RecordKind.kanji_examples = do
    r ← read_kanji_examples
    pure (RecordData.kanji_examples r)
  read_data RecordKind.kanji_components = do
    r ← read_kanji_components
    pure (RecordData.kanji_components r)

  -- The header, or `none` for one that its tests refuse.
  unfoldable pub read_header : Step c.Reader (Option PayloadHeader)
  read_header = do
    enter c
    version ← number c
    k ← number c
    λ r. some (if c.failed r then none else checked_header version (header_kind k), r)

  abbrev pub is_current : ℤ → Bool
  is_current (pos version) = version == codec_version
  is_current (negsuc n) = false

  -- The fields behind a header of the version that is written, without an error of the reader.
  unfoldable pub read_fields : Option PayloadHeader → Step c.Reader RecordData
  read_fields none r = none
  read_fields (some header) r =
      let read =
        then_with (read_data header.kind r)
          λ value r'. if c.failed r' then none else some (value, r') in
      if is_current header.version then read else none

  abbrev pub record_of : DictType → Option (RecordData × c.Reader) → Option Record
  record_of t none = none
  record_of t (some (value, r)) = some (record { id = pos 0; dict_type = t; payload = value })

  unfoldable pub read_record : DictType → c.Bytes → Option Record
  read_record t payload = record_of t (then_with (read_header (c.open_reader payload)) read_fields)
