-- ===== src/Dict/Codec/Payload.antt =====
-- The decode functions of src/dict/codec.cpp, the payload header, and the two entry points.
use marupop.Prelude.{ℕ, true, Option, none, some, ◌==◌, if◌then◌else◌}
use marupop.Prelude.Int.{ℤ, pos, negsuc, to_int32}
use marupop.Dict.Records.{
  JmdictRecord, JmnedictRecord, KanjidicRecord, YomitanTermRecord, YomitanKanjiRecord,
  PitchAccentRecord, CustomWordRecord, CustomNameRecord, FrequencyRecord, KanjiExamplesRecord,
  KanjiComponentsRecord, RecordKind, RecordData, DictType, Record,
}
use marupop.Dict.Cbor.{Cbor}
use marupop.Dict.Codec.Encoder.{codec_version}
use marupop.Dict.Codec.Decoder.{Decoder, M, ◌>>=◌, ◌>>◌, pure, is_ok, enter_array, number}
use marupop.Dict.Codec.Decoder as D

-- static_cast<RecordKind>(kind) behind readHeader()'s range test.
unfoldable pub kind_of_number : ℕ → Option RecordKind
kind_of_number n =
    if n == 0
    then some RecordKind.jmdict
    else if n == 1
    then some RecordKind.jmnedict
    else if n == 2
    then some RecordKind.kanjidic
    else if n == 3
    then some RecordKind.yomitan_term
    else if n == 4
    then some RecordKind.yomitan_kanji
    else if n == 5
    then some RecordKind.pitch_accent
    else if n == 6
    then some RecordKind.custom_word
    else if n == 7
    then some RecordKind.custom_name
    else if n == 8
    then some RecordKind.frequency
    else if n == 9
    then some RecordKind.kanji_examples
    else if n == 10
    then some RecordKind.kanji_components
    else none

unfoldable pub header_kind : ℤ → Option RecordKind
header_kind (pos n) = kind_of_number n
header_kind (negsuc n) = none

-- `none` is a header that is not ok.
pub record PayloadHeader : Type 0 where
  pub version : ℤ
  pub kind : RecordKind

-- static_cast<int>(version), behind the test of the kind.
unfoldable pub checked_header : ℤ → Option RecordKind → Option PayloadHeader
checked_header version none = none
checked_header version (some k) = some (record { version = to_int32 version; kind = k })

module _ (c : Cbor) where
  unfoldable pub read_header : M c (Option PayloadHeader)
  unfolding checked_header
  read_header = do
    entered ← enter_array c
    if entered
        then (do
          version ← number c
          k ← number c
          λ d. (if is_ok c d then checked_header version (header_kind k) else none, d))
        else pure none

  unfoldable pub decode_jmdict : M c JmdictRecord
  decode_jmdict = do
    entry_id ← D.int32 c
    primary_spelling ← D.string c
    primary_spelling_orthography_info ← D.string_list c
    alternative_spellings ← D.string_list c
    alternative_spellings_orthography_info ← D.string_list_list c
    readings ← D.string_list c
    readings_orthography_info ← D.string_list_list c
    definitions ← D.string_list_list c
    word_classes ← D.sense_tags c
    fields ← D.sense_tags c
    misc ← D.sense_tags c
    dialects ← D.sense_tags c
    spelling_restrictions ← D.string_list_list c
    reading_restrictions ← D.string_list_list c
    definition_info ← D.string_list c
    cross_references ← D.string_list_list c
    loanword_etymology ← D.loanword_sources c
    info ← D.string_list c
    priority_rank ← D.int32 c
    pure (record {
      entry_id = entry_id;
      primary_spelling = primary_spelling;
      primary_spelling_orthography_info = primary_spelling_orthography_info;
      alternative_spellings = alternative_spellings;
      alternative_spellings_orthography_info = alternative_spellings_orthography_info;
      readings = readings;
      readings_orthography_info = readings_orthography_info;
      definitions = definitions;
      word_classes = word_classes;
      fields = fields;
      misc = misc;
      dialects = dialects;
      spelling_restrictions = spelling_restrictions;
      reading_restrictions = reading_restrictions;
      definition_info = definition_info;
      cross_references = cross_references;
      loanword_etymology = loanword_etymology;
      info = info;
      priority_rank = priority_rank;
    })

  unfoldable pub decode_jmnedict : M c JmnedictRecord
  decode_jmnedict = do
    entry_id ← D.int32 c
    primary_spelling ← D.string c
    alternative_spellings ← D.string_list c
    readings ← D.string_list c
    definitions ← D.string_list_list c
    name_types ← D.string_list_list c
    pure (record {
      entry_id = entry_id;
      primary_spelling = primary_spelling;
      alternative_spellings = alternative_spellings;
      readings = readings;
      definitions = definitions;
      name_types = name_types;
    })

  unfoldable pub decode_kanjidic : M c KanjidicRecord
  decode_kanjidic = do
    definitions ← D.string_list c
    on_readings ← D.string_list c
    kun_readings ← D.string_list c
    nanori_readings ← D.string_list c
    radical_names ← D.string_list c
    stroke_count ← D.uint8 c
    grade ← D.uint8 c
    frequency ← D.int32 c
    pure (record {
      definitions = definitions;
      on_readings = on_readings;
      kun_readings = kun_readings;
      nanori_readings = nanori_readings;
      radical_names = radical_names;
      stroke_count = stroke_count;
      grade = grade;
      frequency = frequency;
    })

  unfoldable pub decode_yomitan_term : M c YomitanTermRecord
  decode_yomitan_term = do
    primary_spelling ← D.string c
    reading ← D.string c
    popularity_score ← D.real c
    definitions ← D.string_list c
    definitions_plain ← D.string_list c
    word_classes ← D.string_list c
    definition_tags ← D.string_list c
    term_tags ← D.string_list c
    images ← D.image_list c
    sequence ← D.int32 c
    pure (record {
      primary_spelling = primary_spelling;
      reading = reading;
      popularity_score = popularity_score;
      definitions = definitions;
      definitions_plain = definitions_plain;
      word_classes = word_classes;
      definition_tags = definition_tags;
      term_tags = term_tags;
      images = images;
      sequence = sequence;
    })

  unfoldable pub decode_yomitan_kanji : M c YomitanKanjiRecord
  decode_yomitan_kanji = do
    on_readings ← D.string_list c
    kun_readings ← D.string_list c
    tags ← D.string_list c
    definitions ← D.string_list c
    stats ← D.string_list c
    pure (record {
      on_readings = on_readings;
      kun_readings = kun_readings;
      tags = tags;
      definitions = definitions;
      stats = stats;
    })

  unfoldable pub decode_pitch_accent : M c PitchAccentRecord
  decode_pitch_accent = do
    spelling ← D.string c
    reading ← D.string c
    positions ← D.byte_list c
    pure (record { spelling = spelling; reading = reading; positions = positions })

  unfoldable pub decode_custom_word : M c CustomWordRecord
  decode_custom_word = do
    primary_spelling ← D.string c
    alternative_spellings ← D.string_list c
    readings ← D.string_list c
    definitions ← D.string_list c
    word_classes ← D.string_list c
    has_user_defined_word_class ← D.boolean c
    pure (record {
      primary_spelling = primary_spelling;
      alternative_spellings = alternative_spellings;
      readings = readings;
      definitions = definitions;
      word_classes = word_classes;
      has_user_defined_word_class = has_user_defined_word_class;
    })

  unfoldable pub decode_custom_name : M c CustomNameRecord
  decode_custom_name = do
    primary_spelling ← D.string c
    reading ← D.string c
    name_type ← D.string c
    extra_info ← D.string c
    image ← D.optional_image c
    pure (record {
      primary_spelling = primary_spelling;
      reading = reading;
      name_type = name_type;
      extra_info = extra_info;
      image = image;
    })

  unfoldable pub decode_frequency : M c FrequencyRecord
  decode_frequency = do
    spelling ← D.string c
    frequency ← D.int32 c
    pure (record { spelling = spelling; frequency = frequency })

  unfoldable pub decode_kanji_examples : M c KanjiExamplesRecord
  decode_kanji_examples = do
    kanji ← D.string c
    examples ← D.kanji_examples c
    pure (record { kanji = kanji; examples = examples })

  unfoldable pub decode_kanji_components : M c KanjiComponentsRecord
  decode_kanji_components = do
    kanji ← D.string c
    components ← D.string_list c
    pure (record { kanji = kanji; components = components })

  -- The switch over the header's kind.
  unfoldable pub decode_data : RecordKind → M c RecordData
  decode_data RecordKind.jmdict = do r ← decode_jmdict; pure (RecordData.jmdict r)
  decode_data RecordKind.jmnedict = do r ← decode_jmnedict; pure (RecordData.jmnedict r)
  decode_data RecordKind.kanjidic = do r ← decode_kanjidic; pure (RecordData.kanjidic r)
  decode_data RecordKind.yomitan_term = do r ← decode_yomitan_term; pure (RecordData.yomitan_term r)
  decode_data RecordKind.yomitan_kanji = do
    r ← decode_yomitan_kanji
    pure (RecordData.yomitan_kanji r)
  decode_data RecordKind.pitch_accent = do r ← decode_pitch_accent; pure (RecordData.pitch_accent r)
  decode_data RecordKind.custom_word = do r ← decode_custom_word; pure (RecordData.custom_word r)
  decode_data RecordKind.custom_name = do r ← decode_custom_name; pure (RecordData.custom_name r)
  decode_data RecordKind.frequency = do r ← decode_frequency; pure (RecordData.frequency r)
  decode_data RecordKind.kanji_examples = do
    r ← decode_kanji_examples
    pure (RecordData.kanji_examples r)
  decode_data RecordKind.kanji_components = do
    r ← decode_kanji_components
    pure (RecordData.kanji_components r)

  unfoldable pub start : c.Bytes → Decoder c
  start payload = record { reader = c.open_reader payload; ok = true }

  -- The version test and the fields, behind a header that was read.
  unfoldable pub decode_body : DictType → Option PayloadHeader → Decoder c → Option Record
  decode_body t none d = none
  decode_body t (some header) d =
      let (value, d') = decode_data header.kind d in
      elim (header.version) [
        | pos n ↦
            if n == codec_version
            then (if is_ok c d'
                then some (record { id = pos 0; dict_type = t; payload = value })
                else none)
            else none
        | negsuc n ↦ none
      ]

  unfoldable pub decode_record : DictType → c.Bytes → Option Record
  decode_record t payload = let (header, d) = read_header (start payload) in decode_body t header d

  unfoldable pub body_kind : Option PayloadHeader → Option RecordKind
  body_kind none = none
  body_kind (some header) = elim (header.version) [
    | pos n ↦ if n == codec_version then some header.kind else none
    | negsuc n ↦ none
  ]

  unfoldable pub payload_kind : c.Bytes → Option RecordKind
  payload_kind payload = body_kind (read_header (start payload)).0
