-- ===== src/Dict/Codec/Encoder.antt =====
-- The class Encoder and the encode functions of src/dict/codec.cpp. An operation is the list of the
-- writer's calls that it makes, in order.
use marupop.Prelude.{ℕ, Bool, Option, none, some, List, [], ◌∷◌, ◌++◌, length}
use marupop.Prelude.Int.{ℤ}
use marupop.Dict.Records.{
  Text, Double, ImageInfo, SenseTags, LoanwordSource, JmdictRecord, JmnedictRecord, KanjidicRecord,
  YomitanTermRecord, YomitanKanjiRecord, PitchAccentRecord, CustomWordRecord, CustomNameRecord,
  FrequencyRecord, KanjiExample, KanjiExamplesRecord, KanjiComponentsRecord, RecordKind, RecordData,
  Record, kind,
}
use marupop.Dict.Cbor.{
  Call, start_open_array, start_array, end_array, unsigned, integer, double, boolean, text, null,
}

abbrev pub codec_version : ℕ
codec_version = 1

-- static_cast<quint64>(kind).
unfoldable pub kind_number : RecordKind → ℕ
kind_number RecordKind.jmdict = 0
kind_number RecordKind.jmnedict = 1
kind_number RecordKind.kanjidic = 2
kind_number RecordKind.yomitan_term = 3
kind_number RecordKind.yomitan_kanji = 4
kind_number RecordKind.pitch_accent = 5
kind_number RecordKind.custom_word = 6
kind_number RecordKind.custom_name = 7
kind_number RecordKind.frequency = 8
kind_number RecordKind.kanji_examples = 9
kind_number RecordKind.kanji_components = 10

-- The loop of every list operation.
unfoldable pub for_each {ℓ} : {A : Type ℓ} → (A → List Call) → List A → List Call
for_each f [] = []
for_each f (x ∷ xs) = f x ++ for_each f xs

-- An array of definite length around the calls for each value.
unfoldable pub array_of {ℓ} : {A : Type ℓ} → (A → List Call) → List A → List Call
array_of f values = start_array (length values) ∷ (for_each f values ++ (end_array ∷ []))

unfoldable pub start_record : RecordKind → List Call
start_record k = start_open_array ∷ unsigned codec_version ∷ unsigned (kind_number k) ∷ []

unfoldable pub end_record : List Call
end_record = end_array ∷ []

unfoldable pub number : ℤ → List Call
number value = integer value ∷ []

-- `encoder.number` of a quint8 field.
unfoldable pub number_of_byte : ℕ → List Call
number_of_byte value = integer (ℤ.pos value) ∷ []

unfoldable pub real : Double → List Call
real value = double value ∷ []

unfoldable pub bool_call : Bool → List Call
bool_call value = boolean value ∷ []

unfoldable pub string : Text → List Call
string value = text value ∷ []

unfoldable pub string_list : List Text → List Call
string_list = array_of string

unfoldable pub byte_call : ℕ → List Call
byte_call value = unsigned value ∷ []

unfoldable pub byte_list : List ℕ → List Call
byte_list = array_of byte_call

unfoldable pub string_list_list : List (List Text) → List Call
string_list_list = array_of string_list

unfoldable pub sense_tags : SenseTags → List Call
sense_tags tags =
    start_array 2
    ∷ ((string_list tags.shared_by_all_senses ++ string_list_list tags.per_sense)
        ++ (end_array ∷ []))

unfoldable pub image : ImageInfo → List Call
image info =
    start_array 5
    ∷ ((string info.path
          ++ (number info.pixel_width
              ++ (number info.pixel_height ++ (real info.width ++ real info.height))))
        ++ (end_array ∷ []))

unfoldable pub optional_image : Option ImageInfo → List Call
optional_image none = null ∷ []
optional_image (some info) = image info

unfoldable pub image_list : List ImageInfo → List Call
image_list = array_of image

unfoldable pub loanword_source : LoanwordSource → List Call
loanword_source source =
    start_array 4
    ∷ ((string source.language
          ++ (string source.original_word
              ++ (bool_call source.is_part ++ bool_call source.is_wasei)))
        ++ (end_array ∷ []))

unfoldable pub loanword_sources : List LoanwordSource → List Call
loanword_sources = array_of loanword_source

unfoldable pub kanji_example : KanjiExample → List Call
kanji_example example =
    start_array 3
    ∷ ((string example.spelling ++ (string example.reading ++ string example.gloss))
        ++ (end_array ∷ []))

unfoldable pub kanji_examples : List KanjiExample → List Call
kanji_examples = array_of kanji_example

unfoldable pub encode_jmdict : JmdictRecord → List Call
encode_jmdict r =
    number r.entry_id
    ++ (string r.primary_spelling
        ++ (string_list r.primary_spelling_orthography_info
            ++ (string_list r.alternative_spellings
                ++ (string_list_list r.alternative_spellings_orthography_info
                    ++ (string_list r.readings
                        ++ (string_list_list r.readings_orthography_info
                            ++ (string_list_list r.definitions
                                ++ (sense_tags r.word_classes
                                    ++ (sense_tags r.fields
                                        ++ (sense_tags r.misc
                                            ++ (sense_tags r.dialects
                                                ++ (string_list_list r.spelling_restrictions
                                                    ++ (string_list_list r.reading_restrictions
                                                        ++ (string_list r.definition_info
                                                            ++ (string_list_list r.cross_references
                                                            ++ (loanword_sources
                                                            r.loanword_etymology
                                                            ++ (string_list r.info
                                                            ++ number
                                                            r.priority_rank)))))))))))))))))

unfoldable pub encode_jmnedict : JmnedictRecord → List Call
encode_jmnedict r =
    number r.entry_id
    ++ (string r.primary_spelling
        ++ (string_list r.alternative_spellings
            ++ (string_list r.readings
                ++ (string_list_list r.definitions ++ string_list_list r.name_types))))

unfoldable pub encode_kanjidic : KanjidicRecord → List Call
encode_kanjidic r =
    string_list r.definitions
    ++ (string_list r.on_readings
        ++ (string_list r.kun_readings
            ++ (string_list r.nanori_readings
                ++ (string_list r.radical_names
                    ++ (number_of_byte r.stroke_count
                        ++ (number_of_byte r.grade ++ number r.frequency))))))

unfoldable pub encode_yomitan_term : YomitanTermRecord → List Call
encode_yomitan_term r =
    string r.primary_spelling
    ++ (string r.reading
        ++ (real r.popularity_score
            ++ (string_list r.definitions
                ++ (string_list r.definitions_plain
                    ++ (string_list r.word_classes
                        ++ (string_list r.definition_tags
                            ++ (string_list r.term_tags
                                ++ (image_list r.images ++ number r.sequence))))))))

unfoldable pub encode_yomitan_kanji : YomitanKanjiRecord → List Call
encode_yomitan_kanji r =
    string_list r.on_readings
    ++ (string_list r.kun_readings
        ++ (string_list r.tags ++ (string_list r.definitions ++ string_list r.stats)))

unfoldable pub encode_pitch_accent : PitchAccentRecord → List Call
encode_pitch_accent r = string r.spelling ++ (string r.reading ++ byte_list r.positions)

unfoldable pub encode_custom_word : CustomWordRecord → List Call
encode_custom_word r =
    string r.primary_spelling
    ++ (string_list r.alternative_spellings
        ++ (string_list r.readings
            ++ (string_list r.definitions
                ++ (string_list r.word_classes ++ bool_call r.has_user_defined_word_class))))

unfoldable pub encode_custom_name : CustomNameRecord → List Call
encode_custom_name r =
    string r.primary_spelling
    ++ (string r.reading ++ (string r.name_type ++ (string r.extra_info ++ optional_image r.image)))

unfoldable pub encode_frequency : FrequencyRecord → List Call
encode_frequency r = string r.spelling ++ number r.frequency

unfoldable pub encode_kanji_examples : KanjiExamplesRecord → List Call
encode_kanji_examples r = string r.kanji ++ kanji_examples r.examples

unfoldable pub encode_kanji_components : KanjiComponentsRecord → List Call
encode_kanji_components r = string r.kanji ++ string_list r.components

-- std::visit over the record's data.
unfoldable pub encode_data : RecordData → List Call
encode_data (RecordData.jmdict r) = encode_jmdict r
encode_data (RecordData.jmnedict r) = encode_jmnedict r
encode_data (RecordData.kanjidic r) = encode_kanjidic r
encode_data (RecordData.yomitan_term r) = encode_yomitan_term r
encode_data (RecordData.yomitan_kanji r) = encode_yomitan_kanji r
encode_data (RecordData.pitch_accent r) = encode_pitch_accent r
encode_data (RecordData.custom_word r) = encode_custom_word r
encode_data (RecordData.custom_name r) = encode_custom_name r
encode_data (RecordData.frequency r) = encode_frequency r
encode_data (RecordData.kanji_examples r) = encode_kanji_examples r
encode_data (RecordData.kanji_components r) = encode_kanji_components r

unfoldable pub encode_record : Record → List Call
encode_record record_ = start_record (kind record_) ++ (encode_data record_.payload ++ end_record)
