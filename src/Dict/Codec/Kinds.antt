-- ===== src/Dict/Codec/Kinds.antt =====
-- The decode function of each record shape on what its encode function wrote (src/dict/codec.cpp).
use marupop.Dict.Records.{
  JmdictRecord, JmnedictRecord, KanjidicRecord, YomitanTermRecord, YomitanKanjiRecord,
  PitchAccentRecord, CustomWordRecord, CustomNameRecord, FrequencyRecord, KanjiExamplesRecord,
  KanjiComponentsRecord, RecordData, data_kind,
}
use marupop.Prelude.{ℕ, List}
use marupop.Dict.Cbor.{Cbor, CborLaws, Call}
use marupop.Dict.Codec.Encoder as E
use marupop.Dict.Codec.Decoder.{M}
use marupop.Dict.Codec.Payload as P
use marupop.Dict.Codec.Valid.{
  IsValidJmdict, IsValidJmnedict, IsValidKanjidic, IsValidYomitanTerm, IsValidYomitanKanji,
  IsValidPitchAccent, IsValidCustomWord, IsValidCustomName, IsValidFrequency, IsValidKanjiExamples,
  IsValidKanjiComponents, IsValidData,
}
use marupop.Dict.Codec.Codes as K
use marupop.Dict.Codec.Fields as F
use marupop.Dict.Codec.Shapes as S

-- The number of fields of a record of each kind.
abbrev pub width : RecordData → ℕ
width (RecordData.jmdict r) = 19
width (RecordData.jmnedict r) = 6
width (RecordData.kanjidic r) = 8
width (RecordData.yomitan_term r) = 10
width (RecordData.yomitan_kanji r) = 5
width (RecordData.pitch_accent r) = 3
width (RecordData.custom_word r) = 6
width (RecordData.custom_name r) = 5
width (RecordData.frequency r) = 2
width (RecordData.kanji_examples r) = 2
width (RecordData.kanji_components r) = 2

module _ (c : Cbor) (laws : CborLaws c) where
  abbrev Codes : {A : Type 0} → ℕ → M c A → List Call → A → Type 0
  Codes = K.Codes c laws

  jmdict-codes :
      (r : JmdictRecord) → IsValidJmdict r → Codes 19 (P.decode_jmdict c) (E.encode_jmdict r) r
  unfolding P.decode_jmdict E.encode_jmdict
  jmdict-codes r v = K.Codes-bind c laws _ (F.Codes-int32 c laws r.entry_id v.entry_id) (
      K.Codes-bind c laws _ (F.Codes-string c laws r.primary_spelling v.primary_spelling) (
        K.Codes-bind c laws _
          (F.Codes-string_list c laws r.primary_spelling_orthography_info
            v.primary_spelling_orthography_info)
          (K.Codes-bind c laws _
            (F.Codes-string_list c laws r.alternative_spellings v.alternative_spellings)
            (K.Codes-bind c laws _
              (F.Codes-string_list_list c laws r.alternative_spellings_orthography_info
                v.alternative_spellings_orthography_info)
              (K.Codes-bind c laws _ (F.Codes-string_list c laws r.readings v.readings) (
                K.Codes-bind c laws _
                  (F.Codes-string_list_list c laws r.readings_orthography_info
                    v.readings_orthography_info)
                  (K.Codes-bind c laws _
                    (F.Codes-string_list_list c laws r.definitions v.definitions)
                    (K.Codes-bind c laws _ (S.Codes-sense_tags c laws r.word_classes v.word_classes)
                      (K.Codes-bind c laws _ (S.Codes-sense_tags c laws r.fields v.fields) (
                        K.Codes-bind c laws _ (S.Codes-sense_tags c laws r.misc v.misc) (
                          K.Codes-bind c laws _ (S.Codes-sense_tags c laws r.dialects v.dialects) (
                            K.Codes-bind c laws _
                              (F.Codes-string_list_list c laws r.spelling_restrictions
                                v.spelling_restrictions)
                              (K.Codes-bind c laws _
                                (F.Codes-string_list_list c laws r.reading_restrictions
                                  v.reading_restrictions)
                                (K.Codes-bind c laws _
                                  (F.Codes-string_list c laws r.definition_info v.definition_info)
                                  (K.Codes-bind c laws _
                                    (F.Codes-string_list_list c laws r.cross_references
                                      v.cross_references)
                                    (K.Codes-bind c laws _
                                      (S.Codes-loanword_sources c laws r.loanword_etymology
                                        v.loanword_etymology)
                                      (K.Codes-bind c laws _
                                        (F.Codes-string_list c laws r.info v.info)
                                        (K.Codes-map c laws _ (
                                          F.Codes-int32 c laws r.priority_rank
                                            v.priority_rank)))))))))))))))))))

  jmnedict-codes :
      (r : JmnedictRecord)
      → IsValidJmnedict r
      → Codes 6 (P.decode_jmnedict c) (E.encode_jmnedict r) r
  unfolding P.decode_jmnedict E.encode_jmnedict
  jmnedict-codes r v = K.Codes-bind c laws _ (F.Codes-int32 c laws r.entry_id v.entry_id) (
      K.Codes-bind c laws _ (F.Codes-string c laws r.primary_spelling v.primary_spelling) (
        K.Codes-bind c laws _
          (F.Codes-string_list c laws r.alternative_spellings v.alternative_spellings)
          (K.Codes-bind c laws _ (F.Codes-string_list c laws r.readings v.readings) (
            K.Codes-bind c laws _ (F.Codes-string_list_list c laws r.definitions v.definitions)
              (K.Codes-map c laws _ (F.Codes-string_list_list c laws r.name_types v.name_types))))))

  kanjidic-codes :
      (r : KanjidicRecord)
      → IsValidKanjidic r
      → Codes 8 (P.decode_kanjidic c) (E.encode_kanjidic r) r
  unfolding P.decode_kanjidic E.encode_kanjidic
  kanjidic-codes r v =
      K.Codes-bind c laws _ (F.Codes-string_list c laws r.definitions v.definitions) (
        K.Codes-bind c laws _ (F.Codes-string_list c laws r.on_readings v.on_readings) (
          K.Codes-bind c laws _ (F.Codes-string_list c laws r.kun_readings v.kun_readings) (
            K.Codes-bind c laws _ (F.Codes-string_list c laws r.nanori_readings v.nanori_readings) (
              K.Codes-bind c laws _ (F.Codes-string_list c laws r.radical_names v.radical_names) (
                K.Codes-bind c laws _ (F.Codes-uint8 c laws r.stroke_count v.stroke_count) (
                  K.Codes-bind c laws _ (F.Codes-uint8 c laws r.grade v.grade)
                    (K.Codes-map c laws _ (F.Codes-int32 c laws r.frequency v.frequency))))))))

  yomitan_term-codes :
      (r : YomitanTermRecord)
      → IsValidYomitanTerm r
      → Codes 10 (P.decode_yomitan_term c) (E.encode_yomitan_term r) r
  unfolding P.decode_yomitan_term E.encode_yomitan_term
  yomitan_term-codes r v =
      K.Codes-bind c laws _ (F.Codes-string c laws r.primary_spelling v.primary_spelling) (
        K.Codes-bind c laws _ (F.Codes-string c laws r.reading v.reading) (
          K.Codes-bind c laws _ (F.Codes-real c laws r.popularity_score) (
            K.Codes-bind c laws _ (F.Codes-string_list c laws r.definitions v.definitions) (
              K.Codes-bind c laws _
                (F.Codes-string_list c laws r.definitions_plain v.definitions_plain)
                (K.Codes-bind c laws _ (F.Codes-string_list c laws r.word_classes v.word_classes) (
                  K.Codes-bind c laws _
                    (F.Codes-string_list c laws r.definition_tags v.definition_tags)
                    (K.Codes-bind c laws _ (F.Codes-string_list c laws r.term_tags v.term_tags) (
                      K.Codes-bind c laws _ (S.Codes-image_list c laws r.images v.images)
                        (K.Codes-map c laws _ (F.Codes-int32 c laws r.sequence v.sequence))))))))))

  yomitan_kanji-codes :
      (r : YomitanKanjiRecord)
      → IsValidYomitanKanji r
      → Codes 5 (P.decode_yomitan_kanji c) (E.encode_yomitan_kanji r) r
  unfolding P.decode_yomitan_kanji E.encode_yomitan_kanji
  yomitan_kanji-codes r v =
      K.Codes-bind c laws _ (F.Codes-string_list c laws r.on_readings v.on_readings) (
        K.Codes-bind c laws _ (F.Codes-string_list c laws r.kun_readings v.kun_readings) (
          K.Codes-bind c laws _ (F.Codes-string_list c laws r.tags v.tags) (
            K.Codes-bind c laws _ (F.Codes-string_list c laws r.definitions v.definitions)
              (K.Codes-map c laws _ (F.Codes-string_list c laws r.stats v.stats)))))

  pitch_accent-codes :
      (r : PitchAccentRecord)
      → IsValidPitchAccent r
      → Codes 3 (P.decode_pitch_accent c) (E.encode_pitch_accent r) r
  unfolding P.decode_pitch_accent E.encode_pitch_accent
  pitch_accent-codes r v = K.Codes-bind c laws _ (F.Codes-string c laws r.spelling v.spelling) (
      K.Codes-bind c laws _ (F.Codes-string c laws r.reading v.reading)
        (K.Codes-map c laws _ (F.Codes-byte_list c laws r.positions v.positions)))

  custom_word-codes :
      (r : CustomWordRecord)
      → IsValidCustomWord r
      → Codes 6 (P.decode_custom_word c) (E.encode_custom_word r) r
  unfolding P.decode_custom_word E.encode_custom_word
  custom_word-codes r v =
      K.Codes-bind c laws _ (F.Codes-string c laws r.primary_spelling v.primary_spelling) (
        K.Codes-bind c laws _
          (F.Codes-string_list c laws r.alternative_spellings v.alternative_spellings)
          (K.Codes-bind c laws _ (F.Codes-string_list c laws r.readings v.readings) (
            K.Codes-bind c laws _ (F.Codes-string_list c laws r.definitions v.definitions) (
              K.Codes-bind c laws _ (F.Codes-string_list c laws r.word_classes v.word_classes)
                (K.Codes-map c laws _ (F.Codes-boolean c laws r.has_user_defined_word_class))))))

  custom_name-codes :
      (r : CustomNameRecord)
      → IsValidCustomName r
      → Codes 5 (P.decode_custom_name c) (E.encode_custom_name r) r
  unfolding P.decode_custom_name E.encode_custom_name
  custom_name-codes r v =
      K.Codes-bind c laws _ (F.Codes-string c laws r.primary_spelling v.primary_spelling) (
        K.Codes-bind c laws _ (F.Codes-string c laws r.reading v.reading) (
          K.Codes-bind c laws _ (F.Codes-string c laws r.name_type v.name_type) (
            K.Codes-bind c laws _ (F.Codes-string c laws r.extra_info v.extra_info)
              (K.Codes-map c laws _ (S.Codes-optional_image c laws r.image v.image)))))

  frequency-codes :
      (r : FrequencyRecord)
      → IsValidFrequency r
      → Codes 2 (P.decode_frequency c) (E.encode_frequency r) r
  unfolding P.decode_frequency E.encode_frequency
  frequency-codes r v =
      K.Codes-bind c laws _ (F.Codes-string c laws r.spelling v.spelling)
        (K.Codes-map c laws _ (F.Codes-int32 c laws r.frequency v.frequency))

  kanji_examples-codes :
      (r : KanjiExamplesRecord)
      → IsValidKanjiExamples r
      → Codes 2 (P.decode_kanji_examples c) (E.encode_kanji_examples r) r
  unfolding P.decode_kanji_examples E.encode_kanji_examples
  kanji_examples-codes r v =
      K.Codes-bind c laws _ (F.Codes-string c laws r.kanji v.kanji)
        (K.Codes-map c laws _ (S.Codes-kanji_examples c laws r.examples v.examples))

  kanji_components-codes :
      (r : KanjiComponentsRecord)
      → IsValidKanjiComponents r
      → Codes 2 (P.decode_kanji_components c) (E.encode_kanji_components r) r
  unfolding P.decode_kanji_components E.encode_kanji_components
  kanji_components-codes r v =
      K.Codes-bind c laws _ (F.Codes-string c laws r.kanji v.kanji)
        (K.Codes-map c laws _ (F.Codes-string_list c laws r.components v.components))

  -- The switch over the kind picks the record's own decode function.
  pub encode_data-codes :
      (r : RecordData)
      → IsValidData r
      → Codes (width r) (P.decode_data c (data_kind r)) (E.encode_data r) r
  unfolding P.decode_data E.encode_data data_kind
  encode_data-codes (RecordData.jmdict r) v =
      K.Codes-map c laws RecordData.jmdict (jmdict-codes r v)
  encode_data-codes (RecordData.jmnedict r) v =
      K.Codes-map c laws RecordData.jmnedict (jmnedict-codes r v)
  encode_data-codes (RecordData.kanjidic r) v =
      K.Codes-map c laws RecordData.kanjidic (kanjidic-codes r v)
  encode_data-codes (RecordData.yomitan_term r) v =
      K.Codes-map c laws RecordData.yomitan_term (yomitan_term-codes r v)
  encode_data-codes (RecordData.yomitan_kanji r) v =
      K.Codes-map c laws RecordData.yomitan_kanji (yomitan_kanji-codes r v)
  encode_data-codes (RecordData.pitch_accent r) v =
      K.Codes-map c laws RecordData.pitch_accent (pitch_accent-codes r v)
  encode_data-codes (RecordData.custom_word r) v =
      K.Codes-map c laws RecordData.custom_word (custom_word-codes r v)
  encode_data-codes (RecordData.custom_name r) v =
      K.Codes-map c laws RecordData.custom_name (custom_name-codes r v)
  encode_data-codes (RecordData.frequency r) v =
      K.Codes-map c laws RecordData.frequency (frequency-codes r v)
  encode_data-codes (RecordData.kanji_examples r) v =
      K.Codes-map c laws RecordData.kanji_examples (kanji_examples-codes r v)
  encode_data-codes (RecordData.kanji_components r) v =
      K.Codes-map c laws RecordData.kanji_components (kanji_components-codes r v)
