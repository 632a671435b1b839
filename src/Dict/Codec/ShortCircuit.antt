-- ===== src/Dict/Codec/ShortCircuit.antt =====
-- "Every read checks m_ok first, so one malformed field short-circuits the rest of the record": the
-- flag of the class Decoder in src/dict/codec.cpp, over any CBOR library.
use marupop.Prelude.{◌≡◌, sym, ap, ◌∙◌, Option, none, some, if◌then◌else◌, arith}
use marupop.Prelude.Int.{ℤ, pos, negsuc}
use marupop.Dict.Records.{RecordKind, RecordData, DictType}
use marupop.Dict.Cbor.{Cbor}
use marupop.Dict.Codec.Decoder.{Decoder, is_ok}
use marupop.Dict.Codec.Payload.{
  PayloadHeader, checked_header, header_kind, start, decode_body, decode_record,
}
use marupop.Dict.Codec.Payload as P
use marupop.Dict.Codec.FailFast.{Step, then_with}
use marupop.Dict.Codec.FailFast.Kinds as K
use marupop.Dict.Codec.FailFast.Refines.{outcome, IsFailFast}
use marupop.Dict.Codec.FailFast.Refines as R

module _ (c : Cbor) where
  IsFailFast-decode_jmdict : IsFailFast c (P.decode_jmdict c) (K.read_jmdict c)
  unfolding P.decode_jmdict K.read_jmdict
  IsFailFast-decode_jmdict = R.IsFailFast-bind c (R.IsFailFast-int32 c) λ entry_id.
      R.IsFailFast-bind c (R.IsFailFast-string c) λ primary_spelling.
        R.IsFailFast-bind c (R.IsFailFast-string_list c) λ primary_spelling_orthography_info.
          R.IsFailFast-bind c (R.IsFailFast-string_list c) λ alternative_spellings.
            R.IsFailFast-bind c (R.IsFailFast-string_list_list c)
              λ alternative_spellings_orthography_info.
                R.IsFailFast-bind c (R.IsFailFast-string_list c) λ readings.
                  R.IsFailFast-bind c (R.IsFailFast-string_list_list c) λ readings_orthography_info.
                    R.IsFailFast-bind c (R.IsFailFast-string_list_list c) λ definitions.
                      R.IsFailFast-bind c (R.IsFailFast-sense_tags c) λ word_classes.
                        R.IsFailFast-bind c (R.IsFailFast-sense_tags c) λ fields.
                          R.IsFailFast-bind c (R.IsFailFast-sense_tags c) λ misc.
                            R.IsFailFast-bind c (R.IsFailFast-sense_tags c) λ dialects.
                              R.IsFailFast-bind c (R.IsFailFast-string_list_list c)
                                λ spelling_restrictions.
                                  R.IsFailFast-bind c (R.IsFailFast-string_list_list c)
                                    λ reading_restrictions.
                                      R.IsFailFast-bind c (R.IsFailFast-string_list c)
                                        λ definition_info.
                                          R.IsFailFast-bind c (R.IsFailFast-string_list_list c)
                                            λ cross_references.
                                              R.IsFailFast-bind c (R.IsFailFast-loanword_sources c)
                                                λ loanword_etymology.
                                                  R.IsFailFast-bind c (R.IsFailFast-string_list c)
                                                    λ info.
                                                      R.IsFailFast-bind c (R.IsFailFast-int32 c)
                                                        λ priority_rank. R.IsFailFast-pure c _

  IsFailFast-decode_jmnedict : IsFailFast c (P.decode_jmnedict c) (K.read_jmnedict c)
  unfolding P.decode_jmnedict K.read_jmnedict
  IsFailFast-decode_jmnedict = R.IsFailFast-bind c (R.IsFailFast-int32 c) λ entry_id.
      R.IsFailFast-bind c (R.IsFailFast-string c) λ primary_spelling.
        R.IsFailFast-bind c (R.IsFailFast-string_list c) λ alternative_spellings.
          R.IsFailFast-bind c (R.IsFailFast-string_list c) λ readings.
            R.IsFailFast-bind c (R.IsFailFast-string_list_list c) λ definitions.
              R.IsFailFast-bind c (R.IsFailFast-string_list_list c)
                λ name_types. R.IsFailFast-pure c _

  IsFailFast-decode_kanjidic : IsFailFast c (P.decode_kanjidic c) (K.read_kanjidic c)
  unfolding P.decode_kanjidic K.read_kanjidic
  IsFailFast-decode_kanjidic = R.IsFailFast-bind c (R.IsFailFast-string_list c) λ definitions.
      R.IsFailFast-bind c (R.IsFailFast-string_list c) λ on_readings.
        R.IsFailFast-bind c (R.IsFailFast-string_list c) λ kun_readings.
          R.IsFailFast-bind c (R.IsFailFast-string_list c) λ nanori_readings.
            R.IsFailFast-bind c (R.IsFailFast-string_list c) λ radical_names.
              R.IsFailFast-bind c (R.IsFailFast-uint8 c) λ stroke_count.
                R.IsFailFast-bind c (R.IsFailFast-uint8 c) λ grade.
                  R.IsFailFast-bind c (R.IsFailFast-int32 c) λ frequency. R.IsFailFast-pure c _

  IsFailFast-decode_yomitan_term : IsFailFast c (P.decode_yomitan_term c) (K.read_yomitan_term c)
  unfolding P.decode_yomitan_term K.read_yomitan_term
  IsFailFast-decode_yomitan_term = R.IsFailFast-bind c (R.IsFailFast-string c) λ primary_spelling.
      R.IsFailFast-bind c (R.IsFailFast-string c) λ reading.
        R.IsFailFast-bind c (R.IsFailFast-real c) λ popularity_score.
          R.IsFailFast-bind c (R.IsFailFast-string_list c) λ definitions.
            R.IsFailFast-bind c (R.IsFailFast-string_list c) λ definitions_plain.
              R.IsFailFast-bind c (R.IsFailFast-string_list c) λ word_classes.
                R.IsFailFast-bind c (R.IsFailFast-string_list c) λ definition_tags.
                  R.IsFailFast-bind c (R.IsFailFast-string_list c) λ term_tags.
                    R.IsFailFast-bind c (R.IsFailFast-image_list c) λ images.
                      R.IsFailFast-bind c (R.IsFailFast-int32 c) λ sequence. R.IsFailFast-pure c _

  IsFailFast-decode_yomitan_kanji : IsFailFast c (P.decode_yomitan_kanji c) (K.read_yomitan_kanji c)
  unfolding P.decode_yomitan_kanji K.read_yomitan_kanji
  IsFailFast-decode_yomitan_kanji = R.IsFailFast-bind c (R.IsFailFast-string_list c) λ on_readings.
      R.IsFailFast-bind c (R.IsFailFast-string_list c) λ kun_readings.
        R.IsFailFast-bind c (R.IsFailFast-string_list c) λ tags.
          R.IsFailFast-bind c (R.IsFailFast-string_list c) λ definitions.
            R.IsFailFast-bind c (R.IsFailFast-string_list c) λ stats. R.IsFailFast-pure c _

  IsFailFast-decode_pitch_accent : IsFailFast c (P.decode_pitch_accent c) (K.read_pitch_accent c)
  unfolding P.decode_pitch_accent K.read_pitch_accent
  IsFailFast-decode_pitch_accent = R.IsFailFast-bind c (R.IsFailFast-string c) λ spelling.
      R.IsFailFast-bind c (R.IsFailFast-string c)
        λ reading. R.IsFailFast-bind c (R.IsFailFast-byte_list c) λ positions. R.IsFailFast-pure c _

  IsFailFast-decode_custom_word : IsFailFast c (P.decode_custom_word c) (K.read_custom_word c)
  unfolding P.decode_custom_word K.read_custom_word
  IsFailFast-decode_custom_word = R.IsFailFast-bind c (R.IsFailFast-string c) λ primary_spelling.
      R.IsFailFast-bind c (R.IsFailFast-string_list c) λ alternative_spellings.
        R.IsFailFast-bind c (R.IsFailFast-string_list c) λ readings.
          R.IsFailFast-bind c (R.IsFailFast-string_list c) λ definitions.
            R.IsFailFast-bind c (R.IsFailFast-string_list c) λ word_classes.
              R.IsFailFast-bind c (R.IsFailFast-boolean c)
                λ has_user_defined_word_class. R.IsFailFast-pure c _

  IsFailFast-decode_custom_name : IsFailFast c (P.decode_custom_name c) (K.read_custom_name c)
  unfolding P.decode_custom_name K.read_custom_name
  IsFailFast-decode_custom_name = R.IsFailFast-bind c (R.IsFailFast-string c) λ primary_spelling.
      R.IsFailFast-bind c (R.IsFailFast-string c) λ reading.
        R.IsFailFast-bind c (R.IsFailFast-string c) λ name_type.
          R.IsFailFast-bind c (R.IsFailFast-string c) λ extra_info.
            R.IsFailFast-bind c (R.IsFailFast-optional_image c) λ image. R.IsFailFast-pure c _

  IsFailFast-decode_frequency : IsFailFast c (P.decode_frequency c) (K.read_frequency c)
  unfolding P.decode_frequency K.read_frequency
  IsFailFast-decode_frequency =
      R.IsFailFast-bind c (R.IsFailFast-string c)
        λ spelling. R.IsFailFast-bind c (R.IsFailFast-int32 c) λ frequency. R.IsFailFast-pure c _

  IsFailFast-decode_kanji_examples :
      IsFailFast c (P.decode_kanji_examples c) (K.read_kanji_examples c)
  unfolding P.decode_kanji_examples K.read_kanji_examples
  IsFailFast-decode_kanji_examples =
      R.IsFailFast-bind c (R.IsFailFast-string c) λ kanji.
        R.IsFailFast-bind c (R.IsFailFast-kanji_examples c) λ examples. R.IsFailFast-pure c _

  IsFailFast-decode_kanji_components :
      IsFailFast c (P.decode_kanji_components c) (K.read_kanji_components c)
  unfolding P.decode_kanji_components K.read_kanji_components
  IsFailFast-decode_kanji_components =
      R.IsFailFast-bind c (R.IsFailFast-string c) λ kanji.
        R.IsFailFast-bind c (R.IsFailFast-string_list c) λ components. R.IsFailFast-pure c _

  IsFailFast-decode_data : (k : RecordKind) → IsFailFast c (P.decode_data c k) (K.read_data c k)
  unfolding P.decode_data K.read_data
  IsFailFast-decode_data RecordKind.jmdict =
      R.IsFailFast-bind c IsFailFast-decode_jmdict λ r. R.IsFailFast-pure c _
  IsFailFast-decode_data RecordKind.jmnedict =
      R.IsFailFast-bind c IsFailFast-decode_jmnedict λ r. R.IsFailFast-pure c _
  IsFailFast-decode_data RecordKind.kanjidic =
      R.IsFailFast-bind c IsFailFast-decode_kanjidic λ r. R.IsFailFast-pure c _
  IsFailFast-decode_data RecordKind.yomitan_term =
      R.IsFailFast-bind c IsFailFast-decode_yomitan_term λ r. R.IsFailFast-pure c _
  IsFailFast-decode_data RecordKind.yomitan_kanji =
      R.IsFailFast-bind c IsFailFast-decode_yomitan_kanji λ r. R.IsFailFast-pure c _
  IsFailFast-decode_data RecordKind.pitch_accent =
      R.IsFailFast-bind c IsFailFast-decode_pitch_accent λ r. R.IsFailFast-pure c _
  IsFailFast-decode_data RecordKind.custom_word =
      R.IsFailFast-bind c IsFailFast-decode_custom_word λ r. R.IsFailFast-pure c _
  IsFailFast-decode_data RecordKind.custom_name =
      R.IsFailFast-bind c IsFailFast-decode_custom_name λ r. R.IsFailFast-pure c _
  IsFailFast-decode_data RecordKind.frequency =
      R.IsFailFast-bind c IsFailFast-decode_frequency λ r. R.IsFailFast-pure c _
  IsFailFast-decode_data RecordKind.kanji_examples =
      R.IsFailFast-bind c IsFailFast-decode_kanji_examples λ r. R.IsFailFast-pure c _
  IsFailFast-decode_data RecordKind.kanji_components =
      R.IsFailFast-bind c IsFailFast-decode_kanji_components λ r. R.IsFailFast-pure c _

  IsFailFast-checked :
      (version k : ℤ)
      → IsFailFast c
          (λ d. (if is_ok c d then checked_header version (header_kind k) else none, d))
          (λ r. some (if c.failed r then none else checked_header version (header_kind k), r))
  unfolding is_ok
  IsFailFast-checked version k = record { same = λ d. ground arith }

  IsFailFast-read_header : IsFailFast c (P.read_header c) (K.read_header c)
  unfolding P.read_header K.read_header
  IsFailFast-read_header = R.IsFailFast-entered c _ _ none (
      R.IsFailFast-bind c (R.IsFailFast-number c)
        λ version. R.IsFailFast-bind c (R.IsFailFast-number c) λ k. IsFailFast-checked version k)

  -- What is read behind a header, of an operation that follows the reader.
  body-same :
      (t : DictType) (o : Option PayloadHeader) (d : Decoder c)
      → decode_body c t o d ≡ K.record_of c t (then_with (outcome c (o, d)) (K.read_fields c))
  unfolding decode_body K.read_fields is_ok
  body-same t none d = ground arith
  body-same t (some header) d =
      let g : RecordData → Step c.Reader RecordData =
        λ value r. if c.failed r then none else some (value, r) in
      let e =
        sym (R.then_with-outcome c (P.decode_data c header.kind d) g)
        ∙ ap (λ o. then_with o g) ((IsFailFast-decode_data header.kind).same d) in
      elim (header.version) [ pos n ↦ ground (arith, e) | negsuc n ↦ ground arith ]

  -- decodeRecord() returns, on any payload and over any reader, what a reader returns that stops
  -- at the first field, array or element that fails, at whatever depth it stands; so leaving an
  -- array does not lose a failure inside it. Items that an array has left over are skipped alike
  -- in both, by skip().
  pub decode_record-read_record :
      (t : DictType) (payload : c.Bytes) → decode_record c t payload ≡ K.read_record c t payload
  unfolding decode_record K.read_record start
  decode_record-read_record t payload =
      let p = P.read_header c (start c payload) in
      body-same t p.0 p.1
      ∙ ap (λ o. K.record_of c t (then_with o (K.read_fields c)))
          (IsFailFast-read_header.same (start c payload))
