-- ===== src/Dict/Codec/Shapes.antt =====
-- The composite fields of a payload: tags, images, loanword sources and kanji examples
-- (src/dict/codec.cpp).
use marupop.Prelude.{
  ℕ, ◌≡◌, refl, sym, ap, subst, ◌∙◌, not, Option, none, some, List, ◌++◌, arith, All, if_false,
}
use marupop.Dict.Records.{ImageInfo, SenseTags, LoanwordSource, KanjiExample}
use marupop.Dict.Cbor.{Cbor, CborLaws, Call, nest_all, items}
use marupop.Dict.Codec.Valid.{
  IsValidTags, IsValidImage, IsValidOptionalImage, IsValidSource, IsValidExample,
}
use marupop.Dict.Codec.Encoder as E
use marupop.Dict.Codec.Decoder as D
use marupop.Dict.Codec.Decoder.{
  Decoder, M, ◌>>=◌, ◌>>◌, pure, after, enter_array, leave_array, array_of, each, fields_of,
}
use marupop.Dict.Codec.Codes as K
use marupop.Dict.Codec.Fields as F

module _ (c : Cbor) (laws : CborLaws c) where
  open laws use {Reads}

  abbrev Codes : {A : Type 0} → ℕ → M c A → List Call → A → Type 0
  Codes = K.Codes c laws

  pub Codes-sense_tags :
      (tags : SenseTags) → IsValidTags tags → Codes 1 (D.sense_tags c) (E.sense_tags tags) tags
  unfolding D.sense_tags D.sense_tags_fields E.sense_tags
  Codes-sense_tags tags v =
      F.Codes-fields_of c laws (λ t. t) _
        (K.Codes-bind c laws _
          (F.Codes-string_list c laws tags.shared_by_all_senses v.shared_by_all_senses)
          (K.Codes-map c laws _ (F.Codes-string_list_list c laws tags.per_sense v.per_sense)))

  image_fields :
      (info : ImageInfo)
      → IsValidImage info
      → Codes 5
          (D.image_fields c)
          (E.string info.path
            ++ (E.number info.pixel_width
                ++ (E.number info.pixel_height ++ (E.real info.width ++ E.real info.height))))
          info
  unfolding D.image_fields
  image_fields info v = K.Codes-bind c laws _ (F.Codes-string c laws info.path v.path) (
      K.Codes-bind c laws _ (F.Codes-int32 c laws info.pixel_width v.pixel_width) (
        K.Codes-bind c laws _ (F.Codes-int32 c laws info.pixel_height v.pixel_height) (
          K.Codes-bind c laws _ (F.Codes-real c laws info.width)
            (K.Codes-map c laws _ (F.Codes-real c laws info.height)))))

  pub Codes-image : (info : ImageInfo) → IsValidImage info → Codes 1 (D.image c) (E.image info) info
  unfolding D.image E.image
  Codes-image info v = F.Codes-fields_of c laws (λ i. i) _ (image_fields info v)

  optional_image-run :
      (info : ImageInfo)
      → IsValidImage info
      → (rest : List Call) (d : Decoder c) → K.At c laws d (E.image info ++ rest)
      → ((D.optional_image c d).0 ≡ some info) × K.At c laws (D.optional_image c d).1 rest
  unfolding D.optional_image E.image
  optional_image-run info v rest d h =
      let n = (laws.reads_array d.reader 5 _ h.1).1 in
      let (e, h') = (Codes-image info v).run rest d h in
      let eq : D.optional_image c d ≡ (some (D.image c d).0, (D.image c d).1) =
        if_false (none, d) (ap not h.0) ∙ if_false (none, after c (c.next d.reader)) n in
      subst (λ p. (p.0 ≡ some info) × K.At c laws p.1 rest) (sym eq) (ap some e, h')

  pub Codes-optional_image :
      (info : Option ImageInfo)
      → IsValidOptionalImage info
      → Codes 1 (D.optional_image c) (E.optional_image info) info
  unfolding D.optional_image E.optional_image after nest_all items
  Codes-optional_image none v = record {
    run =
        λ rest d h. let (a, e, r) = laws.reads_null d.reader rest h.1 in rw (h.0, a) (refl, (e, r));
    nests = λ s s' e. rw e;
    counts = omega arith;
  }
  Codes-optional_image (some info) v = record {
    run = optional_image-run info v;
    nests = (Codes-image info v).nests;
    counts = (Codes-image info v).counts;
  }

  image-IsElement :
      (info : ImageInfo)
      → IsValidImage info
      → F.IsElement c laws (each c (D.image c)) (E.image info) info
  unfolding E.image
  image-IsElement info v = record {
    codes = F.Codes-each c laws (Codes-image info v);
    seen = λ rest r h. F.array_seen c laws 5 _ rest r h;
  }

  pub Codes-image_list :
      (xs : List ImageInfo) → All IsValidImage xs → Codes 1 (D.image_list c) (E.image_list xs) xs
  unfolding D.image_list E.image_list
  Codes-image_list xs v =
      F.Codes-array_of c laws _ E.image xs (F.All-elements c laws image-IsElement xs v)

  source-IsElement :
      (x : LoanwordSource)
      → IsValidSource x
      → F.IsElement c laws
          (fields_of c (D.loanword_source_fields c) some none)
          (E.loanword_source x)
          x
  unfolding E.loanword_source D.loanword_source_fields
  source-IsElement x v = record {
    codes = F.Codes-fields_of c laws some none (
        K.Codes-bind c laws _ (F.Codes-string c laws x.language v.language) (
          K.Codes-bind c laws _ (F.Codes-string c laws x.original_word v.original_word) (
            K.Codes-bind c laws _ (F.Codes-boolean c laws x.is_part)
              (K.Codes-map c laws _ (F.Codes-boolean c laws x.is_wasei)))));
    seen = λ rest r h. F.array_seen c laws 4 _ rest r h;
  }

  pub Codes-loanword_sources :
      (xs : List LoanwordSource)
      → All IsValidSource xs
      → Codes 1 (D.loanword_sources c) (E.loanword_sources xs) xs
  unfolding D.loanword_sources E.loanword_sources
  Codes-loanword_sources xs v =
      F.Codes-array_of c laws _ E.loanword_source xs (F.All-elements c laws source-IsElement xs v)

  example-IsElement :
      (x : KanjiExample)
      → IsValidExample x
      → F.IsElement c laws (fields_of c (D.kanji_example_fields c) some none) (E.kanji_example x) x
  unfolding E.kanji_example D.kanji_example_fields
  example-IsElement x v = record {
    codes = F.Codes-fields_of c laws some none (
        K.Codes-bind c laws _ (F.Codes-string c laws x.spelling v.spelling) (
          K.Codes-bind c laws _ (F.Codes-string c laws x.reading v.reading)
            (K.Codes-map c laws _ (F.Codes-string c laws x.gloss v.gloss))));
    seen = λ rest r h. F.array_seen c laws 3 _ rest r h;
  }

  pub Codes-kanji_examples :
      (xs : List KanjiExample)
      → All IsValidExample xs
      → Codes 1 (D.kanji_examples c) (E.kanji_examples xs) xs
  unfolding D.kanji_examples E.kanji_examples
  Codes-kanji_examples xs v =
      F.Codes-array_of c laws _ E.kanji_example xs (F.All-elements c laws example-IsElement xs v)
