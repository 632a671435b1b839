-- ===== src/Dict/Codec/RoundTrip.antt =====
-- encodeRecord(), decodeRecord() and payloadKind() of src/dict/codec.cpp on what the encoder wrote.
use marupop.Prelude.{
  ℕ, ◌^◌, ◌<◌, ◌≡◌, refl, ap, ◌∙◌, true, not, none, some, List, [], ◌∷◌, ◌++◌, arith, if_true,
  and_true,
}
use marupop.Prelude.Int.{pos, to_int32}
use marupop.Dict.Records.{RecordKind, Record, kind}
use marupop.Dict.Cbor.{
  Cbor, CborLaws, Call, start_open_array, end_array, unsigned, Open, indefinite, definite, nest_all,
  IsComplete,
}
use marupop.Dict.Codec.Encoder as E
use marupop.Dict.Codec.Decoder.{Decoder, after, enter_array, number, is_ok}
use marupop.Dict.Codec.Payload.{
  kind_of_number, header_kind, PayloadHeader, checked_header, read_header, start, decode_body,
  decode_record,
}
use marupop.Dict.Codec.Valid.{IsValidData}
use marupop.Dict.Codec.Codes as K
use marupop.Dict.Codec.Kinds.{encode_data-codes}

kind_number-in_range : (k : RecordKind) → header_kind (pos (E.kind_number k)) ≡ some k
unfolding header_kind kind_of_number E.kind_number
kind_number-in_range RecordKind.jmdict = refl
kind_number-in_range _ = refl

kind_number-small : (k : RecordKind) → E.kind_number k < 2 ^ 63
unfolding E.kind_number
kind_number-small RecordKind.jmdict = omega arith
kind_number-small _ = omega arith

checked_header-kind :
    (k : RecordKind)
    → checked_header (pos E.codec_version) (header_kind (pos (E.kind_number k)))
      ≡ some (record { version = pos E.codec_version; kind = k })
unfolding checked_header to_int32
checked_header-kind k = ap (checked_header (pos E.codec_version)) (kind_number-in_range k)

module _ (c : Cbor) (laws : CborLaws c) where
  open laws use {Reads}

  -- The writer calls of a record close every array and put as many elements into each definite
  -- array as it declares, where the numbers of the record are in the ranges of their C++ types and
  -- no text of it has an unpaired surrogate.
  pub encode_record-IsComplete :
      (r : Record) → IsValidData r.payload → IsComplete (E.encode_record r)
  unfolding E.encode_record E.start_record E.end_record nest_all
  encode_record-IsComplete r v =
      let body = E.encode_data r.payload in
      let open_ : List Open = indefinite ∷ definite 0 ∷ [] in
      K.nest_all-append open_ body (end_array ∷ [])
      ∙ ap (λ s. nest_all s (end_array ∷ []))
          ((encode_data-codes c laws r.payload v).nests open_ open_ refl)

  pub number_unsigned :
      (n : ℕ) (rest : List Call) (d : Decoder c)
      → n < 2 ^ 63
      → K.At c laws d (unsigned n ∷ rest)
      → K.Run c laws (number c) d (pos n) rest
  unfolding number after
  number_unsigned n rest d i (o, r) =
      let (a, b, _, e, r') = laws.reads_unsigned d.reader n rest i r in rw (o, a) (b, (e, r'))

  pub enter_open_array :
      (rest : List Call) (d : Decoder c)
      → K.At c laws d (start_open_array ∷ rest)
      → K.Run c laws (enter_array c) d true rest
  unfolding enter_array after
  enter_open_array rest d (o, r) =
      let (a, e, r') = laws.reads_open_array d.reader rest r in rw (o, a) (e, (e, r'))

  abbrev header : RecordKind → PayloadHeader
  header k = record { version = pos E.codec_version; kind = k }

  pub At-ok : (rest : List Call) (d : Decoder c) → K.At c laws d rest → is_ok c d ≡ true
  unfolding is_ok
  At-ok rest d (o, r) = and_true o (ap not (laws.reads_healthy d.reader rest r))

  -- The header of a payload of any version and kind.
  pub read_header_value :
      (n m : ℕ) (rest : List Call) (d : Decoder c)
      → n < 2 ^ 63
      → m < 2 ^ 63
      → K.At c laws d (start_open_array ∷ unsigned n ∷ unsigned m ∷ rest)
      → K.Run c laws (read_header c) d (checked_header (pos n) (header_kind (pos m))) rest
  unfolding read_header
  read_header_value n m rest d i j h =
      K.Run-bind c laws (enter_array c) _ d true _ (unsigned n ∷ unsigned m ∷ rest) rest
        (enter_open_array _ d h)
        λ d₁ h₁.
          K.Run-bind c laws (number c) _ d₁ (pos n) _ (unsigned m ∷ rest) rest
            (number_unsigned n _ d₁ i h₁)
            λ d₂ h₂.
              K.Run-bind c laws (number c) _ d₂ (pos m) _ rest rest (number_unsigned m rest d₂ j h₂)
                λ d₃ h₃. (if_true none (At-ok rest d₃ h₃), h₃)

  read_header-Run :
      (k : RecordKind) (rest : List Call) (d : Decoder c)
      → K.At c laws d (E.start_record k ++ rest)
      → K.Run c laws (read_header c) d (some (header k)) rest
  unfolding E.start_record
  read_header-Run k rest d h =
      let (e, h') =
        read_header_value E.codec_version (E.kind_number k) rest d (omega arith)
          (kind_number-small k) h in
      (e ∙ checked_header-kind k, h')

  abbrev payload_of : Record → c.Bytes
  payload_of r = c.write (E.encode_record r)

  header-Run :
      (r : Record)
      → IsValidData r.payload
      → K.Run c laws
          (read_header c)
          (start c (payload_of r))
          (some (header (kind r)))
          (E.encode_data r.payload ++ E.end_record)
  unfolding start E.encode_record
  header-Run r v =
      read_header-Run (kind r) _ (start c (payload_of r))
        (refl, laws.reads_written (E.encode_record r) (encode_record-IsComplete r v))

  -- Behind the header, the fields.
  decode_body-run :
      (r : Record) (d : Decoder c)
      → IsValidData r.payload
      → K.At c laws d (E.encode_data r.payload ++ E.end_record)
      → decode_body c r.dict_type (some (header (kind r))) d ≡ some (record r { id = pos 0 })
  unfolding decode_body kind
  decode_body-run r d v h =
      let (e, h') = (encode_data-codes c laws r.payload v).run E.end_record d h in
      if_true none (At-ok E.end_record _ h')
      ∙ ap (λ p. some (record { id = pos 0; dict_type = r.dict_type; payload = p })) e

  -- Over a CBOR library that keeps what Qt documents, a record of any of the eleven kinds is
  -- decoded from its own payload, at its type and with id 0, where its numbers are in the ranges
  -- of their C++ types and no text of it has an unpaired surrogate, which UTF-8 cannot carry.
  pub decode_record-encode_record :
      (r : Record)
      → IsValidData r.payload
      → decode_record c r.dict_type (c.write (E.encode_record r)) ≡ some (record r { id = pos 0 })
  unfolding decode_record
  decode_record-encode_record r v =
      let (e, h) = header-Run r v in
      ap (λ o. decode_body c r.dict_type o (read_header c (start c (payload_of r))).1) e
      ∙ decode_body-run r (read_header c (start c (payload_of r))).1 v h
