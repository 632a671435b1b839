-- ===== src/Dict/Codec/Header.antt =====
-- The header's tests in src/dict/codec.cpp: which payloads decodeRecord() and payloadKind() refuse,
-- over any CBOR library.
use marupop.Prelude.{
  ℕ, ◌%◌, ◌^◌, ◌<◌, ◌≡◌, refl, sym, subst, true, Option, none, some, List, ◌∷◌, arith, ◌↔◌,
}
use marupop.Prelude.Int.{pos, to_int32}
use marupop.Dict.Records.{RecordKind, Record, DictType, data_kind, kind}
use marupop.Dict.Cbor.{Cbor, CborLaws, Call, start_open_array, unsigned, IsComplete}
use marupop.Dict.Codec.Encoder.{kind_number}
use marupop.Dict.Codec.Decoder.{Decoder, ◌>>=◌, pure}
use marupop.Dict.Codec.Payload.{
  kind_of_number, header_kind, PayloadHeader, checked_header, read_header, decode_data, start,
  decode_body, decode_record, body_kind, payload_kind,
}
use marupop.Dict.Codec.RoundTrip.{read_header_value}

module _ (c : Cbor) where
  -- The switch builds a record of the kind that it is given.
  data_kind-decode_data : (k : RecordKind) (d : Decoder c) → data_kind (decode_data c k d).0 ≡ k
  unfolding decode_data data_kind ◌>>=◌ pure
  data_kind-decode_data RecordKind.jmdict d = refl
  data_kind-decode_data _ d = refl

  decode_body-kind :
      (t : DictType) (o : Option PayloadHeader) (d : Decoder c) (r : Record)
      → decode_body c t o d ≡ some r
      → (body_kind c o ≡ some (kind r)) × (r.dict_type ≡ t) × (r.id ≡ pos 0)
  unfolding decode_body body_kind kind
  decode_body-kind t none d r e = cc
  decode_body-kind t (some h) d r e = ground (arith, data_kind-decode_data h.kind d)

  -- What decodes is a record of the kind that the header declares, under the type that was asked
  -- for; so a payload that payloadKind() cannot read never decodes.
  pub payload_kind-decode_record :
      (t : DictType) (payload : c.Bytes) (r : Record)
      → decode_record c t payload ≡ some r
      → (payload_kind c payload ≡ some (kind r)) × (r.dict_type ≡ t) × (r.id ≡ pos 0)
  unfolding decode_record payload_kind
  payload_kind-decode_record t payload r e =
      let p = read_header c (start c payload) in decode_body-kind t p.0 p.1 r e

-- The numbers of the kinds are those that the range test lets through.
kind_of_number_iff : (m : ℕ) (k : RecordKind) → (kind_of_number m ≡ some k) ↔ (m ≡ kind_number k)
unfolding kind_of_number kind_number
kind_of_number_iff m RecordKind.jmdict = ground arith
kind_of_number_iff m _ = ground arith

body_kind_iff :
    (c : Cbor) (n m : ℕ) (k : RecordKind)
    → (body_kind c (checked_header (pos n) (header_kind (pos m))) ≡ some k)
      ↔ ((n % 2 ^ 32 ≡ 1) × (m ≡ kind_number k))
unfolding body_kind checked_header header_kind to_int32
body_kind_iff c n m k = ground (arith, kind_of_number_iff m k)

-- payloadKind() reads kind `k` from a header exactly when the header carries `k`'s number and a
-- version that is 1 modulo 2 ^ 32: the version is narrowed to an int before it is compared.
pub payload_kind_iff :
    (c : Cbor) (laws : CborLaws c) (n m : ℕ) (k : RecordKind) (rest : List Call)
    → n < 2 ^ 63
    → m < 2 ^ 63
    → IsComplete (start_open_array ∷ unsigned n ∷ unsigned m ∷ rest)
    → (payload_kind c (c.write (start_open_array ∷ unsigned n ∷ unsigned m ∷ rest)) ≡ some k)
      ↔ ((n % 2 ^ 32 ≡ 1) × (m ≡ kind_number k))
unfolding payload_kind start
payload_kind_iff c laws n m k rest i j w =
    let calls = start_open_array ∷ unsigned n ∷ unsigned m ∷ rest in
    let (e, _) =
      read_header_value c laws n m rest
        (record { reader = c.open_reader (c.write calls); ok = true }) i j
        (refl, laws.reads_written calls w) in
    subst (λ o. (body_kind c o ≡ some k) ↔ ((n % 2 ^ 32 ≡ 1) × (m ≡ kind_number k))) (sym e)
      (body_kind_iff c n m k)
