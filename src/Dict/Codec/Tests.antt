-- ===== src/Dict/Codec/Tests.antt =====
-- A CBOR library whose payload is the list of calls, and the theorems at concrete payloads.
use marupop.Prelude.{
  ℕ, ◌+◌, ◌^◌, ◌%◌, ◌≡◌, ◌↔◌, refl, Bool, true, false, some, List, [], ◌∷◌, arith,
}
use marupop.Prelude.Int.{ℤ, pos, negsuc}
use marupop.Dict.Records.{Text, Double, ImageInfo, RecordKind, RecordData, Record, DictType, kind}
use marupop.Dict.Cbor.{
  Cbor, CborLaws, Call, start_open_array, start_array, end_array, unsigned, integer, double,
  boolean, text, null, nest_all, IsComplete, items, is_utf16,
}
use marupop.Dict.Codec.Encoder as E
use marupop.Dict.Codec.Payload as P
use marupop.Dict.Codec.Valid.{IsValidData, IsValidImage}
use marupop.Dict.Codec.RoundTrip.{decode_record-encode_record, encode_record-IsComplete}
use marupop.Dict.Codec.Header.{payload_kind-decode_record, payload_kind_iff}
use marupop.Dict.Codec.FailFast.Kinds.{read_record}
use marupop.Dict.Codec.ShortCircuit.{decode_record-read_record}

abbrev is_array_call : List Call → Bool
is_array_call (start_open_array ∷ cs) = true
is_array_call (start_array n ∷ cs) = true
is_array_call _ = false

abbrev is_integer_call : List Call → Bool
is_integer_call (unsigned n ∷ cs) = true
is_integer_call (integer v ∷ cs) = true
is_integer_call _ = false

abbrev is_double_call : List Call → Bool
is_double_call (double x ∷ cs) = true
is_double_call _ = false

abbrev is_bool_call : List Call → Bool
is_bool_call (boolean b ∷ cs) = true
is_bool_call _ = false

abbrev is_text_call : List Call → Bool
is_text_call (text s ∷ cs) = true
is_text_call _ = false

abbrev is_null_call : List Call → Bool
is_null_call (null ∷ cs) = true
is_null_call _ = false

abbrev is_item_call : List Call → Bool
is_item_call [] = false
is_item_call (end_array ∷ cs) = false
is_item_call _ = true

abbrev integer_of : List Call → ℤ
integer_of (unsigned n ∷ cs) = pos n
integer_of (integer v ∷ cs) = v
integer_of _ = pos 0

abbrev double_of : List Call → Double
double_of (double x ∷ cs) = x
double_of _ = 0

abbrev bool_of : List Call → Bool
bool_of (boolean b ∷ cs) = b
bool_of _ = false

abbrev text_of : List Call → Text × List Call
text_of (text s ∷ cs) = (s, cs)
text_of cs = ([], cs)

abbrev tail_of : List Call → Bool × List Call
tail_of [] = (false, [])
tail_of (t ∷ cs) = (true, cs)

abbrev call_list : Cbor
call_list = record {
  Bytes = List Call;
  Reader = List Call;
  write = λ cs. cs;
  open_reader = λ cs. cs;
  is_array = is_array_call;
  is_integer = is_integer_call;
  is_double = is_double_call;
  is_bool = is_bool_call;
  is_string = is_text_call;
  is_byte_array = λ r. false;
  is_null = is_null_call;
  is_container = is_array_call;
  has_next = is_item_call;
  failed = λ r. false;
  to_integer = integer_of;
  to_double = double_of;
  to_bool = bool_of;
  next = tail_of;
  enter_container = tail_of;
  leave_container = tail_of;
  read_all_string = text_of;
  read_all_byte_array = λ r. r;
  remaining = items;
  double_of_integer = λ v. 0;
}

abbrev call_list_laws : CborLaws call_list
call_list_laws = record {
  Reads = λ r cs. r ≡ cs;
  reads_written = λ cs w. refl;
  reads_healthy = λ r cs e. refl;
  reads_remaining = λ r cs e. rw e (omega arith);
  reads_open_array = λ r cs e. rw e (refl, refl, refl);
  reads_array = λ r n cs e. rw e (refl, refl, refl, refl, refl);
  reads_end = λ r cs e. rw e (refl, refl, refl);
  reads_unsigned = λ r n cs i e. rw e (refl, refl, refl, refl, refl);
  reads_integer = λ r v cs i e. rw e (refl, refl, refl, refl, refl);
  reads_double = λ r x cs e. rw e (refl, refl, refl, refl);
  reads_bool = λ r b cs e. rw e (refl, refl, refl, refl);
  reads_text = λ r s cs i e. rw e (refl, refl, refl, refl);
  reads_null = λ r cs e. rw e (refl, refl, refl);
}

-- 犬 with an image, and 🐕, whose text is a surrogate pair.
abbrev dog_image : ImageInfo
dog_image = record {
  path = 0x61 ∷ [];
  pixel_width = pos 20;
  pixel_height = negsuc 0;
  width = 5;
  height = 7;
}

abbrev dog : RecordData
dog = RecordData.yomitan_term (record {
  primary_spelling = 0x72ac ∷ [];
  reading = 0x3044 ∷ 0x306c ∷ [];
  popularity_score = 9;
  definitions = (0xd83d ∷ 0xdc15 ∷ []) ∷ (0x64 ∷ []) ∷ [];
  definitions_plain = [];
  word_classes = [];
  definition_tags = [];
  term_tags = (0x6e ∷ []) ∷ [];
  images = dog_image ∷ [];
  sequence = pos 12;
})

abbrev dog_record : Record
dog_record = record { id = pos 0; dict_type = DictType.yomitan_word; payload = dog }

dog_image-valid : IsValidImage dog_image
unfolding is_utf16
dog_image-valid = record { path = refl; pixel_width = omega arith; pixel_height = omega arith }

dog-valid : IsValidData dog
unfolding is_utf16
dog-valid = record {
  primary_spelling = refl;
  reading = refl;
  definitions = (refl, (refl, tt));
  definitions_plain = tt;
  word_classes = tt;
  definition_tags = tt;
  term_tags = (refl, tt);
  images = (dog_image-valid, tt);
  sequence = omega arith;
}

decode_record-encode_record_example :
    P.decode_record call_list DictType.yomitan_word (E.encode_record dog_record) ≡ some dog_record
decode_record-encode_record_example =
    decode_record-encode_record call_list call_list_laws dog_record dog-valid

encode_record-IsComplete_example : IsComplete (E.encode_record dog_record)
encode_record-IsComplete_example =
    encode_record-IsComplete call_list call_list_laws dog_record dog-valid

payload_kind-decode_record_example :
    (P.payload_kind call_list (E.encode_record dog_record) ≡ some (kind dog_record))
    × (dog_record.dict_type ≡ DictType.yomitan_word)
    × (dog_record.id ≡ pos 0)
payload_kind-decode_record_example =
    payload_kind-decode_record call_list DictType.yomitan_word (E.encode_record dog_record)
      dog_record decode_record-encode_record_example

-- Version 2 ^ 32 + 1 passes for version 1.
abbrev wide_version : ℕ
wide_version = 2 ^ 32 + 1

wide_header : IsComplete (start_open_array ∷ unsigned wide_version ∷ unsigned 8 ∷ end_array ∷ [])
unfolding nest_all
wide_header = refl

payload_kind_iff_example :
    (P.payload_kind call_list
        (start_open_array ∷ unsigned wide_version ∷ unsigned 8 ∷ end_array ∷ [])
      ≡ some RecordKind.frequency)
    ↔ ((wide_version % 2 ^ 32 ≡ 1) × (8 ≡ E.kind_number RecordKind.frequency))
payload_kind_iff_example =
    payload_kind_iff call_list call_list_laws wide_version 8 RecordKind.frequency (end_array ∷ [])
      (omega arith) (omega arith) wide_header

-- A number stands where the list of components has a text.
abbrev malformed_list : List Call
malformed_list =
    start_open_array
    ∷ unsigned 1
    ∷ unsigned 10
    ∷ text []
    ∷ start_array 1
    ∷ unsigned 3
    ∷ end_array
    ∷ end_array
    ∷ []

decode_record-read_record_example :
    P.decode_record call_list DictType.yomitan_word malformed_list
    ≡ read_record call_list DictType.yomitan_word malformed_list
decode_record-read_record_example =
    decode_record-read_record call_list DictType.yomitan_word malformed_list
