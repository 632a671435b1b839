-- ===== src/Ocr/Wire/Format.antt =====
-- A writer of the protobuf format, and what the readers of src/ocr/screenaiproto.cpp make of it.
use marupop.Prelude.{
  ℕ, ◌+◌, ◌*◌, ◌/◌, ◌%◌, ◌^◌, ◌≤◌, ◌<◌, ◌≡◌, ap, ◌∙◌, subst, false, List, ◌++◌, append_assoc, arith,
  ltb, ◌==◌, if_false, length, length-append, drop, take-append, drop-append,
}
use marupop.Prelude.Bytes.{little_endian}
use marupop.Prelude.Int.{pos, int32_of_bits}
use marupop.Ocr.Wire.{
  Outcome, ok, malformed, Reader, Tag, and_then, ◌>>=◌, ◌>>◌, pure, refuse, read_varint,
  checked_tag, read_tag, read_bytes, read_length_delimited, read_fixed32, skip, skip_field, nested,
}
use marupop.Ocr.Wire.Varint.{write_varint, read_varint-write_varint}

-- The value of a field, by its wire type.
pub data Value : Type 0 where
  varint : ℕ → Value
  fixed64 : List ℕ → Value
  delimited : List ℕ → Value
  fixed32 : List ℕ → Value

abbrev pub wire_of : Value → ℕ
wire_of (varint n) = 0
wire_of (fixed64 bytes) = 1
wire_of (delimited bytes) = 2
wire_of (fixed32 bytes) = 5

abbrev pub write_value : Value → List ℕ
write_value (varint n) = write_varint n
write_value (fixed64 bytes) = bytes
write_value (delimited bytes) = write_varint (length bytes) ++ bytes
write_value (fixed32 bytes) = bytes

abbrev pub IsValue : Value → Type 0
IsValue (varint n) = n < 2 ^ 64
IsValue (fixed64 bytes) = length bytes ≡ 8
IsValue (delimited bytes) = length bytes < 2 ^ 64
IsValue (fixed32 bytes) = length bytes ≡ 4

unfoldable pub write_tag : ℕ → ℕ → List ℕ
write_tag number wire = write_varint (number * 2 ^ 3 + wire)

-- The numbers that the format has for fields.
abbrev pub IsNumber : ℕ → Type 0
IsNumber number = (1 ≤ number) × (number < 2 ^ 29)

abbrev pub tag_of : ℕ → ℕ → Tag
tag_of number wire = record { field = pos number; wire = wire }

int32_of_bits_small : (n : ℕ) → n < 2 ^ 31 → int32_of_bits n ≡ pos n
unfolding int32_of_bits
int32_of_bits_small n h = ground arith

pub bind_ok :
    {A B : Type 0} (m : Reader A) (f : A → Reader B) (bytes : List ℕ) (a : A) (rest : List ℕ)
    → m bytes ≡ ok (a, rest)
    → (m >>= f) bytes ≡ f a rest
unfolding ◌>>=◌ and_then
bind_ok m f bytes a rest e = ap (λ o. and_then o (λ p. f p.0 p.1)) e

then_ok :
    {A B : Type 0} (m : Reader A) (k : Reader B) (bytes : List ℕ) (a : A) (rest : List ℕ)
    → m bytes ≡ ok (a, rest)
    → (m >> k) bytes ≡ k rest
unfolding ◌>>◌ and_then
then_ok m k bytes a rest e = ap (λ o. and_then o (λ p. k p.1)) e

checked_tag_lem :
    (number wire : ℕ) (rest : List ℕ)
    → 1 ≤ number
    → checked_tag (tag_of number wire) rest ≡ ok (tag_of number wire, rest)
unfolding checked_tag refuse pure
checked_tag_lem number wire rest h =
    let known : (number == 0) ≡ false = ground arith in ap (λ m. m rest) (if_false refuse known)

pub read_tag-write_tag :
    (number wire : ℕ) (rest : List ℕ)
    → IsNumber number
    → wire < 8
    → read_tag (write_tag number wire ++ rest) ≡ ok (tag_of number wire, rest)
unfolding read_tag write_tag
read_tag-write_tag number wire rest (h, k) l =
    let tag = number * 2 ^ 3 + wire in
    let field : int32_of_bits (tag / 2 ^ 3) ≡ pos number =
      ap int32_of_bits (omega arith) ∙ int32_of_bits_small number (omega arith) in
    let low : tag % 2 ^ 3 ≡ wire = omega arith in
    let same : record { field = int32_of_bits (tag / 2 ^ 3); wire = tag % 2 ^ 3 }
        ≡ tag_of number wire =
      cc in
    bind_ok read_varint _ _ tag rest (read_varint-write_varint tag rest (omega arith))
    ∙ ap (λ t. checked_tag t rest) same
    ∙ checked_tag_lem number wire rest h

pub read_bytes-append :
    (bytes rest : List ℕ) → read_bytes (length bytes) (bytes ++ rest) ≡ ok (bytes, rest)
unfolding read_bytes
read_bytes-append bytes rest =
    let n = length bytes in
    let enough : ltb (length (bytes ++ rest)) n ≡ false =
      ground (arith, length-append bytes rest) in
    if_false malformed enough
    ∙ ap (λ l. ok (l, drop n (bytes ++ rest))) (take-append bytes rest)
    ∙ ap (λ l. ok (bytes, l)) (drop-append bytes rest)

pub read_bytes_exact :
    (n : ℕ) (bytes rest : List ℕ)
    → length bytes ≡ n
    → read_bytes n (bytes ++ rest) ≡ ok (bytes, rest)
read_bytes_exact n bytes rest h =
    subst (λ k. read_bytes k (bytes ++ rest) ≡ ok (bytes, rest)) h (read_bytes-append bytes rest)

pub read_length_delimited-write :
    (bytes rest : List ℕ)
    → length bytes < 2 ^ 64
    → read_length_delimited ((write_varint (length bytes) ++ bytes) ++ rest) ≡ ok (bytes, rest)
unfolding read_length_delimited
read_length_delimited-write bytes rest h =
    ap read_length_delimited (append_assoc (write_varint (length bytes)) bytes rest)
    ∙ bind_ok read_varint read_bytes _ (length bytes) (bytes ++ rest)
        (read_varint-write_varint (length bytes) (bytes ++ rest) h)
    ∙ read_bytes-append bytes rest

pub nested-write :
    {A : Type 0} (parse : List ℕ → Outcome A) (bytes rest : List ℕ)
    → length bytes < 2 ^ 64
    → nested parse ((write_varint (length bytes) ++ bytes) ++ rest)
      ≡ and_then (parse bytes) (λ a. ok (a, rest))
unfolding nested
nested-write parse bytes rest h =
    bind_ok read_length_delimited _ _ bytes rest (read_length_delimited-write bytes rest h)

pub skip-write_value :
    (value : Value) (rest : List ℕ)
    → IsValue value
    → skip (wire_of value) (write_value value ++ rest) ≡ ok (tt, rest)
unfolding skip pure read_fixed32
skip-write_value (varint n) rest h =
    then_ok read_varint _ _ n rest (read_varint-write_varint n rest h)
skip-write_value (fixed64 bytes) rest h =
    then_ok (read_bytes 8) _ _ bytes rest (read_bytes_exact 8 bytes rest h)
skip-write_value (delimited bytes) rest h =
    then_ok read_length_delimited _ _ bytes rest (read_length_delimited-write bytes rest h)
skip-write_value (fixed32 bytes) rest h =
    then_ok read_fixed32 _ _ (little_endian bytes) rest
      (bind_ok (read_bytes 4) _ _ bytes rest (read_bytes_exact 4 bytes rest h))

pub skip_field-write_value :
    {S : Type 0} (value : Value) (s : S) (rest : List ℕ)
    → IsValue value
    → skip_field (wire_of value) s (write_value value ++ rest) ≡ ok (s, rest)
unfolding skip_field pure
skip_field-write_value value s rest h =
    then_ok (skip (wire_of value)) _ _ tt rest (skip-write_value value rest h)
