-- ===== src/Ocr/Wire.antt =====
-- The struct WireReader of src/ocr/screenaiproto.cpp. A scope is the list of its unread bytes, and a
-- reader takes it and returns a value with the bytes that are left, or refuses.
pub mod Bounds
pub mod Invariant
pub mod Varint
pub mod Format
pub mod Steps
use marupop.Prelude.{
  ℕ, zero, suc, ◌+◌, ◌*◌, ◌/◌, ◌%◌, ◌^◌, Bool, false, List, [], ◌∷◌, ltb, ◌==◌, length, take, drop,
  if◌then◌else◌,
}
use marupop.Prelude.Bytes.{little_endian}
use marupop.Prelude.Int.{ℤ, pos, negsuc, int32_of_bits}

-- `out_of_fuel` is the model's own: it stands for a loop that does not end.
pub data Outcome (A : Type 0) : Type 0 where
  ok : A → Outcome A
  malformed : Outcome A
  out_of_fuel : Outcome A

abbrev pub Reader : Type 0 → Type 0
Reader A = List ℕ → Outcome (A × List ℕ)

unfoldable pub and_then : {A B : Type 0} → Outcome A → (A → Outcome B) → Outcome B
and_then (ok a) k = k a
and_then malformed k = malformed
and_then out_of_fuel k = out_of_fuel

infixl 5 ◌>>=◌ ◌>>◌
unfoldable pub ◌>>=◌ : {A B : Type 0} → Reader A → (A → Reader B) → Reader B
(m >>= f) bytes = and_then (m bytes) (λ p. f p.0 p.1)

unfoldable pub ◌>>◌ : {A B : Type 0} → Reader A → Reader B → Reader B
(m >> n) bytes = and_then (m bytes) (λ p. n p.1)

unfoldable pub pure : {A : Type 0} → A → Reader A
pure a bytes = ok (a, bytes)

unfoldable pub refuse : {A : Type 0} → Reader A
refuse bytes = malformed

-- The loop of readVarint() from `shift` on, with the rounds that are left. The bits that a byte
-- brings lie above those of `value`, so the sum is the `|=` of the source.
unfoldable pub varint_loop : ℕ → ℕ → ℕ → Reader ℕ
varint_loop zero shift value bytes = malformed
varint_loop (suc rounds) shift value [] = malformed
varint_loop (suc rounds) shift value (byte ∷ bytes) =
    let value' = value + byte % 2 ^ 7 * 2 ^ shift % 2 ^ 64 in
    let rest = varint_loop rounds (shift + 7) value' bytes in
    if ltb (byte % 2 ^ 8) (2 ^ 7) then ok (value', bytes) else rest

-- The shifts below 64 in steps of 7 are ten.
unfoldable pub read_varint : Reader ℕ
read_varint = varint_loop 10 0 0

-- An int against a constant of the source.
abbrev pub is_number : ℤ → ℕ → Bool
is_number (pos n) k = n == k
is_number (negsuc n) k = false

pub record Tag : Type 0 where
  pub field : ℤ
  pub wire : ℕ

unfoldable pub checked_tag : Tag → Reader Tag
checked_tag tag = if is_number tag.field 0 then refuse else pure tag

unfoldable pub read_tag : Reader Tag
read_tag = do
  tag ← read_varint
  checked_tag (record { field = int32_of_bits (tag / 2 ^ 3); wire = tag % 2 ^ 3 })

-- `count` bytes, where the scope has them.
unfoldable pub read_bytes : ℕ → Reader (List ℕ)
read_bytes count bytes =
    if ltb (length bytes) count then malformed else ok (take count bytes, drop count bytes)

unfoldable pub read_length_delimited : Reader (List ℕ)
read_length_delimited = do count ← read_varint; read_bytes count

unfoldable pub read_fixed32 : Reader ℕ
read_fixed32 = do bytes ← read_bytes 4; pure (little_endian bytes)

unfoldable pub skip : ℕ → Reader (Unit {0})
skip wire =
    if wire == 0
    then read_varint >> pure tt
    else if wire == 1
    then read_bytes 8 >> pure tt
    else if wire == 2
    then read_length_delimited >> pure tt
    else if wire == 5
    then read_fixed32 >> pure tt
    else refuse

-- A field that the loop has no use for.
unfoldable pub skip_field : {S : Type 0} → ℕ → S → Reader S
skip_field wire s = skip wire >> pure s

-- A nested message: its scope, read by the parser of the message.
unfoldable pub nested : {A : Type 0} → (List ℕ → Outcome A) → Reader A
nested parse = do
  scope ← read_length_delimited
  (λ bytes. and_then (parse scope) (λ a. ok (a, bytes)))

-- `while (!reader.atEnd())` around the reading of a tag and of what `field` does with it, on fuel.
unfoldable pub field_loop : {S : Type 0} → (Tag → S → Reader S) → ℕ → S → List ℕ → Outcome S
field_loop field fuel s [] = ok s
field_loop field zero s (b ∷ bs) = out_of_fuel
field_loop field (suc fuel) s (b ∷ bs) =
    and_then ((read_tag >>= (λ tag. field tag s)) (b ∷ bs)) (λ p. field_loop field fuel p.0 p.1)

-- A field is a byte at least, so the bytes of the scope bound the rounds.
unfoldable pub fields : {S : Type 0} → (Tag → S → Reader S) → S → List ℕ → Outcome S
fields field s bytes = field_loop field (length bytes) s bytes
