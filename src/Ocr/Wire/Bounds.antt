-- ===== src/Ocr/Wire/Bounds.antt =====
-- How many bytes the readers of src/ocr/screenaiproto.cpp take of their scope.
use marupop.Prelude.{
  ℕ, zero, suc, ◌+◌, ◌*◌, ◌%◌, ◌^◌, ◌≤◌, Bool, true, false, List, [], ◌∷◌, arith, ltb, ◌==◌, length,
  length-drop, if◌then◌else◌,
}
use marupop.Ocr.Wire.{
  Outcome, ok, malformed, out_of_fuel, Reader, Tag, and_then, ◌>>=◌, ◌>>◌, pure, refuse,
  varint_loop, read_varint, checked_tag, read_tag, read_bytes, read_length_delimited, read_fixed32,
  skip, skip_field, nested, field_loop, fields, is_number,
}

-- `n` bytes at least are read of `size`, and the reading ends.
abbrev pub Leaves : {A : Type 0} → ℕ → ℕ → Outcome (A × List ℕ) → Type 0
Leaves n size (ok p) = length p.1 + n ≤ size
Leaves n size malformed = Unit
Leaves n size out_of_fuel = ⊥

abbrev pub IsReader : {A : Type 0} → ℕ → Reader A → Type 0
IsReader n m = (bytes : List ℕ) → Leaves n (length bytes) (m bytes)

-- A parser of a whole scope ends.
abbrev pub Ends : {A : Type 0} → Outcome A → Type 0
Ends (ok a) = Unit
Ends malformed = Unit
Ends out_of_fuel = ⊥

Leaves-mono :
    {A : Type 0} (n size n' size' : ℕ) (o : Outcome (A × List ℕ))
    → size + n' ≤ size' + n
    → Leaves n size o
    → Leaves n' size' o
Leaves-mono n size n' size' (ok p) h k = omega arith
Leaves-mono n size n' size' malformed h k = tt
Leaves-mono n size n' size' out_of_fuel h k = k

Leaves-and_then :
    {A B : Type 0} (n size : ℕ) (o : Outcome (A × List ℕ)) (k : A × List ℕ → Outcome (B × List ℕ))
    → Leaves n size o
    → ((p : A × List ℕ) → Leaves 0 (length p.1) (k p))
    → Leaves n size (and_then o k)
unfolding and_then
Leaves-and_then n size (ok p) k h g = Leaves-mono 0 (length p.1) _ _ (k p) (omega arith) (g p)
Leaves-and_then n size malformed k h g = tt
Leaves-and_then n size out_of_fuel k h g = h

if-Leaves :
    {A : Type 0} (n size : ℕ) (b : Bool) (l r : Outcome (A × List ℕ))
    → Leaves n size l
    → Leaves n size r
    → Leaves n size (if b then l else r)
if-Leaves n size true l r h k = h
if-Leaves n size false l r h k = k

pub if-IsReader :
    {A : Type 0} (n : ℕ) (b : Bool) (l r : Reader A)
    → IsReader n l
    → IsReader n r
    → IsReader n (if b then l else r)
if-IsReader n true l r h k = h
if-IsReader n false l r h k = k

pub bind-IsReader :
    {A B : Type 0} (n : ℕ) (m : Reader A) (f : A → Reader B)
    → IsReader n m
    → ((a : A) → IsReader 0 (f a))
    → IsReader n (m >>= f)
unfolding ◌>>=◌
bind-IsReader n m f h k bytes =
    Leaves-and_then n (length bytes) (m bytes) (λ p. f p.0 p.1) (h bytes) (λ p. k p.0 p.1)

pub then-IsReader :
    {A B : Type 0} (n : ℕ) (m : Reader A) (k : Reader B)
    → IsReader n m
    → IsReader 0 k
    → IsReader n (m >> k)
unfolding ◌>>◌
then-IsReader n m k h g bytes =
    Leaves-and_then n (length bytes) (m bytes) (λ p. k p.1) (h bytes) (λ p. g p.1)

pub IsReader-weaken : {A : Type 0} (m : Reader A) → IsReader 1 m → IsReader 0 m
IsReader-weaken m h bytes = Leaves-mono 1 (length bytes) _ _ (m bytes) (omega arith) (h bytes)

pub pure-IsReader : {A : Type 0} (a : A) → IsReader 0 (pure a)
unfolding pure
pure-IsReader a bytes = omega arith

pub refuse-IsReader : (A : Type 0) (n : ℕ) → IsReader {A = A} n refuse
unfolding refuse
refuse-IsReader A n bytes = tt

pub varint_loop-IsReader : (rounds shift value : ℕ) → IsReader 1 (varint_loop rounds shift value)
unfolding varint_loop
varint_loop-IsReader zero shift value bytes = tt
varint_loop-IsReader (suc rounds) shift value [] = tt
varint_loop-IsReader (suc rounds) shift value (byte ∷ bytes) =
    let value' = value + byte % 2 ^ 7 * 2 ^ shift % 2 ^ 64 in
    let rest = varint_loop rounds (shift + 7) value' bytes in
    if-Leaves 1 _ (ltb (byte % 2 ^ 8) (2 ^ 7)) (ok (value', bytes)) rest (omega arith) (
      Leaves-mono 1 _ _ _ rest (omega arith) (varint_loop-IsReader rounds (shift + 7) value' bytes))

pub read_varint-IsReader : IsReader 1 read_varint
unfolding read_varint
read_varint-IsReader = varint_loop-IsReader 10 0 0

checked_tag-IsReader : (tag : Tag) → IsReader 0 (checked_tag tag)
unfolding checked_tag
checked_tag-IsReader tag =
    if-IsReader 0 (is_number tag.field 0) refuse (pure tag) (refuse-IsReader Tag 0)
      (pure-IsReader tag)

pub read_tag-IsReader : IsReader 1 read_tag
unfolding read_tag
read_tag-IsReader =
    bind-IsReader 1 read_varint _ read_varint-IsReader (λ tag. checked_tag-IsReader _)

read_bytes-IsReader : (count : ℕ) → IsReader 0 (read_bytes count)
unfolding read_bytes
read_bytes-IsReader count bytes =
    if-Leaves 0 _ (ltb (length bytes) count) malformed _ tt (omega (arith, length-drop count bytes))

pub read_length_delimited-IsReader : IsReader 1 read_length_delimited
unfolding read_length_delimited
read_length_delimited-IsReader =
    bind-IsReader 1 read_varint read_bytes read_varint-IsReader read_bytes-IsReader

pub read_fixed32-IsReader : IsReader 0 read_fixed32
unfolding read_fixed32
read_fixed32-IsReader =
    bind-IsReader 0 (read_bytes 4) _ (read_bytes-IsReader 4) (λ bytes. pure-IsReader _)

skip-IsReader : (wire : ℕ) → IsReader 0 (skip wire)
unfolding skip
skip-IsReader wire =
    let done = pure-IsReader tt in
    if-IsReader 0 (wire == 0) _ _
      (then-IsReader 0 read_varint _ (IsReader-weaken read_varint read_varint-IsReader) done)
      (if-IsReader 0 (wire == 1) _ _ (then-IsReader 0 (read_bytes 8) _ (read_bytes-IsReader 8) done)
        (if-IsReader 0 (wire == 2) _ _
          (then-IsReader 0 read_length_delimited _
            (IsReader-weaken read_length_delimited read_length_delimited-IsReader) done)
          (if-IsReader 0 (wire == 5) _ _ (then-IsReader 0 read_fixed32 _ read_fixed32-IsReader done)
            (refuse-IsReader Unit 0))))

pub skip_field-IsReader : {S : Type 0} (wire : ℕ) (s : S) → IsReader 0 (skip_field wire s)
unfolding skip_field
skip_field-IsReader wire s =
    then-IsReader 0 (skip wire) (pure s) (skip-IsReader wire) (pure-IsReader s)

Leaves-scope :
    {A : Type 0} (size : ℕ) (o : Outcome A) (bytes : List ℕ)
    → length bytes ≤ size
    → Ends o
    → Leaves 0 size (and_then o (λ a. ok (a, bytes)))
unfolding and_then
Leaves-scope size (ok a) bytes h k = omega arith
Leaves-scope size malformed bytes h k = tt
Leaves-scope size out_of_fuel bytes h k = k

pub nested-IsReader :
    {A : Type 0} (parse : List ℕ → Outcome A)
    → ((scope : List ℕ) → Ends (parse scope))
    → IsReader 0 (nested parse)
unfolding nested
nested-IsReader parse h =
    bind-IsReader 0 read_length_delimited _
      (IsReader-weaken read_length_delimited read_length_delimited-IsReader)
      (λ scope bytes. Leaves-scope _ (parse scope) bytes (omega arith) (h scope))

Ends-and_then :
    {A B : Type 0} (n size : ℕ) (o : Outcome (A × List ℕ)) (k : A × List ℕ → Outcome B)
    → Leaves n size o
    → ((p : A × List ℕ) → length p.1 + n ≤ size → Ends (k p))
    → Ends (and_then o k)
unfolding and_then
Ends-and_then n size (ok p) k h g = g p h
Ends-and_then n size malformed k h g = tt
Ends-and_then n size out_of_fuel k h g = h

field_loop-Ends :
    {S : Type 0} (field : Tag → S → Reader S) (fuel : ℕ)
    → ((tag : Tag) (s : S) → IsReader 0 (field tag s))
    → (s : S) (bytes : List ℕ) → length bytes ≤ fuel
    → Ends (field_loop field fuel s bytes)
unfolding field_loop
field_loop-Ends field fuel h s [] k = tt
field_loop-Ends field zero h s (b ∷ bs) k = absurd (omega arith)
field_loop-Ends field (suc fuel) h s (b ∷ bs) k =
    Ends-and_then 1 _ _ (λ p. field_loop field fuel p.0 p.1)
      (bind-IsReader 1 read_tag (λ tag. field tag s) read_tag-IsReader (λ tag. h tag s) (b ∷ bs))
      (λ p l. field_loop-Ends field fuel h p.0 p.1 (omega arith))

-- A loop whose fields stay in their scope ends on every scope.
pub fields-Ends :
    {S : Type 0} (field : Tag → S → Reader S) (s : S)
    → ((tag : Tag) (s : S) → IsReader 0 (field tag s))
    → (bytes : List ℕ) → Ends (fields field s bytes)
unfolding fields
fields-Ends field s h bytes = field_loop-Ends field (length bytes) h s bytes (omega arith)
