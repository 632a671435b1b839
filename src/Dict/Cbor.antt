-- ===== src/Dict/Cbor.antt =====
-- The CBOR library that src/dict/codec.cpp calls (QCborStreamWriter and QCborStreamReader of Qt).
-- Its calls are data, its reader is a parameter, and what the codec relies on are the laws below.
use marupop.Prelude.{
  ℕ, ◌+◌, zero, suc, ◌-◌, ◌^◌, ◌≤◌, ◌<◌, ◌≡◌, Bool, true, false, ◌&&◌, Option, none, some, List, [],
  ◌∷◌, ltb, leb, if◌then◌else◌,
}
use marupop.Prelude.Int.{ℤ, pos, IsInt64}
use marupop.Dict.Records.{Text, Double}

-- The calls of the writer that the encoder makes.
pub data Call : Type 0 where
  start_open_array : Call
  start_array : ℕ → Call
  end_array : Call
  unsigned : ℕ → Call
  integer : ℤ → Call
  double : Double → Call
  boolean : Bool → Call
  text : Text → Call
  null : Call

-- An array that is being written, with the elements that a definite one still lacks.
pub data Open : Type 0 where
  indefinite : Open
  definite : ℕ → Open

-- `n` more elements of the innermost array.
abbrev pub consume : ℕ → List Open → Option (List Open)
consume n [] = none
consume n (indefinite ∷ s) = some (indefinite ∷ s)
consume n (definite k ∷ s) = if leb n k then some (definite (k - n) ∷ s) else none

abbrev pub opened : Open → Option (List Open) → List Open
opened o none = []
opened o (some s) = o ∷ s

abbrev pub consumed : Option (List Open) → List Open
consumed none = []
consumed (some s) = s

abbrev pub closed : List Open → List Open
closed [] = []
closed (indefinite ∷ s) = s
closed (definite zero ∷ s) = s
closed (definite (suc k) ∷ s) = []

-- The open arrays after one call; the empty list stands for a misuse of the writer.
abbrev pub nest : List Open → Call → List Open
nest s start_open_array = opened indefinite (consume 1 s)
nest s (start_array n) = opened (definite n) (consume 1 s)
nest s end_array = closed s
nest s (unsigned n) = consumed (consume 1 s)
nest s (integer v) = consumed (consume 1 s)
nest s (double x) = consumed (consume 1 s)
nest s (boolean b) = consumed (consume 1 s)
nest s (text t) = consumed (consume 1 s)
nest s null = consumed (consume 1 s)

unfoldable pub nest_all : List Open → List Call → List Open
nest_all s [] = s
nest_all s (c ∷ cs) = nest_all (nest s c) cs

-- The calls write one item: every array is closed, and holds as many elements as it declares.
abbrev pub IsComplete : List Call → Type 0
IsComplete cs = nest_all (definite 1 ∷ []) cs ≡ definite 0 ∷ []

abbrev pub weight : Call → ℕ
weight end_array = 0
weight _ = 1

-- The items among the calls, each of which takes a byte at least.
unfoldable pub items : List Call → ℕ
items [] = 0
items (c ∷ cs) = weight c + items cs

abbrev pub is_high : ℕ → Bool
is_high u = leb 0xd800 u && ltb u 0xdc00

abbrev pub is_low : ℕ → Bool
is_low u = leb 0xdc00 u && ltb u 0xe000

-- No unpaired surrogate: the texts that UTF-8 can carry. `paired` says that a high one came before.
unfoldable pub is_utf16 : Bool → Text → Bool
is_utf16 true [] = false
is_utf16 false [] = true
is_utf16 true (u ∷ us) = is_low u && is_utf16 false us
is_utf16 false (u ∷ us) = if is_low u then false else is_utf16 (is_high u) us

abbrev pub IsText : Text → Type 0
IsText s = is_utf16 false s ≡ true

-- The library's operations. A byte array is `Bytes`; a call that can fail says whether it succeeded.
pub record Cbor : Type 1 where
  pub Bytes : Type 0
  pub Reader : Type 0
  pub write : List Call → Bytes
  pub open_reader : Bytes → Reader
  pub is_array : Reader → Bool
  pub is_integer : Reader → Bool
  pub is_double : Reader → Bool
  pub is_bool : Reader → Bool
  pub is_string : Reader → Bool
  pub is_byte_array : Reader → Bool
  pub is_null : Reader → Bool
  pub is_container : Reader → Bool
  pub has_next : Reader → Bool
  pub failed : Reader → Bool
  pub to_integer : Reader → ℤ
  pub to_double : Reader → Double
  pub to_bool : Reader → Bool
  pub next : Reader → Bool × Reader
  pub enter_container : Reader → Bool × Reader
  pub leave_container : Reader → Bool × Reader
  pub read_all_string : Reader → Text × Reader
  pub read_all_byte_array : Reader → Reader
  -- The bytes that are not read yet.
  pub remaining : Reader → ℕ
  -- static_cast<double> of a qint64.
  pub double_of_integer : ℤ → Double

-- What the library documents of a reader over what the writer wrote. `Reads r cs` says that the
-- reader stands in front of what the calls `cs` wrote.
pub record CborLaws (c : Cbor) : Type 1 where
  pub Reads : c.Reader → List Call → Type 0
  pub reads_written : (cs : List Call) → IsComplete cs → Reads (c.open_reader (c.write cs)) cs
  pub reads_healthy : (r : c.Reader) (cs : List Call) → Reads r cs → c.failed r ≡ false
  pub reads_remaining : (r : c.Reader) (cs : List Call) → Reads r cs → items cs ≤ c.remaining r
  pub reads_open_array :
      (r : c.Reader) (cs : List Call)
      → Reads r (start_open_array ∷ cs)
      → (c.is_array r ≡ true) × ((c.enter_container r).0 ≡ true) × Reads (c.enter_container r).1 cs
  pub reads_array :
      (r : c.Reader) (n : ℕ) (cs : List Call)
      → Reads r (start_array n ∷ cs)
      → (c.is_array r ≡ true)
        × (c.is_null r ≡ false)
        × (c.has_next r ≡ true)
        × ((c.enter_container r).0 ≡ true)
        × Reads (c.enter_container r).1 cs
  pub reads_end :
      (r : c.Reader) (cs : List Call)
      → Reads r (end_array ∷ cs)
      → (c.has_next r ≡ false) × ((c.leave_container r).0 ≡ true) × Reads (c.leave_container r).1 cs
  pub reads_unsigned :
      (r : c.Reader) (n : ℕ) (cs : List Call)
      → n < 2 ^ 63
      → Reads r (unsigned n ∷ cs)
      → (c.is_integer r ≡ true)
        × (c.to_integer r ≡ pos n)
        × (c.has_next r ≡ true)
        × ((c.next r).0 ≡ true)
        × Reads (c.next r).1 cs
  pub reads_integer :
      (r : c.Reader) (v : ℤ) (cs : List Call)
      → IsInt64 v
      → Reads r (integer v ∷ cs)
      → (c.is_integer r ≡ true)
        × (c.to_integer r ≡ v)
        × (c.has_next r ≡ true)
        × ((c.next r).0 ≡ true)
        × Reads (c.next r).1 cs
  pub reads_double :
      (r : c.Reader) (x : Double) (cs : List Call)
      → Reads r (double x ∷ cs)
      → (c.is_double r ≡ true) × (c.to_double r ≡ x) × ((c.next r).0 ≡ true) × Reads (c.next r).1 cs
  pub reads_bool :
      (r : c.Reader) (b : Bool) (cs : List Call)
      → Reads r (boolean b ∷ cs)
      → (c.is_bool r ≡ true) × (c.to_bool r ≡ b) × ((c.next r).0 ≡ true) × Reads (c.next r).1 cs
  pub reads_text :
      (r : c.Reader) (s : Text) (cs : List Call)
      → IsText s
      → Reads r (text s ∷ cs)
      → (c.is_string r ≡ true)
        × (c.has_next r ≡ true)
        × ((c.read_all_string r).0 ≡ s)
        × Reads (c.read_all_string r).1 cs
  pub reads_null :
      (r : c.Reader) (cs : List Call)
      → Reads r (null ∷ cs)
      → (c.is_null r ≡ true) × ((c.next r).0 ≡ true) × Reads (c.next r).1 cs
