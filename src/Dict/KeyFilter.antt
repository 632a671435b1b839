-- ===== src/Dict/KeyFilter.antt =====
-- src/dict/keyfilter.h and keyfilter.cpp: the sidecar of key hashes, from its writer to its reader.
-- A file is the list of its bytes; what the calls of QSaveFile and QFile answer is an argument.
pub mod Search
pub mod Sorting
pub mod RoundTrip
pub mod NoMiss
pub mod Bounds
mod Tests
use marupop.Prelude.{
  ℕ, zero, suc, ◌+◌, ◌-◌, ◌*◌, ◌/◌, ◌^◌, Bool, true, false, not, ◌&&◌, ◌||◌, Option, none, some,
  List, [], ◌∷◌, ◌++◌, ltb, leb, ◌==◌, length, get_or, take, drop, if◌then◌else◌,
}
use marupop.Prelude.Bytes.{little_endian, bytes_of}
use marupop.Prelude.Int.{ℤ, pos, negsuc, max_ℤ, ltb_ℤ, wrap, to_int32, int32_of_bits}
use marupop.Dict.Records.{Text}

-- XXH3_64bits() and QStringView::toUtf8().
pub record Hashing : Type 0 where
  pub xxh3 : List ℕ → ℕ
  pub to_utf8 : Text → List ℕ

unfoldable pub key_filter_hash : Hashing → Text → ℕ
key_filter_hash h key = h.xxh3 (h.to_utf8 key)

pub record KeyFilterWriter : Type 0 where
  pub hashes : List ℕ
  pub max_key_length : ℤ
  pub distinct_count : ℕ

unfoldable pub new_writer : KeyFilterWriter
new_writer = record { hashes = []; max_key_length = pos 0; distinct_count = 0 }

unfoldable pub add_hash : ℕ → ℤ → KeyFilterWriter → KeyFilterWriter
add_hash hash key_length w = record w {
  hashes = w.hashes ++ hash ∷ [];
  max_key_length = max_ℤ w.max_key_length key_length;
}

unfoldable pub add : Hashing → Text → KeyFilterWriter → KeyFilterWriter
unfolding add_hash
add h key w = add_hash (key_filter_hash h key) (to_int32 (pos (length key))) w

-- std::ranges::sort(), as an insertion sort.
unfoldable pub insert_sorted : ℕ → List ℕ → List ℕ
insert_sorted x [] = x ∷ []
insert_sorted x (y ∷ ys) = let rest = insert_sorted x ys in if leb x y then x ∷ y ∷ ys else y ∷ rest

unfoldable pub sort : List ℕ → List ℕ
sort [] = []
sort (x ∷ xs) = insert_sorted x (sort xs)

-- std::ranges::unique() with the erase: of equal neighbours the first is kept.
unfoldable pub unique_after : ℕ → List ℕ → List ℕ
unique_after x [] = []
unique_after x (y ∷ ys) =
    let same = unique_after x ys in
    let other = unique_after y ys in if x == y then same else y ∷ other

unfoldable pub unique : List ℕ → List ℕ
unique [] = []
unique (x ∷ xs) = x ∷ unique_after x xs

unfoldable pub distinct_hashes : KeyFilterWriter → List ℕ
distinct_hashes w = unique (sort w.hashes)

-- 0x31464B4D.
abbrev pub key_filter_magic : ℕ
key_filter_magic = 826690381

abbrev pub key_filter_version : ℕ
key_filter_version = 1

pub record KeyFilterHeader : Type 0 where
  pub magic : ℕ
  pub version : ℕ
  pub count : ℕ
  pub max_key_length : ℕ
  pub reserved : ℕ

unfoldable pub header_bytes : KeyFilterHeader → List ℕ → List ℕ
header_bytes h rest =
    bytes_of 4 h.magic
    ++ (bytes_of 4 h.version
        ++ (bytes_of 8 h.count ++ (bytes_of 4 h.max_key_length ++ (bytes_of 4 h.reserved ++ rest))))

unfoldable pub body_bytes : List ℕ → List ℕ
body_bytes [] = []
body_bytes (x ∷ xs) = bytes_of 8 x ++ body_bytes xs

-- What the calls of QSaveFile answer: open(), the two write() and commit().
pub record Saving : Type 0 where
  pub opens : Bool
  pub header_written : ℤ
  pub body_written : ℤ
  pub commits : Bool

abbrev pub is_size : ℤ → ℕ → Bool
is_size (pos n) k = n == k
is_size (negsuc n) k = false

unfoldable pub header_of : KeyFilterWriter → KeyFilterHeader
header_of w = record {
  magic = key_filter_magic;
  version = key_filter_version;
  count = length (distinct_hashes w);
  max_key_length = wrap (2 ^ 32) w.max_key_length;
  reserved = 0;
}

-- The writer afterwards, and the file that is committed; none where write() returns false.
unfoldable pub write : Saving → KeyFilterWriter → KeyFilterWriter × Option (List ℕ)
write s w =
    let hashes = distinct_hashes w in
    let payload = length hashes * 8 in
    let saved : KeyFilterWriter = record w { hashes = hashes; distinct_count = length hashes } in
    let file = header_bytes (header_of w) (body_bytes hashes) in
    let body_failed = ltb 0 payload && not (is_size s.body_written payload) in
    if not s.opens || (not (is_size s.header_written 24) || (body_failed || not s.commits))
    then (saved, none)
    else (saved, some file)

-- `mapping` is the file that stays mapped.
pub record KeyFilter : Type 0 where
  pub mapping : Option (List ℕ)
  pub hashes : List ℕ
  pub max_key_length : ℤ

unfoldable pub close : KeyFilter → KeyFilter
close f = record { mapping = none; hashes = []; max_key_length = pos 0 }

unfoldable pub read_header : List ℕ → KeyFilterHeader
read_header bytes = record {
  magic = little_endian (take 4 bytes);
  version = little_endian (take 4 (drop 4 bytes));
  count = little_endian (take 8 (drop 8 bytes));
  max_key_length = little_endian (take 4 (drop 16 bytes));
  reserved = little_endian (take 4 (drop 20 bytes));
}

-- The span of `count` words.
unfoldable pub words : ℕ → List ℕ → List ℕ
words zero bytes = []
words (suc count) bytes = little_endian (take 8 bytes) ∷ words count (drop 8 bytes)

abbrev pub is_accepted : ℕ → KeyFilterHeader → Bool
is_accepted size header =
    (header.magic == key_filter_magic)
    && ((header.version == key_filter_version) && leb header.count ((size - 24) / 8))

-- `none` where the file does not open, `false` where it cannot be mapped.
unfoldable pub open_file : Option (List ℕ) → Bool → KeyFilter → KeyFilter × Bool
unfolding close
open_file none maps f = (close f, false)
open_file (some bytes) maps f =
    let header = read_header bytes in
    let opened : KeyFilter = record {
      mapping = some bytes;
      hashes = words header.count (drop 24 bytes);
      max_key_length = int32_of_bits header.max_key_length;
    } in
    if not (ltb (length bytes) 24) && (maps && is_accepted (length bytes) header)
    then (opened, true)
    else (close f, false)

-- std::ranges::lower_bound(), of `size` elements from `first`. The rounds halve the size.
unfoldable pub lower_bound : ℕ → List ℕ → ℕ → ℕ → ℕ → ℕ
lower_bound zero hashes hash first size = first
lower_bound (suc fuel) hashes hash first zero = first
lower_bound (suc fuel) hashes hash first (suc rest) =
    let half = suc rest / 2 in
    let right = ltb (get_or hashes (first + half) 0) hash in
    lower_bound fuel hashes hash (if right then first + half + 1 else first)
      (if right then rest - half else half)

-- std::ranges::binary_search().
unfoldable pub contains_hash : ℕ → List ℕ → Bool
contains_hash hash hashes =
    let place = lower_bound (length hashes) hashes hash 0 (length hashes) in
    ltb place (length hashes) && not (ltb hash (get_or hashes place 0))

unfoldable pub contains : Hashing → Text → KeyFilter → Bool
contains h key f =
    if length f.hashes == 0
    then false
    else if ltb_ℤ (pos 0) f.max_key_length && ltb_ℤ f.max_key_length (pos (length key))
    then false
    else contains_hash (key_filter_hash h key) f.hashes
