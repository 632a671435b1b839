-- ===== src/Dict/KeyFilter/Tests.antt =====
-- A sidecar written and opened, and the theorems of the key filter at it.
use marupop.Prelude.{
  take, drop, ℕ, ◌*◌, ◌^◌, ◌%◌, ◌<◌, ◌≡◌, ◌↔◌, inl, inr, refl, true, false, none, some, List, [],
  ◌∷◌, ◌++◌, arith, length, get_or,
}
use marupop.Prelude.Int.{pos, to_int32, int32_of_bits}
use marupop.Prelude.Bytes.{bytes_of}
use marupop.Dict.Records.{Text}
use marupop.Dict.KeyFilter.{
  Hashing, key_filter_hash, KeyFilter, Saving, new_writer, add, add_hash, distinct_hashes, unique,
  unique_after, sort, insert_sorted, write, header_bytes, body_bytes, header_of, open_file, close,
  read_header, words, contains, contains_hash,
}
use marupop.Dict.KeyFilter.Search.{contains_hash_iff}
use marupop.Dict.KeyFilter.Sorting.{unique-sort-IsSorted}
use marupop.Dict.KeyFilter.NoMiss.{add_all, contains-write}

abbrev hashing : Hashing
hashing = record { xxh3 = λ bytes. length bytes * 7 % 2 ^ 64; to_utf8 = λ text. text }

abbrev keys : List Text
keys = (65 ∷ 66 ∷ []) ∷ (67 ∷ []) ∷ (68 ∷ []) ∷ []

abbrev saving : Saving
saving = record { opens = true; header_written = pos 24; body_written = pos 16; commits = true }

abbrev sidecar : List ℕ
sidecar =
    77 ∷ 75 ∷ 70 ∷ 49 ∷ 1 ∷ 0 ∷ 0 ∷ 0 ∷ 2 ∷ 0 ∷ 0 ∷ 0 ∷ 0 ∷ 0 ∷ 0 ∷ 0 ∷ 2 ∷ 0 ∷ 0 ∷ 0 ∷ 0 ∷ 0 ∷ 0
    ∷ 0 ∷ 7 ∷ 0 ∷ 0 ∷ 0 ∷ 0 ∷ 0 ∷ 0 ∷ 0 ∷ 14 ∷ 0 ∷ 0 ∷ 0 ∷ 0 ∷ 0 ∷ 0 ∷ 0 ∷ []

abbrev closed : KeyFilter
closed = record { mapping = none; hashes = []; max_key_length = pos 0 }

written : (write saving (add_all hashing keys new_writer)).1 ≡ some sidecar
unfolding write add_all add add_hash new_writer distinct_hashes unique unique_after sort
    insert_sorted header_bytes body_bytes header_of key_filter_hash to_int32
written = refl

two_hashes : length (distinct_hashes (add_all hashing keys new_writer)) < 2 ^ 64
unfolding add_all add add_hash new_writer distinct_hashes unique unique_after sort insert_sorted
    key_filter_hash
two_hashes = omega arith

-- A key with another length is rejected.
longer_key : contains hashing (1 ∷ 2 ∷ 3 ∷ []) (open_file (some sidecar) true closed).0 ≡ false
unfolding contains open_file read_header words close int32_of_bits
longer_key = refl

contains-write_example : contains hashing (67 ∷ []) (open_file (some sidecar) true closed).0 ≡ true
contains-write_example =
    contains-write hashing keys (67 ∷ []) saving sidecar closed (λ bytes. omega arith)
      (omega arith, (omega arith, (omega arith, tt))) two_hashes written (inr (inl refl))

contains_hash_iff_example : (contains_hash 7 (unique (sort (14 ∷ 7 ∷ 7 ∷ []))) ≡ true) ↔ (
    (i : ℕ) × (i < length (unique (sort (14 ∷ 7 ∷ 7 ∷ []))))
    × (get_or (unique (sort (14 ∷ 7 ∷ 7 ∷ []))) i 0 ≡ 7))
contains_hash_iff_example =
    contains_hash_iff 7 (unique (sort (14 ∷ 7 ∷ 7 ∷ []))) (unique-sort-IsSorted (14 ∷ 7 ∷ 7 ∷ []))

-- A sidecar whose count is 2^61 is refused.
corrupt_count :
    (open_file (some (take 8 sidecar ++ bytes_of 8 (2 ^ 61) ++ drop 16 sidecar)) true closed).1
    ≡ false
unfolding open_file read_header
corrupt_count = refl
