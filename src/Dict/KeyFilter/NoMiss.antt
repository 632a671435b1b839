-- ===== src/Dict/KeyFilter/NoMiss.antt =====
-- src/dict/keyfilter.cpp from the keys that are added to the answers of contains().
use marupop.Prelude.{
  ℕ, ◌^◌, ◌≤◌, ◌<◌, ◌≡◌, ◌⊎◌, inl, inr, refl, sym, ap, ◌∙◌, subst, Bool, true, false, Option, none,
  some, List, [], ◌∷◌, ◌++◌, arith, ◌==◌, length, if◌then◌else◌, if_false, and_false_right, max,
  All,
}
use marupop.Prelude.Int.{pos, max_ℤ, ltb_ℤ, to_int32, to_int32_in_range}
use marupop.Dict.Records.{Text}
use marupop.Dict.KeyFilter.{
  Hashing, key_filter_hash, KeyFilterWriter, KeyFilter, new_writer, add_hash, add, distinct_hashes,
  sort, unique, write, Saving, open_file, contains, contains_hash,
}
use marupop.Dict.KeyFilter.Search.{contains_hash_iff}
use marupop.Dict.KeyFilter.Sorting.{
  Has, unique-sort-IsSorted, Has-unique-sort, get_or-Has, All-unique-sort,
}
use marupop.Dict.KeyFilter.RoundTrip.{file_of, opened, open_file-file_of}

-- Keys added in a row.
unfoldable pub add_all : Hashing → List Text → KeyFilterWriter → KeyFilterWriter
add_all h [] w = w
add_all h (key ∷ keys) w = add_all h keys (add h key w)

-- The writer holds hashes below 2^64 and a length that is an int.
abbrev Holds : KeyFilterWriter → ℕ → Type 0
Holds w m = (w.max_key_length ≡ pos m) × (m < 2 ^ 31) × All (λ x. x < 2 ^ 64) w.hashes

All-snoc :
    (xs : List ℕ) (x : ℕ)
    → All (λ x. x < 2 ^ 64) xs
    → x < 2 ^ 64
    → All (λ x. x < 2 ^ 64) (xs ++ x ∷ [])
All-snoc [] x h k = (k, tt)
All-snoc (y ∷ ys) x (h, hs) k = (h, All-snoc ys x hs k)

Has-snoc : (xs : List ℕ) (x v : ℕ) → Has xs v ⊎ (x ≡ v) → Has (xs ++ x ∷ []) v
Has-snoc [] x v (inl h) = elim h [ ]
Has-snoc [] x v (inr e) = inl e
Has-snoc (y ∷ ys) x v (inl (inl e)) = inl e
Has-snoc (y ∷ ys) x v (inl (inr h)) = inr (Has-snoc ys x v (inl h))
Has-snoc (y ∷ ys) x v (inr e) = inr (Has-snoc ys x v (inr e))

max_ℤ_pos : (m k : ℕ) → max_ℤ (pos m) (pos k) ≡ pos (max m k)
max_ℤ_pos m k = ground arith

-- After a key: a maximum at least as large as before and as the key.
add-Holds :
    (h : Hashing) (key : Text) (w : KeyFilterWriter) (m : ℕ)
    → ((bytes : List ℕ) → h.xxh3 bytes < 2 ^ 64)
    → length key < 2 ^ 31
    → Holds w m
    → (n : ℕ) × Holds (add h key w) n × (m ≤ n) × (length key ≤ n)
unfolding add add_hash key_filter_hash
add-Holds h key w m fit l (e, small, all) =
    let k = length key in
    let longest : max_ℤ w.max_key_length (to_int32 (pos k)) ≡ pos (max m k) =
      ap (λ v. max_ℤ v (to_int32 (pos k))) e
      ∙ ap (max_ℤ (pos m)) (to_int32_in_range (pos k) l)
      ∙ max_ℤ_pos m k in
    (
      max m k,
      (longest, omega arith, All-snoc w.hashes _ all (fit (h.to_utf8 key))),
      omega arith,
      omega arith,
    )

add_all-Holds :
    (h : Hashing) (keys : List Text) (w : KeyFilterWriter) (m : ℕ)
    → ((bytes : List ℕ) → h.xxh3 bytes < 2 ^ 64)
    → All (λ key. length key < 2 ^ 31) keys
    → Holds w m
    → (n : ℕ) × Holds (add_all h keys w) n × (m ≤ n)
unfolding add_all
add_all-Holds h [] w m fit l g = (m, g, omega arith)
add_all-Holds h (key ∷ keys) w m fit (l, ls) g =
    let (n, g', more, wide) = add-Holds h key w m fit l g in
    let (n', g'', more') = add_all-Holds h keys (add h key w) n fit ls g' in (n', g'', omega arith)

add_all-Has :
    (h : Hashing) (keys : List Text) (w : KeyFilterWriter) (v : ℕ)
    → Has w.hashes v
    → Has (add_all h keys w).hashes v
unfolding add_all add add_hash
add_all-Has h [] w v g = g
add_all-Has h (key ∷ keys) w v g =
    add_all-Has h keys (add h key w) v (Has-snoc w.hashes _ v (inl g))

-- The key is one of those that are added.
abbrev pub IsKey : List Text → Text → Type 0
IsKey [] key = ⊥
IsKey (k ∷ ks) key = (k ≡ key) ⊎ IsKey ks key

add_all-key :
    (h : Hashing) (keys : List Text) (w : KeyFilterWriter) (m : ℕ) (key : Text)
    → ((bytes : List ℕ) → h.xxh3 bytes < 2 ^ 64)
    → All (λ key. length key < 2 ^ 31) keys
    → Holds w m
    → IsKey keys key
    → (n : ℕ) × Holds (add_all h keys w) n
      × (length key ≤ n)
      × Has (add_all h keys w).hashes (key_filter_hash h key)
unfolding add_all add add_hash
add_all-key h [] w m key fit l g i = elim i [ ]
add_all-key h (k ∷ ks) w m key fit (l, ls) g (inl e) =
    let (n, g', more, wide) = add-Holds h k w m fit l g in
    let (n', g'', more') = add_all-Holds h ks (add h k w) n fit ls g' in
    let same : length k ≡ length key = ap length e in
    (
      n',
      g'',
      omega arith,
      add_all-Has h ks (add h k w) _ (Has-snoc w.hashes _ _ (inr (ap (key_filter_hash h) e))),
    )
add_all-key h (k ∷ ks) w m key fit (l, ls) g (inr i) =
    let (n, g', more, wide) = add-Holds h k w m fit l g in
    add_all-key h ks (add h k w) n key fit ls g' i

abbrev saved : {A B : Type 0} → Bool → A → B → Option B
saved {A} {B} failed a written =
    let outcome : A × Option B = if failed then (a, none) else (a, some written) in outcome.1

committed :
    {A B : Type 0} (failed : Bool) (a : A) (written file : B)
    → saved failed a written ≡ some file
    → file ≡ written
committed true a written file e = cc
committed false a written file e = cc

write-file_of :
    (s : Saving) (w : KeyFilterWriter) (file : List ℕ)
    → (write s w).1 ≡ some file
    → file ≡ file_of w
unfolding write
write-file_of s w file e = committed _ _ (file_of w) file e

contains-opened :
    (h : Hashing) (key : Text) (w : KeyFilterWriter) (n : ℕ)
    → w.max_key_length ≡ pos n
    → length key ≤ n
    → Has w.hashes (key_filter_hash h key)
    → contains h key (opened w) ≡ true
unfolding contains distinct_hashes
contains-opened h key w n e l g =
    let hashes = unique (sort w.hashes) in
    let v = key_filter_hash h key in
    let (i, inside, at) = get_or-Has hashes v (Has-unique-sort w.hashes v g) in
    let found : contains_hash v hashes ≡ true =
      (contains_hash_iff v hashes (unique-sort-IsSorted w.hashes)).1 (i, inside, at) in
    let some_hash : (length hashes == 0) ≡ false = ground arith in
    let short : ltb_ℤ w.max_key_length (pos (length key)) ≡ false =
      ap (λ m. ltb_ℤ m (pos (length key))) e ∙ ground arith in
    if_false false some_hash
    ∙ if_false false (and_false_right (ltb_ℤ (pos 0) w.max_key_length) short)
    ∙ found

-- A filter that was written from the keys, whatever order and however often they were added, and
-- opened again answers true for each of them: hashes are below 2^64, keys are shorter than 2^31
-- units, and the distinct hashes are no more than the header's count can say.
pub contains-write :
    (h : Hashing) (keys : List Text) (key : Text) (s : Saving) (file : List ℕ) (f : KeyFilter)
    → ((bytes : List ℕ) → h.xxh3 bytes < 2 ^ 64)
    → All (λ key. length key < 2 ^ 31) keys
    → length (distinct_hashes (add_all h keys new_writer)) < 2 ^ 64
    → (write s (add_all h keys new_writer)).1 ≡ some file
    → IsKey keys key
    → contains h key (open_file (some file) true f).0 ≡ true
unfolding new_writer distinct_hashes
contains-write h keys key s file f fit l c e i =
    let w = add_all h keys new_writer in
    let (n, (longest, small, all), wide, has) =
      add_all-key h keys new_writer 0 key fit l (refl, omega arith, tt) i in
    let open_eq = open_file-file_of w n f (longest, small, c, All-unique-sort _ w.hashes all) in
    subst (λ b. contains h key (open_file (some b) true f).0 ≡ true)
      (sym (write-file_of s w file e))
      (ap (λ p. contains h key p.0) open_eq ∙ contains-opened h key w n longest wide has)
