-- ===== src/Dict/KeyFilter/RoundTrip.antt =====
-- The file that write() of src/dict/keyfilter.cpp commits, opened again.
use marupop.Prelude.{
  ℕ, ◌+◌, ◌-◌, ◌*◌, ◌/◌, ◌%◌, ◌^◌, ◌≤◌, ◌<◌, ◌≡◌, refl, sym, ap, ◌∙◌, subst, Bool, true, false, not,
  some, List, [], ◌∷◌, arith, ltb, leb, length, if_true, and_true, All,
}
use marupop.Prelude.Bytes.{little_endian, bytes_of}
use marupop.Prelude.Int.{ℤ, pos, wrap, int32_of_bits}
use marupop.Dict.KeyFilter.{
  KeyFilterWriter, KeyFilter, distinct_hashes, header_bytes, body_bytes, header_of, read_header,
  words, is_accepted, open_file, close,
}

little_endian-4 : (n : ℕ) → n < 2 ^ 32 → little_endian (bytes_of 4 n) ≡ n
little_endian-4 n h = omega arith

little_endian-8 : (n : ℕ) → n < 2 ^ 64 → little_endian (bytes_of 8 n) ≡ n
little_endian-8 n h = omega arith

words-body_bytes : (xs : List ℕ) → All (λ x. x < 2 ^ 64) xs → words (length xs) (body_bytes xs) ≡ xs
unfolding words body_bytes
words-body_bytes [] h = refl
words-body_bytes (x ∷ xs) (h, hs) =
    ap (λ y. y ∷ words (length xs) (body_bytes xs)) (little_endian-8 x h)
    ∙ ap (λ ys. x ∷ ys) (words-body_bytes xs hs)

length-body_bytes : (xs : List ℕ) → length (body_bytes xs) ≡ 8 * length xs
unfolding body_bytes
length-body_bytes [] = refl
length-body_bytes (x ∷ xs) = omega (arith, length-body_bytes xs)

int32_of_bits-wrap : (m : ℕ) → m < 2 ^ 31 → int32_of_bits (wrap (2 ^ 32) (pos m)) ≡ pos m
unfolding int32_of_bits
int32_of_bits-wrap m h = ground arith

le→leb : (a b : ℕ) → a ≤ b → leb a b ≡ true
le→leb a b h = ground arith

max_key_length_field :
    (v : ℤ) (m : ℕ)
    → v ≡ pos m
    → m < 2 ^ 31
    → int32_of_bits (little_endian (bytes_of 4 (wrap (2 ^ 32) v))) ≡ v
max_key_length_field v m e h =
    subst (λ u. int32_of_bits (little_endian (bytes_of 4 (wrap (2 ^ 32) u))) ≡ u) (sym e)
      (ap int32_of_bits (little_endian-4 (m % 2 ^ 32) (omega arith)) ∙ int32_of_bits-wrap m h)

abbrev pub file_of : KeyFilterWriter → List ℕ
file_of w = header_bytes (header_of w) (body_bytes (distinct_hashes w))

-- What the file of a writer can hold.
abbrev Fits : KeyFilterWriter → ℕ → Type 0
Fits w m =
    (w.max_key_length ≡ pos m)
    × (m < 2 ^ 31)
    × (length (distinct_hashes w) < 2 ^ 64)
    × All (λ x. x < 2 ^ 64) (distinct_hashes w)

abbrev pub opened : KeyFilterWriter → KeyFilter
opened w = record {
  mapping = some (file_of w);
  hashes = distinct_hashes w;
  max_key_length = w.max_key_length;
}

pub open_file-file_of :
    (w : KeyFilterWriter) (m : ℕ) (f : KeyFilter)
    → Fits w m
    → open_file (some (file_of w)) true f ≡ (opened w, true)
unfolding open_file read_header header_bytes header_of
open_file-file_of w m f (e, small, count, fit) =
    let hashes = distinct_hashes w in
    let n = length hashes in
    let size = length-body_bytes hashes in
    let counted : little_endian (bytes_of 8 n) ≡ n = little_endian-8 n count in
    let body = body_bytes hashes in
    let file = file_of w in
    let read = little_endian (bytes_of 8 n) in
    let width : length file ≡ 24 + length body = omega arith in
    let long : not (ltb (length file) 24) ≡ true = ground (arith, width) in
    let fits : leb read ((length file - 24) / 8) ≡ true =
      le→leb _ _ (omega (arith, counted, size, width)) in
    let accepted : is_accepted (length file) (read_header file) ≡ true =
      and_true refl (and_true refl fits) in
    let max = int32_of_bits (little_endian (bytes_of 4 (wrap (2 ^ 32) w.max_key_length))) in
    let state : List ℕ → ℤ → KeyFilter × Bool =
      λ hs v. (record { mapping = some file; hashes = hs; max_key_length = v }, true) in
    if_true (close f, false) (and_true long accepted)
    ∙ ap (λ k. state (words k body) max) counted
    ∙ ap (λ hs. state hs max) (words-body_bytes hashes fit)
    ∙ ap (state hashes) (max_key_length_field w.max_key_length m e small)
