-- ===== src/Ocr/Wire/Varint.antt =====
-- The varints of src/ocr/screenaiproto.cpp against a writer of the protobuf format.
use marupop.Prelude.{
  ℕ, zero, suc, ◌+◌, ◌*◌, ◌/◌, ◌%◌, ◌^◌, ◌<◌, ◌≡◌, sym, ap, ◌∙◌, false, List, [], ◌∷◌, ◌++◌, arith,
  ltb, lt→ltb, tests, Bool-cases, inl, inr, if◌then◌else◌, if_true, if_false,
}
use native.Mathlib.Nat.{pow-suc, pow-succ', add-mul, mul_assoc, mul_comm}
use marupop.Ocr.Wire.{ok, varint_loop, read_varint}

-- The bytes of `n` in at most `more + 1` groups of 7 bits, the low group first.
abbrev pub groups : ℕ → ℕ → List ℕ
groups zero n = n % 2 ^ 7 ∷ []
groups (suc more) n =
    let rest = groups more (n / 2 ^ 7) in
    if ltb n (2 ^ 7) then n ∷ [] else (n % 2 ^ 7 + 2 ^ 7) ∷ rest

unfoldable pub write_varint : ℕ → List ℕ
write_varint = groups 9

mul_split : (n p : ℕ) → n * p ≡ n % 2 ^ 7 * p + n / 2 ^ 7 * (p * 2 ^ 7)
mul_split n p =
    let split : n ≡ n % 2 ^ 7 + n / 2 ^ 7 * 2 ^ 7 = omega arith in
    ap (λ k. k * p) split
    ∙ add-mul (n % 2 ^ 7) (n / 2 ^ 7 * 2 ^ 7) p
    ∙ ap (λ k. n % 2 ^ 7 * p + k)
        (mul_assoc (n / 2 ^ 7) (2 ^ 7) p ∙ ap (λ k. n / 2 ^ 7 * k) (mul_comm (2 ^ 7) p))

pow_add7 : (s : ℕ) → 2 ^ (s + 7) ≡ 2 ^ s * 2 ^ 7
pow_add7 s =
    let shifted : 2 ^ (s + 7) ≡ 2 ^ (suc (suc (suc (suc (suc (suc (suc s))))))) =
      ap (λ k. 2 ^ k) (omega arith) in
    omega (
      arith,
      shifted,
      pow-suc 2 s,
      pow-suc 2 (suc s),
      pow-suc 2 (suc (suc s)),
      pow-suc 2 (suc (suc (suc s))),
      pow-suc 2 (suc (suc (suc (suc s)))),
      pow-suc 2 (suc (suc (suc (suc (suc s))))),
      pow-suc 2 (suc (suc (suc (suc (suc (suc s)))))),
    )

last_byte :
    (rounds shift value b : ℕ) (bytes : List ℕ)
    → b < 2 ^ 7
    → b * 2 ^ shift < 2 ^ 64
    → varint_loop (suc rounds) shift value (b ∷ bytes) ≡ ok (value + b * 2 ^ shift, bytes)
unfolding varint_loop
last_byte rounds shift value b bytes h k =
    let low : b % 2 ^ 7 ≡ b = omega arith in
    if_true _ (lt→ltb (b % 2 ^ 8) (2 ^ 7) (omega arith))
    ∙ ap (λ c. ok (value + c * 2 ^ shift % 2 ^ 64, bytes)) low
    ∙ ap (λ c. ok (value + c, bytes)) (omega arith)

byte_with_more :
    (rounds shift value b : ℕ) (bytes : List ℕ)
    → b < 2 ^ 7
    → b * 2 ^ shift < 2 ^ 64
    → varint_loop (suc rounds) shift value ((b + 2 ^ 7) ∷ bytes)
      ≡ varint_loop rounds (shift + 7) (value + b * 2 ^ shift) bytes
unfolding varint_loop
byte_with_more rounds shift value b bytes h k =
    let low : (b + 2 ^ 7) % 2 ^ 7 ≡ b = omega arith in
    let high : ltb ((b + 2 ^ 7) % 2 ^ 8) (2 ^ 7) ≡ false = ground arith in
    if_false _ high
    ∙ ap (λ c. varint_loop rounds (shift + 7) (value + c * 2 ^ shift % 2 ^ 64) bytes) low
    ∙ ap (λ c. varint_loop rounds (shift + 7) (value + c) bytes) (omega arith)

-- What the loop reads from the groups, whatever it has read before.
varint_loop-groups :
    (more shift value n : ℕ) (rest : List ℕ)
    → n < (2 ^ 7) ^ suc more
    → n * 2 ^ shift < 2 ^ 64
    → varint_loop (suc more) shift value (groups more n ++ rest) ≡ ok (value + n * 2 ^ shift, rest)
varint_loop-groups zero shift value n rest h k =
    let low : n % 2 ^ 7 ≡ n = omega (arith, pow-suc (2 ^ 7) 0) in
    ap (λ b. varint_loop 1 shift value (b ∷ rest)) low ∙ last_byte 0 shift value n rest h k
varint_loop-groups (suc more) shift value n rest h k =
    let low = n % 2 ^ 7 in
    let high = n / 2 ^ 7 in
    let split = mul_split n (2 ^ shift) in
    let place : high * (2 ^ shift * 2 ^ 7) ≡ high * 2 ^ (shift + 7) =
      ap (λ p. high * p) (sym (pow_add7 shift)) in
    let left = groups more high ++ rest in
    elim (Bool-cases (ltb n (2 ^ 7))) [
      | inl t ↦
          ap (λ bs. varint_loop (suc (suc more)) shift value (bs ++ rest)) (if_true _ t)
          ∙ last_byte (suc more) shift value n rest (omega tests) k
      | inr f ↦
          ap (λ bs. varint_loop (suc (suc more)) shift value (bs ++ rest)) (if_false _ f)
          ∙ byte_with_more (suc more) shift value low left (omega arith) (omega arith)
          ∙ varint_loop-groups more (shift + 7) (value + low * 2 ^ shift) high rest
              (omega (arith, pow-succ' (2 ^ 7) (suc more))) (omega arith)
          ∙ ap (λ v. ok (v, rest)) (omega arith)
    ]

-- A varint below 2^64 is read back as it was written, and what follows it is left.
pub read_varint-write_varint :
    (n : ℕ) (rest : List ℕ) → n < 2 ^ 64 → read_varint (write_varint n ++ rest) ≡ ok (n, rest)
unfolding read_varint write_varint
read_varint-write_varint n rest h =
    varint_loop-groups 9 0 0 n rest (omega arith) (omega arith)
    ∙ ap (λ k. ok (k, rest)) (omega arith)
