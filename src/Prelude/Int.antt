-- ===== src/Prelude/Int.antt =====
-- Signed integers over the native numbers, under the library's names (its ℤ stands on the unary ℕ).
use marupop.Prelude.{
  ◌⊎◌, inl, inr, ℕ, suc, ◌+◌, ◌-◌, ◌*◌, ◌^◌, ◌%◌, ◌≤◌, ◌<◌, ◌≡◌, Bool, arith, ltb, leb,
  if◌then◌else◌,
}

-- `negsuc n` is -(n + 1).
pub data ℤ : Type 0 where
  pos : ℕ → ℤ
  negsuc : ℕ → ℤ

abbrev pub pos_part : ℤ → ℕ
pos_part (pos n) = n
pos_part (negsuc n) = 0

abbrev pub neg_part : ℤ → ℕ
neg_part (pos n) = 0
neg_part (negsuc n) = suc n

-- a - b, as an integer.
abbrev pub sub_ℕ : ℕ → ℕ → ℤ
sub_ℕ a b = if leb b a then pos (a - b) else negsuc (b - a - 1)

infixl 65 ◌+ℤ◌ ◌-ℤ◌
infix 50 ◌≤ℤ◌
unfoldable pub ◌+ℤ◌ : ℤ → ℤ → ℤ
a +ℤ b = sub_ℕ (pos_part a + pos_part b) (neg_part a + neg_part b)

unfoldable pub ◌-ℤ◌ : ℤ → ℤ → ℤ
a -ℤ b = sub_ℕ (pos_part a + neg_part b) (neg_part a + pos_part b)

abbrev pub ◌≤ℤ◌ : ℤ → ℤ → Type 0
a ≤ℤ b = pos_part a + neg_part b ≤ pos_part b + neg_part a

abbrev pub ltb_ℤ : ℤ → ℤ → Bool
ltb_ℤ a b = ltb (pos_part a + neg_part b) (pos_part b + neg_part a)

-- The two's complement pattern of `a` on 2 ^ w values, with `m` for 2 ^ w.
abbrev pub wrap : ℕ → ℤ → ℕ
wrap m (pos n) = n % m
wrap m (negsuc n) = m - 1 - n % m

-- The integer that a pattern below 2 ^ w stands for, with `h` for 2 ^ (w - 1).
abbrev pub signed : ℕ → ℕ → ℤ
signed h u = if ltb u h then pos u else negsuc (2 * h - u - 1)

-- static_cast<qint32>(v).
unfoldable pub to_int32 : ℤ → ℤ
to_int32 v = signed (2 ^ 31) (wrap (2 ^ 32) v)

-- static_cast<quint8>(v).
unfoldable pub to_uint8 : ℤ → ℕ
to_uint8 v = wrap (2 ^ 8) v

-- The range of a qint32.
abbrev pub IsInt32 : ℤ → Type 0
IsInt32 (pos n) = n < 2 ^ 31
IsInt32 (negsuc n) = n < 2 ^ 31

-- The range of a qint64.
abbrev pub IsInt64 : ℤ → Type 0
IsInt64 (pos n) = n < 2 ^ 63
IsInt64 (negsuc n) = n < 2 ^ 63

pub IsInt32-IsInt64 : (v : ℤ) → IsInt32 v → IsInt64 v
IsInt32-IsInt64 (pos n) h = omega arith
IsInt32-IsInt64 (negsuc n) h = omega arith

-- A conversion to a type that holds the value changes nothing.
pub to_int32_in_range : (v : ℤ) → IsInt32 v → to_int32 v ≡ v
unfolding to_int32
to_int32_in_range (pos n) h = ground arith
to_int32_in_range (negsuc n) h = ground arith

pub to_uint8_in_range : (n : ℕ) → n < 2 ^ 8 → to_uint8 (pos n) ≡ n
unfolding to_uint8
to_uint8_in_range n h = omega arith

-- static_cast<int> of a 64-bit pattern, through qint64: the low 32 bits, as a signed number.
unfoldable pub int32_of_bits : ℕ → ℤ
int32_of_bits u = signed (2 ^ 31) (u % 2 ^ 32)

-- One lemma for each operation lets `omega` work with the operations shut, at any depth.
pub +ℤ_parts :
    (a b : ℤ)
    → pos_part (a +ℤ b) + neg_part a + neg_part b ≡ neg_part (a +ℤ b) + pos_part a + pos_part b
unfolding ◌+ℤ◌
+ℤ_parts a b = ground arith

pub -ℤ_parts :
    (a b : ℤ)
    → pos_part (a -ℤ b) + neg_part a + pos_part b ≡ neg_part (a -ℤ b) + pos_part a + neg_part b
unfolding ◌-ℤ◌
-ℤ_parts a b = ground arith

pub eq_of_parts : (a b : ℤ) → pos_part a + neg_part b ≡ pos_part b + neg_part a → a ≡ b
eq_of_parts a b h = ground arith

pub ruleset int_laws = (arith, +ℤ_parts, -ℤ_parts, eq_of_parts)

abbrev pub max_ℤ : ℤ → ℤ → ℤ
max_ℤ a b = if ltb_ℤ a b then b else a

pub parts_exclusive : (v : ℤ) → (pos_part v ≡ 0) ⊎ (neg_part v ≡ 0)
parts_exclusive v = ground arith

pub IsInt32-of_parts : (v : ℤ) → pos_part v < 2 ^ 31 → neg_part v ≤ 2 ^ 31 → IsInt32 v
IsInt32-of_parts (pos n) h k = h
IsInt32-of_parts (negsuc n) h k = k

pub parts_of_IsInt32 : (v : ℤ) → IsInt32 v → (pos_part v < 2 ^ 31) × (neg_part v ≤ 2 ^ 31)
parts_of_IsInt32 (pos n) h = (h, omega arith)
parts_of_IsInt32 (negsuc n) h = (omega arith, h)
