-- ===== src/Prelude/Bytes.antt =====
-- Numbers as bytes in memory, the low byte first.
use marupop.Prelude.{ℕ, zero, suc, ◌+◌, ◌*◌, ◌/◌, ◌%◌, List, [], ◌∷◌}

-- Little-endian bytes as a number.
abbrev pub little_endian : List ℕ → ℕ
little_endian [] = 0
little_endian (b ∷ bs) = b + 256 * little_endian bs

-- `width` bytes of a number.
abbrev pub bytes_of : ℕ → ℕ → List ℕ
bytes_of zero n = []
bytes_of (suc width) n = n % 256 ∷ bytes_of width (n / 256)
