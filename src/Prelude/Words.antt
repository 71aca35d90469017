-- ===== src/Prelude/Words.antt =====
-- The numbers that a little-endian machine reads from bytes in memory.
use Prim.Native.Nat.{ℕ, ◌+◌, ◌*◌, ◌/◌, ◌%◌}
use mathlib.Core.List.{List, [], ◌∷◌}

-- The four bytes of a `uint32_t`, the lowest first, and the number that they stand for.
unfoldable pub word_bytes : ℕ → List ℕ
word_bytes n = n % 256 ∷ n / 256 % 256 ∷ n / 65536 % 256 ∷ n / 16777216 % 256 ∷ []

unfoldable pub word_of : List ℕ → ℕ
word_of [] = 0
word_of (b ∷ bs) = let rest = word_of bs in b + 256 * rest
