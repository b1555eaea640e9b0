-- ===== src/Protocol/Codec.antt =====
-- Reading back what was written.
use rmcast.Base.{ℕ, ◌-◌, ◌<◌, ◌^◌, ◌≡◌, List, ◌++◌, arith}
use rmcast.Base.Int.{ℤ, pos, negsuc, ◌≤ℤ◌, ◌<ℤ◌}
use rmcast.Protocol.{le_bytes, word_at, to_int32, of_int32}

pub word_at-le_bytes : (n : ℕ) (rest : List ℕ) → n < 2 ^ 32 → word_at (le_bytes n ++ rest) 0 ≡ n
unfolding word_at le_bytes
word_at-le_bytes n rest h = omega arith

-- An `int32_t` survives the trip as a word.
pub to_int32-of_int32 :
    (a : ℤ) → negsuc (2 ^ 31 - 1) ≤ℤ a → a <ℤ pos (2 ^ 31) → to_int32 (of_int32 a) ≡ a
unfolding to_int32 of_int32
to_int32-of_int32 (pos n) lo hi = ground arith
to_int32-of_int32 (negsuc n) lo hi = ground arith
