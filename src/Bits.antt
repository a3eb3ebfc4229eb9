-- ===== src/Bits.antt =====
-- Machine words as native numbers: C's shifts by repeated halving and doubling, and the digits of
-- a word. `UINT`, `size_t` and `PHYSPTR` have 32 bits on the i586 (include/kernel/types.h).
pub mod Laws
use yjkos.Prelude.{ℕ, zero, suc, ◌*◌, ◌/◌, ◌%◌, ◌^◌, Bool, true, false, ◌==◌}

abbrev pub word_mod : ℕ
word_mod = 2 ^ 32

-- `x >> k`
unfoldable pub shr : ℕ → ℕ → ℕ
shr x zero = x
shr x (suc k) = shr (x / 2) k

-- `x << k` before the result is cut to the width of its type.
unfoldable pub shl : ℕ → ℕ → ℕ
shl x zero = x
shl x (suc k) = 2 * shl x k

-- digit `i` of `x`, lowest first
unfoldable pub test_bit : ℕ → ℕ → Bool
test_bit x zero = x % 2 == 1
test_bit x (suc i) = test_bit (x / 2) i
