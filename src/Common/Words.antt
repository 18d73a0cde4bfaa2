-- ===== src/Common/Words.antt =====
-- Unsigned machine words: wrapping arithmetic at 32 bits, and shifts and masks as arithmetic.
use Prim.Native.Nat.{ℕ, ◌+◌, ◌-◌, ◌/◌, ◌%◌, ◌^◌}

abbrev pub u32 : ℕ → ℕ
u32 n = n % 2 ^ 32

-- uint32_t a - b for words a and b.
abbrev pub sub32 : ℕ → ℕ → ℕ
sub32 a b = (a + 2 ^ 32 - b) % 2 ^ 32

-- x >> k
abbrev pub shr : ℕ → ℕ → ℕ
shr x k = x / 2 ^ k
