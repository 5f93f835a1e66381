-- ===== src/Words/Defs.antt =====
-- Operators of C on `size_t` and `uint64_t`.
use libreactor_refactor.Prelude.{ℕ, ◌+◌, ◌-◌, ◌*◌, ◌/◌, ◌%◌, ◌^◌, bit_or}

-- 2 ^ 64
abbrev pub word : ℕ
word = 0x1_0000_0000_0000_0000

unfoldable pub add64 : ℕ → ℕ → ℕ
add64 a b = (a + b) % word

unfoldable pub sub64 : ℕ → ℕ → ℕ
sub64 a b = (a + word - b) % word

unfoldable pub mul64 : ℕ → ℕ → ℕ
mul64 a b = a * b % word

-- `s |= s >> n`
unfoldable pub or_shift : ℕ → ℕ → ℕ
or_shift s n = bit_or s (s / 2 ^ n)

-- `s--; s |= s >> 1; s |= s >> 2; … s |= s >> 32; s++`
unfoldable pub fill_below : ℕ → ℕ
unfolding or_shift
fill_below s = or_shift (or_shift (or_shift (or_shift (or_shift (or_shift s 1) 2) 4) 8) 16) 32

-- `uint32_t`: 2 ^ 32, and the operations.
abbrev pub word32 : ℕ
word32 = 0x1_0000_0000

unfoldable pub add32 : ℕ → ℕ → ℕ
add32 a b = (a + b) % word32

unfoldable pub sub32 : ℕ → ℕ → ℕ
sub32 a b = (a + word32 - b) % word32
