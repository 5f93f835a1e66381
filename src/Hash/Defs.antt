-- ===== src/Hash/Defs.antt =====
-- src/reactor/hash.c: the hash of an integer, and what the hashes of bytes share. The bytes are a
-- list, and a pointer into them is an offset; `none` is a read outside of them. The machine stores
-- the lowest byte first (FARMHASH_BIG_ENDIAN is not set).
use Prim.Native.Nat.{bit_xor}
use libreactor_refactor.Prelude.{
  ℕ, zero, suc, ◌+◌, ◌-◌, ◌*◌, ◌/◌, ◌^◌, Option, none, some, List, [], ◌∷◌, length, drop, leb,
  bit_or, if◌then◌else◌,
}
use libreactor_refactor.Words.{mul64}

-- `v ^= v >> 33`
unfoldable pub fold33 : ℕ → ℕ
fold33 v = bit_xor v (v / 2 ^ 33)

unfoldable pub hash_uint64 : ℕ → ℕ
unfolding fold33 mul64
hash_uint64 v =
    fold33 (mul64 (fold33 (mul64 (fold33 v) 0xff51_afd7_ed55_8ccd)) 0xc4ce_b9fe_1a85_ec53)

abbrev pub k0 : ℕ
k0 = 0xc3a5_c85c_97cb_3127

abbrev pub k1 : ℕ
k1 = 0xb492_b66f_be98_f273

abbrev pub k2 : ℕ
k2 = 0x9ae1_6a3b_2f90_404f

-- The number that the first `n` bytes are.
unfoldable pub little_endian : ℕ → List ℕ → ℕ
little_endian zero s = 0
little_endian (suc n) [] = 0
little_endian (suc n) (b ∷ s) = b + 256 * little_endian n s

-- `memcpy` of `n` bytes at `p` into a number.
unfoldable pub fetch : ℕ → List ℕ → ℕ → Option ℕ
unfolding little_endian
fetch n s p = if leb (p + n) (length s) then some (little_endian n (drop p s)) else none

unfoldable pub fetch32 : List ℕ → ℕ → Option ℕ
unfolding fetch
fetch32 = fetch 4

unfoldable pub fetch64 : List ℕ → ℕ → Option ℕ
unfolding fetch
fetch64 = fetch 8

unfoldable pub shift_mix : ℕ → ℕ
shift_mix v = bit_xor v (v / 2 ^ 47)

-- `v << n`
unfoldable pub shift_left : ℕ → ℕ → ℕ
unfolding mul64
shift_left v n = mul64 v (2 ^ n)

unfoldable pub rotate64 : ℕ → ℕ → ℕ
unfolding shift_left
rotate64 v shift = bit_or (v / 2 ^ shift) (shift_left v (64 - shift))

unfoldable pub hash_len_16 : ℕ → ℕ → ℕ → ℕ
unfolding shift_mix mul64
hash_len_16 u v mul =
    let a = shift_mix (mul64 (bit_xor u v) mul) in
    let b = shift_mix (mul64 (bit_xor v a) mul) in mul64 b mul
