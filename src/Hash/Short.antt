-- ===== src/Hash/Short.antt =====
-- src/reactor/hash.c: the hashes of at most 64 bytes.
use Prim.Native.Nat.{bit_xor}
use libreactor_refactor.Prelude.{
  ◌>>=◌, ℕ, ◌+◌, ◌-◌, ◌*◌, ◌/◌, Option, some, List, ltb, leb, get_elem?, if◌then◌else◌,
}
use libreactor_refactor.Words.{mul64, add64}
use libreactor_refactor.Hash.Defs.{
  k0, k1, k2, fetch32, fetch64, shift_mix, shift_left, rotate64, hash_len_16,
}

unfoldable pub hash_8_to_16 : List ℕ → ℕ → Option ℕ
unfolding fetch64 rotate64 hash_len_16 add64 mul64
hash_8_to_16 s len = do
  let mul = add64 k2 (len * 2)
  a ← fetch64 s 0
  let a = add64 a k2
  b ← fetch64 s (len - 8)
  let c = add64 (mul64 (rotate64 b 37) mul) a
  let d = mul64 (add64 (rotate64 a 25) b) mul
  some (hash_len_16 c d mul)

unfoldable pub hash_4_to_7 : List ℕ → ℕ → Option ℕ
unfolding fetch32 shift_left hash_len_16 add64
hash_4_to_7 s len = do
  let mul = add64 k2 (len * 2)
  a ← fetch32 s 0
  b ← fetch32 s (len - 4)
  some (hash_len_16 (add64 len (shift_left a 3)) b mul)

unfoldable pub hash_1_to_3 : List ℕ → ℕ → Option ℕ
unfolding shift_mix mul64
hash_1_to_3 s len = do
  a ← get_elem? s 0
  b ← get_elem? s (len / 2)
  c ← get_elem? s (len - 1)
  let y = a + b * 256
  let z = len + c * 4
  some (mul64 (shift_mix (bit_xor (mul64 y k2) (mul64 z k0))) k2)

unfoldable pub hash_len_0_to_16 : List ℕ → ℕ → Option ℕ
unfolding hash_8_to_16 hash_4_to_7 hash_1_to_3
hash_len_0_to_16 s len =
    if leb 8 len
    then hash_8_to_16 s len
    else if leb 4 len
    then hash_4_to_7 s len
    else if ltb 0 len
    then hash_1_to_3 s len
    else some k2

unfoldable pub hash_len_17_to_32 : List ℕ → ℕ → Option ℕ
unfolding fetch64 rotate64 hash_len_16 add64 mul64
hash_len_17_to_32 s len = do
  let mul = add64 k2 (len * 2)
  s0 ← fetch64 s 0
  b ← fetch64 s 8
  s8 ← fetch64 s (len - 8)
  s16 ← fetch64 s (len - 16)
  let a = mul64 s0 k1
  let c = mul64 s8 mul
  let d = mul64 s16 k2
  some (
      hash_len_16 (add64 (add64 (rotate64 (add64 a b) 43) (rotate64 c 30)) d)
        (add64 (add64 a (rotate64 (add64 b k2) 18)) c) mul)

unfoldable pub hash_len_33_to_64 : List ℕ → ℕ → Option ℕ
unfolding fetch64 rotate64 hash_len_16 add64 mul64
hash_len_33_to_64 s len = do
  let mul = add64 k2 (len * 2)
  s0 ← fetch64 s 0
  b ← fetch64 s 8
  s8 ← fetch64 s (len - 8)
  s16 ← fetch64 s (len - 16)
  let a = mul64 s0 k2
  let c = mul64 s8 mul
  let d = mul64 s16 k2
  let y = add64 (add64 (rotate64 (add64 a b) 43) (rotate64 c 30)) d
  let z = hash_len_16 y (add64 (add64 a (rotate64 (add64 b k2) 18)) c) mul
  e16 ← fetch64 s 16
  f ← fetch64 s 24
  g32 ← fetch64 s (len - 32)
  h24 ← fetch64 s (len - 24)
  let e = mul64 e16 mul
  let g = mul64 (add64 y g32) mul
  let h = mul64 (add64 z h24) mul
  some (
      hash_len_16 (add64 (add64 (rotate64 (add64 e f) 43) (rotate64 g 30)) h)
        (add64 (add64 e (rotate64 (add64 f a) 18)) g) mul)
