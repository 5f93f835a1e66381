-- ===== src/Hash/Long.antt =====
-- src/reactor/hash.c: the hash of more than 64 bytes, and the functions that choose.
use Prim.Native.Nat.{bit_xor}
use libreactor_refactor.Prelude.{
  ◌>>=◌, ℕ, zero, suc, ◌+◌, ◌-◌, ◌*◌, ◌/◌, Option, none, some, List, length, leb, bit_and, ◌==◌,
  if◌then◌else◌,
}
use libreactor_refactor.Words.{mul64, add64}
use libreactor_refactor.Hash.Defs.{
  k0, k1, k2, fetch64, shift_mix, shift_left, rotate64, hash_len_16,
}
use libreactor_refactor.Hash.Short.{hash_len_0_to_16, hash_len_17_to_32, hash_len_33_to_64}

pub record Pair64 : Type 0 where
  pub first : ℕ
  pub second : ℕ

unfoldable pub weak_hash_len_32_with_seeds2 : ℕ → ℕ → ℕ → ℕ → ℕ → ℕ → Pair64
unfolding rotate64 add64
weak_hash_len_32_with_seeds2 w x y z a b =
    let a = add64 a w in
    let b = rotate64 (add64 (add64 b a) z) 21 in
    let c = a in
    let a = add64 (add64 a x) y in
    let b = add64 b (rotate64 a 44) in record { first = add64 a z; second = add64 b c }

unfoldable pub weak_hash_len_32_with_seeds : List ℕ → ℕ → ℕ → ℕ → Option Pair64
unfolding fetch64 weak_hash_len_32_with_seeds2
weak_hash_len_32_with_seeds s p a b = do
  s0 ← fetch64 s p
  s8 ← fetch64 s (p + 8)
  s16 ← fetch64 s (p + 16)
  s24 ← fetch64 s (p + 24)
  some (weak_hash_len_32_with_seeds2 s0 s8 s16 s24 a b)

-- The variables of `cfarmhash`.
pub record Mix : Type 0 where
  pub x : ℕ
  pub y : ℕ
  pub z : ℕ
  pub v : Pair64
  pub w : Pair64

-- The body of its loop, and of its last part, without the changes that differ: `x` and `y` are
-- rotated and multiplied by `mul`; `nine` is 9 in the last part. `swap(z, x)` ends it.
unfoldable pub mix_round : List ℕ → ℕ → ℕ → ℕ → Mix → Option Mix
unfolding fetch64 rotate64 weak_hash_len_32_with_seeds add64 mul64
mix_round s p mul nine m = do
  s8 ← fetch64 s (p + 8)
  let x = mul64 (rotate64 (add64 (add64 (add64 m.x m.y) m.v.first) s8) 37) mul
  s48 ← fetch64 s (p + 48)
  let y = mul64 (rotate64 (add64 (add64 m.y m.v.second) s48) 42) mul
  let x = bit_xor x (mul64 m.w.second nine)
  s40 ← fetch64 s (p + 40)
  let y = add64 y (add64 (mul64 m.v.first nine) s40)
  let z = mul64 (rotate64 (add64 m.z m.w.first) 33) mul
  v ← weak_hash_len_32_with_seeds s p (mul64 m.v.second mul) (add64 x m.w.first)
  s16 ← fetch64 s (p + 16)
  w ← weak_hash_len_32_with_seeds s (p + 32) (add64 z m.w.second) (add64 y s16)
  some (record { x = z; y = y; z = x; v = v; w = w })

-- The loop of `cfarmhash` from the offset `p`, for so many rounds.
unfoldable pub mix_from : ℕ → List ℕ → ℕ → ℕ → Mix → Option Mix
unfolding mix_round
mix_from zero s end p m = none
mix_from (suc fuel) s end p m = do
  next ← mix_round s p k1 1 m
  let rest = mix_from fuel s end (p + 64) next
  if p + 64 == end then some next else rest

-- Its last part.
unfoldable pub mix_last : List ℕ → ℕ → Mix → Option ℕ
unfolding mix_round shift_mix shift_left hash_len_16 add64 mul64
mix_last s len m = do
  let end = (len - 1) / 64 * 64
  let tail = bit_and (len - 1) 63
  let mul = add64 k1 (shift_left (bit_and m.z 0xff) 1)
  let w_first = add64 m.w.first tail
  let v_first = add64 m.v.first w_first
  let w_first = add64 w_first v_first
  n ← mix_round s (end + tail - 63) mul 9 (record m {
    v = record { first = v_first; second = m.v.second };
    w = record { first = w_first; second = m.w.second };
  })
  some (
      hash_len_16
        (add64 (add64 (hash_len_16 n.v.first n.w.first mul) (mul64 (shift_mix n.y) k0)) n.z)
        (add64 (hash_len_16 n.v.second n.w.second mul) n.x) mul)

unfoldable pub mix_start : ℕ → Mix
unfolding shift_mix add64 mul64
mix_start s0 =
    let y = add64 (mul64 81 k1) 113 in
    record {
      x = add64 (mul64 81 k2) s0;
      y = y;
      z = mul64 (shift_mix (add64 (mul64 y k2) 113)) k2;
      v = record { first = 0; second = 0 };
      w = record { first = 0; second = 0 };
    }

unfoldable pub hash_len_more : List ℕ → ℕ → Option ℕ
unfolding fetch64 mix_start mix_from mix_last
hash_len_more s len = do
  s0 ← fetch64 s 0
  m ← mix_from len s ((len - 1) / 64 * 64) 0 (mix_start s0)
  mix_last s len m

unfoldable pub cfarmhash : List ℕ → ℕ → Option ℕ
unfolding hash_len_0_to_16 hash_len_17_to_32 hash_len_33_to_64 hash_len_more
cfarmhash s len =
    if leb len 16
    then hash_len_0_to_16 s len
    else if leb len 32
    then hash_len_17_to_32 s len
    else if leb len 64
    then hash_len_33_to_64 s len
    else hash_len_more s len

unfoldable pub hash_data : List ℕ → ℕ → Option ℕ
unfolding cfarmhash
hash_data = cfarmhash

-- A string is the list of its bytes before the byte 0, which `strlen` counts.
unfoldable pub hash_string : List ℕ → Option ℕ
unfolding hash_data
hash_string s = hash_data s (length s)
