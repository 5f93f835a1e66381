-- ===== src/Http/Bits.antt =====
-- src/reactor/http.c: `utility_u32_len` by the number of binary digits.
use libreactor_refactor.Prelude.{
  ◌>>=◌, ℕ, zero, suc, ◌+◌, ◌-◌, ◌*◌, ◌/◌, ◌%◌, ◌^◌, ◌≤◌, ◌<◌, Option, some, get_elem?, ltb,
  if◌then◌else◌, ◌≡◌, arith,
}
use native.Mathlib.Decide.{dec_lt}
use libreactor_refactor.Words.{add32, sub32}
use libreactor_refactor.Http.Number.{pow_10}

-- The digits of a number below 10 ^ 10, counted.
unfoldable pub digit_count : ℕ → ℕ
digit_count n =
    if ltb n 10
    then 1
    else if ltb n 100
    then 2
    else if ltb n 1000
    then 3
    else if ltb n 10000
    then 4
    else if ltb n 100000
    then 5
    else if ltb n 1000000
    then 6
    else if ltb n 10000000
    then 7
    else if ltb n 100000000
    then 8
    else if ltb n 1000000000
    then 9
    else 10

-- The function for a number of `b` binary digits.
unfoldable pub by_bits : ℕ → ℕ → Option ℕ
by_bits b n = do
  let t = b * 1233 / 4096
  p ← get_elem? pow_10 t
  some (add32 (sub32 t (if ltb n p then 1 else 0)) 1)

by_bits_0 :
    (c n x : ℕ)
    → c < 8
    → x ≡ n + (1 - n % 2)
    → 2 ^ c ≤ x
    → x < 2 ^ suc c
    → by_bits (suc c) n ≡ some (digit_count n)
unfolding by_bits digit_count add32 sub32
by_bits_0 zero n x small e lo hi = ground arith
by_bits_0 (suc zero) n x small e lo hi = ground arith
by_bits_0 (suc (suc zero)) n x small e lo hi = ground arith
by_bits_0 (suc (suc (suc zero))) n x small e lo hi = ground arith
by_bits_0 (suc (suc (suc (suc zero)))) n x small e lo hi = ground arith
by_bits_0 (suc (suc (suc (suc (suc zero))))) n x small e lo hi = ground arith
by_bits_0 (suc (suc (suc (suc (suc (suc zero)))))) n x small e lo hi = ground arith
by_bits_0 (suc (suc (suc (suc (suc (suc (suc zero))))))) n x small e lo hi = ground arith
by_bits_0 (suc (suc (suc (suc (suc (suc (suc (suc c)))))))) n x small e lo hi = absurd (omega arith)

by_bits_8 :
    (c n x : ℕ)
    → c < 8
    → x ≡ n + (1 - n % 2)
    → 2 ^ (8 + c) ≤ x
    → x < 2 ^ suc (8 + c)
    → by_bits (suc (8 + c)) n ≡ some (digit_count n)
unfolding by_bits digit_count add32 sub32
by_bits_8 zero n x small e lo hi = ground arith
by_bits_8 (suc zero) n x small e lo hi = ground arith
by_bits_8 (suc (suc zero)) n x small e lo hi = ground arith
by_bits_8 (suc (suc (suc zero))) n x small e lo hi = ground arith
by_bits_8 (suc (suc (suc (suc zero)))) n x small e lo hi = ground arith
by_bits_8 (suc (suc (suc (suc (suc zero))))) n x small e lo hi = ground arith
by_bits_8 (suc (suc (suc (suc (suc (suc zero)))))) n x small e lo hi = ground arith
by_bits_8 (suc (suc (suc (suc (suc (suc (suc zero))))))) n x small e lo hi = ground arith
by_bits_8 (suc (suc (suc (suc (suc (suc (suc (suc c)))))))) n x small e lo hi = absurd (omega arith)

by_bits_16 :
    (c n x : ℕ)
    → c < 8
    → x ≡ n + (1 - n % 2)
    → 2 ^ (16 + c) ≤ x
    → x < 2 ^ suc (16 + c)
    → by_bits (suc (16 + c)) n ≡ some (digit_count n)
unfolding by_bits digit_count add32 sub32
by_bits_16 zero n x small e lo hi = ground arith
by_bits_16 (suc zero) n x small e lo hi = ground arith
by_bits_16 (suc (suc zero)) n x small e lo hi = ground arith
by_bits_16 (suc (suc (suc zero))) n x small e lo hi = ground arith
by_bits_16 (suc (suc (suc (suc zero)))) n x small e lo hi = ground arith
by_bits_16 (suc (suc (suc (suc (suc zero))))) n x small e lo hi = ground arith
by_bits_16 (suc (suc (suc (suc (suc (suc zero)))))) n x small e lo hi = ground arith
by_bits_16 (suc (suc (suc (suc (suc (suc (suc zero))))))) n x small e lo hi = ground arith
by_bits_16 (suc (suc (suc (suc (suc (suc (suc (suc c)))))))) n x small e lo hi =
    absurd (omega arith)

by_bits_24 :
    (c n x : ℕ)
    → c < 8
    → x ≡ n + (1 - n % 2)
    → 2 ^ (24 + c) ≤ x
    → x < 2 ^ suc (24 + c)
    → by_bits (suc (24 + c)) n ≡ some (digit_count n)
unfolding by_bits digit_count add32 sub32
by_bits_24 zero n x small e lo hi = ground arith
by_bits_24 (suc zero) n x small e lo hi = ground arith
by_bits_24 (suc (suc zero)) n x small e lo hi = ground arith
by_bits_24 (suc (suc (suc zero))) n x small e lo hi = ground arith
by_bits_24 (suc (suc (suc (suc zero)))) n x small e lo hi = ground arith
by_bits_24 (suc (suc (suc (suc (suc zero))))) n x small e lo hi = ground arith
by_bits_24 (suc (suc (suc (suc (suc (suc zero)))))) n x small e lo hi = ground arith
by_bits_24 (suc (suc (suc (suc (suc (suc (suc zero))))))) n x small e lo hi = ground arith
by_bits_24 (suc (suc (suc (suc (suc (suc (suc (suc c)))))))) n x small e lo hi =
    absurd (omega arith)

pub by_bits_lem :
    (b n x : ℕ)
    → b < 32
    → x ≡ n + (1 - n % 2)
    → 2 ^ b ≤ x
    → x < 2 ^ suc b
    → by_bits (suc b) n ≡ some (digit_count n)
by_bits_lem b n x small e lo hi = elim (dec_lt b 8) [
  | yes low ↦ by_bits_0 b n x low e lo hi
  | no m8 ↦ elim (dec_lt b 16) [
    | yes low ↦
        let (c, back) = above 8 b (omega arith) in
        let p = by_bits_8 c n x (omega arith) e (rw back lo) (rw back hi) in rw back at p
    | no m16 ↦ elim (dec_lt b 24) [
      | yes low ↦
          let (c, back) = above 16 b (omega arith) in
          let p = by_bits_16 c n x (omega arith) e (rw back lo) (rw back hi) in rw back at p
      | no m24 ↦
          let (c, back) = above 24 b (omega arith) in
          let p = by_bits_24 c n x (omega arith) e (rw back lo) (rw back hi) in rw back at p
    ]
  ]
]
  where
    above : (k b : ℕ) → k ≤ b → (c : ℕ) × (k + c ≡ b)
    above k b le = (b - k, omega arith)
