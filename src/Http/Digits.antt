-- ===== src/Http/Digits.antt =====
-- src/reactor/http.c: `utility_u32_len` counts decimal digits.
use libreactor_refactor.Prelude.{
  ℕ, zero, suc, ◌+◌, ◌-◌, ◌/◌, ◌%◌, ◌^◌, ◌≤◌, ◌<◌, some, List, [], ◌∷◌, ◌++◌, length, bit_or,
  bit_or_step, ltb, ◌==◌, if◌then◌else◌, ◌≡◌, refl, sym, ap, ◌∙◌, arith, true, false, length-append,
  ◌⊎◌, inl, inr,
}
use native.Mathlib.Nat.{pow-suc}
use native.Mathlib.Decide.{dec_lt}
use libreactor_refactor.Http.Bits.{digit_count, by_bits, by_bits_lem}
use libreactor_refactor.Http.Number.{bit_length, leading_zeros, utility_u32_len}

-- Decimal digits, lowest last, of at most so many.
unfoldable pub decimal : ℕ → ℕ → List ℕ
decimal zero n = []
decimal (suc most) n =
    let rest = decimal most (n / 10) in
    if ltb n 10 then (48 + n) ∷ [] else rest ++ ((48 + n % 10) ∷ [])

bit_length-bounds :
    (most x : ℕ)
    → 0 < x
    → x < 2 ^ most
    → (b : ℕ) × (b < most) × (bit_length most x ≡ suc b) × (2 ^ b ≤ x) × (x < 2 ^ suc b)
unfolding bit_length
bit_length-bounds zero x pos lt = absurd (omega arith)
bit_length-bounds (suc most) x pos lt =
    let test : (x == 0) ≡ false = ground (arith, pos) in
    elim (dec_lt 1 x) [
      | yes more ↦
          let (b, small, e, lo, hi) =
            bit_length-bounds most (x / 2) (omega arith) (omega (arith, pow-suc 2 most)) in
          (
            suc b,
            omega arith,
            rw (test, e) refl,
            omega (arith, pow-suc 2 b),
            omega (arith, pow-suc 2 b, pow-suc 2 (suc b)),
          )
      | no one ↦
          let half : x / 2 ≡ 0 = omega arith in
          (
            0,
            omega arith,
            rw (test, half) (ap suc (bit_length_zero most)),
            omega arith,
            omega arith,
          )
    ]
  where
    bit_length_zero : (most : ℕ) → bit_length most 0 ≡ 0
    bit_length_zero zero = refl
    bit_length_zero (suc most) = refl

bit_or_zero : (bound x : ℕ) → x ≤ bound → bit_or x 0 ≡ x
bit_or_zero zero zero le = omega (arith, bit_or_step 0 0)
bit_or_zero zero (suc x) le = absurd (omega arith)
bit_or_zero (suc bound) x le = elim (dec_lt 0 x) [
  | yes pos ↦ omega (arith, bit_or_step x 0, bit_or_zero bound (x / 2) (omega arith))
  | no none_left ↦ let e : x ≡ 0 = omega arith in rw e (bit_or_zero bound 0 (omega arith))
]

or_one : (n : ℕ) → bit_or n 1 ≡ n + (1 - n % 2)
or_one n = omega (arith, bit_or_step n 1, bit_or_zero (n / 2) (n / 2) (omega arith))

length-decimal :
    (most d n : ℕ)
    → d < most
    → (d ≡ 0) ⊎ (10 ^ d ≤ n)
    → n < 10 ^ suc d
    → length (decimal most n) ≡ suc d
unfolding decimal
length-decimal zero d n small lo hi = absurd (omega arith)
length-decimal (suc most) zero n small lo hi =
    let test : ltb n 10 ≡ true = ground arith in rw test refl
length-decimal (suc most) (suc d) n small (inl e) hi = absurd (omega arith)
length-decimal (suc most) (suc d) n small (inr lo) hi =
    let up = pow-suc 10 d in
    let up' = pow-suc 10 (suc d) in
    let more : 10 ^ d ≤ n / 10 = omega arith in
    let pos : 1 ≤ 10 ^ d = pow_pos d in
    let test : ltb n 10 ≡ false = ground arith in
    let rest = length-decimal most d (n / 10) (omega arith) (inr more) (omega arith) in
    rw test (omega (arith, rest, length-append (decimal most (n / 10)) ((48 + n % 10) ∷ [])))
  where
    pow_pos : (d : ℕ) → 1 ≤ 10 ^ d
    pow_pos zero = omega arith
    pow_pos (suc d) = omega (arith, pow-suc 10 d, pow_pos d)

digit_count-bounds :
    (n : ℕ)
    → n < 10 ^ 10
    → (d : ℕ) × (d < 10) × (digit_count n ≡ suc d) × ((d ≡ 0) ⊎ (10 ^ d ≤ n)) × (n < 10 ^ suc d)
unfolding digit_count
digit_count-bounds n top = elim (dec_lt n 10) [
  | yes lt0 ↦ (0, omega arith, ground arith, inl refl, omega arith)
  | no ge0 ↦ elim (dec_lt n 100) [
    | yes lt1 ↦ (1, omega arith, ground arith, inr (omega arith), omega arith)
    | no ge1 ↦ elim (dec_lt n 1000) [
      | yes lt2 ↦ (2, omega arith, ground arith, inr (omega arith), omega arith)
      | no ge2 ↦ elim (dec_lt n 10000) [
        | yes lt3 ↦ (3, omega arith, ground arith, inr (omega arith), omega arith)
        | no ge3 ↦ elim (dec_lt n 100000) [
          | yes lt4 ↦ (4, omega arith, ground arith, inr (omega arith), omega arith)
          | no ge4 ↦ elim (dec_lt n 1000000) [
            | yes lt5 ↦ (5, omega arith, ground arith, inr (omega arith), omega arith)
            | no ge5 ↦ elim (dec_lt n 10000000) [
              | yes lt6 ↦ (6, omega arith, ground arith, inr (omega arith), omega arith)
              | no ge6 ↦ elim (dec_lt n 100000000) [
                | yes lt7 ↦ (7, omega arith, ground arith, inr (omega arith), omega arith)
                | no ge7 ↦ elim (dec_lt n 1000000000) [
                  | yes lt8 ↦ (8, omega arith, ground arith, inr (omega arith), omega arith)
                  | no ge8 ↦ (9, omega arith, ground arith, inr (omega arith), omega arith)
                ]
              ]
            ]
          ]
        ]
      ]
    ]
  ]
]

-- `utility_u32_len` counts the decimal digits of a 32-bit number.
pub utility_u32_len-length : (n : ℕ) → n < 2 ^ 32 → utility_u32_len n ≡ some (length (decimal 10 n))
unfolding utility_u32_len leading_zeros by_bits
utility_u32_len-length n small =
    let odd = or_one n in
    let (b, lt, bits, lo, hi) = bit_length-bounds 32 (bit_or n 1) (omega arith) (omega arith) in
    let (d, few, count, low, high) = digit_count-bounds n (omega arith) in
    let len = length-decimal 10 d n few low high in
    let width : 32 - (32 - bit_length 32 (bit_or n 1)) ≡ suc b = omega (arith, bits) in
    rw width (by_bits_lem b n (bit_or n 1) lt odd lo hi ∙ ap some (count ∙ sym len))
