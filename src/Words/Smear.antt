-- ===== src/Words/Smear.antt =====
-- Why shifting and or-ing gives a power of two, and when the wrapping operators do not wrap.
use native.Mathlib.Nat.{pow-suc, div-le_self}
use native.Mathlib.Nat.{pow-le-pow_right}
use libreactor_refactor.Prelude.{
  ℕ, zero, suc, ◌+◌, ◌-◌, ◌*◌, ◌/◌, ◌^◌, ◌≤◌, ◌<◌, ◌≡◌, refl, arith, bit_or, bit, bit-le-one,
  bit-bit_or, bit-shift, bit_or-lt, eq_of_ones, bit_top, top, pow2-lt, Bool-cases, ltb, inl, inr,
  ap, ◌∙◌,
}
use libreactor_refactor.Words.Defs.{word, add64, sub64, mul64, or_shift, fill_below}

pub add64-eq : (a b : ℕ) → a + b < word → add64 a b ≡ a + b
unfolding add64
add64-eq a b h = omega arith

pub sub64-eq : (a b : ℕ) → b ≤ a → a < word → sub64 a b ≡ a - b
unfolding sub64
sub64-eq a b h k = omega arith

pub mul64-eq : (a b : ℕ) → a * b < word → mul64 a b ≡ a * b
unfolding mul64
mul64-eq a b h = omega arith

-- The `m` highest of the digits 0 .. k are 1, and no digit above is.
record Ones (k m s : ℕ) : Type 0 where
  below : s < 2 ^ suc k
  ones : (i : ℕ) → i ≤ k → k < i + m → bit s i ≡ 1

or_shift-Ones : (k m s : ℕ) → Ones k m s → Ones k (m + m) (or_shift s m)
unfolding or_shift
or_shift-Ones k m s o = record {
  below = bit_or-lt (suc k) s (s / 2 ^ m) o.below (omega (arith, o.below, div-le_self s (2 ^ m)));
  ones = λ i le lt. place i le lt;
}
  where
    place : (i : ℕ) → i ≤ k → k < i + (m + m) → bit (bit_or s (s / 2 ^ m)) i ≡ 1
    place i le lt = elim (Bool-cases (ltb k (i + m))) [
      | inl near ↦
          let here = o.ones i le (ground arith) in
          omega (arith, bit-bit_or s (s / 2 ^ m) i, here, bit-le-one (s / 2 ^ m) i)
      | inr far ↦
          let there = o.ones (m + i) (ground arith) (ground arith) in
          omega (arith, bit-bit_or s (s / 2 ^ m) i, there, bit-shift s m i, bit-le-one s i)
    ]

-- Below 2 ^ 64, all digits up to the highest are 1 in the end.
pub fill_below-power : (k s : ℕ) → 2 ^ k ≤ s → s < 2 ^ suc k → k < 64 → fill_below s + 1 ≡ 2 ^ suc k
unfolding fill_below
fill_below-power k s lo hi small =
    let o₁ : Ones k 1 s = record { below = hi; ones = λ i le lt. highest i (omega arith) } in
    let o₂ = or_shift-Ones k 1 s o₁ in
    let o₄ = or_shift-Ones k 2 _ o₂ in
    let o₈ = or_shift-Ones k 4 _ o₄ in
    let o₁₆ = or_shift-Ones k 8 _ o₈ in
    let o₃₂ = or_shift-Ones k 16 _ o₁₆ in
    let o₆₄ = or_shift-Ones k 32 _ o₃₂ in
    eq_of_ones (suc k) _ o₆₄.below (λ i lt. o₆₄.ones i (omega arith) (omega arith))
  where
    highest : (i : ℕ) → i ≡ k → bit s i ≡ 1
    highest i e = rw e (bit_top k s lo hi)

-- `r` is the least power of two that is not below `n`, and a `size_t`.
pub record IsPowerAbove (n r : ℕ) : Type 0 where
  pub log : ℕ
  pub fits : log ≤ 63
  pub power : r ≡ 2 ^ log
  pub above : n ≤ r
  pub least : r < 2 * n

pub roundup-IsPowerAbove :
    (n : ℕ) → 1 ≤ n → n ≤ 2 ^ 63 → IsPowerAbove n (add64 (fill_below (sub64 n 1)) 1)
roundup-IsPowerAbove zero h k = absurd (omega arith)
roundup-IsPowerAbove (suc zero) h k = record {
  log = 0;
  fits = omega arith;
  power = unfold fill_below add64 sub64 in refl;
  above = unfold fill_below add64 sub64 in omega arith;
  least = unfold fill_below add64 sub64 in omega arith;
}
roundup-IsPowerAbove (suc (suc n)) h k =
    let (j, lo, hi) = top (suc n) (omega arith) in
    let small : j < 63 = pow2-lt j 63 (omega arith) in
    let filled = fill_below-power j (suc n) lo hi (omega arith) in
    let cap : 2 ^ suc j ≤ 2 ^ 63 =
      pow-le-pow_right {n = 2} (omega arith) {i = suc j} {j = 63} (omega arith) in
    let start : sub64 (suc (suc n)) 1 ≡ suc n =
      sub64-eq (suc (suc n)) 1 (omega arith) (omega arith) ∙ omega arith in
    let e : add64 (fill_below (sub64 (suc (suc n)) 1)) 1 ≡ 2 ^ suc j =
      ap (λ t. add64 (fill_below t) 1) start
      ∙ add64-eq (fill_below (suc n)) 1 (omega arith)
      ∙ filled in
    record {
      log = suc j;
      fits = omega arith;
      power = e;
      above = omega arith;
      least = omega (arith, pow-suc 2 j);
    }

pub power-le : {n r : ℕ} → IsPowerAbove n r → r ≤ 2 ^ 63
power-le p =
    let bound = pow-le-pow_right {n = 2} (omega arith) {i = p.log} {j = 63} p.fits in
    omega (arith, p.power, bound)
