-- ===== src/Prelude/Bits.antt =====
-- Bits of native numbers: the laws of `bit_or` and `bit_and` that masks and shifts need.
use Prim.Native.Nat.{ℕ, zero, suc, ◌+◌, ◌-◌, ◌*◌, ◌/◌, ◌%◌, ◌^◌, ◌≤◌, ◌<◌, min, max}
use Prim.Native.Nat.{bit_and, bit_or, digits, bit_and-bitwise, bit_or-bitwise}
use mathlib.Core.Path.{◌≡◌, refl, ap, ap₂, ◌∙◌}
use native.Mathlib.Nat.{
  pow-suc, div-div-eq-div-mul, pow-le-pow_right, div-add-mod, mod-lt, mod-eq_of_lt,
  add-mul-mod_self_left,
}
use native.Mathlib.Decide.{dec_lt}
use native.Mathlib.Omega.{arith}

-- A digitwise operation with a fuel that covers its first argument has no use for more of it.
module _ (rest : ℕ → ℕ) (join : ℕ → ℕ → ℕ) where
  abbrev run : ℕ → ℕ → ℕ → ℕ
  run fuel x y = digits rest join fuel x y

  fuel_free : (x y lo hi : ℕ) → x ≤ lo → x ≤ hi → run hi x y ≡ run lo x y
  fuel_free zero y zero zero below above = refl
  fuel_free zero y zero (suc hi) below above = refl
  fuel_free zero y (suc lo) zero below above = refl
  fuel_free zero y (suc lo) (suc hi) below above = refl
  fuel_free (suc x) y zero hi below above = absurd (omega arith)
  fuel_free (suc x) y (suc lo) zero below above = absurd (omega arith)
  fuel_free (suc x) y (suc lo) (suc hi) below above =
      let half : suc x / 2 ≤ x = omega arith in
      omega (arith, fuel_free (suc x / 2) (y / 2) lo hi (omega arith) (omega arith))

  fuel_half : (x y : ℕ) → run x (suc x / 2) y ≡ run (suc x / 2) (suc x / 2) y
  fuel_half x y = fuel_free (suc x / 2) y (suc x / 2) x (omega arith) (omega arith)

no_digits_and : (y : ℕ) → bit_and 0 y ≡ 0
no_digits_and y = bit_and-bitwise 0 y

zero-bit_or : (y : ℕ) → bit_or 0 y ≡ y
zero-bit_or y = bit_or-bitwise 0 y

-- The law for the lowest digit and the rest.
pub bit_and_step : (x y : ℕ) → bit_and x y ≡ min (x % 2) (y % 2) + 2 * bit_and (x / 2) (y / 2)
bit_and_step zero y = omega (arith, no_digits_and y, no_digits_and (y / 2))
bit_and_step (suc x) y =
    let half = fuel_half (λ _. zero) min x (y / 2) in
    omega (arith, half, bit_and-bitwise (suc x / 2) (y / 2), bit_and-bitwise (suc x) y)

pub bit_or_step : (x y : ℕ) → bit_or x y ≡ max (x % 2) (y % 2) + 2 * bit_or (x / 2) (y / 2)
bit_or_step zero y = omega (arith, zero-bit_or y, zero-bit_or (y / 2))
bit_or_step (suc x) y =
    let half = fuel_half (λ z. z) max x (y / 2) in
    omega (arith, half, bit_or-bitwise (suc x / 2) (y / 2), bit_or-bitwise (suc x) y)

no_mask : (bound x : ℕ) → x ≤ bound → bit_and x 0 ≡ 0
no_mask bound zero le = no_digits_and 0
no_mask zero (suc x) le = absurd (omega arith)
no_mask (suc bound) (suc x) le =
    let half = no_mask bound (suc x / 2) (omega arith) in
    omega (arith, half, bit_and_step (suc x) 0)

pub pow2-pos : (k : ℕ) → 0 < 2 ^ k
pow2-pos zero = omega arith
pow2-pos (suc k) = omega (arith, pow-suc 2 k, pow2-pos k)

-- A remainder modulo twice `p`, by its lowest binary digit.
mod_twice : (a p : ℕ) → 0 < p → a % (p * 2) ≡ a / 2 % p * 2 + a % 2
mod_twice a p h =
    let e : a ≡ a / 2 % p * 2 + a % 2 + p * 2 * (a / 2 / p) =
      omega (arith, ap (λ (t : ℕ). t * 2) (div-add-mod (a / 2) p)) in
    let small : a / 2 % p * 2 + a % 2 < p * 2 = omega (arith, mod-lt (a / 2) h) in
    ap (λ (t : ℕ). t % (p * 2)) e
    ∙ add-mul-mod_self_left (a / 2 % p * 2 + a % 2) (p * 2) (a / 2 / p)
    ∙ mod-eq_of_lt small

-- A mask of k ones is the remainder modulo 2 ^ k.
pub bit_and-mask : (k a : ℕ) → bit_and a (2 ^ k - 1) ≡ a % 2 ^ k
bit_and-mask zero a = omega (arith, no_mask a a (omega arith))
bit_and-mask (suc k) a =
    let pos = pow2-pos k in
    let half : (2 ^ k * 2 - 1) / 2 ≡ 2 ^ k - 1 = omega arith in
    let tail : bit_and (a / 2) ((2 ^ k * 2 - 1) / 2) ≡ a / 2 % 2 ^ k =
      ap (bit_and (a / 2)) half ∙ bit_and-mask k (a / 2) in
    rw (pow-suc 2 k) (omega (arith, tail, bit_and_step a (2 ^ k * 2 - 1), mod_twice a (2 ^ k) pos))

-- The digit of `x` at place `i`.
unfoldable pub bit : ℕ → ℕ → ℕ
bit x zero = x % 2
bit x (suc i) = bit (x / 2) i

pub bit-le-one : (x i : ℕ) → bit x i ≤ 1
unfolding bit
bit-le-one x zero = omega arith
bit-le-one x (suc i) = bit-le-one (x / 2) i

pub bit-bit_or : (a b i : ℕ) → bit (bit_or a b) i ≡ max (bit a i) (bit b i)
unfolding bit
bit-bit_or a b zero = omega (arith, bit_or_step a b)
bit-bit_or a b (suc i) =
    let half : bit_or a b / 2 ≡ bit_or (a / 2) (b / 2) = omega (arith, bit_or_step a b) in
    rw half (bit-bit_or (a / 2) (b / 2) i)

-- A shift to the right by `m` places.
pub bit-shift : (x m i : ℕ) → bit (x / 2 ^ m) i ≡ bit x (m + i)
unfolding bit
bit-shift x zero i = ap₂ bit {x = x / 2 ^ 0} {y = x} {u = i} {v = 0 + i} (omega arith) (omega arith)
bit-shift x (suc m) i =
    let twice : 2 ^ suc m ≡ 2 * 2 ^ m = omega (arith, pow-suc 2 m) in
    let split : x / 2 ^ suc m ≡ x / 2 / 2 ^ m = rw (twice, div-div-eq-div-mul) in
    let place : suc m + i ≡ suc (m + i) = omega arith in rw (split, place) (bit-shift (x / 2) m i)

pub bit_or-lt : (n a b : ℕ) → a < 2 ^ n → b < 2 ^ n → bit_or a b < 2 ^ n
bit_or-lt zero a b p q = omega (arith, bit_or_step a b, zero-bit_or 0, bit_or_zeros a b)
  where
    bit_or_zeros : (a b : ℕ) → a < 1 → b < 1 → bit_or a b ≡ 0
    bit_or_zeros zero zero h k = zero-bit_or 0
    bit_or_zeros (suc a) b h k = absurd (omega arith)
    bit_or_zeros zero (suc b) h k = absurd (omega arith)
bit_or-lt (suc n) a b p q =
    let twice = pow-suc 2 n in
    omega (arith, twice, bit_or_step a b, bit_or-lt n (a / 2) (b / 2) (omega arith) (omega arith))

-- A number whose `n` lowest digits are 1 and the others 0.
pub eq_of_ones : (n x : ℕ) → x < 2 ^ n → ((i : ℕ) → i < n → bit x i ≡ 1) → x + 1 ≡ 2 ^ n
unfolding bit
eq_of_ones zero x h ones = omega arith
eq_of_ones (suc n) x h ones =
    let twice = pow-suc 2 n in
    let low = ones 0 (omega arith) in
    omega
      (arith, twice, low, eq_of_ones n (x / 2) (omega arith) (λ i lt. ones (suc i) (omega arith)))

-- The highest digit of a number that is not 0.
pub bit_top : (k x : ℕ) → 2 ^ k ≤ x → x < 2 ^ suc k → bit x k ≡ 1
unfolding bit
bit_top zero x p q = omega arith
bit_top (suc k) x p q =
    bit_top k (x / 2) (omega (arith, pow-suc 2 k)) (omega (arith, pow-suc 2 k, pow-suc 2 (suc k)))

top_fuel : (n x : ℕ) → x ≤ n → 0 < x → (k : ℕ) × (2 ^ k ≤ x) × (x < 2 ^ suc k)
top_fuel zero x h pos = absurd (omega arith)
top_fuel (suc n) x h pos = elim (dec_lt 1 x) [
  | no one ↦ (0, omega arith, omega arith)
  | yes more ↦
      let (k, lo, hi) = top_fuel n (x / 2) (omega arith) (omega arith) in
      (suc k, omega (arith, pow-suc 2 k), omega (arith, pow-suc 2 k, pow-suc 2 (suc k)))
]

pub top : (x : ℕ) → 0 < x → (k : ℕ) × (2 ^ k ≤ x) × (x < 2 ^ suc k)
top x pos = top_fuel x x (omega arith) pos

pub pow2-lt : (j k : ℕ) → 2 ^ j < 2 ^ k → j < k
pow2-lt j k h = elim (dec_lt j k) [
  | yes p ↦ p
  | no p ↦
      absurd (omega (arith, pow-le-pow_right {n = 2} (omega arith) {i = k} {j = j} (omega arith)))
]
