-- ===== src/Map/Ring.antt =====
-- Positions of the array as a ring: distances, the next position, and the masks of the source.
use libreactor_refactor.Prelude.{
  ℕ, suc, ◌+◌, ◌-◌, ◌%◌, ◌^◌, ◌≤◌, ◌<◌, ◌≡◌, ◌≢◌, bit_and, bit_and-mask, pow2-pos, leb, ◌==◌,
  if◌then◌else◌, arith, ap, ◌∙◌, Bool-cases, inl, inr,
}
use libreactor_refactor.Words.{add64, sub64, add64-eq, sub64-eq}
use libreactor_refactor.Map.Defs.{moves}
use native.Mathlib.Nat.{mod-eq_of_lt, mod_self, pow-le-pow_right}

module _ (c : ℕ) where
  -- The steps from `x` on to `y`.
  pub dist : ℕ → ℕ → ℕ
  dist x y = if leb x y then y - x else y + c - x

  pub next : ℕ → ℕ
  next j = if suc j == c then 0 else suc j

  pub next-lt : (j : ℕ) → j < c → next j < c
  unfolding next
  next-lt j h = ground arith

  pub dist-lt : (x y : ℕ) → x < c → y < c → dist x y < c
  unfolding dist
  dist-lt x y p q = ground arith

  pub dist_self : (x : ℕ) → dist x x ≡ 0
  unfolding dist
  dist_self x = ground arith

  pub dist_injective : (x y z : ℕ) → x < c → y < c → z < c → dist x y ≡ dist x z → y ≡ z
  unfolding dist
  dist_injective x y z p q r h = ground arith

  pub apart : (x y : ℕ) → x < c → y < c → x ≢ y → 0 < dist x y
  unfolding dist
  apart x y p q n = ground arith

  pub dist_source_injective : (x y z : ℕ) → x < c → y < c → z < c → dist x z ≡ dist y z → x ≡ y
  unfolding dist
  dist_source_injective x y z p q r h = ground arith

  pub dist-next : (x j : ℕ) → x < c → j < c → dist x j + 1 < c → dist x (next j) ≡ dist x j + 1
  unfolding dist next
  dist-next x j p q h = ground arith

  pub next_last : (x j : ℕ) → x < c → j < c → dist x j + 1 ≡ c → next j ≡ x
  unfolding dist next
  next_last x j p q h = ground arith

  pub dist-next_source : (j z : ℕ) → j < c → z < c → 0 < dist j z → dist (next j) z + 1 ≡ dist j z
  unfolding dist next
  dist-next_source j z p q h = ground arith

  -- A point on the way from `x` to `z` splits the distance.
  pub dist_split :
      (x y z : ℕ) → x < c → y < c → z < c → dist x y ≤ dist x z → dist x y + dist y z ≡ dist x z
  unfolding dist
  dist_split x y z p q r h = ground arith

  -- Two points with the second beyond the first.
  pub dist_join :
      (x y z : ℕ) → x < c → y < c → z < c → dist x y + dist y z < c → dist x y + dist y z ≡ dist x z
  unfolding dist
  dist_join x y z p q r h = ground arith

  -- A point from which `z` is nearer lies on the way from `x` to `z`.
  pub dist_back :
      (x y z : ℕ) → x < c → y < c → z < c → dist y z ≤ dist x z → dist x y + dist y z ≡ dist x z
  unfolding dist
  dist_back x y z p q r h = ground arith

  -- The test of `map_erase` says that the way from `k` to `j` passes `i`.
  pub moves-dist :
      (i j k : ℕ) → i < c → j < c → k < c → i ≢ j → moves i j k ≡ leb (dist i j) (dist k j)
  unfolding dist moves
  moves-dist i j k p q r h = ground arith

mod-next : (c j : ℕ) → j < c → (j + 1) % c ≡ next c j
unfolding next
mod-next c j h = elim (Bool-cases (suc j == c)) [
  | inl last ↦ let e : j + 1 ≡ c = ground arith in rw last (ap (λ t. t % c) e ∙ mod_self c)
  | inr more ↦ let lt : j + 1 < c = ground arith in rw more (mod-eq_of_lt lt ∙ omega arith)
]

-- With 2 ^ n elements, `& (capacity - 1)` is the remainder, and of the next index the next position.
module _ (n : ℕ) (small : n ≤ 63) where
  capacity_bound : 2 ^ n ≤ 2 ^ 63
  capacity_bound = pow-le-pow_right {n = 2} (omega arith) {i = n} {j = 63} small

  pub bit_and-capacity : (i : ℕ) → 0 < 2 ^ n → bit_and i (sub64 (2 ^ n) 1) ≡ i % 2 ^ n
  bit_and-capacity i pos =
      let b = capacity_bound in
      ap (bit_and i) (sub64-eq (2 ^ n) 1 (omega arith) (omega arith)) ∙ bit_and-mask n i

  pub bit_and-next : (j : ℕ) → j < 2 ^ n → bit_and (add64 j 1) (sub64 (2 ^ n) 1) ≡ next (2 ^ n) j
  bit_and-next j h =
      let b = capacity_bound in
      let e : add64 j 1 ≡ j + 1 = add64-eq j 1 (omega arith) in
      ap (λ t. bit_and t (sub64 (2 ^ n) 1)) e
      ∙ bit_and-capacity (j + 1) (omega arith)
      ∙ mod-next (2 ^ n) j h

-- The same for a capacity that is known to be a power of two.
module _ (c n : ℕ) (power : c ≡ 2 ^ n) (small : n ≤ 63) where
  pub capacity_mask : (i : ℕ) → bit_and i (sub64 c 1) ≡ i % c
  capacity_mask i = rw power (bit_and-capacity n small i (pow2-pos n))

  pub capacity_next : (j : ℕ) → j < c → bit_and (add64 j 1) (sub64 c 1) ≡ next c j
  capacity_next j h = rw power (bit_and-next n small j (omega arith))

  pub capacity_pos : 0 < c
  capacity_pos = omega (arith, pow2-pos n)
