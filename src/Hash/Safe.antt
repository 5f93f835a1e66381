-- ===== src/Hash/Safe.antt =====
-- src/reactor/hash.c reads only the bytes that it is given, its loop ends, and the hash is 64 bits.
use libreactor_refactor.Prelude.{
  ◌>>=◌, ℕ, zero, suc, ◌+◌, ◌-◌, ◌*◌, ◌/◌, ◌%◌, ◌≤◌, ◌<◌, Bool, Option, some, true, false, List,
  length, drop, leb, ltb, bit_and, bit_and-mask, get_elem?, ◌==◌, if◌then◌else◌, ◌≡◌, refl, arith,
  get_elem?-get_or, get_or,
}
use libreactor_refactor.Words.{word, mul64}
use libreactor_refactor.Hash.Defs.{k2, fetch, fetch32, fetch64, hash_len_16, little_endian}
use libreactor_refactor.Hash.Short.{
  hash_8_to_16, hash_4_to_7, hash_1_to_3, hash_len_0_to_16, hash_len_17_to_32, hash_len_33_to_64,
}
use libreactor_refactor.Hash.Long.{
  weak_hash_len_32_with_seeds, Mix, mix_round, mix_from, mix_last, mix_start, hash_len_more,
  cfarmhash, hash_data,
}

-- A run that has a result which satisfies `P`.
pub record Gives {A : Type 0} (P : A → Type 0) (run : Option A) : Type 0 where
  pub result : A
  pub ends : run ≡ some result
  pub holds : P result

abbrev Any : {A : Type 0} → A → Type 0
Any a = Unit {0}

gives : {A : Type 0} {P : A → Type 0} (a : A) → P a → Gives P (some a)
gives a p = record { result = a; ends = refl; holds = p }

-- The runs that follow each other.
bind-Gives :
    {A B : Type 0} {P : A → Type 0} {Q : B → Type 0} {o : Option A} {f : A → Option B}
    → Gives P o
    → ((a : A) → P a → Gives Q (f a))
    → Gives Q (o >>= f)
bind-Gives {B} {Q} {o} {f} g k = rw g.ends (k g.result g.holds)

-- The branches of a test.
if-Gives :
    {A : Type 0} {P : A → Type 0} {x y : Option A} (c : Bool)
    → (c ≡ true → Gives P x)
    → (c ≡ false → Gives P y)
    → Gives P (if c then x else y)
if-Gives true f g = f refl
if-Gives false f g = g refl

abbrev pub IsWord : ℕ → Type 0
IsWord h = h < word

fetch-Gives : (n : ℕ) (s : List ℕ) (p : ℕ) → p + n ≤ length s → Gives Any (fetch n s p)
unfolding fetch
fetch-Gives n s p le =
    let test : leb (p + n) (length s) ≡ true = ground arith in
    rw test (gives (little_endian n (drop p s)) tt)

mul64-lt : (a b : ℕ) → mul64 a b < word
unfolding mul64
mul64-lt a b = omega arith

hash_len_16-lt : (u v mul : ℕ) → hash_len_16 u v mul < word
unfolding hash_len_16
hash_len_16-lt u v mul = mul64-lt _ mul

module _ (s : List ℕ) where
  fetch64-Gives : (p : ℕ) → p + 8 ≤ length s → Gives Any (fetch64 s p)
  unfolding fetch64
  fetch64-Gives p le = fetch-Gives 8 s p le

  fetch32-Gives : (p : ℕ) → p + 4 ≤ length s → Gives Any (fetch32 s p)
  unfolding fetch32
  fetch32-Gives p le = fetch-Gives 4 s p le

  byte-Gives : (p : ℕ) → p < length s → Gives Any (get_elem? s p)
  byte-Gives p lt = record { result = get_or s p 0; ends = get_elem?-get_or s p 0 lt; holds = tt }

  hash_8_to_16-Gives : 8 ≤ length s → Gives IsWord (hash_8_to_16 s (length s))
  unfolding hash_8_to_16
  hash_8_to_16-Gives le = bind-Gives (fetch64-Gives 0 (omega arith)) λ a _.
      bind-Gives (fetch64-Gives (length s - 8) (omega arith)) λ b _. gives _ (hash_len_16-lt _ _ _)

  hash_4_to_7-Gives : 4 ≤ length s → Gives IsWord (hash_4_to_7 s (length s))
  unfolding hash_4_to_7
  hash_4_to_7-Gives le = bind-Gives (fetch32-Gives 0 (omega arith)) λ a _.
      bind-Gives (fetch32-Gives (length s - 4) (omega arith)) λ b _. gives _ (hash_len_16-lt _ _ _)

  hash_1_to_3-Gives : 0 < length s → Gives IsWord (hash_1_to_3 s (length s))
  unfolding hash_1_to_3
  hash_1_to_3-Gives lt = bind-Gives (byte-Gives 0 (omega arith)) λ a _.
      bind-Gives (byte-Gives (length s / 2) (omega arith))
        λ b _. bind-Gives (byte-Gives (length s - 1) (omega arith)) λ c _. gives _ (mul64-lt _ _)

  hash_len_0_to_16-Gives : Gives IsWord (hash_len_0_to_16 s (length s))
  unfolding hash_len_0_to_16
  hash_len_0_to_16-Gives =
      if-Gives (leb 8 (length s)) (λ h. hash_8_to_16-Gives (ground (arith, h)))
        λ _.
          if-Gives (leb 4 (length s)) (λ h. hash_4_to_7-Gives (ground (arith, h)))
            λ _.
              if-Gives (ltb 0 (length s)) (λ h. hash_1_to_3-Gives (ground (arith, h)))
                λ _. gives k2 (omega arith)

  hash_len_17_to_32-Gives : 16 < length s → Gives IsWord (hash_len_17_to_32 s (length s))
  unfolding hash_len_17_to_32
  hash_len_17_to_32-Gives gt = bind-Gives (fetch64-Gives 0 (omega arith)) λ s0 _.
      bind-Gives (fetch64-Gives 8 (omega arith)) λ b _.
        bind-Gives (fetch64-Gives (length s - 8) (omega arith)) λ s8 _.
          bind-Gives (fetch64-Gives (length s - 16) (omega arith))
            λ s16 _. gives _ (hash_len_16-lt _ _ _)

  hash_len_33_to_64-Gives : 32 < length s → Gives IsWord (hash_len_33_to_64 s (length s))
  unfolding hash_len_33_to_64
  hash_len_33_to_64-Gives gt = bind-Gives (fetch64-Gives 0 (omega arith)) λ s0 _.
      bind-Gives (fetch64-Gives 8 (omega arith)) λ b _.
        bind-Gives (fetch64-Gives (length s - 8) (omega arith)) λ s8 _.
          bind-Gives (fetch64-Gives (length s - 16) (omega arith)) λ s16 _.
            bind-Gives (fetch64-Gives 16 (omega arith)) λ e16 _.
              bind-Gives (fetch64-Gives 24 (omega arith)) λ f _.
                bind-Gives (fetch64-Gives (length s - 32) (omega arith)) λ g32 _.
                  bind-Gives (fetch64-Gives (length s - 24) (omega arith))
                    λ h24 _. gives _ (hash_len_16-lt _ _ _)

  weak-Gives : (p a b : ℕ) → p + 32 ≤ length s → Gives Any (weak_hash_len_32_with_seeds s p a b)
  unfolding weak_hash_len_32_with_seeds
  weak-Gives p a b le = bind-Gives (fetch64-Gives p (omega arith)) λ s0 _.
      bind-Gives (fetch64-Gives (p + 8) (omega arith)) λ s8 _.
        bind-Gives (fetch64-Gives (p + 16) (omega arith))
          λ s16 _. bind-Gives (fetch64-Gives (p + 24) (omega arith)) λ s24 _. gives _ tt

  mix_round-Gives :
      (p mul nine : ℕ) (m : Mix) → p + 64 ≤ length s → Gives Any (mix_round s p mul nine m)
  unfolding mix_round
  mix_round-Gives p mul nine m le = bind-Gives (fetch64-Gives (p + 8) (omega arith)) λ s8 _.
      bind-Gives (fetch64-Gives (p + 48) (omega arith)) λ s48 _.
        bind-Gives (fetch64-Gives (p + 40) (omega arith)) λ s40 _.
          bind-Gives (weak-Gives p _ _ (omega arith)) λ v _.
            bind-Gives (fetch64-Gives (p + 16) (omega arith))
              λ s16 _. bind-Gives (weak-Gives (p + 32) _ _ (omega arith)) λ w _. gives _ tt

  -- The loop meets `end` after `rounds` rounds.
  mix_from-Gives :
      (fuel rounds end p : ℕ) (m : Mix)
      → rounds < fuel
      → end ≡ p + 64 * suc rounds
      → end ≤ length s
      → Gives Any (mix_from fuel s end p m)
  unfolding mix_from
  mix_from-Gives zero rounds end p m lt at le = absurd (omega arith)
  mix_from-Gives (suc fuel) zero end p m lt at le =
      let test : (p + 64 == end) ≡ true = ground arith in
      bind-Gives (mix_round-Gives p _ _ m (omega arith)) λ next _. rw test (gives next tt)
  mix_from-Gives (suc fuel) (suc rounds) end p m lt at le =
      let test : (p + 64 == end) ≡ false = ground arith in
      bind-Gives (mix_round-Gives p _ _ m (omega arith)) λ next _.
        rw test (mix_from-Gives fuel rounds end (p + 64) next (omega arith) (omega arith) le)

  mix_last-Gives : (m : Mix) → 64 < length s → Gives IsWord (mix_last s (length s) m)
  unfolding mix_last
  mix_last-Gives m gt =
      let n = length s in
      let tail : bit_and (n - 1) 63 ≡ (n - 1) % 64 = bit_and-mask 6 (n - 1) in
      bind-Gives
        (mix_round-Gives ((n - 1) / 64 * 64 + bit_and (n - 1) 63 - 63) _ 9 _ (omega (arith, tail)))
        λ k _. gives _ (hash_len_16-lt _ _ _)

  hash_len_more-Gives : 64 < length s → Gives IsWord (hash_len_more s (length s))
  unfolding hash_len_more
  hash_len_more-Gives gt =
      let n = length s in
      bind-Gives (fetch64-Gives 0 (omega arith)) λ s0 _.
        bind-Gives
          (mix_from-Gives n ((n - 1) / 64 - 1) ((n - 1) / 64 * 64) 0 (mix_start s0) (omega arith)
            (omega arith) (omega arith))
          λ m _. mix_last-Gives m gt

  -- `hash_data` of bytes ends, reads none but these bytes, and gives a 64-bit number.
  pub hash_data-Gives : Gives IsWord (hash_data s (length s))
  unfolding hash_data cfarmhash
  hash_data-Gives =
      if-Gives (leb (length s) 16) (λ _. hash_len_0_to_16-Gives)
        λ h.
          if-Gives (leb (length s) 32) (λ _. hash_len_17_to_32-Gives (ground (arith, h)))
            λ h'.
              if-Gives (leb (length s) 64) (λ _. hash_len_33_to_64-Gives (ground (arith, h')))
                λ h''. hash_len_more-Gives (ground (arith, h''))
