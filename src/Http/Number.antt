-- ===== src/Http/Number.antt =====
-- src/reactor/http.c: numbers in decimal digits. A pointer into a block is an offset, and `none` is
-- a write outside of the block, or a loop that needs more fuel.
use libreactor_refactor.Prelude.{
  ◌>>=◌, ℕ, zero, suc, ◌+◌, ◌-◌, ◌*◌, ◌/◌, ◌%◌, Option, none, some, List, [], ◌∷◌, get_elem?,
  bit_or, ltb, leb, ◌==◌, if◌then◌else◌,
}
use libreactor_refactor.Words.{add32, sub32}
use libreactor_refactor.Memory.{Memory, store}

-- The number of binary digits, of at most so many.
unfoldable pub bit_length : ℕ → ℕ → ℕ
bit_length zero n = 0
bit_length (suc most) n = let rest = bit_length most (n / 2) in if n == 0 then 0 else suc rest

-- `__builtin_clz`
unfoldable pub leading_zeros : ℕ → ℕ
unfolding bit_length
leading_zeros n = 32 - bit_length 32 n

abbrev pub pow_10 : List ℕ
pow_10 = 0 ∷ 10 ∷ 100 ∷ 1000 ∷ 10000 ∷ 100000 ∷ 1000000 ∷ 10000000 ∷ 100000000 ∷ 1000000000 ∷ []

unfoldable pub utility_u32_len : ℕ → Option ℕ
unfolding leading_zeros add32 sub32
utility_u32_len n = do
  let t = (32 - leading_zeros (bit_or n 1)) * 1233 / 4096
  p ← get_elem? pow_10 t
  some (add32 (sub32 t (if ltb n p then 1 else 0)) 1)

-- The table `digits` has the two digits of `i` at `2 * i`.
unfoldable pub digit_high : ℕ → ℕ
digit_high i = 48 + i / 10

unfoldable pub digit_low : ℕ → ℕ
digit_low i = 48 + i % 10

-- `*--string = c`
unfoldable pub put_before : Memory → ℕ → ℕ → Option (Memory × ℕ)
unfolding store
put_before m zero c = none
put_before m (suc p) c = do n ← store m p (some c ∷ []); some (n, p)

unfoldable pub put_pair : Memory → ℕ → ℕ → Option (Memory × ℕ)
unfolding put_before digit_high digit_low
put_pair m p i = do (n, q) ← put_before m p (digit_low i); put_before n q (digit_high i)

-- `utility_u32_sprint`, of so many rounds of its loop.
unfoldable pub sprint_from : ℕ → ℕ → Memory → ℕ → Option (Memory × ℕ)
unfolding put_before put_pair
sprint_from zero n m p = none
sprint_from (suc fuel) n m p =
    let rest = (do (k, q) ← put_pair m p (n % 100); sprint_from fuel (n / 100) k q) in
    if leb 100 n then rest else if ltb n 10 then put_before m p (n + 48) else put_pair m p n

-- A number below 2 ^ 32 takes at most five rounds.
unfoldable pub utility_u32_sprint : ℕ → Memory → ℕ → Option (Memory × ℕ)
unfolding sprint_from
utility_u32_sprint = sprint_from 5
