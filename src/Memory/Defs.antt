-- ===== src/Memory/Defs.antt =====
-- A block of memory is the list of its bytes, where `none` is a byte that is not set. The functions
-- of the C library on it return `none` where the C program leaves the block.
use libreactor_refactor.Prelude.{
  ◌>>=◌, ℕ, ◌+◌, ◌-◌, Option, none, some, List, ◌++◌, length, take, drop, replicate, leb,
  if◌then◌else◌,
}

abbrev pub Byte : Type 0
Byte = Option ℕ

abbrev pub Memory : Type 0
Memory = List Byte

-- `memcpy` out of the block, `n` bytes from the offset `p`.
unfoldable pub load : Memory → ℕ → ℕ → Option Memory
load m p n = if leb (p + n) (length m) then some (take n (drop p m)) else none

-- `memcpy` into the block, at the offset `p`.
unfoldable pub store : Memory → ℕ → Memory → Option Memory
store m p x =
    if leb (p + length x) (length m) then some (take p m ++ (x ++ drop (p + length x) m)) else none

-- `memmove` inside the block, of `n` bytes from `p` to `q`.
unfoldable pub memmove : Memory → ℕ → ℕ → ℕ → Option Memory
unfolding load store
memmove m q p n = do x ← load m p n; store m q x

-- `realloc`, whose result has new bytes that are not set.
unfoldable pub realloc : Memory → ℕ → Memory
realloc m n = take n m ++ replicate (n - length m) none
