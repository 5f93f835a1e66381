-- ===== src/Buffer/Defs.antt =====
-- src/reactor/buffer.c: one function for each of the source. `base` is the block, of `capacity`
-- bytes, and a pointer into it is its offset. `none` is a run that leaves the block. An argument
-- `void *base` with its size is the list of the bytes there. An allocation does not fail.
use libreactor_refactor.Prelude.{
  ◌>>=◌, ℕ, zero, suc, ◌+◌, Bool, Option, some, [], length, take, ltb, ◌==◌, if◌then◌else◌,
}
use libreactor_refactor.Words.{add64, sub64, mul64, fill_below}
use libreactor_refactor.Memory.{Memory, store, memmove, realloc}

pub record Buffer : Type 0 where
  pub base : Memory
  pub size : ℕ
  pub capacity : ℕ

unfoldable pub buffer_roundup : ℕ → ℕ
buffer_roundup size = add64 (fill_below (sub64 size 1)) 1

unfoldable pub buffer_construct : Buffer
buffer_construct = record { base = []; size = 0; capacity = 0 }

unfoldable pub buffer_destruct : Buffer → Buffer
unfolding buffer_construct
buffer_destruct b = buffer_construct

unfoldable pub buffer_deconstruct : Buffer → Buffer × Memory
unfolding buffer_construct
buffer_deconstruct b = (buffer_construct, b.base)

unfoldable pub buffer_size : Buffer → ℕ
buffer_size b = b.size

unfoldable pub buffer_empty : Buffer → Bool
unfolding buffer_size
buffer_empty b = buffer_size b == 0

unfoldable pub buffer_capacity : Buffer → ℕ
buffer_capacity b = b.capacity

unfoldable pub buffer_reserve : Buffer → ℕ → Buffer
unfolding buffer_roundup
buffer_reserve b capacity =
    let rounded = buffer_roundup capacity in
    if ltb b.capacity capacity
    then record b { base = realloc b.base rounded; capacity = rounded }
    else b

unfoldable pub buffer_resize : Buffer → ℕ → Buffer
unfolding buffer_reserve buffer_capacity
buffer_resize b size =
    let room = if ltb (buffer_capacity b) size then buffer_reserve b size else b in
    record room { size = size }

unfoldable pub buffer_compact : Buffer → Buffer
buffer_compact b =
    if ltb b.size b.capacity
    then record b { base = realloc b.base b.size; capacity = b.size }
    else b

-- The offset is that of the new bytes.
unfoldable pub buffer_allocate : Buffer → ℕ → Buffer × ℕ
unfolding buffer_reserve
buffer_allocate b size =
    let room = buffer_reserve b (add64 b.size size) in
    (record room { size = add64 room.size size }, room.size)

-- The `memmove` of the two insertions, by `n` bytes.
unfoldable pub make_gap : Buffer → ℕ → ℕ → Option Memory
make_gap b position n =
    if ltb position b.size
    then memmove b.base (position + n) position (sub64 b.size position)
    else some b.base

-- `buffer_insert` behind its call of `buffer_reserve`.
unfoldable pub inserted : Buffer → ℕ → Memory → Option Buffer
unfolding make_gap
inserted b position x = do
  gap ← make_gap b position (length x)
  filled ← store gap position x
  some (record b { base = filled; size = add64 b.size (length x) })

unfoldable pub buffer_insert : Buffer → ℕ → Memory → Option Buffer
unfolding buffer_reserve inserted
buffer_insert b position x = inserted (buffer_reserve b (add64 b.size (length x))) position x

-- The loop of `buffer_insert_fill` from the round `i`, for so many rounds.
unfoldable pub fill_from : ℕ → ℕ → Memory → ℕ → Memory → Option Memory
fill_from zero i m position x = some m
fill_from (suc rounds) i m position x = do
  next ← store m (position + mul64 i (length x)) x
  fill_from rounds (suc i) next position x

-- `buffer_insert_fill` behind its call of `buffer_reserve`.
unfoldable pub inserted_fill : Buffer → ℕ → ℕ → Memory → Option Buffer
unfolding make_gap fill_from
inserted_fill b position count x = do
  gap ← make_gap b position (mul64 count (length x))
  filled ← fill_from count 0 gap position x
  some (record b { base = filled; size = add64 b.size (mul64 count (length x)) })

unfoldable pub buffer_insert_fill : Buffer → ℕ → ℕ → Memory → Option Buffer
unfolding buffer_reserve inserted_fill
buffer_insert_fill b position count x =
    inserted_fill (buffer_reserve b (add64 b.size (mul64 count (length x)))) position count x

unfoldable pub buffer_erase : Buffer → ℕ → ℕ → Option Buffer
buffer_erase b position size = do
  closed ← memmove b.base position (position + size) (sub64 (sub64 b.size position) size)
  some (record b { base = closed; size = sub64 b.size size })

unfoldable pub buffer_clear : Buffer → Buffer
buffer_clear b = record b { size = 0 }

-- `buffer_data`: the bytes that the region holds.
unfoldable pub buffer_data : Buffer → Memory
buffer_data b = take b.size b.base

unfoldable pub buffer_at : Buffer → ℕ → ℕ
buffer_at b size = size

unfoldable pub buffer_end : Buffer → ℕ
unfolding buffer_at
buffer_end b = buffer_at b b.size
