-- ===== src/Pool/Defs.antt =====
-- src/reactor/pool.c. An object is its address. `chunks` counts the chunks, and `chunk` is the
-- address that the allocator gives to the n-th; `free` is the vector of the addresses not in use.
use libreactor_refactor.Prelude.{
  ◌>>=◌, ℕ, zero, suc, ◌+◌, ◌*◌, Option, none, some, List, [], ◌∷◌, ◌++◌, length, ◌==◌,
  if◌then◌else◌,
}
use libreactor_refactor.Words.{add64, sub64}

pub record Pool : Type 0 where
  pub size : ℕ
  pub allocated : ℕ
  pub chunks : ℕ
  pub free : List ℕ

-- POOL_CHUNK_SIZE
abbrev pub chunk_size : ℕ
chunk_size = 128

unfoldable pub pool_construct : ℕ → Pool
pool_construct size = record { size = size; allocated = 0; chunks = 0; free = [] }

-- The chunks are freed, and the vector too; the count of the objects stays.
unfoldable pub pool_destruct : Pool → Pool
pool_destruct p = record p { chunks = 0; free = [] }

unfoldable pub pool_size : Pool → ℕ
pool_size p = p.allocated

-- `vector_push_back`
unfoldable pub push_back : List ℕ → ℕ → List ℕ
push_back xs x = xs ++ x ∷ []

-- `vector_back` and `vector_pop_back`
unfoldable pub take_back : List ℕ → Option (List ℕ × ℕ)
take_back [] = none
take_back (x ∷ []) = some ([], x)
take_back (x ∷ (y ∷ ys)) = do (rest, last) ← take_back (y ∷ ys); some (x ∷ rest, last)

-- The loop of `pool_malloc`, for so many rounds.
unfoldable pub carve : ℕ → ℕ → ℕ → ℕ → List ℕ → List ℕ
unfolding push_back
carve zero i base size free = free
carve (suc rounds) i base size free =
    carve rounds (suc i) base size (push_back free (base + i * size))

module _ (chunk : ℕ → ℕ) where
  unfoldable pub refill : Pool → Pool
  unfolding carve
  refill p =
      if length p.free == 0
      then record p {
        chunks = suc p.chunks;
        free = carve chunk_size 0 (chunk p.chunks) p.size p.free;
      }
      else p

  unfoldable pub pool_malloc : Pool → Option (Pool × ℕ)
  unfolding refill take_back add64
  pool_malloc p = do
    let q = refill p
    (rest, object) ← take_back q.free
    some (record q { free = rest; allocated = add64 q.allocated 1 }, object)

unfoldable pub pool_free : Pool → ℕ → Pool
unfolding push_back sub64
pool_free p object = record p { free = push_back p.free object; allocated = sub64 p.allocated 1 }
