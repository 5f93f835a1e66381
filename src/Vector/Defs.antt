-- ===== src/Vector/Defs.antt =====
-- src/reactor/vector.c: one function for each of the source, over those of buffer.c. An object is
-- the list of its bytes, a pointer is an offset into the buffer, and `none` is a run that leaves the
-- block. The functions with a `release` also return what they release, in order.
use libreactor_refactor.Prelude.{
  ◌>>=◌, ℕ, zero, suc, ◌-◌, ◌/◌, Bool, Option, some, List, [], ◌∷◌, ◌==◌, if◌then◌else◌,
}
use libreactor_refactor.Words.{mul64, sub64}
use libreactor_refactor.Memory.{Memory, load}
use libreactor_refactor.Buffer.{
  Buffer, buffer_construct, buffer_destruct, buffer_size, buffer_capacity, buffer_reserve,
  buffer_compact, buffer_at, buffer_insert, buffer_insert_fill, buffer_erase, buffer_clear,
}

pub record Vector : Type 0 where
  pub buffer : Buffer
  pub object_size : ℕ

unfoldable pub vector_construct : ℕ → Vector
unfolding buffer_construct
vector_construct object_size = record { buffer = buffer_construct; object_size = object_size }

unfoldable pub vector_size : Vector → ℕ
unfolding buffer_size
vector_size v = buffer_size v.buffer / v.object_size

unfoldable pub vector_capacity : Vector → ℕ
unfolding buffer_capacity
vector_capacity v = buffer_capacity v.buffer / v.object_size

unfoldable pub vector_empty : Vector → Bool
unfolding vector_size
vector_empty v = vector_size v == 0

unfoldable pub vector_reserve : Vector → ℕ → Vector
unfolding buffer_reserve
vector_reserve v capacity = record v {
  buffer = buffer_reserve v.buffer (mul64 capacity v.object_size);
}

unfoldable pub vector_shrink_to_fit : Vector → Vector
unfolding buffer_compact
vector_shrink_to_fit v = record v { buffer = buffer_compact v.buffer }

unfoldable pub vector_at : Vector → ℕ → ℕ
unfolding buffer_at
vector_at v position = buffer_at v.buffer (mul64 position v.object_size)

unfoldable pub vector_base : Vector → ℕ
vector_base v = 0

unfoldable pub vector_front : Vector → ℕ
unfolding vector_base
vector_front v = vector_base v

unfoldable pub vector_back : Vector → ℕ
unfolding buffer_at buffer_size
vector_back v = buffer_at v.buffer (sub64 (buffer_size v.buffer) v.object_size)

-- The object that a pointer points to.
unfoldable pub object_at : Vector → ℕ → Option Memory
object_at v pointer = load v.buffer.base pointer v.object_size

-- A buffer in place of that of the vector.
unfoldable pub with_buffer : Vector → Option Buffer → Option Vector
with_buffer v run = do b ← run; some (record v { buffer = b })

unfoldable pub vector_insert : Vector → ℕ → Memory → Option Vector
unfolding buffer_insert with_buffer
vector_insert v position object =
    with_buffer v (buffer_insert v.buffer (mul64 position v.object_size) object)

-- `x` holds the bytes from `first` to `last`.
unfoldable pub vector_insert_range : Vector → ℕ → Memory → Option Vector
unfolding buffer_insert with_buffer
vector_insert_range v position x =
    with_buffer v (buffer_insert v.buffer (mul64 position v.object_size) x)

unfoldable pub vector_insert_fill : Vector → ℕ → ℕ → Memory → Option Vector
unfolding buffer_insert_fill with_buffer
vector_insert_fill v position count object =
    with_buffer v (buffer_insert_fill v.buffer (mul64 position v.object_size) count object)

-- The loop of `vector_erase_range`: the objects from `i`, so many of them.
unfoldable pub released : Vector → ℕ → ℕ → Option (List Memory)
unfolding vector_at object_at
released v i zero = some []
released v i (suc n) = do x ← object_at v (vector_at v i); xs ← released v (suc i) n; some (x ∷ xs)

unfoldable pub vector_erase : Vector → ℕ → Bool → Option (Vector × List Memory)
unfolding released buffer_erase with_buffer
vector_erase v position release = do
  xs ← if release then released v position 1 else some []
  w ← with_buffer v (buffer_erase v.buffer (mul64 position v.object_size) v.object_size)
  some (w, xs)

unfoldable pub vector_erase_range : Vector → ℕ → ℕ → Bool → Option (Vector × List Memory)
unfolding released buffer_erase with_buffer
vector_erase_range v first last release = do
  xs ← if release then released v first (last - first) else some []
  w ←
      with_buffer v
        (buffer_erase v.buffer (mul64 first v.object_size) (mul64 (sub64 last first) v.object_size))
  some (w, xs)

unfoldable pub vector_clear : Vector → Bool → Option (Vector × List Memory)
unfolding vector_erase_range vector_size buffer_clear
vector_clear v release = do
  (w, xs) ← vector_erase_range v 0 (vector_size v) release
  some (record w { buffer = buffer_clear w.buffer }, xs)

unfoldable pub vector_destruct : Vector → Bool → Option (Vector × List Memory)
unfolding vector_clear buffer_destruct
vector_destruct v release = do
  (w, xs) ← vector_clear v release
  some (record w { buffer = buffer_destruct w.buffer }, xs)

unfoldable pub vector_push_back : Vector → Memory → Option Vector
unfolding buffer_insert buffer_size with_buffer
vector_push_back v object = with_buffer v (buffer_insert v.buffer (buffer_size v.buffer) object)

unfoldable pub vector_pop_back : Vector → Bool → Option (Vector × List Memory)
unfolding vector_erase vector_size
vector_pop_back v release = vector_erase v (sub64 (vector_size v) 1) release
