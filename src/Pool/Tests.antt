-- ===== src/Pool/Tests.antt =====
-- The pool at concrete chunks.
use libreactor_refactor.Prelude.{ℕ, ◌+◌, ◌*◌, ◌≡◌, refl, true, some, [], ◌∷◌, arith}
use mathlib.Core.List.{Mem, Nodup}
use mathlib.Core.List.Perm as Permutation
use libreactor_refactor.Pool.Defs.{Pool, pool_construct, pool_malloc, pool_free, refill}
use libreactor_refactor.Pool.Laws.{IsValid, objects, pool_malloc-IsValid, pool_free-IsValid}
use libreactor_refactor.Pool.Distinct.{distinct, distinct-Nodup}

-- The chunks of an allocator, 4096 bytes apart.
abbrev pub chunk : ℕ → ℕ
chunk n = 0x100_0000 + n * 4096

abbrev pub empty : Pool
empty = pool_construct 16

pub empty-IsValid : IsValid chunk empty []
unfolding pool_construct objects
empty-IsValid = record { all = Permutation.refl []; count = refl }

first_distinct : distinct (objects chunk 16 1) ≡ true
unfolding objects
first_distinct = refl

pub first_apart : Nodup (objects chunk empty.size (refill chunk empty).chunks)
unfolding pool_construct refill
first_apart = distinct-Nodup (objects chunk 16 1) first_distinct

pool_malloc-IsValid_example :
    (q : Pool) × (o : ℕ) × (pool_malloc chunk empty ≡ some (q, o))
    × IsValid chunk q (o ∷ [])
    × (¬ Mem o [])
pool_malloc-IsValid_example =
    pool_malloc-IsValid chunk empty [] empty-IsValid (omega arith) first_apart

-- A pool with one object in use.
abbrev busy : Pool
busy = (pool_malloc-IsValid chunk empty [] empty-IsValid (omega arith) first_apart).0

abbrev object : ℕ
object = (pool_malloc-IsValid chunk empty [] empty-IsValid (omega arith) first_apart).1

busy-IsValid : IsValid chunk busy (object ∷ [])
busy-IsValid = (pool_malloc-IsValid chunk empty [] empty-IsValid (omega arith) first_apart).3

pool_free-IsValid_example : IsValid chunk (pool_free busy object) []
pool_free-IsValid_example =
    pool_free-IsValid chunk busy (object ∷ []) [] object busy-IsValid
      (Permutation.refl (object ∷ [])) (omega arith)
