-- ===== src/Buffer/Tests.antt =====
-- Runs of the buffer, and the laws of the buffer at concrete arguments.
use libreactor_refactor.Prelude.{◌>>=◌, ℕ, ◌≡◌, ◌++◌, refl, Option, some, [], ◌∷◌, arith}
use libreactor_refactor.Words.{add64, sub64, mul64, fill_below}
use libreactor_refactor.Memory.{Memory, store, memmove, realloc}
use libreactor_refactor.Buffer.Defs.{
  Buffer, buffer_construct, buffer_reserve, buffer_insert, buffer_insert_fill, buffer_erase,
  buffer_data,
}
use libreactor_refactor.Buffer.Laws.{IsValid, IsReserved, buffer_reserve-IsReserved}
use libreactor_refactor.Buffer.Insert.{
  Yields, copies, buffer_insert-Yields, buffer_insert_fill-Yields, buffer_erase-Yields,
}

abbrev ab : Memory
ab = some 97 ∷ some 98 ∷ []

abbrev cde : Memory
cde = some 99 ∷ some 100 ∷ some 101 ∷ []

-- Insertions at the end, in the middle and of copies, and an erasure.
abbrev session : Option (Memory × ℕ)
session = do
  b ← buffer_insert buffer_construct 0 cde
  c ← buffer_insert b 1 ab
  d ← buffer_insert_fill c 5 2 ab
  e ← buffer_erase d 3 2
  some (buffer_data e, e.capacity)

session_runs :
    session ≡ some (some 99 ∷ some 97 ∷ some 98 ∷ some 97 ∷ some 98 ∷ some 97 ∷ some 98 ∷ [], 16)
unfolding buffer_insert buffer_insert_fill buffer_erase buffer_construct buffer_data add64 sub64
    mul64 fill_below store memmove realloc
session_runs = refl

abbrev held : Buffer
held = record { base = some 97 ∷ some 98 ∷ some 0 ∷ some 0 ∷ []; size = 2; capacity = 4 }

held-IsValid : IsValid held
held-IsValid = record { full = refl; fits = omega arith; small = omega arith }

held_data : buffer_data held ≡ ab
unfolding buffer_data
held_data = refl

buffer_reserve-IsReserved_example : IsReserved held 100 (buffer_reserve held 100)
buffer_reserve-IsReserved_example = buffer_reserve-IsReserved held 100 held-IsValid (omega arith)

buffer_insert-Yields_example :
    Yields (buffer_insert held 1 cde) ((some 97 ∷ []) ++ (cde ++ (some 98 ∷ [])))
buffer_insert-Yields_example =
    buffer_insert-Yields held (some 97 ∷ []) (some 98 ∷ []) cde held-IsValid held_data (omega arith)

buffer_insert_fill-Yields_example :
    Yields (buffer_insert_fill held 1 2 cde) ((some 97 ∷ []) ++ (copies 2 cde ++ (some 98 ∷ [])))
buffer_insert_fill-Yields_example =
    buffer_insert_fill-Yields held (some 97 ∷ []) (some 98 ∷ []) cde 2 held-IsValid held_data
      (omega arith)

buffer_erase-Yields_example : Yields (buffer_erase held 0 1) ([] ++ (some 98 ∷ []))
buffer_erase-Yields_example =
    buffer_erase-Yields held [] (some 97 ∷ []) (some 98 ∷ []) held-IsValid held_data
