-- ===== src/Mapi/Tests.antt =====
-- The integer-keyed table at concrete keys, and the theorems at its tables.
use libreactor_refactor.Prelude.{
  ◌>>=◌, ℕ, ◌*◌, ◌^◌, ◌<◌, ◌≡◌, refl, true, false, Option, none, some, List, [], ◌∷◌, if◌then◌else◌,
  arith, ◌==◌,
}
use libreactor_refactor.Map.{insert, erase, roundup}
use libreactor_refactor.Map.Slots.{IsValid, Inserts}
use libreactor_refactor.Map.Grow.{map_roundup-IsPowerAbove, insert-Inserts}
use libreactor_refactor.Map.Erase.{Erases, erase-Erases}
use libreactor_refactor.Mapi.Defs.{
  Entry, Mapi, set, equal, hash, callbacks, mapi_construct, mapi_size, mapi_reserve, mapi_at,
  mapi_insert, mapi_erase,
}
use libreactor_refactor.Mapi.View.{entry, callbacks-IsKeyed, view}
use libreactor_refactor.Mapi.Laws.{
  value_or_zero, insert_view, mapi_at-view, mapi_insert-view, mapi_erase-view, mapi_construct-view,
}
use libreactor_refactor.Hash.{hash_uint64}
use libreactor_refactor.Words.{IsPowerAbove, add64, sub64, mul64, fill_below}

program : Unit {0}
unfolding mapi_construct mapi_size mapi_reserve mapi_at mapi_insert mapi_erase set equal hash
    hash_uint64 add64 sub64 mul64 fill_below
program = tt

-- Ten insertions, the first nine of which fill the 16 positions past one half.
insert_all : List ℕ → Mapi → Option Mapi
insert_all [] m = some m
insert_all (k ∷ ks) m = do (m', _) ← mapi_insert m k (k * 10) false; insert_all ks m'

abbrev session : Option (ℕ × ℕ × ℕ × ℕ × ℕ)
session = do
  m ← insert_all (1 ∷ 2 ∷ 3 ∷ 17 ∷ 33 ∷ 49 ∷ 65 ∷ 81 ∷ 97 ∷ 113 ∷ []) mapi_construct
  (gone, _) ← mapi_erase m 33 false
  a ← mapi_at gone 33
  b ← mapi_at gone 49
  c ← mapi_at gone 113
  some (m.elements_capacity, mapi_size gone, a, b, c)

session_runs : session ≡ some (32, 9, 0, 490, 1130)
unfolding program insert_all
session_runs = refl

-- Key 0 marks an empty element: a second insertion of it counts again.
abbrev zero_key : Option (ℕ × ℕ)
zero_key = do
  (m, _) ← mapi_insert mapi_construct 0 7 false
  (m', _) ← mapi_insert m 0 8 false
  v ← mapi_at m' 0
  some (mapi_size m', v)

zero_key_counts : zero_key ≡ some (2, 8)
unfolding program
zero_key_counts = refl

abbrev empty : Mapi
empty = mapi_construct

empty-IsValid : IsValid empty
empty-IsValid = mapi_construct-view.0

empty_small : empty.elements_count < 2 ^ 62
unfolding program
empty_small = omega arith

-- One entry, of key 5.
abbrev one_entry : Mapi
one_entry = (mapi_insert-view empty-IsValid 5 (omega arith) 50 false empty_small).0.0

one_entry-IsValid : IsValid one_entry
one_entry-IsValid = (mapi_insert-view empty-IsValid 5 (omega arith) 50 false empty_small).2

erase-Erases_example :
    (r : Mapi × List Entry) × (erase one_entry (entry 5 0) true ≡ some r)
    × IsValid r.0
    × Erases one_entry (entry 5 0) true r
erase-Erases_example = erase-Erases callbacks-IsKeyed one_entry (entry 5 0) true one_entry-IsValid

insert-Inserts_example :
    (r : Mapi × List Entry) × (insert empty (entry 9 90) true ≡ some r)
    × IsValid r.0
    × Inserts empty (entry 9 90) true r
insert-Inserts_example =
    insert-Inserts callbacks-IsKeyed empty (entry 9 90) true empty-IsValid (unfold equal in refl)
      empty_small

mapi_at-view_example : mapi_at one_entry 5 ≡ some (value_or_zero (view one_entry 5))
mapi_at-view_example = mapi_at-view one_entry-IsValid 5 (omega arith)

mapi_insert-view_example :
    (r : Mapi × List Entry) × (mapi_insert empty 7 70 true ≡ some r)
    × IsValid r.0
    × ((j : ℕ) → 0 < j → view r.0 j ≡ insert_view empty 7 70 j)
mapi_insert-view_example = mapi_insert-view empty-IsValid 7 (omega arith) 70 true empty_small

mapi_erase-view_example :
    (r : Mapi × List Entry) × (mapi_erase one_entry 5 true ≡ some r)
    × IsValid r.0
    × ((j : ℕ) → 0 < j → view r.0 j ≡ (if 5 == j then none else view one_entry j))
mapi_erase-view_example = mapi_erase-view one_entry-IsValid 5 (omega arith) true

roundup-IsPowerAbove_example : IsPowerAbove 100 (roundup 100)
roundup-IsPowerAbove_example = map_roundup-IsPowerAbove 100 (omega arith) (omega arith)
