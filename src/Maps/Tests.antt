-- ===== src/Maps/Tests.antt =====
-- The table with strings as keys at concrete strings, and the theorems at its tables.
use libreactor_refactor.Prelude.{
  ◌>>=◌, ℕ, ◌^◌, ◌<◌, ◌≡◌, refl, true, false, Option, none, some, List, codes, if◌then◌else◌, arith,
}
use libreactor_refactor.Words.{fill_below, sub64}
use libreactor_refactor.Map.Slots.{IsValid}
use libreactor_refactor.Maps.Defs.{
  Entry, Maps, callbacks, set, equal, string_equal, hash, maps_construct, maps_size, maps_at,
  maps_insert, maps_erase,
}
use libreactor_refactor.Maps.View.{view}
use libreactor_refactor.Maps.Laws.{
  insert_view, maps_insert-view, maps_erase-view, maps_construct-view,
}

-- The second value of a string is not taken, and a string that was removed has none.
abbrev session : Option (ℕ × ℕ × ℕ × ℕ)
session = do
  (a, _) ← maps_insert maps_construct (codes "/etc/passwd") 7 false
  (b, _) ← maps_insert a (codes "/tmp") 8 false
  (c, _) ← maps_insert b (codes "/tmp") 9 false
  (d, _) ← maps_erase c (codes "/etc/passwd") false
  kept ← maps_at c (codes "/etc/passwd")
  tmp ← maps_at d (codes "/tmp")
  gone ← maps_at d (codes "/etc/passwd")
  some (maps_size d, kept, tmp, gone)

session_runs : session ≡ some (1, 7, 8, 0)
unfolding maps_insert maps_construct maps_erase maps_at maps_size hash fill_below equal set sub64
session_runs = refl

abbrev empty : Maps
empty = maps_construct

empty-IsValid : IsValid empty
empty-IsValid = maps_construct-view.0

empty_small : empty.elements_count < 2 ^ 62
unfolding maps_construct
empty_small = omega arith

maps_insert-view_example :
    (r : Maps × List Entry) × (maps_insert empty (codes "/tmp") 70 true ≡ some r)
    × IsValid r.0
    × ((j : List ℕ) → view r.0 j ≡ insert_view empty (codes "/tmp") 70 j)
maps_insert-view_example = maps_insert-view empty-IsValid (codes "/tmp") 70 true empty_small

abbrev one_entry : Maps
one_entry = (maps_insert-view empty-IsValid (codes "/tmp") 70 true empty_small).0.0

one_entry-IsValid : IsValid one_entry
one_entry-IsValid = (maps_insert-view empty-IsValid (codes "/tmp") 70 true empty_small).2

maps_erase-view_example :
    (r : Maps × List Entry) × (maps_erase one_entry (codes "/tmp") true ≡ some r)
    × IsValid r.0
    × ((j : List ℕ)
        → view r.0 j ≡ (if string_equal (codes "/tmp") j then none else view one_entry j))
maps_erase-view_example = maps_erase-view one_entry-IsValid (codes "/tmp") true
