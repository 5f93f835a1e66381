-- ===== src/Maps/Laws.antt =====
-- The table of src/reactor/maps.c implements a partial function: `maps_at` reads it, `maps_insert` adds a
-- string that is not there, `maps_erase` removes one, growing and shifting leave it alone.
use libreactor_refactor.Prelude.{
  ℕ, ◌*◌, ◌^◌, ◌≤◌, ◌<◌, ◌≡◌, ◌≢◌, Bool, Option, none, some, List, if◌then◌else◌,
}
use libreactor_refactor.Map.Slots.{IsValid}
use libreactor_refactor.Map.Table
use libreactor_refactor.Maps.Defs.{
  Entry, Maps, callbacks, string_equal, key_equal, maps_construct, maps_size, maps_reserve, maps_at,
  maps_insert, maps_erase,
}
use libreactor_refactor.Maps.View.{keys, view}

a_key : (k : List ℕ) → some k ≢ none
a_key k e = absurd (cc)

-- The view after `maps_insert` of the value `v` under `k`: the first value of a key stays.
abbrev pub insert_view : Maps → List ℕ → ℕ → List ℕ → Option ℕ
insert_view m k v j =
    if string_equal k j then some (elim (view m k) [ none ↦ v | some old ↦ old ]) else view m j

module _ {m : Maps} (valid : IsValid m) (k : List ℕ) where
  -- In a valid table `maps_at` returns the value under the string, 0 if there is none.
  pub maps_at-view : maps_at m k ≡ some (Table.value_or_zero (view m k))
  unfolding maps_at keys
  maps_at-view = Table.value_at-view keys valid (some k) (a_key k)

  -- `maps_insert` into a valid table with fewer than 2 ^ 62 entries returns a valid table. A string that
  -- is not there gets the value, a string that is there keeps its own, and no other changes.
  pub maps_insert-view :
      (v : ℕ) (release : Bool)
      → m.elements_count < 2 ^ 62
      → (r : Maps × List Entry) × (maps_insert m k v release ≡ some r)
        × IsValid r.0
        × ((j : List ℕ) → view r.0 j ≡ insert_view m k v j)
  unfolding maps_insert keys key_equal
  maps_insert-view v release small =
      let (r, run, valid', there) =
        Table.insert-view keys valid (some k) (a_key k) v release small in
      (r, run, valid', λ j. there (some j) (a_key j))

  -- `maps_erase` on a valid table returns a valid table without the string, and no other changes.
  pub maps_erase-view :
      (release : Bool)
      → (r : Maps × List Entry) × (maps_erase m k release ≡ some r)
        × IsValid r.0
        × ((j : List ℕ) → view r.0 j ≡ (if string_equal k j then none else view m j))
  unfolding maps_erase keys key_equal
  maps_erase-view release =
      let (r, run, valid', there) = Table.erase-view keys valid (some k) (a_key k) release in
      (r, run, valid', λ j. there (some j) (a_key j))

-- `maps_reserve` makes room and keeps every value and the size.
pub maps_reserve-view :
    {m : Maps} (size : ℕ)
    → IsValid m
    → 2 * size ≤ 2 ^ 63
    → (r : Maps) × (maps_reserve m size ≡ some r)
      × IsValid r
      × (2 * size ≤ r.elements_capacity)
      × (maps_size r ≡ maps_size m)
      × ((j : List ℕ) → view r j ≡ view m j)
unfolding maps_reserve maps_size keys
maps_reserve-view size valid small =
    let (r, run, valid', room, count, there) = Table.reserve-view keys size valid small in
    (r, run, valid', room, count, λ j. there (some j) (a_key j))

-- A new table is valid and has no entry.
pub maps_construct-view :
    IsValid maps_construct
    × (maps_size maps_construct ≡ 0)
    × ((j : List ℕ) → view maps_construct j ≡ none)
unfolding maps_construct maps_size keys
maps_construct-view =
    let (valid, zero_count, there) = Table.construct-view keys in
    (valid, zero_count, λ j. there (some j) (a_key j))
