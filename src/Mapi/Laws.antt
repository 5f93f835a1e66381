-- ===== src/Mapi/Laws.antt =====
-- The table of src/reactor/mapi.c implements a partial function: `mapi_at` reads it, `mapi_insert` adds a
-- key that is not there, `mapi_erase` removes one, growing and shifting leave it alone.
use libreactor_refactor.Prelude.{
  ℕ, ◌*◌, ◌^◌, ◌≤◌, ◌<◌, ◌≡◌, ◌≢◌, Bool, Option, none, some, List, if◌then◌else◌, arith, ◌==◌,
}
use libreactor_refactor.Map.Slots.{IsValid}
use libreactor_refactor.Map.Table
use libreactor_refactor.Mapi.Defs.{
  Entry, Mapi, callbacks, mapi_construct, mapi_size, mapi_reserve, mapi_at, mapi_insert, mapi_erase,
}
use libreactor_refactor.Mapi.View.{keys, view}

abbrev pub value_or_zero : Option ℕ → ℕ
value_or_zero = Table.value_or_zero

-- The view after `mapi_insert` of the value `v` under `k`: the first value of a key stays.
abbrev pub insert_view : Mapi → ℕ → ℕ → ℕ → Option ℕ
insert_view m k v j =
    if k == j then some (elim (view m k) [ none ↦ v | some old ↦ old ]) else view m j

above_zero : (k : ℕ) → 0 < k → k ≢ 0
above_zero k pos e = absurd (omega arith)

module _ {m : Mapi} (valid : IsValid m) (k : ℕ) (pos : 0 < k) where
  -- In a valid table `mapi_at` of a key above 0 returns the value under it, 0 if there is none.
  pub mapi_at-view : mapi_at m k ≡ some (value_or_zero (view m k))
  unfolding mapi_at keys
  mapi_at-view = Table.value_at-view keys valid k (above_zero k pos)

  -- `mapi_insert` of a key above 0 into a valid table with fewer than 2 ^ 62 entries returns a valid table. A key
  -- that is not there gets the value, a key that is there keeps its own, and no other changes.
  pub mapi_insert-view :
      (v : ℕ) (release : Bool)
      → m.elements_count < 2 ^ 62
      → (r : Mapi × List Entry) × (mapi_insert m k v release ≡ some r)
        × IsValid r.0
        × ((j : ℕ) → 0 < j → view r.0 j ≡ insert_view m k v j)
  unfolding mapi_insert keys
  mapi_insert-view v release small =
      let (r, run, valid', there) =
        Table.insert-view keys valid k (above_zero k pos) v release small in
      (r, run, valid', λ j jpos. there j (above_zero j jpos))

  -- `mapi_erase` of a key above 0 on a valid table returns a valid table without the key, and no other key changes.
  pub mapi_erase-view :
      (release : Bool)
      → (r : Mapi × List Entry) × (mapi_erase m k release ≡ some r)
        × IsValid r.0
        × ((j : ℕ) → 0 < j → view r.0 j ≡ (if k == j then none else view m j))
  unfolding mapi_erase keys
  mapi_erase-view release =
      let (r, run, valid', there) = Table.erase-view keys valid k (above_zero k pos) release in
      (r, run, valid', λ j jpos. there j (above_zero j jpos))

-- `mapi_reserve` makes room and keeps every value and the size.
pub mapi_reserve-view :
    {m : Mapi} (size : ℕ)
    → IsValid m
    → 2 * size ≤ 2 ^ 63
    → (r : Mapi) × (mapi_reserve m size ≡ some r)
      × IsValid r
      × (2 * size ≤ r.elements_capacity)
      × (mapi_size r ≡ mapi_size m)
      × ((j : ℕ) → 0 < j → view r j ≡ view m j)
unfolding mapi_reserve mapi_size keys
mapi_reserve-view size valid small =
    let (r, run, valid', room, count, there) = Table.reserve-view keys size valid small in
    (r, run, valid', room, count, λ j jpos. there j (above_zero j jpos))

-- A new table is valid and has no entry.
pub mapi_construct-view :
    IsValid mapi_construct
    × (mapi_size mapi_construct ≡ 0)
    × ((j : ℕ) → 0 < j → view mapi_construct j ≡ none)
unfolding mapi_construct mapi_size keys
mapi_construct-view =
    let (valid, zero_count, there) = Table.construct-view keys in
    (valid, zero_count, λ j jpos. there j (above_zero j jpos))
