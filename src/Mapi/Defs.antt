-- ===== src/Mapi/Defs.antt =====
-- src/reactor/mapi.c: entries, the callbacks and the functions, which call those of map.c.
use libreactor_refactor.Prelude.{◌>>=◌, ℕ, Bool, Option, none, some, List, ◌==◌}
use libreactor_refactor.Hash.{hash_uint64}
use libreactor_refactor.Map.{
  Map, Callbacks, construct, release_all, reserve, at, insert, erase, clear,
}
use libreactor_refactor.Prelude.{get_elem?}

pub record Entry : Type 0 where
  pub key : ℕ
  pub value : ℕ

abbrev pub Mapi : Type 0
Mapi = Map Entry

unfoldable pub set : Option Entry → Entry
set none = record { key = 0; value = 0 }
set (some b) = b

unfoldable pub equal : Entry → Option Entry → Bool
equal a none = a.key == 0
equal a (some b) = a.key == b.key

unfoldable pub hash : Entry → ℕ
hash a = hash_uint64 a.key

instance abbrev pub callbacks : Callbacks Entry
callbacks = record { equal = equal; hash = hash; write = set }

unfoldable pub mapi_construct : Mapi
unfolding construct
mapi_construct = construct

-- What `mapi_destruct` releases.
unfoldable pub mapi_destruct : Mapi → Bool → List Entry
unfolding release_all
mapi_destruct = release_all

unfoldable pub mapi_size : Mapi → ℕ
mapi_size m = m.elements_count

unfoldable pub mapi_reserve : Mapi → ℕ → Option Mapi
unfolding reserve
mapi_reserve = reserve

unfoldable pub mapi_at : Mapi → ℕ → Option ℕ
unfolding at
mapi_at m key = do
  i ← at m (record { key = key; value = 0 })
  test ← get_elem? m.elements i
  some test.value

unfoldable pub mapi_insert : Mapi → ℕ → ℕ → Bool → Option (Mapi × List Entry)
unfolding insert
mapi_insert m key value = insert m (record { key = key; value = value })

unfoldable pub mapi_erase : Mapi → ℕ → Bool → Option (Mapi × List Entry)
unfolding erase
mapi_erase m key = erase m (record { key = key; value = 0 })

unfoldable pub mapi_clear : Mapi → Bool → Mapi × List Entry
unfolding clear
mapi_clear = clear
