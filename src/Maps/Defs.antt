-- ===== src/Maps/Defs.antt =====
-- src/reactor/maps.c: entries, the callbacks and the functions, which call those of map.c. A string is
-- the list of its bytes before the byte 0; a key that is not set is `none`.
use libreactor_refactor.Prelude.{
  ◌>>=◌, ℕ, Bool, true, false, ◌&&◌, Option, none, some, List, [], ◌∷◌, get_elem?, ◌==◌,
}
use libreactor_refactor.Hash.{hash_string}
use libreactor_refactor.Map.{
  Map, Callbacks, construct, release_all, reserve, at, insert, erase, clear,
}

pub record Entry : Type 0 where
  pub key : Option (List ℕ)
  pub value : ℕ

abbrev pub Maps : Type 0
Maps = Map Entry

unfoldable pub set : Option Entry → Entry
set none = record { key = none; value = 0 }
set (some b) = b

-- Whether `strcmp` of two strings is 0.
unfoldable pub string_equal : List ℕ → List ℕ → Bool
string_equal [] [] = true
string_equal [] (y ∷ ys) = false
string_equal (x ∷ xs) [] = false
string_equal (x ∷ xs) (y ∷ ys) = x == y && string_equal xs ys

-- `strcmp` gets no key that is not set: map.c first asks whether an element is empty.
unfoldable pub key_equal : Option (List ℕ) → Option (List ℕ) → Bool
unfolding string_equal
key_equal none none = true
key_equal none (some b) = false
key_equal (some a) none = false
key_equal (some a) (some b) = string_equal a b

unfoldable pub equal : Entry → Option Entry → Bool
unfolding key_equal
equal a none = key_equal a.key none
equal a (some b) = key_equal a.key b.key

-- `hash_string` gives a number for every string.
unfoldable pub hash : Entry → ℕ
unfolding hash_string
hash a = elim (a.key >>= hash_string) [ none ↦ 0 | some h ↦ h ]

instance abbrev pub callbacks : Callbacks Entry
callbacks = record { equal = equal; hash = hash; write = set }

unfoldable pub maps_construct : Maps
unfolding construct
maps_construct = construct

-- What `maps_destruct` releases.
unfoldable pub maps_destruct : Maps → Bool → List Entry
unfolding release_all
maps_destruct = release_all

unfoldable pub maps_size : Maps → ℕ
maps_size m = m.elements_count

unfoldable pub maps_reserve : Maps → ℕ → Option Maps
unfolding reserve
maps_reserve = reserve

unfoldable pub maps_at : Maps → List ℕ → Option ℕ
unfolding at
maps_at m key = do
  i ← at m (record { key = some key; value = 0 })
  test ← get_elem? m.elements i
  some test.value

unfoldable pub maps_insert : Maps → List ℕ → ℕ → Bool → Option (Maps × List Entry)
unfolding insert
maps_insert m key value = insert m (record { key = some key; value = value })

unfoldable pub maps_erase : Maps → List ℕ → Bool → Option (Maps × List Entry)
unfolding erase
maps_erase m key = erase m (record { key = some key; value = 0 })

unfoldable pub maps_clear : Maps → Bool → Maps × List Entry
unfolding clear
maps_clear = clear
