-- ===== src/List/Defs.antt =====
-- src/reactor/list.c: items on a heap. A list is the address of its own node; an object is the address
-- behind the two pointers of its item. `none` is an access to an item that is not there.
use libreactor_refactor.Prelude.{
  ◌>>=◌, ℕ, zero, suc, ◌+◌, ◌-◌, Bool, Option, none, some, List, [], ◌∷◌, ◌++◌, take, replicate,
  ◌==◌, if◌then◌else◌,
}

-- `struct list_item`; the list's own node has no object.
pub record ListItem : Type 0 where
  pub next : ℕ
  pub previous : ℕ
  pub object : List ℕ

abbrev pub Heap : Type 0
Heap = ℕ → Option ListItem

unfoldable pub update : Heap → ℕ → Option ListItem → Heap
update h p item q = if q == p then item else h q

unfoldable pub next_of : Heap → ℕ → Option ℕ
next_of h p = h p >>= λ item. some item.next

unfoldable pub previous_of : Heap → ℕ → Option ℕ
previous_of h p = h p >>= λ item. some item.previous

unfoldable pub set_next : Heap → ℕ → ℕ → Option Heap
unfolding update
set_next h p q = h p >>= λ item. some (update h p (some (record item { next = q })))

unfoldable pub set_previous : Heap → ℕ → ℕ → Option Heap
unfolding update
set_previous h p q = h p >>= λ item. some (update h p (some (record item { previous = q })))

-- `offsetof(list_item, object)`
abbrev pub object_offset : ℕ
object_offset = 16

abbrev pub list_item_object : ℕ → ℕ
list_item_object item = item + object_offset

unfoldable pub list_object_item : ℕ → ℕ
list_object_item object = object - object_offset

-- `p` is the address that `calloc` returns.
unfoldable pub list_item_new : Heap → ℕ → Option (List ℕ) → ℕ → Heap
unfolding update
list_item_new h p object size =
    let bytes : List ℕ = elim object [ none ↦ replicate size 0 | some x ↦ take size x ] in
    update h p (some (record { next = 0; previous = 0; object = bytes }))

unfoldable pub list_construct : Heap → ℕ → Heap
unfolding update
list_construct h l = update h l (some (record { next = l; previous = l; object = [] }))

unfoldable pub list_next : Heap → ℕ → Option ℕ
unfolding list_object_item next_of
list_next h object = next_of h (list_object_item object) >>= λ item. some (list_item_object item)

unfoldable pub list_previous : Heap → ℕ → Option ℕ
unfolding list_object_item previous_of
list_previous h object =
    previous_of h (list_object_item object) >>= λ item. some (list_item_object item)

unfoldable pub list_empty : Heap → ℕ → Option Bool
unfolding next_of
list_empty h l = next_of h l >>= λ item. some (item == l)

unfoldable pub list_front : Heap → ℕ → Option ℕ
unfolding next_of
list_front h l = next_of h l >>= λ item. some (list_item_object item)

unfoldable pub list_back : Heap → ℕ → Option ℕ
unfolding previous_of
list_back h l = previous_of h l >>= λ item. some (list_item_object item)

unfoldable pub list_end : ℕ → ℕ
list_end l = list_item_object l

-- An item is put before another.
unfoldable pub linked : Heap → ℕ → ℕ → Option Heap
unfolding previous_of next_of set_previous set_next
linked h item after = do
  before ← previous_of h after
  h1 ← set_previous h item before
  h2 ← set_next h1 item after
  previous ← previous_of h2 item
  h3 ← set_next h2 previous item
  next ← next_of h3 item
  set_previous h3 next item

unfoldable pub list_insert : Heap → ℕ → ℕ → Option (List ℕ) → ℕ → Option (Heap × ℕ)
unfolding list_object_item list_item_new linked
list_insert h p list_object object size = do
  h1 ← linked (list_item_new h p object size) p (list_object_item list_object)
  some (h1, list_item_object p)

unfoldable pub list_push_front : Heap → ℕ → ℕ → Option (List ℕ) → ℕ → Option (Heap × ℕ)
unfolding list_front list_insert
list_push_front h p l object size = do front ← list_front h l; list_insert h p front object size

unfoldable pub list_push_back : Heap → ℕ → ℕ → Option (List ℕ) → ℕ → Option (Heap × ℕ)
unfolding list_end list_insert
list_push_back h p l object size = list_insert h p (list_end l) object size

-- An item is taken out of its place.
unfoldable pub unlinked : Heap → ℕ → Option Heap
unfolding previous_of next_of set_next set_previous
unlinked h item = do
  previous ← previous_of h item
  next ← next_of h item
  h1 ← set_next h previous next
  next1 ← next_of h1 item
  previous1 ← previous_of h1 item
  set_previous h1 next1 previous1

unfoldable pub list_splice : Heap → ℕ → ℕ → Option Heap
unfolding list_object_item unlinked linked
list_splice h object1 object2 =
    let to = list_object_item object1 in
    let from = list_object_item object2 in
    let spliced = unlinked h from >>= λ h1. linked h1 from to in
    if object1 == object2 then some h else spliced

-- The objects that `release` is called with are returned; `release` may be null.
unfoldable pub list_erase : Heap → ℕ → Bool → Option (Heap × List ℕ)
unfolding list_object_item unlinked update
list_erase h object release = do
  let item = list_object_item object
  h2 ← unlinked h item
  some (update h2 item none, if release then object ∷ [] else [])

-- Of so many rounds.
unfoldable pub list_clear : ℕ → Heap → ℕ → Bool → Option (Heap × List ℕ)
unfolding list_empty list_front list_erase
list_clear zero h l release = none
list_clear (suc fuel) h l release = do
  empty ← list_empty h l
  let rest = (do
    front ← list_front h l
    (h1, released) ← list_erase h front release
    (h2, others) ← list_clear fuel h1 l release
    some (h2, released ++ others))
  if empty then some (h, []) else rest

unfoldable pub list_destruct : ℕ → Heap → ℕ → Bool → Option (Heap × List ℕ)
unfolding list_clear
list_destruct = list_clear

-- The search from the object on, of so many rounds. The result is 0 where no object compares as equal.
unfoldable pub find_from : (ℕ → ℕ → ℕ) → ℕ → Heap → ℕ → ℕ → ℕ → Option ℕ
unfolding list_end list_next
find_from compare zero h l object list_object = none
find_from compare (suc fuel) h l object list_object =
    let rest = list_next h list_object >>= find_from compare fuel h l object in
    if list_object == list_end l
    then some 0
    else if compare object list_object == 0
    then some list_object
    else rest

unfoldable pub list_find : (ℕ → ℕ → ℕ) → ℕ → Heap → ℕ → ℕ → Option ℕ
unfolding list_front find_from
list_find compare fuel h l object = list_front h l >>= find_from compare fuel h l object
