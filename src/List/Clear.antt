-- ===== src/List/Clear.antt =====
-- src/reactor/list.c: `list_clear` takes every item out, front first.
use libreactor_refactor.Prelude.{
  ℕ, zero, suc, ◌<◌, Bool, true, false, some, List, [], ◌∷◌, ◌++◌, length, ◌==◌, if◌then◌else◌, ◌≡◌,
  ◌≢◌, refl, arith,
}
use libreactor_refactor.List.Defs.{Heap, list_item_object, list_empty, list_front, list_clear}
use libreactor_refactor.List.Laws.{HasItems, list_erase-HasItems}

-- What is released for the items.
abbrev pub released : Bool → List ℕ → List ℕ
released release [] = []
released release (x ∷ xs) = (if release then list_item_object x ∷ [] else []) ++ released release xs

-- With more rounds than items, `list_clear` succeeds, releases the objects in their order, and leaves
-- the list with no item.
pub list_clear-HasItems :
    (fuel : ℕ) (h : Heap) (l : ℕ) (xs : List ℕ) (release : Bool)
    → HasItems h l xs
    → length xs < fuel
    → (h' : Heap) × (list_clear fuel h l release ≡ some (h', released release xs))
      × HasItems h' l []
unfolding list_clear list_empty list_front
list_clear-HasItems zero h l xs release items enough = absurd (omega arith)
list_clear-HasItems (suc fuel) h l [] release items enough =
    let test : (l == l) ≡ true = ground arith in (h, rw (items.chain.0, test) refl, items)
list_clear-HasItems (suc fuel) h l (x ∷ xs) release items enough =
    let (h1, erased, left, gone, same) = list_erase-HasItems h l x [] xs release items in
    let (h2, cleared, empty) = list_clear-HasItems fuel h1 l xs release left (omega arith) in
    let other : (x == l) ≡ false = not_list (items.distinct.0.0) in
    (h2, rw (items.chain.0.0, other, erased, cleared) refl, empty)
  where
    not_list : l ≢ x → (x == l) ≡ false
    not_list n = ground arith

abbrev pub no_items : List ℕ → Bool
no_items [] = true
no_items (x ∷ xs) = false

-- `list_empty` says whether the list has no item.
pub list_empty-HasItems :
    (h : Heap) (l : ℕ) (xs : List ℕ) → HasItems h l xs → list_empty h l ≡ some (no_items xs)
unfolding list_empty
list_empty-HasItems h l [] items =
    let test : (l == l) ≡ true = ground arith in rw (items.chain.0, test) refl
list_empty-HasItems h l (x ∷ xs) items =
    let other : (x == l) ≡ false = not_list (items.distinct.0.0) in rw (items.chain.0.0, other) refl
  where
    not_list : l ≢ x → (x == l) ≡ false
    not_list n = ground arith
