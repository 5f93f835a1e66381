-- ===== src/List/Laws.antt =====
-- src/reactor/list.c: what the operations do to the list of the items.
use libreactor_refactor.Prelude.{
  ℕ, Bool, Option, none, some, List, [], ◌∷◌, ◌++◌, if◌then◌else◌, ◌≡◌, ◌≢◌, refl, sym, ◌∙◌, arith,
}
use libreactor_refactor.List.Defs.{
  Heap, update, next_of, previous_of, list_item_object, list_object_item, list_item_new,
  list_insert, list_erase,
}
use libreactor_refactor.List.Fields.{object_of, update_here}
use libreactor_refactor.List.Chain.{
  Absent, Distinct, Absent-append, Absent-insert, Distinct-insert, Distinct-drop, last, first,
  Chain, Chain-place, Chain-item,
}
use libreactor_refactor.List.Links.{
  Absent-last, Absent-first, Distinct-rotate, insert-Chain, erase-Chain,
}
use libreactor_refactor.List.Ring.{
  linked-Places, unlinked-Places, new_bytes, list_item_new-IsNew, freed,
}

-- The list `l` has the items `xs`, in this order: each points to the next and to the previous one, and
-- the ends to the list.
pub record HasItems (h : Heap) (l : ℕ) (xs : List ℕ) : Type 0 where
  pub distinct : Distinct (l ∷ xs)
  pub chain : Chain (next_of h) (previous_of h) l xs l

item_of_object : (p : ℕ) → list_object_item (list_item_object p) ≡ p
unfolding list_object_item
item_of_object p = omega arith

-- `list_insert` of a fresh item before an object of a list, or before its end, succeeds: the list then
-- has the item there, its other items in the same order, the new object its bytes, and every other
-- object what it had.
pub list_insert-HasItems :
    (h : Heap) (l p : ℕ) (ys zs : List ℕ) (object : Option (List ℕ)) (size : ℕ)
    → HasItems h l (ys ++ zs)
    → Absent p (l ∷ (ys ++ zs))
    → (h' : Heap) × (list_insert h p (list_item_object (first zs l)) object size
        ≡ some (h', list_item_object p))
      × HasItems h' l (ys ++ (p ∷ zs))
      × (object_of h' p ≡ some (new_bytes object size))
      × ((q : ℕ) → q ≢ p → object_of h' q ≡ object_of h q)
unfolding list_insert
list_insert-HasItems h l p ys zs object size items fresh =
    let b = last l ys in
    let c = first zs l in
    let h1 = list_item_new h p object size in
    let new = list_item_new-IsNew h p object size in
    let (nb, pc) = Chain-place (next_of h) (previous_of h) l ys zs l items.chain in
    let ring = Absent-append p (ys ++ zs) (l ∷ []) fresh.1 (fresh.0, tt) in
    let not_b : p ≢ b = Absent-last p l ys zs fresh in
    let not_c : p ≢ c = Absent-first p ys zs l ring in
    let (h2, run, places, at_p, sides) =
      linked-Places h1 p b c 0 0 not_b not_c new.next new.previous
        (new.next_else b (λ e. not_b (sym e)) ∙ nb)
        (new.previous_else c (λ e. not_c (sym e)) ∙ pc) in
    (
      h2,
      rw (item_of_object c, run) refl,
      record {
        distinct = (
          Absent-insert l p ys zs items.distinct.0 (λ e. fresh.0 (sym e)),
          Distinct-insert p ys zs items.distinct.1 fresh.1,
        );
        chain =
            insert-Chain (next_of h) (previous_of h) (next_of h2) (previous_of h2) p b c
              (λ q n m. places.next_else q n m ∙ new.next_else q n)
              (λ q n m. places.previous_else q n m ∙ new.previous_else q n) at_p sides l ys zs l
              refl refl (fresh.0, ring) items.distinct (Distinct-rotate l (ys ++ zs) items.distinct)
              items.chain;
      },
      places.object p ∙ new.object,
      λ q n. places.object q ∙ new.object_else q n,
    )

-- `list_erase` of an object of a list succeeds, frees its item, and calls `release` with just this
-- object, if that is given; the list then has the other items, in the same order, with their objects.
pub list_erase-HasItems :
    (h : Heap) (l p : ℕ) (ys zs : List ℕ) (release : Bool)
    → HasItems h l (ys ++ (p ∷ zs))
    → (h' : Heap) × (list_erase h (list_item_object p) release
        ≡ some (h', if release then list_item_object p ∷ [] else []))
      × HasItems h' l (ys ++ zs)
      × (h' p ≡ none)
      × ((q : ℕ) → q ≢ p → object_of h' q ≡ object_of h q)
unfolding list_erase
list_erase-HasItems h l p ys zs release items =
    let b = last l ys in
    let c = first zs l in
    let (left, gone) = Distinct-drop p (l ∷ ys) zs items.distinct in
    let (nb, pp) = Chain-place (next_of h) (previous_of h) l ys (p ∷ zs) l items.chain in
    let (np, pc) = Chain-item (next_of h) (previous_of h) l p ys zs l items.chain in
    let ring = Absent-append p (ys ++ zs) (l ∷ []) gone.1 (gone.0, tt) in
    let not_b : p ≢ b = Absent-last p l ys zs gone in
    let not_c : p ≢ c = Absent-first p ys zs l ring in
    let (h1, run, places, sides) = unlinked-Places h p b c p p not_b not_c np pp nb pc in
    let h2 = update h1 p none in
    (
      h2,
      rw (item_of_object p, run) refl,
      record {
        distinct = left;
        chain =
            erase-Chain (next_of h) (previous_of h) (next_of h2) (previous_of h2) p b c
              (λ q n m. (freed h1 p q n).0 ∙ places.next_else q n m)
              (λ q n m. (freed h1 p q n).1 ∙ places.previous_else q n m)
              (
                (freed h1 p b (λ e. not_b (sym e))).0 ∙ sides.0,
                (freed h1 p c (λ e. not_c (sym e))).1 ∙ sides.1,
              )
              l ys zs l refl refl (gone.0, ring) left (Distinct-rotate l (ys ++ zs) left)
              items.chain;
      },
      update_here h1 p none,
      λ q n. (freed h1 p q n).2 ∙ places.object q,
    )
