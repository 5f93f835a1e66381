-- ===== src/List/Fields.antt =====
-- src/reactor/list.c: what a store to a pointer of an item changes.
use libreactor_refactor.Prelude.{
  ◌>>=◌, ℕ, true, false, Option, none, some, List, ◌==◌, ◌≡◌, ◌≢◌, refl, ap, arith,
}
use native.Mathlib.Decide.{ℕ_discrete}
use libreactor_refactor.List.Defs.{
  ListItem, Heap, update, next_of, previous_of, set_next, set_previous,
}

pub update_here : (h : Heap) (p : ℕ) (item : Option ListItem) → update h p item p ≡ item
unfolding update
update_here h p item = let test : (p == p) ≡ true = ground arith in rw test refl

pub update_else : (h : Heap) (p q : ℕ) (item : Option ListItem) → q ≢ p → update h p item q ≡ h q
unfolding update
update_else h p q item n = let test : (q == p) ≡ false = ground arith in rw test refl

-- The object of an item.
abbrev pub object_of : Heap → ℕ → Option (List ℕ)
object_of h p = h p >>= λ item. some item.object

-- Only the pointer `next` of `p` changes.
pub record NextSet (h h' : Heap) (p x : ℕ) : Type 0 where
  pub here : next_of h' p ≡ some x
  pub other : (q : ℕ) → q ≢ p → next_of h' q ≡ next_of h q
  pub back : (q : ℕ) → previous_of h' q ≡ previous_of h q
  pub object : (q : ℕ) → object_of h' q ≡ object_of h q

-- Only the pointer `previous` of `p` changes.
pub record PreviousSet (h h' : Heap) (p x : ℕ) : Type 0 where
  pub here : previous_of h' p ≡ some x
  pub other : (q : ℕ) → q ≢ p → previous_of h' q ≡ previous_of h q
  pub front : (q : ℕ) → next_of h' q ≡ next_of h q
  pub object : (q : ℕ) → object_of h' q ≡ object_of h q

set_next-item :
    (h : Heap) (p x : ℕ) (item : ListItem)
    → h p ≡ some item
    → (h' : Heap) × (set_next h p x ≡ some h') × NextSet h h' p x
unfolding set_next next_of previous_of
set_next-item h p x item e =
    let h' = update h p (some (record item { next = x })) in
    let here : h' p ≡ some (record item { next = x }) =
      update_here h p (some (record item { next = x })) in
    let other : (q : ℕ) → q ≢ p → h' q ≡ h q =
      λ q n. update_else h p q (some (record item { next = x })) n in
    (
      h',
      rw e refl,
      record {
        here = ap (λ (o : Option ListItem). o >>= λ i. some i.next) here;
        other = λ q n. ap (λ (o : Option ListItem). o >>= λ i. some i.next) (other q n);
        back = λ q. elim (ℕ_discrete q p) [
          | yes s ↦ rw (s, here, e) refl
          | no n ↦ ap (λ (o : Option ListItem). o >>= λ i. some i.previous) (other q n)
        ];
        object = λ q. elim (ℕ_discrete q p) [
          | yes s ↦ rw (s, here, e) refl
          | no n ↦ ap (λ (o : Option ListItem). o >>= λ i. some i.object) (other q n)
        ];
      },
    )

set_previous-item :
    (h : Heap) (p x : ℕ) (item : ListItem)
    → h p ≡ some item
    → (h' : Heap) × (set_previous h p x ≡ some h') × PreviousSet h h' p x
unfolding set_previous next_of previous_of
set_previous-item h p x item e =
    let h' = update h p (some (record item { previous = x })) in
    let here : h' p ≡ some (record item { previous = x }) =
      update_here h p (some (record item { previous = x })) in
    let other : (q : ℕ) → q ≢ p → h' q ≡ h q =
      λ q n. update_else h p q (some (record item { previous = x })) n in
    (
      h',
      rw e refl,
      record {
        here = ap (λ (o : Option ListItem). o >>= λ i. some i.previous) here;
        other = λ q n. ap (λ (o : Option ListItem). o >>= λ i. some i.previous) (other q n);
        front = λ q. elim (ℕ_discrete q p) [
          | yes s ↦ rw (s, here, e) refl
          | no n ↦ ap (λ (o : Option ListItem). o >>= λ i. some i.next) (other q n)
        ];
        object = λ q. elim (ℕ_discrete q p) [
          | yes s ↦ rw (s, here, e) refl
          | no n ↦ ap (λ (o : Option ListItem). o >>= λ i. some i.object) (other q n)
        ];
      },
    )

-- An item with a pointer is there.
next-item : (h : Heap) (p x : ℕ) → next_of h p ≡ some x → (item : ListItem) × (h p ≡ some item)
unfolding next_of
next-item h p x e = there (h p) e
  where
    there :
        (o : Option ListItem)
        → (o >>= λ item. some item.next) ≡ some x
        → (item : ListItem) × (o ≡ some item)
    there none e = absurd (cc)
    there (some item) e = (item, refl)

previous-item :
    (h : Heap) (p x : ℕ) → previous_of h p ≡ some x → (item : ListItem) × (h p ≡ some item)
unfolding previous_of
previous-item h p x e = there (h p) e
  where
    there :
        (o : Option ListItem)
        → (o >>= λ item. some item.previous) ≡ some x
        → (item : ListItem) × (o ≡ some item)
    there none e = absurd (cc)
    there (some item) e = (item, refl)

pub set_next-NextSet :
    (h : Heap) (p x y : ℕ)
    → next_of h p ≡ some y
    → (h' : Heap) × (set_next h p x ≡ some h') × NextSet h h' p x
set_next-NextSet h p x y e = let (item, there) = next-item h p y e in set_next-item h p x item there

pub set_previous-PreviousSet :
    (h : Heap) (p x y : ℕ)
    → previous_of h p ≡ some y
    → (h' : Heap) × (set_previous h p x ≡ some h') × PreviousSet h h' p x
set_previous-PreviousSet h p x y e =
    let (item, there) = previous-item h p y e in set_previous-item h p x item there
