-- ===== src/List/Ring.antt =====
-- src/reactor/list.c: the pointers after an item is put in its place, or taken out of it.
use libreactor_refactor.Prelude.{
  ◌>>=◌, ℕ, Option, none, some, List, take, replicate, ◌≡◌, ◌≢◌, refl, sym, ap, ◌∙◌,
}
use libreactor_refactor.List.Defs.{
  ListItem, Heap, update, next_of, previous_of, list_item_new, linked, unlinked,
}
use libreactor_refactor.List.Fields.{
  object_of, set_next-NextSet, set_previous-PreviousSet, update_here, update_else,
}

-- Of the items, only `p`, `b` before it and `c` behind it have other pointers.
pub record Places (h h' : Heap) (p b c : ℕ) : Type 0 where
  pub next_else : (q : ℕ) → q ≢ p → q ≢ b → next_of h' q ≡ next_of h q
  pub previous_else : (q : ℕ) → q ≢ p → q ≢ c → previous_of h' q ≡ previous_of h q
  pub object : (q : ℕ) → object_of h' q ≡ object_of h q

pub linked-Places :
    (h : Heap) (p b c u v : ℕ)
    → p ≢ b
    → p ≢ c
    → next_of h p ≡ some u
    → previous_of h p ≡ some v
    → next_of h b ≡ some c
    → previous_of h c ≡ some b
    → (h' : Heap) × (linked h p c ≡ some h')
      × Places h h' p b c
      × ((next_of h' p ≡ some c) × (previous_of h' p ≡ some b))
      × ((next_of h' b ≡ some p) × (previous_of h' c ≡ some p))
unfolding linked
linked-Places h p b c u v pb pc np pp nb prc =
    let (h1, run1, s1) = set_previous-PreviousSet h p b v pp in
    let (h2, run2, s2) = set_next-NextSet h1 p c u (s1.front p ∙ np) in
    let before : previous_of h2 p ≡ some b = s2.back p ∙ s1.here in
    let (h3, run3, s3) =
      set_next-NextSet h2 b p c (s2.other b (λ e. pb (sym e)) ∙ s1.front b ∙ nb) in
    let after : next_of h3 p ≡ some c = s3.other p pb ∙ s2.here in
    let (h4, run4, s4) =
      set_previous-PreviousSet h3 c p b
        (s3.back c ∙ s2.back c ∙ s1.other c (λ e. pc (sym e)) ∙ prc) in
    (
      h4,
      rw (prc, run1, run2, before, run3, after) run4,
      record {
        next_else = λ q n m. s4.front q ∙ s3.other q m ∙ s2.other q n ∙ s1.front q;
        previous_else = λ q n m. s4.other q m ∙ s3.back q ∙ s2.back q ∙ s1.other q n;
        object = λ q. s4.object q ∙ s3.object q ∙ s2.object q ∙ s1.object q;
      },
      (s4.front p ∙ after, s4.other p pc ∙ s3.back p ∙ before),
      (s4.front b ∙ s3.here, s4.here),
    )

pub unlinked-Places :
    (h : Heap) (p b c u v : ℕ)
    → p ≢ b
    → p ≢ c
    → next_of h p ≡ some c
    → previous_of h p ≡ some b
    → next_of h b ≡ some u
    → previous_of h c ≡ some v
    → (h' : Heap) × (unlinked h p ≡ some h')
      × Places h h' p b c
      × ((next_of h' b ≡ some c) × (previous_of h' c ≡ some b))
unfolding unlinked
unlinked-Places h p b c u v pb pc np pp nb prc =
    let (h1, run1, s1) = set_next-NextSet h b c u nb in
    let next1 : next_of h1 p ≡ some c = s1.other p pb ∙ np in
    let previous1 : previous_of h1 p ≡ some b = s1.back p ∙ pp in
    let (h2, run2, s2) = set_previous-PreviousSet h1 c b v (s1.back c ∙ prc) in
    (
      h2,
      rw (pp, np, run1, next1, previous1) run2,
      record {
        next_else = λ q n m. s2.front q ∙ s1.other q m;
        previous_else = λ q n m. s2.other q m ∙ s1.back q;
        object = λ q. s2.object q ∙ s1.object q;
      },
      (s2.front b ∙ s1.here, s2.here),
    )

-- The bytes of a new item.
abbrev pub new_bytes : Option (List ℕ) → ℕ → List ℕ
new_bytes none size = replicate size 0
new_bytes (some x) size = take size x

-- A new item is there, and no other changes.
pub record IsNew (h h' : Heap) (p : ℕ) (bytes : List ℕ) : Type 0 where
  pub next : next_of h' p ≡ some 0
  pub previous : previous_of h' p ≡ some 0
  pub object : object_of h' p ≡ some bytes
  pub next_else : (q : ℕ) → q ≢ p → next_of h' q ≡ next_of h q
  pub previous_else : (q : ℕ) → q ≢ p → previous_of h' q ≡ previous_of h q
  pub object_else : (q : ℕ) → q ≢ p → object_of h' q ≡ object_of h q

update-IsNew :
    (h : Heap) (p : ℕ) (bytes : List ℕ)
    → IsNew h (update h p (some (record { next = 0; previous = 0; object = bytes }))) p bytes
unfolding next_of previous_of
update-IsNew h p bytes =
    let item : ListItem = record { next = 0; previous = 0; object = bytes } in
    let here = update_here h p (some item) in
    let other : (q : ℕ) → q ≢ p → update h p (some item) q ≡ h q =
      λ q n. update_else h p q (some item) n in
    record {
      next = rw here refl;
      previous = rw here refl;
      object = rw here refl;
      next_else = λ q n. ap (λ (o : Option ListItem). o >>= λ i. some i.next) (other q n);
      previous_else = λ q n. ap (λ (o : Option ListItem). o >>= λ i. some i.previous) (other q n);
      object_else = λ q n. ap (λ (o : Option ListItem). o >>= λ i. some i.object) (other q n);
    }

pub list_item_new-IsNew :
    (h : Heap) (p : ℕ) (object : Option (List ℕ)) (size : ℕ)
    → IsNew h (list_item_new h p object size) p (new_bytes object size)
unfolding list_item_new
list_item_new-IsNew h p none size = update-IsNew h p (replicate size 0)
list_item_new-IsNew h p (some x) size = update-IsNew h p (take size x)

-- An item is freed.
pub freed :
    (h : Heap) (p q : ℕ)
    → q ≢ p
    → (next_of (update h p none) q ≡ next_of h q)
      × (previous_of (update h p none) q ≡ previous_of h q)
      × (object_of (update h p none) q ≡ object_of h q)
unfolding next_of previous_of
freed h p q n =
    let other = update_else h p q none n in
    (
      ap (λ (o : Option ListItem). o >>= λ i. some i.next) other,
      ap (λ (o : Option ListItem). o >>= λ i. some i.previous) other,
      ap (λ (o : Option ListItem). o >>= λ i. some i.object) other,
    )
