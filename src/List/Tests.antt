-- ===== src/List/Tests.antt =====
-- Tests and concrete cases for src/reactor/list.c.
use libreactor_refactor.Prelude.{
  ◌>>=◌, ℕ, true, Option, none, some, [], ◌∷◌, ◌==◌, if◌then◌else◌, ◌≡◌, ◌≢◌, refl, arith,
}
use libreactor_refactor.List.Defs.{
  Heap, next_of, previous_of, list_construct, list_insert, list_push_front, list_push_back,
  list_splice, list_erase, list_clear, list_find, list_next, list_front,
}
use libreactor_refactor.List.Fields.{object_of}
use libreactor_refactor.List.Laws.{HasItems, list_insert-HasItems, list_erase-HasItems}

-- A list at 100 with items at 200 and 300.
abbrev two_items : Heap
two_items q =
    if q == 100
    then some (record { next = 200; previous = 300; object = [] })
    else if q == 200
    then some (record { next = 300; previous = 100; object = 7 ∷ [] })
    else if q == 300
    then some (record { next = 100; previous = 200; object = 8 ∷ [] })
    else none

two_items-HasItems : HasItems two_items 100 (200 ∷ 300 ∷ [])
unfolding next_of previous_of
two_items-HasItems = record {
  distinct = (((λ e. omega arith), ((λ e. omega arith), tt)), (((λ e. omega arith), tt), (tt, tt)));
  chain = ((refl, refl), ((refl, refl), (refl, refl)));
}

list_insert-HasItems_example :
    (h : Heap) × (list_insert two_items 400 316 (some (9 ∷ [])) 1 ≡ some (h, 416))
    × HasItems h 100 (200 ∷ 400 ∷ 300 ∷ [])
    × (object_of h 400 ≡ some (9 ∷ []))
    × ((q : ℕ) → q ≢ 400 → object_of h q ≡ object_of two_items q)
list_insert-HasItems_example =
    list_insert-HasItems two_items 100 400 (200 ∷ []) (300 ∷ []) (some (9 ∷ [])) 1
      two_items-HasItems ((λ e. omega arith), ((λ e. omega arith), ((λ e. omega arith), tt)))

list_erase-HasItems_example :
    (h : Heap) × (list_erase two_items 216 true ≡ some (h, 216 ∷ []))
    × HasItems h 100 (300 ∷ [])
    × (h 200 ≡ none)
    × ((q : ℕ) → q ≢ 200 → object_of h q ≡ object_of two_items q)
list_erase-HasItems_example =
    list_erase-HasItems two_items 100 200 [] (300 ∷ []) true two_items-HasItems

-- The objects in order, by `list_next`.
abbrev walk : Heap → Option (ℕ × ℕ × ℕ)
walk h = do a ← list_front h 100; b ← list_next h a; c ← list_next h b; some (a, b, c)

pushed :
    (do
      (h1, a) ← list_push_back (list_construct (λ q. none) 100) 200 100 (some (7 ∷ [])) 1
      (h2, b) ← list_push_front h1 300 100 none 2
      walk h2)
    ≡ some (316, 216, 116)
unfolding list_construct list_push_back list_push_front list_front list_next
pushed = refl

spliced : (list_splice two_items 216 316 >>= walk) ≡ some (316, 216, 116)
unfolding list_splice list_front list_next
spliced = refl

cleared :
    (list_clear 3 two_items 100 true >>= λ (h, released). some released) ≡ some (216 ∷ 316 ∷ [])
unfolding list_clear
cleared = refl

found : list_find (λ a b. if b == 316 then 0 else 1) 3 two_items 100 0 ≡ some 316
unfolding list_find
found = refl
