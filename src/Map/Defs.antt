-- ===== src/Map/Defs.antt =====
-- src/reactor/map.c: a hash table with linear probing. The element type and its callbacks are
-- parameters, as in the source. `*elements` is a list of `elements_capacity` elements, and a
-- pointer to an element is its index. `none` is a run that leaves the array or needs more fuel.
use libreactor_refactor.Prelude.{
  ◌>>=◌, ℕ, zero, suc, Bool, false, ◌&&◌, ◌||◌, Option, none, some, List, [], ◌∷◌, get_elem?, set,
  replicate, bit_and, ltb, leb, if◌then◌else◌,
}
use libreactor_refactor.Words.{add64, sub64, mul64, fill_below}

-- `map_equal` (its second argument may be NULL), `map_hash`, and what `map_set` leaves in `*p1`.
pub record Callbacks (E : Type 0) : Type 0 where
  pub equal : E → Option E → Bool
  pub hash : E → ℕ
  pub write : Option E → E

pub record Map (E : Type 0) : Type 0 where
  pub elements : List E
  pub elements_count : ℕ
  pub elements_capacity : ℕ

-- MAP_ELEMENTS_CAPACITY_MIN
abbrev pub capacity_min : ℕ
capacity_min = 16

unfoldable pub roundup : ℕ → ℕ
roundup s = add64 (fill_below (sub64 s 1)) 1

-- The test of `map_erase`: the home `k` of the element at `j` is not between `i` and `j`.
unfoldable pub moves : ℕ → ℕ → ℕ → Bool
moves i j k = (ltb i j && (leb k i || ltb j k)) || (ltb j i && (leb k i && ltb j k))

module _ {E : Type 0} ⦃cb : Callbacks E⦄ where
  -- What `map_release_all` releases, in order.
  unfoldable pub release_list : List E → List E
  release_list [] = []
  release_list (x ∷ xs) = if cb.equal x none then release_list xs else x ∷ release_list xs

  unfoldable pub release_all : Map E → Bool → List E
  unfolding release_list
  release_all m release = if release then release_list m.elements else []

  -- The loop of `map_at`, for so many rounds.
  unfoldable pub at_from : ℕ → Map E → E → ℕ → Option ℕ
  at_from zero m e i = none
  at_from (suc fuel) m e i =
      let j = bit_and i (sub64 m.elements_capacity 1) in
      let rest = at_from fuel m e (add64 j 1) in
      elim (get_elem? m.elements j) [
        | none ↦ none
        | some test ↦ if cb.equal test none || cb.equal test (some e) then some j else rest
      ]

  unfoldable pub at : Map E → E → Option ℕ
  unfolding at_from
  at m e = at_from m.elements_capacity m e (cb.hash e)

  -- The loop of `map_rehash` over the old elements, given the insertion that it calls.
  unfoldable pub copy : (Map E → E → Option (Map E)) → List E → Map E → Option (Map E)
  copy insert [] new = some new
  copy insert (x ∷ xs) new = do
    next ← if cb.equal x none then some new else insert new x
    copy insert xs next

  unfoldable pub fresh : ℕ → Map E
  fresh size = record {
    elements = replicate size (cb.write none);
    elements_count = 0;
    elements_capacity = size;
  }

  unfoldable pub rehash : (Map E → E → Option (Map E)) → Map E → ℕ → Option (Map E)
  unfolding copy fresh roundup
  rehash insert m size = copy insert m.elements (fresh (roundup size))

  unfoldable pub reserve_with : (Map E → E → Option (Map E)) → Map E → ℕ → Option (Map E)
  unfolding rehash
  reserve_with insert m size =
      if ltb m.elements_capacity (mul64 size 2) then rehash insert m (mul64 size 2) else some m

  -- `set(test, element)` and the count.
  unfoldable pub stored : Map E → ℕ → E → Map E
  stored m i e = record m {
    elements = set m.elements i (cb.write (some e));
    elements_count = add64 m.elements_count 1;
  }

  -- `map_insert` behind its call of `map_reserve`; the list holds what is released.
  unfoldable pub put : Map E → E → Bool → Option (Map E × List E)
  unfolding at stored
  put m e release = do
    i ← at m e
    test ← get_elem? m.elements i
    if cb.equal test none then some (stored m i e, []) else some (m, if release then e ∷ [] else [])

  -- `map_insert` and `map_rehash` call each other: the number bounds the depth of the calls.
  unfoldable pub insert_at : ℕ → Map E → E → Bool → Option (Map E × List E)
  unfolding reserve_with put
  insert_at zero m e release = none
  insert_at (suc depth) m e release = do
    grown ←
        reserve_with (λ n x. do (done, _) ← insert_at depth n x false; some done) m
          (add64 m.elements_count 1)
    put grown e release

  abbrev pub insert_copied : Map E → E → Option (Map E)
  insert_copied n x = do (done, _) ← insert_at 1 n x false; some done

  unfoldable pub insert : Map E → E → Bool → Option (Map E × List E)
  unfolding insert_at
  insert = insert_at 2

  unfoldable pub reserve : Map E → ℕ → Option (Map E)
  unfolding insert_at reserve_with
  reserve = reserve_with insert_copied

  unfoldable pub construct : Map E
  unfolding fresh roundup
  construct = fresh (roundup capacity_min)

  -- The search of `map_erase`: `some none` where it returns, `some (some i)` where it breaks.
  unfoldable pub find_from : ℕ → Map E → E → ℕ → Option (Option ℕ)
  find_from zero m e i = none
  find_from (suc fuel) m e i =
      let j = bit_and i (sub64 m.elements_capacity 1) in
      let rest = find_from fuel m e (add64 j 1) in
      elim (get_elem? m.elements j) [
        | none ↦ none
        | some test ↦
            if cb.equal test none
            then some none
            else if cb.equal test (some e)
            then some (some j)
            else rest
      ]

  -- The second loop of `map_erase`: the hole `i` moves as elements are written into it.
  unfoldable pub shift_from : ℕ → ℕ → List E → ℕ → ℕ → Option (List E × ℕ)
  unfolding moves
  shift_from zero capacity es i j = none
  shift_from (suc fuel) capacity es i j =
      let j' = bit_and (add64 j 1) (sub64 capacity 1) in
      elim (get_elem? es j') [
        | none ↦ none
        | some x ↦
            let k = bit_and (cb.hash x) (sub64 capacity 1) in
            let moved = shift_from fuel capacity (set es i (cb.write (some x))) j' j' in
            let kept = shift_from fuel capacity es i j' in
            if cb.equal x none then some (es, i) else if moves i j' k then moved else kept
      ]

  unfoldable pub removed : Map E → List E → ℕ → Map E
  removed m es hole = record m {
    elements = set es hole (cb.write none);
    elements_count = sub64 m.elements_count 1;
  }

  unfoldable pub erase : Map E → E → Bool → Option (Map E × List E)
  unfolding find_from shift_from removed
  erase m e release = do
    found ← find_from m.elements_capacity m e (cb.hash e)
    elim found [
      | none ↦ some (m, [])
      | some i ↦ do
        test ← get_elem? m.elements i
        (es, hole) ← shift_from m.elements_capacity m.elements_capacity m.elements i i
        some (removed m es hole, if release then test ∷ [] else [])
    ]

  unfoldable pub clear : Map E → Bool → Map E × List E
  unfolding release_all construct
  clear m release = (construct, release_all m release)
