-- ===== src/Map/Table.antt =====
-- What the functions of src/reactor/map.c do to a table of keys and values.
use libreactor_refactor.Prelude.{
  ◌>>=◌, ℕ, ◌*◌, ◌^◌, ◌≤◌, ◌<◌, ◌≡◌, ◌≢◌, ◌⊎◌, refl, Bool, true, false, Option, none, some, List,
  get_elem?, if◌then◌else◌, arith, inl, inr, Bool-cases, Option-cases, ap, sym, ◌∙◌,
}
use mathlib.Core.Bool.{false≢true}
use mathlib.Core.Path.{subst}
use libreactor_refactor.Map.Defs.{Callbacks, Map, at, construct, reserve, insert, erase}
use libreactor_refactor.Map.Slots.{same, IsValid, Holds, IsAbsent, Inserts, added, kept}
use libreactor_refactor.Map.Lookup.{
  element_at, element_at-held, element_at-absent, Holds-IsAbsent, IsAbsent-Holds, construct-IsValid,
}
use libreactor_refactor.Map.Grow.{reserve-Reserved, insert-Inserts}
use libreactor_refactor.Map.Erase.{Erases, missing, dropped, erase-Erases}
use libreactor_refactor.Map.View.{
  Keys, view, eq_miss, same_key, key_of_same, entry-solid, entry_of_key, view-Holds,
  view-eq_of_Holds,
}

abbrev pub value_or_zero : Option ℕ → ℕ
value_or_zero none = 0
value_or_zero (some v) = v

module _ {E K : Type 0} ⦃cb : Callbacks E⦄ (t : Keys cb K) where
  -- The value of the element to which `map_at` points.
  abbrev pub value_at : Map E → E → Option ℕ
  value_at m e = do i ← at m e; x ← get_elem? m.elements i; some (t.value x)

  bind_value :
      (o : Option ℕ) (f : ℕ → Option E) (x : E)
      → (o >>= f) ≡ some x
      → (o >>= λ i. f i >>= λ (y : E). some (t.value y)) ≡ some (t.value x)
  bind_value none f x h = absurd (cc)
  bind_value (some i) f x h = ap (λ r. r >>= λ (y : E). some (t.value y)) h

  value_at-element_at :
      (m : Map E) (e x : E) → element_at m e ≡ some x → value_at m e ≡ some (t.value x)
  unfolding element_at
  value_at-element_at m e x h = bind_value (at m e) (get_elem? m.elements) x h

  -- The view after an insertion of the value `v` under `k`: the first value of a key stays.
  abbrev pub insert_view : Map E → K → ℕ → K → Option ℕ
  insert_view m k v j =
      if t.eq k j then some (elim (view t m k) [ none ↦ v | some old ↦ old ]) else view t m j

  module _ {m : Map E} (valid : IsValid m) (k : K) (is_key : k ≢ t.no_key) where
    view-none-IsAbsent : view t m k ≡ none → (w : ℕ) → IsAbsent m.elements (t.entry k w)
    view-none-IsAbsent e w = Holds-IsAbsent m (t.entry k w) (λ x held.
        elim (Bool-cases (same x (t.entry k w))) [
          | inr n ↦ n
          | inl s ↦
              let there : view t m k ≡ some (t.value x) =
                (view-Holds t k is_key m valid (t.value x)).1 (
                  subst (λ (y : E). Holds m y) (entry_of_key t x k (key_of_same t x k w s)) held) in
              absurd (cc)
        ])

    view-none_of-IsAbsent : (w : ℕ) → IsAbsent m.elements (t.entry k w) → view t m k ≡ none
    view-none_of-IsAbsent w absent = elim (Option-cases (view t m k)) [
      | inl e ↦ e
      | inr (v, e) ↦
          let held = (view-Holds t k is_key m valid v).0 e in
          let miss = IsAbsent-Holds m (t.entry k w) absent (t.entry k v) held in
          absurd (false≢true (sym miss ∙ same_key t (t.entry k v) k w (t.key-entry k v)))
    ]

    -- A lookup gives the value of the key, 0 if there is none.
    pub value_at-view : value_at m (t.entry k 0) ≡ some (value_or_zero (view t m k))
    value_at-view = elim (Option-cases (view t m k)) [
      | inr (v, e) ↦
          let held = (view-Holds t k is_key m valid v).0 e in
          value_at-element_at m (t.entry k 0) (t.entry k v) (
            element_at-held t.keyed m (t.entry k 0) valid (t.entry k v) held
              (same_key t (t.entry k v) k 0 (t.key-entry k v)))
          ∙ ap some (t.value-entry k v)
          ∙ ap (λ o. some (value_or_zero o)) (sym e)
      | inl e ↦
          value_at-element_at m (t.entry k 0) (cb.write none)
            (element_at-absent t.keyed m (t.entry k 0) valid (view-none-IsAbsent e 0))
          ∙ ap some t.value_none
          ∙ ap (λ o. some (value_or_zero o)) (sym e)
    ]

    insert_view_self :
        (v w : ℕ) (j : K)
        → t.eq k j ≡ true
        → (view t m k ≡ none) × (w ≡ v) ⊎ (view t m k ≡ some w)
        → some w ≡ insert_view m k v j
    insert_view_self v w j e (inl (old, new)) = ground arith
    insert_view_self v w j e (inr old) = ground arith

    Inserts-view :
        (v : ℕ) (release : Bool) {r : Map E × List E}
        → Inserts m (t.entry k v) release r
        → IsValid r.0
        → (j : K) → j ≢ t.no_key
        → view t r.0 j ≡ insert_view m k v j
    Inserts-view v release (added {m' = n} absent h c) valid' j j_key =
        elim (Bool-cases (t.eq k j)) [
          | inl e ↦
              let there = (view-Holds t k is_key n valid' v).1 ((h (t.entry k v)).1 (inr refl)) in
              ap (view t n) (sym ((t.eq_correct k j).0 e))
              ∙ there
              ∙ insert_view_self v v j e (inl (view-none_of-IsAbsent v absent, refl))
          | inr miss ↦
              let same_there : view t n j ≡ view t m j =
                view-eq_of_Holds t j j_key m n valid valid' λ w. (
                  λ held. elim ((h (t.entry j w)).0 held) [
                    | inl old ↦ old
                    | inr e ↦
                        absurd (
                          eq_miss t k j miss (sym (t.key-entry k v) ∙ ap t.key e ∙ t.key-entry j w))
                  ],
                  λ old. (h (t.entry j w)).1 (inl old),
                ) in
              same_there ∙ ground arith
        ]
    Inserts-view v release (kept {m' = n} y held s h c rel) valid' j j_key =
        let same_there : view t n j ≡ view t m j =
          view-eq_of_Holds t j j_key m n valid valid' (λ w. h (t.entry j w)) in
        let old : view t m k ≡ some (t.value y) =
          (view-Holds t k is_key m valid (t.value y)).1
            (subst (λ (x : E). Holds m x) (entry_of_key t y k (key_of_same t y k v s)) held) in
        elim (Bool-cases (t.eq k j)) [
          | inl e ↦
              same_there
              ∙ ap (view t m) (sym ((t.eq_correct k j).0 e))
              ∙ old
              ∙ insert_view_self v (t.value y) j e (inr old)
          | inr miss ↦ same_there ∙ ground arith
        ]

    -- An insertion gives a key that is not there the value; a key that is there keeps its own, and no
    -- other changes.
    pub insert-view :
        (v : ℕ) (release : Bool)
        → m.elements_count < 2 ^ 62
        → (r : Map E × List E) × (insert m (t.entry k v) release ≡ some r)
          × IsValid r.0
          × ((j : K) → j ≢ t.no_key → view t r.0 j ≡ insert_view m k v j)
    insert-view v release small =
        let (r, run, valid', ins) =
          insert-Inserts t.keyed m (t.entry k v) release valid (entry-solid t k v is_key) small in
        (r, run, valid', λ j j_key. Inserts-view v release ins valid' j j_key)

    Erases-view :
        (release : Bool) {r : Map E × List E}
        → Erases m (t.entry k 0) release r
        → IsValid r.0
        → (j : K) → j ≢ t.no_key
        → view t r.0 j ≡ (if t.eq k j then none else view t m j)
    Erases-view release (missing absent) valid' j j_key = elim (Bool-cases (t.eq k j)) [
      | inl e ↦
          let gone = view-none_of-IsAbsent 0 absent in
          ap (view t m) (sym ((t.eq_correct k j).0 e)) ∙ gone ∙ ground arith
      | inr miss ↦ ground arith
    ]
    Erases-view release (dropped {m' = n} y held s h c rel) valid' j j_key =
        elim (Bool-cases (t.eq k j)) [
          | inl e ↦
              let gone : view t n k ≡ none = elim (Option-cases (view t n k)) [
                | inl empty ↦ empty
                | inr (w, there) ↦
                    let left =
                      ((h (t.entry k w)).0 ((view-Holds t k is_key n valid' w).0 there)).1 in
                    absurd (false≢true (sym left ∙ same_key t (t.entry k w) k 0 (t.key-entry k w)))
              ] in
              ap (view t n) (sym ((t.eq_correct k j).0 e)) ∙ gone ∙ ground arith
          | inr miss ↦
              let same_there : view t n j ≡ view t m j =
                view-eq_of_Holds t j j_key m n valid valid' λ w. (
                  λ now. ((h (t.entry j w)).0 now).0,
                  λ old. (h (t.entry j w)).1 (old, other j w miss),
                ) in
              same_there ∙ ground arith
        ]
      where
        other : (j : K) (w : ℕ) → t.eq k j ≡ false → same (t.entry j w) (t.entry k 0) ≡ false
        other j w miss = elim (Bool-cases (same (t.entry j w) (t.entry k 0))) [
          | inr differs ↦ differs
          | inl hit ↦
              absurd
                (eq_miss t k j miss (sym (key_of_same t (t.entry j w) k 0 hit) ∙ t.key-entry j w))
        ]

    -- A removal takes the key away, and no other changes.
    pub erase-view :
        (release : Bool)
        → (r : Map E × List E) × (erase m (t.entry k 0) release ≡ some r)
          × IsValid r.0
          × ((j : K) → j ≢ t.no_key → view t r.0 j ≡ (if t.eq k j then none else view t m j))
    erase-view release =
        let (r, run, valid', e) = erase-Erases t.keyed m (t.entry k 0) release valid in
        (r, run, valid', λ j j_key. Erases-view release e valid' j j_key)

  -- A reservation makes room and keeps every value and the count.
  pub reserve-view :
      {m : Map E} (size : ℕ)
      → IsValid m
      → 2 * size ≤ 2 ^ 63
      → (r : Map E) × (reserve m size ≡ some r)
        × IsValid r
        × (2 * size ≤ r.elements_capacity)
        × (r.elements_count ≡ m.elements_count)
        × ((j : K) → j ≢ t.no_key → view t r j ≡ view t m j)
  reserve-view {m} size valid small =
      let (r, run, p) = reserve-Reserved t.keyed m size valid small in
      (
        r,
        run,
        p.valid,
        p.room,
        p.count,
        λ j j_key. view-eq_of_Holds t j j_key m r valid p.valid (λ w. p.holds (t.entry j w)),
      )

  -- A new table is valid and has no entry.
  pub construct-view :
      IsValid {E = E} construct
      × ((construct {E = E}).elements_count ≡ 0)
      × ((j : K) → j ≢ t.no_key → view t (construct {E = E}) j ≡ none)
  construct-view =
      let (v, empty, zero_count) = construct-IsValid t.keyed in
      (
        v,
        zero_count,
        λ j j_key. elim (Option-cases (view t (construct {E = E}) j)) [
          | inl n ↦ n
          | inr (w, there) ↦
              absurd (empty (t.entry j w) ((view-Holds t j j_key construct v w).0 there))
        ],
      )
