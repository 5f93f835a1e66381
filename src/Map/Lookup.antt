-- ===== src/Map/Lookup.antt =====
-- `map_at` as a lookup, the empty map, and what the release of all elements covers.
use libreactor_refactor.Prelude.{
  ◌>>=◌, ℕ, ◌^◌, ◌<◌, ◌≡◌, refl, true, false, Option, none, some, List, [], ◌∷◌, get_elem?,
  get_elem?-get_or, length, arith, inl, inr, Bool-cases, ap, sym, ◌∙◌,
}
use mathlib.Core.Bool.{false≢true}
use mathlib.Core.Path.{subst}
use libreactor_refactor.Map.Defs.{
  Callbacks, Map, at, construct, roundup, fresh, release_list, release_all,
}
use libreactor_refactor.Words.{fill_below, add64, sub64}
use libreactor_refactor.Map.Slots.{vacant, same, cell, occupied, IsKeyed, IsValid, Holds, IsAbsent}
use libreactor_refactor.Map.Probe.{at-Probed}
use libreactor_refactor.Map.Store.{vacant-IsAbsent}
use libreactor_refactor.Map.Grow.{fresh-IsValid}

module _ {E : Type 0} ⦃cb : Callbacks E⦄ where
  -- The element to which `map_at` points, or `none` where it faults.
  unfoldable pub element_at : Map E → E → Option E
  element_at m e = at m e >>= get_elem? m.elements

  element_at-run :
      (m : Map E) (e : E) {p : ℕ} {x : E}
      → at m e ≡ some p
      → get_elem? m.elements p ≡ some x
      → element_at m e ≡ some x
  unfolding element_at
  element_at-run m e found got = rw (found, ◌>>=◌) got

  module _ (keyed : IsKeyed cb) (m : Map E) (e : E) (v : IsValid m) where
    -- `map_at` finds the element that is equal to `e`.
    pub element_at-held : (x : E) → Holds m x → same x e ≡ true → element_at m e ≡ some x
    element_at-held x (q, lt, full, eq) hit =
        let c = m.elements_capacity in
        let (p, found, _, probed) = at-Probed m e v in
        let inside : p < length m.elements = omega (arith, probed.inside, v.width) in
        let got = get_elem?-get_or m.elements p (cb.write none) inside in
        let hit' : same (cell m.elements q) e ≡ true = ap (λ (y : E). same y e) eq ∙ hit in
        elim (Bool-cases (vacant (cell m.elements p))) [
          | inl empty ↦
              let absent =
                vacant-IsAbsent keyed c m.elements e p v.width v.reachable probed empty
                  (omega (arith, v.not_tiny)) in
              absurd (false≢true (sym (absent q lt full) ∙ hit'))
          | inr full' ↦
              let s : same (cell m.elements p) e ≡ true = ground (arith, probed.ends) in
              let back = keyed.same_symm (cell m.elements q) e hit' in
              let one =
                v.unique p q probed.inside (omega (arith, v.width)) full' full
                  (keyed.same_trans (cell m.elements p) e (cell m.elements q) s back) in
              element_at-run m e found (got ∙ ap (λ t. some (cell m.elements t)) one ∙ ap some eq)
        ]

    -- `map_at` points to an empty element if none is equal to `e`.
    pub element_at-absent : IsAbsent m.elements e → element_at m e ≡ some (cb.write none)
    element_at-absent absent =
        let (p, found, _, probed) = at-Probed m e v in
        let inside : p < length m.elements = omega (arith, probed.inside, v.width) in
        let got = get_elem?-get_or m.elements p (cb.write none) inside in
        elim (Bool-cases (vacant (cell m.elements p))) [
          | inl empty ↦ element_at-run m e found (got ∙ ap some (v.clean p probed.inside empty))
          | inr full ↦
              let s : same (cell m.elements p) e ≡ true = ground (arith, probed.ends) in
              absurd (false≢true (sym (absent p inside full) ∙ s))
        ]

  -- No element of the map is equal to `e`.
  pub Holds-IsAbsent :
      (m : Map E) (e : E) → ((x : E) → Holds m x → same x e ≡ false) → IsAbsent m.elements e
  Holds-IsAbsent m e h q lt full = h (cell m.elements q) (q, lt, full, refl)

  pub IsAbsent-Holds :
      (m : Map E) (e : E) → IsAbsent m.elements e → (x : E) → Holds m x → same x e ≡ false
  IsAbsent-Holds m e absent x (q, lt, full, eq) =
      subst (λ (y : E). same y e ≡ false) eq (absent q lt full)

  -- A new map is valid and empty.
  pub construct-IsValid :
      IsKeyed cb
      → IsValid {E = E} construct
        × ((x : E) → Holds {E = E} construct x → ⊥)
        × ((construct {E = E}).elements_count ≡ 0)
  unfolding construct fresh roundup fill_below add64 sub64
  construct-IsValid keyed =
      let (v, empty) = fresh-IsValid keyed 4 (omega arith) (omega arith) in
      let e : roundup 16 ≡ 2 ^ 4 = refl in
      (
        subst (λ n. IsValid {E = E} (fresh n)) (sym e) v,
        subst (λ n. (x : E) → Holds {E = E} (fresh n) x → ⊥) (sym e) empty,
        refl,
      )

  length-release_list : (es : List E) → length (release_list es) ≡ occupied es
  unfolding release_list occupied
  length-release_list [] = refl
  length-release_list (x ∷ es) = ground (arith, length-release_list es)

  -- `map_clear` and `map_destruct` release as many elements as the map counts.
  pub length-release_all : (m : Map E) → IsValid m → length (release_all m true) ≡ m.elements_count
  unfolding release_all
  length-release_all m v = length-release_list m.elements ∙ sym v.counted
