-- ===== src/Map/Erase.antt =====
-- `map_erase`: the element goes, all others stay where a probe finds them.
use libreactor_refactor.Prelude.{
  ℕ, ◌+◌, ◌-◌, ◌<◌, ◌≡◌, ◌≢◌, ◌↔◌, refl, Bool, true, false, none, some, List, [], ◌∷◌, get_elem?,
  get_elem?-get_or, length-set, if◌then◌else◌, arith, inl, inr, Bool-cases, ap, sym, ◌∙◌,
}
use mathlib.Core.Bool.{false≢true}
use mathlib.Core.Path.{subst}
use libreactor_refactor.Words.{sub64, sub64-eq}
use libreactor_refactor.Map.Defs.{Callbacks, Map, find_from, shift_from, removed, erase}
use libreactor_refactor.Map.Ring.{dist-lt, dist_self, apart}
use libreactor_refactor.Map.Slots.{
  vacant, same, cell, some_vacant, IsKeyed, IsValid, Holds, IsAbsent,
}
use libreactor_refactor.Map.Probe.{at-Probed}
use libreactor_refactor.Map.Store.{vacant-IsAbsent}
use libreactor_refactor.Map.Copy.{capacity-le}
use libreactor_refactor.Map.Hole.{IsOther, IsHole}
use libreactor_refactor.Map.Shift.{shift_from-IsShifted}
use libreactor_refactor.Map.Emptied.{
  emptied-IsReachable, emptied-IsUnique, emptied-IsClean, emptied-IsElement, emptied-occupied,
}

module _ {E : Type 0} ⦃cb : Callbacks E⦄ where
  -- What `map_erase` of `e` from `m` gives: the map afterwards and the elements released.
  pub data Erases (m : Map E) (e : E) (release : Bool) : Map E × List E → Type 0 where
    missing : IsAbsent m.elements e → Erases m e release (m, [])
    dropped :
        {m' : Map E} {r : List E} (y : E)
        → Holds m y
        → same y e ≡ true
        → ((x : E) → Holds m' x ↔ (Holds m x × (same x e ≡ false)))
        → m'.elements_count + 1 ≡ m.elements_count
        → r ≡ (if release then y ∷ [] else [])
        → Erases m e release (m', r)

  erase_missing :
      (m : Map E) (e : E) (release : Bool)
      → find_from m.elements_capacity m e (cb.hash e) ≡ some none
      → erase m e release ≡ some (m, [])
  unfolding erase
  erase_missing m e release found = rw found refl

  erase_found :
      (m : Map E) (e : E) (release : Bool) (i hole : ℕ) (x : E) (es : List E)
      → find_from m.elements_capacity m e (cb.hash e) ≡ some (some i)
      → get_elem? m.elements i ≡ some x
      → shift_from m.elements_capacity m.elements_capacity m.elements i i ≡ some (es, hole)
      → erase m e release ≡ some (removed m es hole, if release then x ∷ [] else [])
  unfolding erase
  erase_found m e release i hole x es found got shifted = rw found (rw got (rw shifted refl))

  -- With the found element as the hole, the loop can start.
  start-IsHole :
      (m : Map E) (p : ℕ)
      → IsValid m
      → p < m.elements_capacity
      → vacant (cell m.elements p) ≡ false
      → IsHole m.elements_capacity m.elements p p
  start-IsHole m p v pin full = record {
    width = v.width;
    hole_in = pin;
    scan_in = pin;
    solid = full;
    reach = λ q r qin rin _ f _ closer. v.reachable q r qin rin f closer;
    cross = λ q qin n f _. omega (
      arith,
      dist_self m.elements_capacity p,
      apart m.elements_capacity p q pin qin (λ e. n (sym e)),
    );
    between = λ q qin pos le. absurd (omega (arith, dist_self m.elements_capacity p));
    unique = λ q r qin rin _ _ fq fr s. v.unique q r qin rin fq fr s;
    clean = v.clean;
  }

  module _ (keyed : IsKeyed cb) where
    -- The other elements are those that are not equal to `e`.
    IsOther-same :
        (m : Map E) (e : E) (p : ℕ)
        → IsValid m
        → p < m.elements_capacity
        → vacant (cell m.elements p) ≡ false
        → same (cell m.elements p) e ≡ true
        → (x : E) → IsOther m.elements_capacity m.elements p x ↔ (Holds m x × (same x e ≡ false))
    IsOther-same m e p v pin full hit x = (to, from)
      where
        apart_from :
            (q : ℕ)
            → q < m.elements_capacity
            → q ≢ p
            → vacant (cell m.elements q) ≡ false
            → same (cell m.elements q) e ≡ false
        apart_from q qin n f = elim (Bool-cases (same (cell m.elements q) e)) [
          | inr no_match ↦ no_match
          | inl s ↦
              let back = keyed.same_symm (cell m.elements p) e hit in
              absurd (
                n (
                  v.unique q p qin pin f full
                    (keyed.same_trans (cell m.elements q) e (cell m.elements p) s back)))
        ]

        to : IsOther m.elements_capacity m.elements p x → Holds m x × (same x e ≡ false)
        to (q, qin, n, f, eq) = (
          (q, omega (arith, v.width), f, eq),
          subst (λ (y : E). same y e ≡ false) eq (apart_from q qin n f),
        )

        from : Holds m x × (same x e ≡ false) → IsOther m.elements_capacity m.elements p x
        from ((q, lt, f, eq), miss) = (
          q,
          omega (arith, v.width),
          λ e'.
              false≢true
                (sym miss ∙ ap (λ (y : E). same y e) (sym eq ∙ ap (cell m.elements) e') ∙ hit),
          f,
          eq,
        )

    -- `map_erase` on a valid map returns a valid map that holds just the elements that are not
    -- equal to the argument.
    pub erase-Erases :
        (m : Map E) (e : E) (release : Bool)
        → IsValid m
        → (r : Map E × List E) × (erase m e release ≡ some r) × IsValid r.0 × Erases m e release r
    unfolding removed
    erase-Erases m e release v =
        let c = m.elements_capacity in
        let (p, _, found, probed) = at-Probed m e v in
        let pin = probed.inside in
        let got = get_elem?-get_or m.elements p (cb.write none) (omega (arith, pin, v.width)) in
        elim (Bool-cases (vacant (cell m.elements p))) [
          | inl empty ↦ (
            (m, []),
            erase_missing m e release (found ∙ ap (λ t. some (if t then none else some p)) empty),
            v,
            missing (
                vacant-IsAbsent keyed c m.elements e p v.width v.reachable probed empty
                  (omega (arith, v.not_tiny))),
          )
          | inr full ↦
              let hit : same (cell m.elements p) e ≡ true = ground (arith, probed.ends) in
              let (z, zlt, empty) =
                some_vacant m.elements (omega (arith, v.counted, v.roomy, v.width, v.not_tiny)) in
              let zin : z < c = omega (arith, v.width) in
              let off : p ≢ z =
                λ eq. false≢true (sym full ∙ ap (λ q. vacant (cell m.elements q)) eq ∙ empty) in
              let start = start-IsHole m p v pin full in
              let ((es, hole), run, s) =
                shift_from-IsShifted keyed c v.log v.capacity v.log_small z zin c m.elements p p
                  start empty (apart c p z pin zin off) (omega (arith, dist-lt c p z pin zin)) in
              let count' = emptied-occupied keyed c m.elements p es hole s in
              let less : sub64 m.elements_count 1 ≡ m.elements_count - 1 =
                sub64-eq m.elements_count 1 (omega (arith, v.counted))
                  (omega (arith, v.roomy, capacity-le v)) in
              (
                (removed m es hole, if release then cell m.elements p ∷ [] else []),
                erase_found m e release p hole (cell m.elements p) es
                    (found ∙ ap (λ t. some (if t then none else some p)) full) got run,
                record {
                  log = v.log;
                  log_small = v.log_small;
                  capacity = v.capacity;
                  width = length-set es hole (cb.write none) ∙ s.hole.width;
                  counted = omega (arith, v.counted);
                  roomy = omega (arith, v.roomy);
                  not_tiny = v.not_tiny;
                  reachable =
                      emptied-IsReachable keyed c m.elements p es hole s
                        (omega (arith, v.not_tiny));
                  unique = emptied-IsUnique keyed c m.elements p es hole s;
                  clean = emptied-IsClean keyed c m.elements p es hole s;
                },
                dropped (cell m.elements p) (p, omega (arith, pin, v.width), full, refl) hit
                    (λ x.
                      let a = emptied-IsElement keyed c m.elements p es hole s x in
                      let b = IsOther-same m e p v pin full hit x in
                      (λ h. b.0 (a.0 h), λ h. a.1 (b.1 h)))
                    (omega (arith, v.counted)) refl,
              )
        ]
