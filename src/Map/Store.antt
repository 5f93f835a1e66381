-- ===== src/Map/Store.antt =====
-- `map_insert` behind its call of `map_reserve`: the element goes to the vacant position where
-- the probe for it ends, unless an equal one stands there.
use libreactor_refactor.Prelude.{
  ℕ, ◌+◌, ◌*◌, ◌%◌, ◌^◌, ◌≤◌, ◌<◌, ◌≡◌, ◌≢◌, ◌↔◌, ◌⊎◌, refl, Bool, true, false, none, some, List,
  [], ◌∷◌, get_elem?-get_or, length-set, set, length, if◌then◌else◌, arith, inl, inr, Bool-cases,
  ap, sym, ◌∙◌,
}
use mathlib.Core.Bool.{false≢true}
use mathlib.Core.Path.{subst, ap₂}
use native.Mathlib.Nat.{mod-lt}
use native.Mathlib.Decide.{dec_lt, ℕ_discrete}
use libreactor_refactor.Words.{add64, add64-eq}
use libreactor_refactor.Map.Defs.{Callbacks, Map, stored, put}
use libreactor_refactor.Map.Ring.{dist, dist_injective}
use libreactor_refactor.Map.Slots.{
  vacant, same, cell, home, IsKeyed, IsValid, IsReachable, IsUnique, IsClean, IsElement, IsAbsent,
  Inserts, added, kept, occupied-set, cell-set_self, cell-set_ne,
}
use libreactor_refactor.Map.Probe.{Probed, at-Probed}

module _ {E : Type 0} ⦃cb : Callbacks E⦄ (keyed : IsKeyed cb) where
  module _ (c : ℕ) (es : List E) (e : E) (p : ℕ) (width : length es ≡ c)
      (reachable : IsReachable c es) (probed : Probed c es e (home c e) p)
      (v : vacant (cell es p) ≡ true) where
    pub vacant-IsAbsent : 0 < c → IsAbsent es e
    vacant-IsAbsent pos q lt full = elim (Bool-cases (same (cell es q) e)) [
      | inr n ↦ n
      | inl s ↦
          let h : home c (cell es q) ≡ home c e =
            ap (λ t. t % c) (keyed.hash-same (cell es q) e s) in
          elim (dec_lt (dist c (home c e) q) (dist c (home c e) p)) [
            | yes before ↦ (probed.before q (omega arith) before).1
            | no n ↦ elim (dec_lt (dist c (home c e) p) (dist c (home c e) q)) [
              | yes after ↦
                  let f : vacant (cell es p) ≡ false =
                    reachable q p (omega arith) probed.inside full (rw h after) in
                  cc
              | no n' ↦
                  let eq : q ≡ p =
                    dist_injective c (home c e) q p (mod-lt (cb.hash e) pos) (omega arith)
                      probed.inside (omega arith) in
                  let f : vacant (cell es p) ≡ false =
                    subst (λ t. vacant (cell es t) ≡ false) eq full in
                  cc
            ]
          ]
    ]

    inside : p < length es
    inside = omega (arith, probed.inside)

    stored_here : cell (set es p e) p ≡ e
    stored_here = cell-set_self es p e inside

    stored_elsewhere : (q : ℕ) → p ≢ q → cell (set es p e) q ≡ cell es q
    stored_elsewhere q n = cell-set_ne es p q e inside n

    pub set-IsReachable : vacant e ≡ false → IsReachable c (set es p e)
    set-IsReachable solid q r qin rin full closer = elim (ℕ_discrete p r) [
      | yes eq ↦
          let at_r : cell (set es p e) r ≡ e = ap (cell (set es p e)) (sym eq) ∙ stored_here in
          subst (λ (x : E). vacant x ≡ false) (sym at_r) solid
      | no n ↦ elim (ℕ_discrete p q) [
        | yes eq ↦
            let at_q : cell (set es p e) q ≡ e = ap (cell (set es p e)) (sym eq) ∙ stored_here in
            let closer' =
              subst (λ (x : E). dist c (home c x) r < dist c (home c x) q) at_q closer in
            subst (λ (x : E). vacant x ≡ false) (sym (stored_elsewhere r n))
              (probed.before r rin (rw eq closer')).0
        | no n' ↦
            let at_q = stored_elsewhere q n' in
            let closer' =
              subst (λ (x : E). dist c (home c x) r < dist c (home c x) q) at_q closer in
            let full' = subst (λ (x : E). vacant x ≡ false) at_q full in
            subst (λ (x : E). vacant x ≡ false) (sym (stored_elsewhere r n))
              (reachable q r qin rin full' closer')
      ]
    ]

    pub set-IsUnique : 0 < c → IsUnique c es → IsUnique c (set es p e)
    set-IsUnique pos unique q r qin rin fq fr s = elim (ℕ_discrete p q) [
      | yes eq ↦ elim (ℕ_discrete p r) [
        | yes eq' ↦ sym eq ∙ eq'
        | no n' ↦
            let old = stored_elsewhere r n' in
            let here = ap (cell (set es p e)) (sym eq) ∙ stored_here in
            let s' : same e (cell es r) ≡ true = ap₂ same (sym here) (sym old) ∙ s in
            let a =
              vacant-IsAbsent pos r (omega arith) (subst (λ (x : E). vacant x ≡ false) old fr) in
            let b = keyed.same_symm e (cell es r) s' in cc
      ]
      | no n ↦ elim (ℕ_discrete p r) [
        | yes eq' ↦
            let old = stored_elsewhere q n in
            let here = ap (cell (set es p e)) (sym eq') ∙ stored_here in
            let s' : same (cell es q) e ≡ true = ap₂ same (sym old) (sym here) ∙ s in
            let a =
              vacant-IsAbsent pos q (omega arith) (subst (λ (x : E). vacant x ≡ false) old fq) in
            cc
        | no n' ↦
            unique q r qin rin (subst (λ (x : E). vacant x ≡ false) (stored_elsewhere q n) fq)
              (subst (λ (x : E). vacant x ≡ false) (stored_elsewhere r n') fr)
              (ap₂ same (sym (stored_elsewhere q n)) (sym (stored_elsewhere r n')) ∙ s)
      ]
    ]

    pub set-IsClean : vacant e ≡ false → IsClean c es → IsClean c (set es p e)
    set-IsClean solid clean q qin free = elim (ℕ_discrete p q) [
      | yes eq ↦ absurd (
          false≢true (
            sym solid
            ∙ ap (λ (x : E). vacant x) (sym stored_here ∙ ap (cell (set es p e)) eq)
            ∙ free))
      | no n ↦
          let old = stored_elsewhere q n in
          old ∙ clean q qin (subst (λ (x : E). vacant x ≡ true) old free)
    ]

    -- The elements afterwards.
    pub set-IsElement :
        vacant e ≡ false → (x : E) → IsElement (set es p e) x ↔ (IsElement es x ⊎ (e ≡ x))
    set-IsElement solid x = (to, from)
      where
        to : IsElement (set es p e) x → IsElement es x ⊎ (e ≡ x)
        to (q, lt, full, eq) = elim (ℕ_discrete p q) [
          | yes here ↦ inr (sym stored_here ∙ ap (cell (set es p e)) here ∙ eq)
          | no n ↦
              let old = stored_elsewhere q n in
              inl (
                q,
                omega (arith, length-set es p e),
                subst (λ (y : E). vacant y ≡ false) old full,
                sym old ∙ eq,
              )
        ]

        from : IsElement es x ⊎ (e ≡ x) → IsElement (set es p e) x
        from (inl (q, lt, full, eq)) =
            let n : p ≢ q = λ here.
              let f : vacant (cell es p) ≡ false =
                subst (λ t. vacant (cell es t) ≡ false) (sym here) full in
              false≢true (sym f ∙ v) in
            let old = stored_elsewhere q n in
            (
              q,
              omega (arith, length-set es p e),
              subst (λ (y : E). vacant y ≡ false) (sym old) full,
              old ∙ eq,
            )
        from (inr eq) = (
          p,
          omega (arith, probed.inside, length-set es p e),
          subst (λ (y : E). vacant y ≡ false) (sym stored_here) solid,
          stored_here ∙ eq,
        )

  pub put-Inserts :
      (m : Map E) (e : E) (release : Bool)
      → IsValid m
      → vacant e ≡ false
      → 2 * (m.elements_count + 1) ≤ m.elements_capacity
      → m.elements_count + 1 < 2 ^ 64
      → (r : Map E × List E) × (put m e release ≡ some r)
        × IsValid r.0
        × (r.0.elements_capacity ≡ m.elements_capacity)
        × Inserts m e release r
  unfolding put stored
  put-Inserts m e release v solid room small =
      let (p, found, _, probed) = at-Probed m e v in
      let got =
        get_elem?-get_or m.elements p (cb.write none) (omega (arith, probed.inside, v.width)) in
      let pos : 0 < m.elements_capacity = omega (arith, v.not_tiny) in
      elim (Bool-cases (vacant (cell m.elements p))) [
        | inl empty ↦
            let one : add64 m.elements_count 1 ≡ m.elements_count + 1 =
              add64-eq m.elements_count 1 (omega arith) in
            let more = occupied-set m.elements p e (omega (arith, probed.inside, v.width)) in
            (
              (
                record m {
                  elements = set m.elements p e;
                  elements_count = add64 m.elements_count 1;
                },
                [],
              ),
              ground (arith, keyed.write_some e),
              record {
                log = v.log;
                log_small = v.log_small;
                capacity = v.capacity;
                width = length-set m.elements p e ∙ v.width;
                counted = ground (arith, v.counted);
                roomy = omega arith;
                not_tiny = v.not_tiny;
                reachable =
                    set-IsReachable m.elements_capacity m.elements e p v.width v.reachable probed
                      empty solid;
                unique =
                    set-IsUnique m.elements_capacity m.elements e p v.width v.reachable probed empty
                      pos v.unique;
                clean =
                    set-IsClean m.elements_capacity m.elements e p v.width v.reachable probed empty
                      solid v.clean;
              },
              refl,
              added
                  (vacant-IsAbsent m.elements_capacity m.elements e p v.width v.reachable probed
                    empty pos)
                  (set-IsElement m.elements_capacity m.elements e p v.width v.reachable probed empty
                    solid)
                  one,
            )
        | inr full ↦ (
          (m, if release then e ∷ [] else []),
          ground arith,
          v,
          refl,
          kept (cell m.elements p) (p, omega (arith, probed.inside, v.width), full, refl)
              (ground (arith, probed.ends)) (λ x. (λ h. h, λ h. h)) refl refl,
        )
      ]
