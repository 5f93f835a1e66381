-- ===== src/Map/Move.antt =====
-- One element moves into the hole, and its old position becomes the hole.
use libreactor_refactor.Prelude.{
  ℕ, ◌+◌, ◌≤◌, ◌<◌, ◌≡◌, ◌≢◌, ◌↔◌, refl, true, false, List, length-set, set, arith, ap, sym, ◌∙◌,
}
use mathlib.Core.Bool.{false≢true}
use mathlib.Core.Path.{subst, ap₂}
use native.Mathlib.Decide.{ℕ_discrete}
use libreactor_refactor.Map.Defs.{Callbacks}
use libreactor_refactor.Map.Ring.{dist, dist_self, dist_injective, dist_back}
use libreactor_refactor.Map.Slots.{
  vacant, same, cell, home, occupied, occupied-set, cell-set_self, cell-set_ne,
}
use libreactor_refactor.Map.Hole.{IsOther, IsHole}

module _ {E : Type 0} ⦃cb : Callbacks E⦄ (c : ℕ) (es : List E) (i j : ℕ) (H : IsHole c es i j)
    (t : ℕ) (tin : t < c) (away : t ≢ i) (full : vacant (cell es t) ≡ false) (x : E)
    (taken : cell es t ≡ x) where
  filled : cell (set es i x) i ≡ x
  filled = cell-set_self es i x (omega (arith, H.hole_in, H.width))

  untouched : (q : ℕ) → q ≢ i → cell (set es i x) q ≡ cell es q
  untouched q n = cell-set_ne es i q x (omega (arith, H.hole_in, H.width)) (λ e. n (sym e))

  solid_at : (p : ℕ) → (p ≢ i → vacant (cell es p) ≡ false) → vacant (cell (set es i x) p) ≡ false
  solid_at p f = elim (ℕ_discrete p i) [
    | yes e ↦
        subst (λ (y : E). vacant y ≡ false) (taken ∙ sym filled ∙ ap (cell (set es i x)) (sym e))
          full
    | no n' ↦ subst (λ (y : E). vacant y ≡ false) (sym (untouched p n')) (f n')
  ]

  pub occupied_moved : occupied (set es i x) ≡ occupied es
  occupied_moved =
      let solid : vacant x ≡ false = subst (λ (y : E). vacant y ≡ false) taken full in
      let e = occupied-set es i x (omega (arith, H.hole_in, H.width)) in ground (arith, H.solid)

  pub IsHole-move :
      dist c i t ≤ dist c (home c (cell es t)) t
      → home c (cell es t) < c
      → IsHole c (set es i x) t t
  IsHole-move crosses kin = record {
    width = length-set es i x ∙ H.width;
    hole_in = tin;
    scan_in = tin;
    solid = solid_at t (λ _. full);
    reach = reach;
    cross = λ p pin ne fp _.
        let n : dist c t p ≢ 0 =
          λ e. ne (dist_injective c t p t tin pin tin (e ∙ sym (dist_self c t))) in
        omega (arith, dist_self c t);
    between = λ q qin pos le. absurd (omega (arith, dist_self c t));
    unique = unique;
    clean = λ p pin free. elim (ℕ_discrete p i) [
      | yes e ↦ absurd (false≢true (sym (solid_at p (λ n. absurd (n e))) ∙ free))
      | no n ↦
          untouched p n ∙ H.clean p pin (subst (λ (y : E). vacant y ≡ true) (untouched p n) free)
    ];
  }
    where
      back : dist c (home c (cell es t)) i + dist c i t ≡ dist c (home c (cell es t)) t
      back = dist_back c (home c (cell es t)) i t kin H.hole_in tin crosses

      -- The way of an element is in the old array no shorter, and passes the same positions.
      way :
          (p q : ℕ)
          → p < c
          → p ≢ t
          → vacant (cell (set es i x) p) ≡ false
          → q < c
          → q ≢ i
          → dist c (home c (cell (set es i x) p)) q < dist c (home c (cell (set es i x) p)) p
          → vacant (cell es q) ≡ false
      way p q pin n fp qin n' closer = elim (ℕ_discrete p i) [
        | yes e ↦
            let same_cell : cell (set es i x) p ≡ cell es t =
              ap (cell (set es i x)) e ∙ filled ∙ sym taken in
            let closer' : dist c (home c (cell es t)) q < dist c (home c (cell es t)) i =
              subst (λ (s : ℕ). dist c (home c (cell es t)) q < dist c (home c (cell es t)) s) e
                (subst (λ (y : E). dist c (home c y) q < dist c (home c y) p) same_cell closer) in
            H.reach t q tin qin away full n' (omega (arith, back))
        | no n'' ↦
            let same_cell = untouched p n'' in
            H.reach p q pin qin n'' (subst (λ (y : E). vacant y ≡ false) same_cell fp) n'
              (subst (λ (y : E). dist c (home c y) q < dist c (home c y) p) same_cell closer)
      ]

      reach :
          (p q : ℕ)
          → p < c
          → q < c
          → p ≢ t
          → vacant (cell (set es i x) p) ≡ false
          → q ≢ t
          → dist c (home c (cell (set es i x) p)) q < dist c (home c (cell (set es i x) p)) p
          → vacant (cell (set es i x) q) ≡ false
      reach p q pin qin n fp m closer = solid_at q (λ n'. way p q pin n fp qin n' closer)

      unique :
          (p q : ℕ)
          → p < c
          → q < c
          → p ≢ t
          → q ≢ t
          → vacant (cell (set es i x) p) ≡ false
          → vacant (cell (set es i x) q) ≡ false
          → same (cell (set es i x) p) (cell (set es i x) q) ≡ true
          → p ≡ q
      unique p q pin qin n m fp fq s = elim (ℕ_discrete p i) [
        | yes e ↦ elim (ℕ_discrete q i) [
          | yes e' ↦ e ∙ sym e'
          | no m' ↦
              let here : cell (set es i x) p ≡ cell es t =
                ap (cell (set es i x)) e ∙ filled ∙ sym taken in
              absurd (
                m (
                  sym (
                    H.unique t q tin qin away m' full
                      (subst (λ (y : E). vacant y ≡ false) (untouched q m') fq)
                      (ap₂ same (sym here) (sym (untouched q m')) ∙ s))))
        ]
        | no n' ↦ elim (ℕ_discrete q i) [
          | yes e' ↦
              let here : cell (set es i x) q ≡ cell es t =
                ap (cell (set es i x)) e' ∙ filled ∙ sym taken in
              absurd (
                n (
                  H.unique p t pin tin n' away
                    (subst (λ (y : E). vacant y ≡ false) (untouched p n') fp) full
                    (ap₂ same (sym (untouched p n')) (sym here) ∙ s)))
          | no m' ↦
              H.unique p q pin qin n' m' (subst (λ (y : E). vacant y ≡ false) (untouched p n') fp)
                (subst (λ (y : E). vacant y ≡ false) (untouched q m') fq)
                (ap₂ same (sym (untouched p n')) (sym (untouched q m')) ∙ s)
        ]
      ]

  -- The elements outside the hole stay the same.
  pub IsOther-move : (y : E) → IsOther c (set es i x) t y ↔ IsOther c es i y
  IsOther-move y = (to, from)
    where
      to : IsOther c (set es i x) t y → IsOther c es i y
      to (p, pin, n, fp, eq) = elim (ℕ_discrete p i) [
        | yes e ↦ (t, tin, away, full, taken ∙ sym filled ∙ ap (cell (set es i x)) (sym e) ∙ eq)
        | no n' ↦ (
          p,
          pin,
          n',
          subst (λ (z : E). vacant z ≡ false) (untouched p n') fp,
          sym (untouched p n') ∙ eq,
        )
      ]

      from : IsOther c es i y → IsOther c (set es i x) t y
      from (p, pin, n', fp, eq) = elim (ℕ_discrete p t) [
        | yes e ↦ (
          i,
          H.hole_in,
          (λ h. away (sym h)),
          solid_at i (λ n. absurd (n refl)),
          filled ∙ sym taken ∙ ap (cell es) (sym e) ∙ eq,
        )
        | no n ↦ (
          p,
          pin,
          n,
          subst (λ (z : E). vacant z ≡ false) (sym (untouched p n')) fp,
          untouched p n' ∙ eq,
        )
      ]
