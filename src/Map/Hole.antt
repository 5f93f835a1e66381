-- ===== src/Map/Hole.antt =====
-- The second loop of `map_erase`: the invariant of the hole at `i` with the scan at `j`.
use libreactor_refactor.Prelude.{
  ℕ, ◌+◌, ◌≤◌, ◌<◌, ◌≡◌, ◌≢◌, true, false, List, length, arith, ap, sym, ◌∙◌, leb,
}
use mathlib.Core.Bool.{false≢true}
use mathlib.Core.Path.{subst}
use native.Mathlib.Decide.{dec_lt, ℕ_discrete}
use libreactor_refactor.Map.Defs.{Callbacks}
use libreactor_refactor.Map.Ring.{
  dist, next, next-lt, dist-lt, dist_self, dist_injective, dist-next, next_last, dist_split,
}
use libreactor_refactor.Map.Slots.{vacant, same, cell, IsClean, home}

module _ {E : Type 0} ⦃cb : Callbacks E⦄ (c : ℕ) where
  -- `x` stands at a position other than `i`.
  abbrev pub IsOther : List E → ℕ → E → Type 0
  IsOther es i x = (p : ℕ) × (p < c) × (p ≢ i) × (vacant (cell es p) ≡ false) × (cell es p ≡ x)

  pub record IsHole (es : List E) (i j : ℕ) : Type 0 where
    pub width : length es ≡ c
    pub hole_in : i < c
    pub scan_in : j < c
    pub solid : vacant (cell es i) ≡ false
    pub reach :
        (p q : ℕ)
        → p < c
        → q < c
        → p ≢ i
        → vacant (cell es p) ≡ false
        → q ≢ i
        → dist c (home c (cell es p)) q < dist c (home c (cell es p)) p
        → vacant (cell es q) ≡ false
    -- An element whose way passes the hole has not been scanned yet.
    pub cross :
        (p : ℕ)
        → p < c
        → p ≢ i
        → vacant (cell es p) ≡ false
        → dist c (home c (cell es p)) i < dist c (home c (cell es p)) p
        → dist c i j < dist c i p
    pub between :
        (q : ℕ) → q < c → 0 < dist c i q → dist c i q ≤ dist c i j → vacant (cell es q) ≡ false
    pub unique :
        (p q : ℕ)
        → p < c
        → q < c
        → p ≢ i
        → q ≢ i
        → vacant (cell es p) ≡ false
        → vacant (cell es q) ≡ false
        → same (cell es p) (cell es q) ≡ true
        → p ≡ q
    pub clean : IsClean c es

  module _ (es : List E) (i j z : ℕ) (H : IsHole es i j) where
    next_in : next c j < c
    next_in = next-lt c j H.scan_in

    -- The scan stops before it comes back to the hole.
    pub next-ne_hole : z < c → vacant (cell es z) ≡ true → next c j ≢ i
    next-ne_hole zin empty back =
        let ne : z ≢ i =
          λ e. false≢true (sym H.solid ∙ ap (λ t. vacant (cell es t)) (sym e) ∙ empty) in
        let pos : dist c i z ≢ 0 =
          λ e. ne (dist_injective c i z i H.hole_in zin H.hole_in (e ∙ sym (dist_self c i))) in
        let last : dist c i j + 1 ≡ c = elim (ℕ_discrete (dist c i j + 1) c) [
          | yes e ↦ e
          | no n ↦
              let short = dist-lt c i j H.hole_in H.scan_in in
              let one = dist-next c i j H.hole_in H.scan_in (omega arith) in
              let home_again : dist c i (next c j) ≡ 0 = ap (dist c i) back ∙ dist_self c i in
              absurd (omega arith)
        ] in
        let far = dist-lt c i z H.hole_in zin in
        false≢true (sym (H.between z zin (omega arith) (omega arith)) ∙ empty)

    module _ (away : next c j ≢ i) where
      pub dist-next_hole : dist c i (next c j) ≡ dist c i j + 1
      dist-next_hole = elim (ℕ_discrete (dist c i j + 1) c) [
        | yes e ↦ absurd (away (next_last c i j H.hole_in H.scan_in e))
        | no n ↦
            let short = dist-lt c i j H.hole_in H.scan_in in
            dist-next c i j H.hole_in H.scan_in (omega arith)
      ]

      -- An element on whose way the hole does not lie stays.
      pub IsHole-keep :
          vacant (cell es (next c j)) ≡ false
          → leb (dist c i (next c j)) (dist c (home c (cell es (next c j))) (next c j)) ≡ false
          → home c (cell es (next c j)) < c
          → IsHole es i (next c j)
      IsHole-keep full stays kin = record {
        width = H.width;
        hole_in = H.hole_in;
        scan_in = next_in;
        solid = H.solid;
        reach = H.reach;
        cross = λ p pin ne fp crosses. beyond p pin ne fp crosses;
        between = λ q qin pos le. near q qin pos le;
        unique = H.unique;
        clean = H.clean;
      }
        where
          one : dist c i (next c j) ≡ dist c i j + 1
          one = dist-next_hole

          near :
              (q : ℕ)
              → q < c
              → 0 < dist c i q
              → dist c i q ≤ dist c i (next c j)
              → vacant (cell es q) ≡ false
          near q qin pos le = elim (dec_lt (dist c i j) (dist c i q)) [
            | no n ↦ H.between q qin pos (omega arith)
            | yes p ↦
                let e : q ≡ next c j =
                  dist_injective c i q (next c j) H.hole_in qin next_in (omega (arith, one)) in
                subst (λ t. vacant (cell es t) ≡ false) (sym e) full
          ]

          beyond :
              (p : ℕ)
              → p < c
              → p ≢ i
              → vacant (cell es p) ≡ false
              → dist c (home c (cell es p)) i < dist c (home c (cell es p)) p
              → dist c i (next c j) < dist c i p
          beyond p pin ne fp crosses = elim (ℕ_discrete (dist c i (next c j)) (dist c i p)) [
            | no n ↦ omega (arith, one, H.cross p pin ne fp crosses)
            | yes eq ↦
                let e : next c j ≡ p = dist_injective c i (next c j) p H.hole_in next_in pin eq in
                let k = home c (cell es (next c j)) in
                let crosses' : dist c k i < dist c k (next c j) =
                  subst (λ t. dist c (home c (cell es t)) i < dist c (home c (cell es t)) t) (sym e)
                    crosses in
                let split = dist_split c k i (next c j) kin H.hole_in next_in (omega arith) in
                absurd (ground arith)
          ]
