-- ===== src/Map/Shift.antt =====
-- The second loop of `map_erase` stops, and leaves a hole that no element needs to pass.
use libreactor_refactor.Prelude.{
  ℕ, zero, suc, ◌^◌, ◌≤◌, ◌<◌, ◌≡◌, ◌≢◌, ◌↔◌, refl, Bool, true, false, none, some, List, get_elem?,
  get_elem?-get_or, set, if◌then◌else◌, arith, inl, inr, Bool-cases, ap, sym, ◌∙◌, leb, bit_and,
}
use mathlib.Core.Bool.{false≢true}
use native.Mathlib.Nat.{mod-lt}
use libreactor_refactor.Words.{add64, sub64}
use libreactor_refactor.Map.Defs.{Callbacks, moves, shift_from}
use libreactor_refactor.Map.Ring.{
  dist, next, next-lt, moves-dist, capacity_pos, capacity_mask, capacity_next, apart,
  dist-next_source,
}
use libreactor_refactor.Map.Slots.{vacant, cell, home, occupied, IsKeyed, cell-set_ne}
use libreactor_refactor.Map.Hole.{IsOther, IsHole, next-ne_hole, IsHole-keep}
use libreactor_refactor.Map.Move.{occupied_moved, IsHole-move, IsOther-move}

if_stop {ℓ} :
    {A : Type ℓ} (p q : Bool) (a b d : A) → p ≡ true → (if p then a else if q then b else d) ≡ a
if_stop p q a b d h = ground arith

if_move {ℓ} :
    {A : Type ℓ} (p q : Bool) (a b d : A)
    → p ≡ false
    → q ≡ true
    → (if p then a else if q then b else d) ≡ b
if_move p q a b d h k = ground arith

if_keep {ℓ} :
    {A : Type ℓ} (p q : Bool) (a b d : A)
    → p ≡ false
    → q ≡ false
    → (if p then a else if q then b else d) ≡ d
if_keep p q a b d h k = ground arith

module _ {E : Type 0} ⦃cb : Callbacks E⦄ where
  shift_from_step :
      (fuel c : ℕ) (es : List E) (i j t k : ℕ) (x : E)
      → bit_and (add64 j 1) (sub64 c 1) ≡ t
      → get_elem? es t ≡ some x
      → bit_and (cb.hash x) (sub64 c 1) ≡ k
      → shift_from (suc fuel) c es i j ≡ (
          if vacant x
          then some (es, i)
          else if moves i t k
          then shift_from fuel c (set es i (cb.write (some x))) t t
          else shift_from fuel c es i t)
  unfolding shift_from
  shift_from_step fuel c es i j t k x masked got masked' = ground arith

  -- The array and the hole at the end of the loop, which began at `es₀` and `i₀`.
  pub record IsShifted (c : ℕ) (es₀ : List E) (i₀ : ℕ) (es : List E) (i : ℕ) : Type 0 where
    pub scan : ℕ
    pub hole : IsHole c es i scan
    pub away : next c scan ≢ i
    pub stops : vacant (cell es (next c scan)) ≡ true
    pub count : occupied es ≡ occupied es₀
    pub others : (x : E) → IsOther c es i x ↔ IsOther c es₀ i₀ x

  module _ (keyed : IsKeyed cb) (c n : ℕ) (power : c ≡ 2 ^ n) (small : n ≤ 63) (z : ℕ)
      (zin : z < c) where
    pub shift_from-IsShifted :
        (fuel : ℕ) (es : List E) (i j : ℕ)
        → IsHole c es i j
        → vacant (cell es z) ≡ true
        → 0 < dist c j z
        → dist c j z ≤ fuel
        → (r : List E × ℕ) × (shift_from fuel c es i j ≡ some r) × IsShifted c es i r.0 r.1
    shift_from-IsShifted zero es i j H empty pos enough = absurd (omega arith)
    shift_from-IsShifted (suc fuel) es i j H empty pos enough =
        let t = next c j in
        let tin = next-lt c j H.scan_in in
        let away = next-ne_hole c es i j z H zin empty in
        let got = get_elem?-get_or es t (cb.write none) (omega (arith, H.width)) in
        let k = home c (cell es t) in
        let kin : k < c = mod-lt (cb.hash (cell es t)) (capacity_pos c n power small) in
        let step =
          shift_from_step fuel c es i j t k (cell es t) (capacity_next c n power small j H.scan_in)
            got (capacity_mask c n power small (cb.hash (cell es t))) in
        let moved = shift_from fuel c (set es i (cb.write (some (cell es t)))) t t in
        let kept = shift_from fuel c es i t in
        elim (Bool-cases (vacant (cell es t))) [
          | inl stop ↦ (
            (es, i),
            step ∙ if_stop (vacant (cell es t)) (moves i t k) (some (es, i)) moved kept stop,
            record {
              scan = j;
              hole = H;
              away = away;
              stops = stop;
              count = refl;
              others = λ x. (λ h. h, λ h. h);
            },
          )
          | inr full ↦
              let off : t ≢ z =
                λ e. false≢true (sym full ∙ ap (λ q. vacant (cell es q)) e ∙ empty) in
              let nearer = dist-next_source c j z H.scan_in zin pos in
              let ahead : 0 < dist c t z = apart c t z tin zin off in
              let test = moves-dist c i t k H.hole_in tin kin (λ e. away (sym e)) in
              elim (Bool-cases (leb (dist c i t) (dist c k t))) [
                | inr stays ↦
                    let (r, run, s) =
                      shift_from-IsShifted fuel es i t
                        (IsHole-keep c es i j z H away full stays kin) empty ahead (omega arith) in
                    (
                      r,
                      step
                          ∙ if_keep (vacant (cell es t)) (moves i t k) (some (es, i)) moved kept
                              full (test ∙ stays)
                          ∙ run,
                      s,
                    )
                | inl goes ↦
                    let x = cb.write (some (cell es t)) in
                    let taken = sym (keyed.write_some (cell es t)) in
                    let H' = IsHole-move c es i j H t tin away full x taken (ground arith) kin in
                    let clear : z ≢ i = λ e.
                      false≢true (sym H.solid ∙ ap (λ q. vacant (cell es q)) (sym e) ∙ empty) in
                    let still =
                      cell-set_ne es i z x (omega (arith, H.hole_in, H.width))
                        (λ e. clear (sym e)) in
                    let (r, run, s) =
                      shift_from-IsShifted fuel (set es i x) t t H' (ap vacant still ∙ empty) ahead
                        (omega arith) in
                    (
                      r,
                      step
                          ∙ if_move (vacant (cell es t)) (moves i t k) (some (es, i)) moved kept
                              full (test ∙ goes)
                          ∙ run,
                      record {
                        scan = s.scan;
                        hole = s.hole;
                        away = s.away;
                        stops = s.stops;
                        count = s.count ∙ occupied_moved c es i j H t tin away full x taken;
                        others = λ y.
                            let m = IsOther-move c es i j H t tin away full x taken y in
                            (λ h. m.0 ((s.others y).0 h), λ h. (s.others y).1 (m.1 h));
                      },
                    )
              ]
        ]
