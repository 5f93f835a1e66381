-- ===== src/Map/Emptied.antt =====
-- The array of `map_erase` once the hole is empty.
use libreactor_refactor.Prelude.{
  ℕ, ◌+◌, ◌<◌, ◌≡◌, ◌≢◌, ◌↔◌, true, false, none, List, length-set, set, arith, ap, sym, ◌∙◌,
}
use mathlib.Core.Bool.{false≢true}
use mathlib.Core.Path.{subst, ap₂}
use native.Mathlib.Nat.{mod-lt}
use native.Mathlib.Decide.{ℕ_discrete}
use libreactor_refactor.Map.Defs.{Callbacks}
use libreactor_refactor.Map.Ring.{
  dist, next, next-lt, dist-lt, dist_injective, dist_split, dist_join,
}
use libreactor_refactor.Map.Slots.{
  vacant, same, cell, home, occupied, occupied-set, IsKeyed, IsReachable, IsUnique, IsClean,
  IsElement, cell-set_self, cell-set_ne,
}
use libreactor_refactor.Map.Hole.{IsOther, IsHole, dist-next_hole}
use libreactor_refactor.Map.Shift.{IsShifted}

module _ {E : Type 0} ⦃cb : Callbacks E⦄ (keyed : IsKeyed cb) where
  -- The array once the hole is empty.
  module _ (c : ℕ) (es₀ : List E) (i₀ : ℕ) (es : List E) (i : ℕ) (s : IsShifted c es₀ i₀ es i) where
    H : IsHole c es i s.scan
    H = s.hole

    emptied : cell (set es i (cb.write none)) i ≡ cb.write none
    emptied = cell-set_self es i (cb.write none) (omega (arith, H.hole_in, H.width))

    untouched : (q : ℕ) → q ≢ i → cell (set es i (cb.write none)) q ≡ cell es q
    untouched q n =
        cell-set_ne es i q (cb.write none) (omega (arith, H.hole_in, H.width)) (λ e. n (sym e))

    full-ne_hole : (p : ℕ) → vacant (cell (set es i (cb.write none)) p) ≡ false → p ≢ i
    full-ne_hole p f e = false≢true (
        sym f
        ∙ ap (λ t. vacant (cell (set es i (cb.write none)) t)) e
        ∙ ap (λ (x : E). vacant x) emptied
        ∙ keyed.write_none)

    full_before :
        (p : ℕ) → vacant (cell (set es i (cb.write none)) p) ≡ false → vacant (cell es p) ≡ false
    full_before p f = subst (λ (x : E). vacant x ≡ false) (untouched p (full-ne_hole p f)) f

    -- No element's way passes the hole at the end.
    way-ne_hole :
        (p : ℕ)
        → p < c
        → p ≢ i
        → vacant (cell es p) ≡ false
        → home c (cell es p) < c
        → dist c (home c (cell es p)) i < dist c (home c (cell es p)) p
        → ⊥
    way-ne_hole p pin n fp hin crosses =
        let h = home c (cell es p) in
        let t = next c s.scan in
        let tin = next-lt c s.scan H.scan_in in
        let beyond = H.cross p pin n fp crosses in
        let one = dist-next_hole c es i s.scan i H s.away in
        let off : dist c i t ≢ dist c i p = λ e.
          let eq : t ≡ p = dist_injective c i t p H.hole_in tin pin e in
          false≢true (sym fp ∙ ap (λ q. vacant (cell es q)) (sym eq) ∙ s.stops) in
        let split = dist_split c h i p hin H.hole_in pin (omega arith) in
        let far = dist-lt c h p hin pin in
        let join = dist_join c h i t hin H.hole_in tin (omega arith) in
        false≢true (sym (H.reach p t pin tin n fp s.away (omega arith)) ∙ s.stops)

    pub emptied-IsReachable : 0 < c → IsReachable c (set es i (cb.write none))
    emptied-IsReachable pos p q pin qin f closer =
        let n = full-ne_hole p f in
        let fp = full_before p f in
        let closer' =
          subst (λ (x : E). dist c (home c x) q < dist c (home c x) p) (untouched p n) closer in
        let off : q ≢ i = λ e.
          way-ne_hole p pin n fp (mod-lt (cb.hash (cell es p)) pos) (
            subst (λ t. dist c (home c (cell es p)) t < dist c (home c (cell es p)) p) e closer') in
        subst (λ (x : E). vacant x ≡ false) (sym (untouched q off))
          (H.reach p q pin qin n fp off closer')

    pub emptied-IsUnique : IsUnique c (set es i (cb.write none))
    emptied-IsUnique p q pin qin fp fq e =
        let n = full-ne_hole p fp in
        let m = full-ne_hole q fq in
        H.unique p q pin qin n m (full_before p fp) (full_before q fq)
          (ap₂ same (sym (untouched p n)) (sym (untouched q m)) ∙ e)

    pub emptied-IsClean : IsClean c (set es i (cb.write none))
    emptied-IsClean p pin free = elim (ℕ_discrete p i) [
      | yes e ↦ ap (cell (set es i (cb.write none))) e ∙ emptied
      | no n ↦
          untouched p n ∙ H.clean p pin (subst (λ (y : E). vacant y ≡ true) (untouched p n) free)
    ]

    pub emptied-IsElement : (x : E) → IsElement (set es i (cb.write none)) x ↔ IsOther c es₀ i₀ x
    emptied-IsElement x = (
      λ (p, lt, f, eq).
          let n = full-ne_hole p f in
          (s.others x).0 (
            p,
            omega (arith, length-set es i (cb.write none), H.width),
            n,
            full_before p f,
            sym (untouched p n) ∙ eq,
          ),
      λ o.
          let (p, pin, n, f, eq) = (s.others x).1 o in
          (
            p,
            omega (arith, length-set es i (cb.write none), H.width),
            subst (λ (y : E). vacant y ≡ false) (sym (untouched p n)) f,
            untouched p n ∙ eq,
          ),
    )

    pub emptied-occupied : occupied (set es i (cb.write none)) + 1 ≡ occupied es₀
    emptied-occupied =
        let e = occupied-set es i (cb.write none) (omega (arith, H.hole_in, H.width)) in
        ground (arith, H.solid, keyed.write_none, s.count)
