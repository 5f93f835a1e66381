-- ===== src/Map/Probe.antt =====
-- `map_at` and the search of `map_erase`: they stop, at the element or at the first vacant
-- position on the way from its home.
use libreactor_refactor.Prelude.{
  ℕ, zero, suc, ◌+◌, ◌%◌, ◌^◌, ◌≤◌, ◌<◌, ◌≡◌, true, false, ◌||◌, none, some, List, get_elem?,
  get_elem?-get_or, length, if◌then◌else◌, arith, inl, inr, Bool-cases, ap, sym, ◌∙◌, bit_and,
  pow2-pos,
}
use mathlib.Core.Path.{subst}
use native.Mathlib.Nat.{mod-lt}
use native.Mathlib.Decide.{dec_lt}
use libreactor_refactor.Words.{add64, sub64}
use libreactor_refactor.Map.Defs.{Callbacks, Map, at_from, at, find_from}
use libreactor_refactor.Map.Ring.{
  dist, next, dist-lt, dist_self, next-lt, dist-next, dist_injective, bit_and-capacity,
  bit_and-next,
}
use libreactor_refactor.Map.Slots.{vacant, same, cell, home, IsValid, some_vacant}

module _ {E : Type 0} ⦃cb : Callbacks E⦄ where
  -- Where a probe for `e` from the position `h` ends.
  pub record Probed (c : ℕ) (es : List E) (e : E) (h p : ℕ) : Type 0 where
    pub inside : p < c
    pub before :
        (q : ℕ)
        → q < c
        → dist c h q < dist c h p
        → (vacant (cell es q) ≡ false) × (same (cell es q) e ≡ false)
    pub ends : (vacant (cell es p) || same (cell es p) e) ≡ true

  module _ (m : Map E) (e : E) (fuel i j : ℕ) where
    at_from_step :
        bit_and i (sub64 m.elements_capacity 1) ≡ j
        → get_elem? m.elements j ≡ some (cell m.elements j)
        → at_from (suc fuel) m e i ≡ (
            if vacant (cell m.elements j) || same (cell m.elements j) e
            then some j
            else at_from fuel m e (add64 j 1))
    unfolding at_from
    at_from_step masked got = ground arith

    find_from_step :
        bit_and i (sub64 m.elements_capacity 1) ≡ j
        → get_elem? m.elements j ≡ some (cell m.elements j)
        → find_from (suc fuel) m e i ≡ (
            if vacant (cell m.elements j)
            then some none
            else if same (cell m.elements j) e
            then some (some j)
            else find_from fuel m e (add64 j 1))
    unfolding find_from
    find_from_step masked got = ground arith

  module _ (m : Map E) (e : E) (n h z : ℕ) where
    abbrev Pending : ℕ → Type 0
    Pending j =
        (q : ℕ)
        → q < 2 ^ n
        → dist (2 ^ n) h q < dist (2 ^ n) h j
        → (vacant (cell m.elements q) ≡ false) × (same (cell m.elements q) e ≡ false)

    record IsProbe (fuel i p : ℕ) : Type 0 where
      at : at_from fuel m e i ≡ some p
      find : find_from fuel m e i ≡ some (if vacant (cell m.elements p) then none else some p)
      probed : Probed (2 ^ n) m.elements e h p

    module _ (hin : h < 2 ^ n) (zin : z < 2 ^ n) (empty : vacant (cell m.elements z) ≡ true) where
      -- The vacant position lies ahead of all that have been passed.
      ahead : (j : ℕ) → Pending j → dist (2 ^ n) h j ≤ dist (2 ^ n) h z
      ahead j pending = elim (dec_lt (dist (2 ^ n) h z) (dist (2 ^ n) h j)) [
        | no p ↦ omega arith
        | yes p ↦ let f = (pending z zin p).0 in cc
      ]

      beyond :
          (j : ℕ)
          → j < 2 ^ n
          → Pending j
          → (vacant (cell m.elements j) || same (cell m.elements j) e) ≡ false
          → dist (2 ^ n) h j < dist (2 ^ n) h z
      beyond j jin pending more = elim (dec_lt (dist (2 ^ n) h j) (dist (2 ^ n) h z)) [
        | yes p ↦ p
        | no p ↦
            let e : j ≡ z =
              dist_injective (2 ^ n) h j z hin jin zin (omega (arith, ahead j pending)) in
            let v : vacant (cell m.elements j) ≡ true =
              ap (λ t. vacant (cell m.elements t)) e ∙ empty in
            absurd (ground arith)
      ]

      Pending-next :
          (j : ℕ)
          → j < 2 ^ n
          → Pending j
          → (vacant (cell m.elements j) || same (cell m.elements j) e) ≡ false
          → Pending (next (2 ^ n) j)
      Pending-next j jin pending more q qin closer =
          let far = beyond j jin pending more in
          let one = dist-next (2 ^ n) h j hin jin (omega (arith, dist-lt (2 ^ n) h z hin zin)) in
          elim (dec_lt (dist (2 ^ n) h q) (dist (2 ^ n) h j)) [
            | yes p ↦ pending q qin p
            | no p ↦
                let e : q ≡ j = dist_injective (2 ^ n) h q j hin qin jin (omega arith) in
                rw e (ground arith, ground arith)
          ]

    module _ (small : n ≤ 63) (capacity : m.elements_capacity ≡ 2 ^ n)
        (width : length m.elements ≡ 2 ^ n) (hin : h < 2 ^ n) (zin : z < 2 ^ n)
        (empty : vacant (cell m.elements z) ≡ true) where
      at_from-IsProbe :
          (fuel i j : ℕ)
          → bit_and i (sub64 (2 ^ n) 1) ≡ j
          → j < 2 ^ n
          → dist (2 ^ n) h z < dist (2 ^ n) h j + fuel
          → Pending j
          → (p : ℕ) × IsProbe fuel i p
      at_from-IsProbe zero i j masked jin enough pending =
          absurd (omega (arith, ahead hin zin empty j pending))
      at_from-IsProbe (suc fuel) i j masked jin enough pending =
          let mask' : bit_and i (sub64 m.elements_capacity 1) ≡ j = rw capacity masked in
          let got = get_elem?-get_or m.elements j (cb.write none) (omega arith) in
          let step = at_from_step m e fuel i j mask' got in
          let fstep = find_from_step m e fuel i j mask' got in
          elim (Bool-cases (vacant (cell m.elements j) || same (cell m.elements j) e)) [
            | inl stop ↦ (
              j,
              record {
                at = step ∙ ground arith;
                find = fstep ∙ ground arith;
                probed = record { inside = jin; before = pending; ends = stop };
              },
            )
            | inr more ↦
                let far = beyond hin zin empty j jin pending more in
                let one =
                  dist-next (2 ^ n) h j hin jin (omega (arith, dist-lt (2 ^ n) h z hin zin)) in
                let (p, r) =
                  at_from-IsProbe fuel (add64 j 1) (next (2 ^ n) j) (bit_and-next n small j jin)
                    (next-lt (2 ^ n) j jin) (omega arith)
                    (Pending-next hin zin empty j jin pending more) in
                (
                  p,
                  record {
                    at = step ∙ rw more r.at;
                    find = fstep ∙ ground arith ∙ r.find;
                    probed = r.probed;
                  },
                )
          ]

  -- In a valid map the probe for `e` from its home stops within the array.
  pub at-Probed :
      (m : Map E) (e : E)
      → IsValid m
      → (p : ℕ) × (at m e ≡ some p)
        × (find_from m.elements_capacity m e (cb.hash e)
            ≡ some (if vacant (cell m.elements p) then none else some p))
        × Probed m.elements_capacity m.elements e (home m.elements_capacity e) p
  unfolding at
  at-Probed m e v =
      let (z, zin, empty) =
        some_vacant m.elements (omega (arith, v.counted, v.roomy, v.width, v.not_tiny)) in
      let pos = pow2-pos v.log in
      let h : ℕ = cb.hash e % 2 ^ v.log in
      let hin : h < 2 ^ v.log = mod-lt (cb.hash e) pos in
      let zin' : z < 2 ^ v.log = omega (arith, v.width, v.capacity) in
      let (p, r) =
        at_from-IsProbe m e v.log h z v.log_small v.capacity (v.width ∙ v.capacity) hin zin' empty
          m.elements_capacity (cb.hash e) h (bit_and-capacity v.log v.log_small (cb.hash e) pos) hin
          (omega (arith, v.capacity, dist-lt (2 ^ v.log) h z hin zin'))
          (λ q qin closer. absurd (omega (arith, dist_self (2 ^ v.log) h))) in
      (p, r.at, r.find, subst (λ c. Probed c m.elements e (home c e) p) (sym v.capacity) r.probed)
