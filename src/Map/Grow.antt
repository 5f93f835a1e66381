-- ===== src/Map/Grow.antt =====
-- `map_rehash`, `map_reserve` and `map_insert`: growing keeps the elements, and the depth to which
-- `map_insert` and `map_rehash` call each other is two.
use libreactor_refactor.Prelude.{
  ◌>>=◌, ℕ, ◌+◌, ◌*◌, ◌^◌, ◌≤◌, ◌<◌, ◌≡◌, ◌↔◌, ◌⊎◌, refl, Bool, false, none, some, List,
  length-replicate, get_or-replicate, replicate, arith, inl, inr, Bool-cases, ap, sym, ◌∙◌, ltb,
}
use mathlib.Core.Bool.{false≢true}
use mathlib.Core.Path.{subst}
use libreactor_refactor.Words.{IsPowerAbove, add64, add64-eq, mul64, mul64-eq, roundup-IsPowerAbove}
use libreactor_refactor.Map.Defs.{
  Callbacks, Map, put, insert_at, insert_copied, insert, copy, fresh, rehash, reserve_with, reserve,
  roundup,
}
use libreactor_refactor.Map.Slots.{
  vacant, same, cell, IsKeyed, IsValid, IsUnique, Holds, Inserts, added, kept, occupied-replicate,
}
use libreactor_refactor.Map.Store.{put-Inserts}
use libreactor_refactor.Map.Copy.{copy-Copied}

-- `map_roundup` gives the least power of two that is not below its argument, which is
-- from 1 to 2 ^ 63.
pub map_roundup-IsPowerAbove : (n : ℕ) → 1 ≤ n → n ≤ 2 ^ 63 → IsPowerAbove n (roundup n)
unfolding roundup
map_roundup-IsPowerAbove n lo hi = roundup-IsPowerAbove n lo hi

module _ {E : Type 0} ⦃cb : Callbacks E⦄ where
  -- What `map_reserve` promises: room, the same elements, the same count.
  pub record Reserved (m : Map E) (size : ℕ) (r : Map E) : Type 0 where
    pub valid : IsValid r
    pub room : 2 * size ≤ r.elements_capacity
    pub count : r.elements_count ≡ m.elements_count
    pub holds : (x : E) → Holds r x ↔ Holds m x

  Inserts-Reserved :
      {m g : Map E} {size : ℕ} {e : E} {release : Bool} {r : Map E × List E}
      → Reserved m size g
      → Inserts g e release r
      → Inserts m e release r
  Inserts-Reserved {m} {e} p (added absent h c) =
      added
        (λ q lt full.
          let (q', lt', full', eq) = (p.holds (cell m.elements q)).1 (q, lt, full, refl) in
          subst (λ (x : E). same x e ≡ false) eq (absent q' lt' full'))
        (λ x. (
          λ t. elim ((h x).0 t) [ inl old ↦ inl ((p.holds x).0 old) | inr eq ↦ inr eq ],
          λ t. (h x).1 (elim t [ inl old ↦ inl ((p.holds x).1 old) | inr eq ↦ inr eq ]),
        ))
        (omega (arith, p.count))
  Inserts-Reserved p (kept y held s h c released) =
      kept y ((p.holds y).0 held) s
        (λ x. (λ t. (p.holds x).0 ((h x).0 t), λ t. (h x).1 ((p.holds x).1 t))) (c ∙ p.count)
        released

  insert-eq :
      (m : Map E) (e : E) (release : Bool)
      → insert m e release ≡ (reserve m (add64 m.elements_count 1) >>= λ g. put g e release)
  unfolding insert reserve insert_at
  insert-eq m e release = refl

  insert-run :
      (m : Map E) (e : E) (release : Bool) {n : ℕ} {g : Map E} {r : Map E × List E}
      → add64 m.elements_count 1 ≡ n
      → reserve m n ≡ some g
      → put g e release ≡ some r
      → insert m e release ≡ some r
  insert-run m e release one run run' =
      insert-eq m e release
      ∙ ap (λ k. reserve m k >>= λ g. put g e release) one
      ∙ ap (λ o. o >>= λ g. put g e release) run
      ∙ run'

  module _ (keyed : IsKeyed cb) where
    -- The new array of `map_rehash`.
    pub fresh-IsValid :
        (log : ℕ)
        → log ≤ 63
        → 2 ≤ 2 ^ log
        → IsValid {E = E} (fresh (2 ^ log)) × ((x : E) → Holds {E = E} (fresh (2 ^ log)) x → ⊥)
    unfolding fresh
    fresh-IsValid log small big =
        let w = length-replicate (2 ^ log) (cb.write none) in
        let none_there =
          λ (p : ℕ) (f : vacant (cell (replicate (2 ^ log) (cb.write none)) p) ≡ false).
            false≢true (
              sym f
              ∙ ap (λ (x : E). vacant x) (get_or-replicate (2 ^ log) p (cb.write none))
              ∙ keyed.write_none) in
        (
          record {
            log = log;
            log_small = small;
            capacity = refl;
            width = w;
            counted = sym (occupied-replicate (2 ^ log) (cb.write none) keyed.write_none);
            roomy = omega arith;
            not_tiny = big;
            reachable = λ p q pin qin full closer. absurd (none_there p full);
            unique = λ p q pin qin fp fq s. absurd (none_there p fp);
            clean = λ p pin free. get_or-replicate (2 ^ log) p (cb.write none);
          },
          λ x (p, lt, full, eq). none_there p full,
        )

    rehash-Reserved :
        (m : Map E) (size : ℕ)
        → IsValid m
        → m.elements_capacity < 2 * size
        → 2 * size ≤ 2 ^ 63
        → (r : Map E) × (rehash insert_copied m (2 * size) ≡ some r) × Reserved m size r
    unfolding rehash roundup
    rehash-Reserved m size v grow small =
        let a = roundup-IsPowerAbove (2 * size) (omega (arith, v.not_tiny)) small in
        let (fv, nothing) =
          fresh-IsValid a.log a.fits (omega (arith, a.power, a.above, v.not_tiny)) in
        let n = 2 ^ a.log in
        let (r, run, c) =
          copy-Copied keyed m.elements (fresh n) fv
            (omega (arith, v.counted, v.roomy, a.power, a.above))
            (subst (λ c. IsUnique c m.elements) (sym v.width) v.unique)
            (λ y z hy hz. absurd (nothing y hy)) in
        (
          r,
          ap (λ t. copy insert_copied m.elements (fresh t)) a.power ∙ run,
          record {
            valid = c.valid;
            room = omega (arith, c.capacity, a.power, a.above);
            count = omega (arith, c.count, v.counted);
            holds = λ x. (λ h. only x nothing ((c.holds x).0 h), λ h. (c.holds x).1 (inr h));
          },
        )
      where
        only : {A : E → Type 0} (x : E) → ((x : E) → A x → ⊥) → A x ⊎ Holds m x → Holds m x
        only x n (inl h) = absurd (n x h)
        only x n (inr h) = h

    -- `map_reserve` keeps the elements and makes room for `size` of them.
    pub reserve-Reserved :
        (m : Map E) (size : ℕ)
        → IsValid m
        → 2 * size ≤ 2 ^ 63
        → (r : Map E) × (reserve m size ≡ some r) × Reserved m size r
    unfolding reserve reserve_with
    reserve-Reserved m size v small =
        let two : mul64 size 2 ≡ 2 * size = mul64-eq size 2 (omega arith) ∙ omega arith in
        elim (Bool-cases (ltb m.elements_capacity (2 * size))) [
          | inl grow ↦
              let (r, run, p) = rehash-Reserved m size v (ground arith) small in
              (r, rw (two, grow) run, p)
          | inr enough ↦ (
            m,
            rw (two, enough) refl,
            record { valid = v; room = ground arith; count = refl; holds = λ x. (λ h. h, λ h. h) },
          )
        ]

    -- `map_insert` of an element that is not the empty one, into a valid map with fewer than 2 ^ 62 elements
    -- whose callbacks keep their laws: it returns a valid map that holds the element too, unless an equal
    -- one is there, which then stays.
    pub insert-Inserts :
        (m : Map E) (e : E) (release : Bool)
        → IsValid m
        → vacant e ≡ false
        → m.elements_count < 2 ^ 62
        → (r : Map E × List E) × (insert m e release ≡ some r) × IsValid r.0 × Inserts m e release r
    insert-Inserts m e release v solid small =
        let one : add64 m.elements_count 1 ≡ m.elements_count + 1 =
          add64-eq m.elements_count 1 (omega arith) in
        let (g, run, p) = reserve-Reserved m (m.elements_count + 1) v (omega arith) in
        let (r, run', v', _, ins) =
          put-Inserts keyed g e release p.valid solid (omega (arith, p.count, p.room))
            (omega (arith, p.count)) in
        (r, insert-run m e release one run run', v', Inserts-Reserved p ins)
