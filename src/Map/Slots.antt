-- ===== src/Map/Slots.antt =====
-- The array as a function of positions, the laws of the callbacks, and the invariant of a map.
use libreactor_refactor.Prelude.{
  ℕ, zero, suc, ◌+◌, ◌*◌, ◌%◌, ◌^◌, ◌≤◌, ◌<◌, ◌≡◌, refl, Bool, true, false, none, some, List, [],
  ◌∷◌, ◌↔◌, ◌⊎◌, ◌≢◌, get_or, get_or-set, set, replicate, length, if◌then◌else◌, arith, inl, inr,
  Bool-cases,
}
use mathlib.Core.Bool.{false≢true}
use mathlib.Core.Path.{subst, sym, ap, ap₂, ◌∙◌}
use libreactor_refactor.Map.Defs.{Callbacks, Map}
use libreactor_refactor.Map.Ring.{dist}

-- What a table asks of its callbacks, as `mapi.c` and `maps.c` provide it: elements are compared
-- by an equivalence that the hash respects, and `set(p, NULL)` makes an element empty.
pub record IsKeyed {E : Type 0} (cb : Callbacks E) : Type 0 where
  pub write_some : (x : E) → cb.write (some x) ≡ x
  pub write_none : cb.equal (cb.write none) none ≡ true
  pub same_refl : (x : E) → cb.equal x (some x) ≡ true
  pub same_symm : (x y : E) → cb.equal x (some y) ≡ true → cb.equal y (some x) ≡ true
  pub same_trans :
      (x y z : E)
      → cb.equal x (some y) ≡ true
      → cb.equal y (some z) ≡ true
      → cb.equal x (some z) ≡ true
  pub hash-same : (x y : E) → cb.equal x (some y) ≡ true → cb.hash x ≡ cb.hash y

module _ {E : Type 0} ⦃cb : Callbacks E⦄ where
  abbrev pub vacant : E → Bool
  vacant x = cb.equal x none

  abbrev pub same : E → E → Bool
  same x y = cb.equal x (some y)

  -- The element at a position of the array.
  abbrev pub cell : List E → ℕ → E
  cell es p = get_or es p (cb.write none)

  abbrev pub home : ℕ → E → ℕ
  home c x = cb.hash x % c

  unfoldable pub occupied : List E → ℕ
  occupied [] = 0
  occupied (x ∷ xs) = (if vacant x then 0 else 1) + occupied xs

  -- No vacant position between an element's home and the element.
  abbrev pub IsReachable : ℕ → List E → Type 0
  IsReachable c es =
      (p q : ℕ)
      → p < c
      → q < c
      → vacant (cell es p) ≡ false
      → dist c (home c (cell es p)) q < dist c (home c (cell es p)) p
      → vacant (cell es q) ≡ false

  abbrev pub IsUnique : ℕ → List E → Type 0
  IsUnique c es =
      (p q : ℕ)
      → p < c
      → q < c
      → vacant (cell es p) ≡ false
      → vacant (cell es q) ≡ false
      → same (cell es p) (cell es q) ≡ true
      → p ≡ q

  -- Every vacant position holds the empty element.
  abbrev pub IsClean : ℕ → List E → Type 0
  IsClean c es = (p : ℕ) → p < c → vacant (cell es p) ≡ true → cell es p ≡ cb.write none

  -- At most half of the positions are occupied, so a probe meets a vacant one.
  pub record IsValid (m : Map E) : Type 0 where
    pub log : ℕ
    pub log_small : log ≤ 63
    pub capacity : m.elements_capacity ≡ 2 ^ log
    pub width : length m.elements ≡ m.elements_capacity
    pub counted : m.elements_count ≡ occupied m.elements
    pub roomy : 2 * m.elements_count ≤ m.elements_capacity
    pub not_tiny : 2 ≤ m.elements_capacity
    pub reachable : IsReachable m.elements_capacity m.elements
    pub unique : IsUnique m.elements_capacity m.elements
    pub clean : IsClean m.elements_capacity m.elements

  -- `x` stands at some position of the array.
  abbrev pub IsElement : List E → E → Type 0
  IsElement es x = (p : ℕ) × (p < length es) × (vacant (cell es p) ≡ false) × (cell es p ≡ x)

  abbrev pub Holds : Map E → E → Type 0
  Holds m = IsElement m.elements

  -- No element of the array is equal to `e`.
  abbrev pub IsAbsent : List E → E → Type 0
  IsAbsent es e = (q : ℕ) → q < length es → vacant (cell es q) ≡ false → same (cell es q) e ≡ false

  -- What an insertion of `e` into `m` gives: the map afterwards and the elements released.
  pub data Inserts (m : Map E) (e : E) (release : Bool) : Map E × List E → Type 0 where
    added :
        {m' : Map E}
        → IsAbsent m.elements e
        → ((x : E) → Holds m' x ↔ (Holds m x ⊎ (e ≡ x)))
        → m'.elements_count ≡ m.elements_count + 1
        → Inserts m e release (m', [])
    kept :
        {m' : Map E} {r : List E} (y : E)
        → Holds m y
        → same y e ≡ true
        → ((x : E) → Holds m' x ↔ Holds m x)
        → m'.elements_count ≡ m.elements_count
        → r ≡ (if release then e ∷ [] else [])
        → Inserts m e release (m', r)

  -- Equal elements of a valid map are one.
  pub Holds-unique :
      {m : Map E} (x y : E) → IsValid m → Holds m x → Holds m y → same x y ≡ true → x ≡ y
  Holds-unique {m} x y v (p, plt, fp, px) (q, qlt, fq, qy) s =
      let s' : same (cell m.elements p) (cell m.elements q) ≡ true = ap₂ same px qy ∙ s in
      let e = v.unique p q (omega (arith, v.width)) (omega (arith, v.width)) fp fq s' in
      sym px ∙ ap (cell m.elements) e ∙ qy

  pub cell-set_self : (es : List E) (i : ℕ) (x : E) → i < length es → cell (set es i x) i ≡ x
  cell-set_self es i x h = get_or-set es i i x (cb.write none) h ∙ ground arith

  pub cell-set_ne :
      (es : List E) (i j : ℕ) (x : E) → i < length es → i ≢ j → cell (set es i x) j ≡ cell es j
  cell-set_ne es i j x h n = get_or-set es i j x (cb.write none) h ∙ ground arith

  pub occupied-vacant : (x : E) (xs : List E) → vacant x ≡ true → occupied (x ∷ xs) ≡ occupied xs
  unfolding occupied
  occupied-vacant x xs h = rw h (omega arith)

  pub occupied_full : (x : E) (xs : List E) → vacant x ≡ false → occupied (x ∷ xs) ≡ occupied xs + 1
  unfolding occupied
  occupied_full x xs h = rw h (omega arith)

  -- A new element, given that no equal one was there.
  pub Inserts-added :
      {m : Map E} {e : E} {release : Bool} {r : Map E × List E}
      → Inserts m e release r
      → IsAbsent m.elements e
      → ((x : E) → Holds r.0 x ↔ (Holds m x ⊎ (e ≡ x)))
        × (r.0.elements_count ≡ m.elements_count + 1)
  Inserts-added (added a h c) absent = (h, c)
  Inserts-added {m} {e} (kept y (q, lt, full, eq) s h c r) absent =
      let n : same y e ≡ false = subst (λ (t : E). same t e ≡ false) eq (absent q lt full) in
      absurd (false≢true (sym n ∙ s))

  pub occupied-set :
      (es : List E) (i : ℕ) (x : E)
      → i < length es
      → occupied (set es i x) + (if vacant (cell es i) then 0 else 1)
        ≡ occupied es + (if vacant x then 0 else 1)
  unfolding occupied
  occupied-set [] i x h = absurd (omega arith)
  occupied-set (y ∷ es) zero x h = omega arith
  occupied-set (y ∷ es) (suc i) x h = omega (arith, occupied-set es i x (omega arith))

  -- An array that is not full has a vacant position.
  pub some_vacant :
      (es : List E)
      → occupied es < length es
      → (p : ℕ) × (p < length es) × (vacant (cell es p) ≡ true)
  unfolding occupied
  some_vacant [] h = absurd (omega arith)
  some_vacant (x ∷ es) h = elim (Bool-cases (vacant x)) [
    | inl e ↦ (0, omega arith, e)
    | inr e ↦
        let fewer : occupied es < length es = ground arith in
        let (p, lt, v) = some_vacant es fewer in (suc p, omega arith, v)
  ]

  pub occupied-replicate : (n : ℕ) (x : E) → vacant x ≡ true → occupied (replicate n x) ≡ 0
  unfolding occupied
  occupied-replicate zero x h = refl
  occupied-replicate (suc n) x h = rw h (omega (arith, occupied-replicate n x h))
