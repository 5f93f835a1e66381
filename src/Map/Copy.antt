-- ===== src/Map/Copy.antt =====
-- The loop of `map_rehash` that inserts the old elements into the new array.
use libreactor_refactor.Prelude.{
  ℕ, zero, suc, ◌+◌, ◌*◌, ◌^◌, ◌≤◌, ◌≡◌, ◌↔◌, ◌⊎◌, refl, Bool, true, false, some, List, [], ◌∷◌,
  length, arith, inl, inr, Bool-cases, ap, sym, ◌∙◌, ltb,
}
use mathlib.Core.Bool.{false≢true}
use mathlib.Core.Path.{subst}
use native.Mathlib.Nat.{pow-le-pow_right}
use libreactor_refactor.Words.{add64, add64-eq, mul64, mul64-eq}
use libreactor_refactor.Map.Defs.{Callbacks, Map, put, insert_at, insert_copied, copy, reserve_with}
use libreactor_refactor.Map.Slots.{
  vacant, same, cell, occupied, IsKeyed, IsValid, IsUnique, IsElement, Holds, IsAbsent,
  occupied-vacant, occupied_full, Inserts-added,
}
use libreactor_refactor.Map.Store.{put-Inserts}

module _ {E : Type 0} ⦃cb : Callbacks E⦄ where
  pub capacity-le : {m : Map E} → IsValid m → m.elements_capacity ≤ 2 ^ 63
  capacity-le v =
      let b : 2 ^ v.log ≤ 2 ^ 63 =
        pow-le-pow_right {n = 2} (omega arith) {i = v.log} {j = 63} v.log_small in
      omega (arith, v.capacity)

  -- Where there is room for one more, `map_reserve` does nothing.
  pub insert_at-put :
      (depth : ℕ) (m : Map E) (e : E) (release : Bool)
      → m.elements_capacity ≤ 2 ^ 63
      → 2 * (m.elements_count + 1) ≤ m.elements_capacity
      → insert_at (suc depth) m e release ≡ put m e release
  unfolding insert_at reserve_with
  insert_at-put depth m e release small room =
      let one : add64 m.elements_count 1 ≡ m.elements_count + 1 =
        add64-eq m.elements_count 1 (omega arith) in
      let two : mul64 (add64 m.elements_count 1) 2 ≡ (m.elements_count + 1) * 2 =
        ap (λ t. mul64 t 2) one ∙ mul64-eq (m.elements_count + 1) 2 (omega arith) in
      let no_growth : ltb m.elements_capacity (mul64 (add64 m.elements_count 1) 2) ≡ false =
        ap (ltb m.elements_capacity) two ∙ ground arith in
      rw no_growth refl

  -- No element of the map is equal to one of the list.
  abbrev pub IsApart : Map E → List E → Type 0
  IsApart m xs = (y z : E) → Holds m y → IsElement xs z → same y z ≡ false

  IsElement-tail : (x z : E) (xs : List E) → IsElement xs z → IsElement (x ∷ xs) z
  IsElement-tail x z xs (q, lt, full, eq) = (suc q, omega arith, full, eq)

  IsElement-head :
      (x z : E) (xs : List E)
      → IsElement (x ∷ xs) z
      → ((vacant x ≡ false) × (x ≡ z)) ⊎ IsElement xs z
  IsElement-head x z xs (zero, lt, full, eq) = inl (full, eq)
  IsElement-head x z xs (suc q, lt, full, eq) = inr (q, omega arith, full, eq)

  IsUnique-tail :
      (x : E) (xs : List E) → IsUnique (suc (length xs)) (x ∷ xs) → IsUnique (length xs) xs
  IsUnique-tail x xs u p q pin qin fp fq s =
      omega (arith, u (suc p) (suc q) (omega arith) (omega arith) fp fq s)

  IsUnique-apart :
      (x : E) (xs : List E)
      → IsUnique (suc (length xs)) (x ∷ xs)
      → vacant x ≡ false
      → (z : E) → IsElement xs z
      → same x z ≡ false
  IsUnique-apart x xs u solid z (q, lt, full, eq) = elim (Bool-cases (same x z)) [
    | inr n ↦ n
    | inl s ↦
        let s' : same x (cell xs q) ≡ true = ap (same x) eq ∙ s in
        absurd (omega (arith, u 0 (suc q) (omega arith) (omega arith) solid full s'))
  ]

  -- What copying the elements of `xs` into `m` gives.
  pub record Copied (m : Map E) (xs : List E) (r : Map E) : Type 0 where
    pub valid : IsValid r
    pub capacity : r.elements_capacity ≡ m.elements_capacity
    pub count : r.elements_count ≡ m.elements_count + occupied xs
    pub holds : (x : E) → Holds r x ↔ (Holds m x ⊎ IsElement xs x)

  module _ (keyed : IsKeyed cb) where
    pub copy-Copied :
        (xs : List E) (m : Map E)
        → IsValid m
        → 2 * (m.elements_count + occupied xs) ≤ m.elements_capacity
        → IsUnique (length xs) xs
        → IsApart m xs
        → (r : Map E) × (copy insert_copied xs m ≡ some r) × Copied m xs r
    unfolding copy
    copy-Copied [] m v room u apart = (
      m,
      refl,
      record {
        valid = v;
        capacity = refl;
        count = unfold occupied in omega arith;
        holds = λ x. (inl, elim [ inl h ↦ h | inr (p, lt, _, _) ↦ absurd (omega arith) ]);
      },
    )
    copy-Copied (x ∷ xs) m v room u apart = elim (Bool-cases (vacant x)) [
      | inl empty ↦
          let same_count = occupied-vacant x xs empty in
          let (r, run, c) =
            copy-Copied xs m v (omega arith) (IsUnique-tail x xs u)
              (λ y z hy hz. apart y z hy (IsElement-tail x z xs hz)) in
          (
            r,
            rw empty run,
            record {
              valid = c.valid;
              capacity = c.capacity;
              count = omega (arith, c.count);
              holds =
                  λ z. (λ h. skip_to z ((c.holds z).0 h), λ h. (c.holds z).1 (skip_from z empty h));
            },
          )
      | inr solid ↦
          let more = occupied_full x xs solid in
          let absent : IsAbsent m.elements x = λ q lt full.
            apart (cell m.elements q) x (q, lt, full, refl) (0, omega arith, solid, refl) in
          let small = capacity-le v in
          let ((m', released), run, v', cap', ins) =
            put-Inserts keyed m x false v solid (omega arith) (omega arith) in
          let (holds', count') = Inserts-added ins absent in
          let apart' : IsApart m' xs = λ y z hy hz. elim ((holds' y).0 hy) [
            | inl old ↦ apart y z old (IsElement-tail x z xs hz)
            | inr eq ↦ subst (λ (t : E). same t z ≡ false) eq (IsUnique-apart x xs u solid z hz)
          ] in
          let (r, run', c) =
            copy-Copied xs m' v' (omega (arith, count', cap', room)) (IsUnique-tail x xs u)
              apart' in
          (
            r,
            rw (solid, insert_at-put 0 m x false small (omega arith), run) run',
            record {
              valid = c.valid;
              capacity = c.capacity ∙ cap';
              count = omega (arith, c.count, count');
              holds = λ z. (
                λ h. elim ((c.holds z).0 h) [
                  | inl new ↦ first_to z solid ((holds' z).0 new)
                  | inr t ↦ inr (IsElement-tail x z xs t)
                ],
                λ h. elim (first_from z h) [
                  | inl first ↦ (c.holds z).1 (inl ((holds' z).1 first))
                  | inr t ↦ (c.holds z).1 (inr t)
                ],
              );
            },
          )
    ]
      where
        skip_to : (z : E) → Holds m z ⊎ IsElement xs z → Holds m z ⊎ IsElement (x ∷ xs) z
        skip_to z (inl h) = inl h
        skip_to z (inr h) = inr (IsElement-tail x z xs h)

        first_to :
            (z : E) → vacant x ≡ false → Holds m z ⊎ (x ≡ z) → Holds m z ⊎ IsElement (x ∷ xs) z
        first_to z solid (inl h) = inl h
        first_to z solid (inr eq) = inr (0, omega arith, solid, eq)

        first_from :
            (z : E) → Holds m z ⊎ IsElement (x ∷ xs) z → (Holds m z ⊎ (x ≡ z)) ⊎ IsElement xs z
        first_from z (inl h) = inl (inl h)
        first_from z (inr h) = elim (IsElement-head x z xs h) [
          | inl (_, eq) ↦ inl (inr eq)
          | inr t ↦ inr t
        ]

        skip_from :
            (z : E)
            → vacant x ≡ true
            → Holds m z ⊎ IsElement (x ∷ xs) z
            → Holds m z ⊎ IsElement xs z
        skip_from z empty (inl h) = inl h
        skip_from z empty (inr h) = elim (IsElement-head x z xs h) [
          | inl (full, _) ↦ absurd (false≢true (sym full ∙ empty))
          | inr t ↦ inr t
        ]
