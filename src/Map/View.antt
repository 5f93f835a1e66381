-- ===== src/Map/View.antt =====
-- A table of keys and values, as mapi.c and maps.c make of map.c: what it stands for is a partial
-- function from keys to values.
use libreactor_refactor.Prelude.{
  ℕ, zero, suc, ◌≡◌, ◌≢◌, ◌↔◌, refl, Bool, true, false, Option, none, some, List, [], ◌∷◌,
  if◌then◌else◌, arith, inl, inr, Bool-cases, Option-cases, ap, sym, ◌∙◌,
}
use mathlib.Core.Bool.{false≢true}
use libreactor_refactor.Map.Defs.{Callbacks, Map}
use libreactor_refactor.Map.Slots.{vacant, same, IsKeyed, IsValid, IsElement, Holds, Holds-unique}

-- The keys of the elements, among them the one that an empty element has, and their values.
pub record Keys {E : Type 0} (cb : Callbacks E) (K : Type 0) : Type 0 where
  pub keyed : IsKeyed cb
  pub no_key : K
  pub eq : K → K → Bool
  pub key : E → K
  pub value : E → ℕ
  pub entry : K → ℕ → E
  pub eq_correct : (a b : K) → (eq a b ≡ true) ↔ (a ≡ b)
  pub key-entry : (k : K) (v : ℕ) → key (entry k v) ≡ k
  pub value-entry : (k : K) (v : ℕ) → value (entry k v) ≡ v
  pub value_none : value (cb.write none) ≡ 0
  pub entry-eta : (x : E) → entry (key x) (value x) ≡ x
  pub equal_none : (x : E) → cb.equal x none ≡ eq (key x) no_key
  pub equal_some : (x y : E) → cb.equal x (some y) ≡ eq (key x) (key y)

module _ {E K : Type 0} ⦃cb : Callbacks E⦄ (t : Keys cb K) where
  unfoldable pub scan : List E → K → Option ℕ
  scan [] k = none
  scan (x ∷ es) k = let rest = scan es k in if t.eq (t.key x) k then some (t.value x) else rest

  -- The value under a key.
  unfoldable pub view : Map E → K → Option ℕ
  unfolding scan
  view m k = if t.eq k t.no_key then none else scan m.elements k

  pub eq_ne : (a b : K) → a ≢ b → t.eq a b ≡ false
  eq_ne a b n = elim (Bool-cases (t.eq a b)) [
    | inl hit ↦ absurd (n ((t.eq_correct a b).0 hit))
    | inr miss ↦ miss
  ]

  pub eq_miss : (a b : K) → t.eq a b ≡ false → a ≢ b
  eq_miss a b miss e = absurd (false≢true (sym miss ∙ (t.eq_correct a b).1 e))

  pub same_key : (x : E) (k : K) (w : ℕ) → t.key x ≡ k → same x (t.entry k w) ≡ true
  same_key x k w e = t.equal_some x (t.entry k w) ∙ (t.eq_correct _ _).1 (e ∙ sym (t.key-entry k w))

  pub key_of_same : (x : E) (k : K) (w : ℕ) → same x (t.entry k w) ≡ true → t.key x ≡ k
  key_of_same x k w h =
      (t.eq_correct _ _).0 (sym (t.equal_some x (t.entry k w)) ∙ h) ∙ t.key-entry k w

  pub entry-solid : (k : K) (v : ℕ) → k ≢ t.no_key → vacant (t.entry k v) ≡ false
  entry-solid k v n =
      t.equal_none (t.entry k v)
      ∙ ap (λ (a : K). t.eq a t.no_key) (t.key-entry k v)
      ∙ eq_ne k t.no_key n

  -- An element with the key is the entry of the key and its value.
  pub entry_of_key : (x : E) (k : K) → t.key x ≡ k → x ≡ t.entry k (t.value x)
  entry_of_key x k e = sym (t.entry-eta x) ∙ ap (λ (a : K). t.entry a (t.value x)) e

  module _ (k : K) (is_key : k ≢ t.no_key) where
    scan-IsElement : (es : List E) (v : ℕ) → scan es k ≡ some v → IsElement es (t.entry k v)
    unfolding scan
    scan-IsElement [] v h = absurd (cc)
    scan-IsElement (x ∷ es) v h = elim (Bool-cases (t.eq (t.key x) k)) [
      | inl hit ↦
          let value : t.value x ≡ v = ground arith in
          let one : x ≡ t.entry k v =
            entry_of_key x k ((t.eq_correct _ _).0 hit) ∙ ap (t.entry k) value in
          (zero, omega arith, ap vacant one ∙ entry-solid k v is_key, one)
      | inr miss ↦
          let rest : scan es k ≡ some v = ground arith in
          let (p, lt, full, eq) = scan-IsElement es v rest in (suc p, omega arith, full, eq)
    ]

    scan_none : (es : List E) → scan es k ≡ none → (v : ℕ) → IsElement es (t.entry k v) → ⊥
    unfolding scan
    scan_none [] h v (p, lt, full, eq) = absurd (omega arith)
    scan_none (x ∷ es) h v (zero, lt, full, eq) =
        let hit : t.eq (t.key x) k ≡ true = (t.eq_correct _ _).1 (ap t.key eq ∙ t.key-entry k v) in
        ground arith
    scan_none (x ∷ es) h v (suc p, lt, full, eq) = elim (Bool-cases (t.eq (t.key x) k)) [
      | inl hit ↦ ground arith
      | inr miss ↦
          let rest : scan es k ≡ none = ground arith in
          scan_none es rest v (p, omega arith, full, eq)
    ]

    -- The view has just what the table holds.
    pub view-Holds : (m : Map E) → IsValid m → (v : ℕ) → (view m k ≡ some v) ↔ Holds m (t.entry k v)
    unfolding view
    view-Holds m valid v = (to, from)
      where
        some_key : t.eq k t.no_key ≡ false
        some_key = eq_ne k t.no_key is_key

        to : view m k ≡ some v → Holds m (t.entry k v)
        to h = scan-IsElement m.elements v (rw some_key at h)

        from : Holds m (t.entry k v) → view m k ≡ some v
        from held = rw some_key (elim (Option-cases (scan m.elements k)) [
          | inl no_entry ↦ absurd (scan_none m.elements no_entry v held)
          | inr (w, found) ↦
              let there = scan-IsElement m.elements w found in
              let s = same_key (t.entry k w) k v (t.key-entry k w) in
              let one = Holds-unique (t.entry k w) (t.entry k v) valid there held s in
              found ∙ ap some (sym (t.value-entry k w) ∙ ap t.value one ∙ t.value-entry k v)
        ])

-- Two optional values are equal if they are the same wherever they are there.
Option-ext : (a b : Option ℕ) → ((v : ℕ) → (a ≡ some v) ↔ (b ≡ some v)) → a ≡ b
Option-ext none none h = refl
Option-ext none (some v) h = (h v).1 refl
Option-ext (some v) b h = sym ((h v).0 refl)

-- Tables that hold the same entries under a key have the same view of it.
pub view-eq_of_Holds :
    {E K : Type 0} ⦃cb : Callbacks E⦄ (t : Keys cb K) (j : K)
    → j ≢ t.no_key
    → (m n : Map E) → IsValid m
    → IsValid n
    → ((w : ℕ) → Holds n (t.entry j w) ↔ Holds m (t.entry j w))
    → view t n j ≡ view t m j
view-eq_of_Holds t j is_key m n v v' h = Option-ext (view t n j) (view t m j) λ w. (
  λ e. (view-Holds t j is_key m v w).1 ((h w).0 ((view-Holds t j is_key n v' w).0 e)),
  λ e. (view-Holds t j is_key n v' w).1 ((h w).1 ((view-Holds t j is_key m v w).0 e)),
)
