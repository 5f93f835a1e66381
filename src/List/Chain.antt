-- ===== src/List/Chain.antt =====
-- Items that are linked one to the next, in both directions.
use libreactor_refactor.Prelude.{ℕ, Option, some, List, [], ◌∷◌, ◌++◌, ◌≡◌, ◌≢◌, sym, ◌∙◌}

abbrev pub Pointers : Type 0
Pointers = ℕ → Option ℕ

abbrev pub Absent : ℕ → List ℕ → Type 0
Absent x [] = Unit
Absent x (y ∷ ys) = (x ≢ y) × Absent x ys

abbrev pub Distinct : List ℕ → Type 0
Distinct [] = Unit
Distinct (x ∷ xs) = Absent x xs × Distinct xs

pub Absent-front : (x : ℕ) (ys zs : List ℕ) → Absent x (ys ++ zs) → Absent x ys
Absent-front x [] zs a = tt
Absent-front x (y ∷ ys) zs (n, a) = (n, Absent-front x ys zs a)

pub Absent-back : (x : ℕ) (ys zs : List ℕ) → Absent x (ys ++ zs) → Absent x zs
Absent-back x [] zs a = a
Absent-back x (y ∷ ys) zs (n, a) = Absent-back x ys zs a

pub Absent-append : (x : ℕ) (ys zs : List ℕ) → Absent x ys → Absent x zs → Absent x (ys ++ zs)
Absent-append x [] zs a b = b
Absent-append x (y ∷ ys) zs (n, a) b = (n, Absent-append x ys zs a b)

pub Absent-insert :
    (x p : ℕ) (ys zs : List ℕ) → Absent x (ys ++ zs) → x ≢ p → Absent x (ys ++ (p ∷ zs))
Absent-insert x p [] zs a n = (n, a)
Absent-insert x p (y ∷ ys) zs (m, a) n = (m, Absent-insert x p ys zs a n)

pub Distinct-insert :
    (p : ℕ) (ys zs : List ℕ) → Distinct (ys ++ zs) → Absent p (ys ++ zs) → Distinct (ys ++ (p ∷ zs))
Distinct-insert p [] zs d a = (a, d)
Distinct-insert p (y ∷ ys) zs (b, d) (n, a) =
    (Absent-insert y p ys zs b (λ e. n (sym e)), Distinct-insert p ys zs d a)

Absent-drop : (x p : ℕ) (ys zs : List ℕ) → Absent x (ys ++ (p ∷ zs)) → Absent x (ys ++ zs) × (x ≢ p)
Absent-drop x p [] zs (n, a) = (a, n)
Absent-drop x p (y ∷ ys) zs (m, a) = let (b, n) = Absent-drop x p ys zs a in ((m, b), n)

pub Distinct-drop :
    (p : ℕ) (ys zs : List ℕ) → Distinct (ys ++ (p ∷ zs)) → Distinct (ys ++ zs) × Absent p (ys ++ zs)
Distinct-drop p [] zs (a, d) = (d, a)
Distinct-drop p (y ∷ ys) zs (a, d) =
    let (b, n) = Absent-drop y p ys zs a in
    let (e, c) = Distinct-drop p ys zs d in ((b, e), ((λ g. n (sym g)), c))

-- The item before the place behind `ys`, and the one behind it.
abbrev pub last : ℕ → List ℕ → ℕ
last a [] = a
last a (y ∷ ys) = last y ys

abbrev pub first : List ℕ → ℕ → ℕ
first [] z = z
first (x ∷ xs) z = x

-- From `a` over `xs` to `z`, by the pointers `next` and `previous`.
abbrev pub Chain : Pointers → Pointers → ℕ → List ℕ → ℕ → Type 0
Chain next previous a [] z = (next a ≡ some z) × (previous z ≡ some a)
Chain next previous a (x ∷ xs) z =
    ((next a ≡ some x) × (previous x ≡ some a)) × Chain next previous x xs z

-- The pointers at a place.
pub Chain-place :
    (next previous : Pointers) (a : ℕ) (ys zs : List ℕ) (z : ℕ)
    → Chain next previous a (ys ++ zs) z
    → (next (last a ys) ≡ some (first zs z)) × (previous (first zs z) ≡ some (last a ys))
Chain-place next previous a [] [] z c = c
Chain-place next previous a [] (x ∷ zs) z (l, c) = l
Chain-place next previous a (y ∷ ys) zs z (l, c) = Chain-place next previous y ys zs z c

-- The pointers of an item.
pub Chain-item :
    (next previous : Pointers) (a p : ℕ) (ys zs : List ℕ) (z : ℕ)
    → Chain next previous a (ys ++ (p ∷ zs)) z
    → (next p ≡ some (first zs z)) × (previous (first zs z) ≡ some p)
Chain-item next previous a p [] zs z (l, c) = Chain-place next previous p [] zs z c
Chain-item next previous a p (y ∷ ys) zs z (l, c) = Chain-item next previous y p ys zs z c

-- Other pointers that agree where the chain goes.
module _ (next previous next1 previous1 : Pointers) (p b : ℕ)
    (same_next : (q : ℕ) → q ≢ p → q ≢ b → next1 q ≡ next q) where
  module _ (c : ℕ) (same_previous : (q : ℕ) → q ≢ p → q ≢ c → previous1 q ≡ previous q) where
    pub Chain-frame :
        (a : ℕ) (xs : List ℕ) (z : ℕ)
        → Absent p (a ∷ (xs ++ (z ∷ [])))
        → Absent b (a ∷ xs)
        → Absent c (xs ++ (z ∷ []))
        → Chain next previous a xs z
        → Chain next1 previous1 a xs z
    Chain-frame a [] z (pa, (pz, pu)) (ba, bu) (cz, cu) (n, r) = (
      same_next a (λ e. pa (sym e)) (λ e. ba (sym e)) ∙ n,
      same_previous z (λ e. pz (sym e)) (λ e. cz (sym e)) ∙ r,
    )
    Chain-frame a (x ∷ xs) z (pa, (px, ps)) (ba, bs) (cx, cs) ((n, r), rest) = (
      (
        same_next a (λ e. pa (sym e)) (λ e. ba (sym e)) ∙ n,
        same_previous x (λ e. px (sym e)) (λ e. cx (sym e)) ∙ r,
      ),
      Chain-frame x xs z (px, ps) bs cs rest,
    )
