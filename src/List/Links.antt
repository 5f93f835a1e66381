-- ===== src/List/Links.antt =====
-- An item is put into a chain, or taken out of it.
use libreactor_refactor.Prelude.{ℕ, some, List, [], ◌∷◌, ◌++◌, ◌≡◌, ◌≢◌, sym, ap, ◌∙◌}
use mathlib.Core.Path.{subst}
use libreactor_refactor.List.Chain.{
  Pointers, Absent, Distinct, last, first, Chain, Chain-frame, Absent-append,
}

pub Absent-last : (x y : ℕ) (ys zs : List ℕ) → Absent x (y ∷ (ys ++ zs)) → x ≢ last y ys
Absent-last x y [] zs (n, a) = n
Absent-last x y (w ∷ ys) zs (n, a) = Absent-last x w ys zs a

pub Absent-first :
    (x : ℕ) (ys zs : List ℕ) (z : ℕ) → Absent x ((ys ++ zs) ++ (z ∷ [])) → x ≢ first zs z
Absent-first x [] [] z (n, a) = n
Absent-first x [] (w ∷ zs) z (n, a) = n
Absent-first x (y ∷ ys) zs z (n, a) = Absent-first x ys zs z a

pub Distinct-rotate : (l : ℕ) (xs : List ℕ) → Distinct (l ∷ xs) → Distinct (xs ++ (l ∷ []))
Distinct-rotate l [] d = (tt, tt)
Distinct-rotate l (x ∷ xs) ((n, a), (b, d)) =
    (Absent-append x xs (l ∷ []) b ((λ e. n (sym e)), tt), Distinct-rotate l xs (a, d))

-- The pointers change at `p`, at `b` before it and at `c` behind it only.
module _ (next previous next1 previous1 : Pointers) (p b c : ℕ)
    (same_next : (q : ℕ) → q ≢ p → q ≢ b → next1 q ≡ next q)
    (same_previous : (q : ℕ) → q ≢ p → q ≢ c → previous1 q ≡ previous q) where
  -- The rest of a chain behind the place.
  rest-Chain :
      (a x : ℕ) (zs : List ℕ) (z : ℕ)
      → a ≡ b
      → x ≡ c
      → Absent p (x ∷ (zs ++ (z ∷ [])))
      → Distinct (a ∷ x ∷ zs)
      → Distinct (x ∷ (zs ++ (z ∷ [])))
      → Chain next previous x zs z
      → Chain next1 previous1 x zs z
  rest-Chain a x zs z e f absent (da, ds) (tx, ts) rest =
      Chain-frame next previous next1 previous1 p b same_next c same_previous x zs z absent
        (subst (λ (k : ℕ). Absent k (x ∷ zs)) e da)
        (subst (λ (k : ℕ). Absent k (zs ++ (z ∷ []))) f tx) rest

  -- A link before the place.
  same-link :
      (a y : ℕ) (ys zs : List ℕ) (z : ℕ)
      → last y ys ≡ b
      → first zs z ≡ c
      → a ≢ p
      → y ≢ p
      → Absent a (y ∷ (ys ++ zs))
      → Absent y ((ys ++ zs) ++ (z ∷ []))
      → (next a ≡ some y) × (previous y ≡ some a)
      → (next1 a ≡ some y) × (previous1 y ≡ some a)
  same-link a y ys zs z e f na ny aa ay (n, r) = (
    same_next a na (λ g. Absent-last a y ys zs aa (g ∙ sym e)) ∙ n,
    same_previous y ny (λ g. Absent-first y ys zs z ay (g ∙ sym f)) ∙ r,
  )

  pub insert-Chain :
      (next1 p ≡ some c) × (previous1 p ≡ some b)
      → (next1 b ≡ some p) × (previous1 c ≡ some p)
      → (a : ℕ) (ys zs : List ℕ) (z : ℕ) → last a ys ≡ b
      → first zs z ≡ c
      → Absent p (a ∷ ((ys ++ zs) ++ (z ∷ [])))
      → Distinct (a ∷ (ys ++ zs))
      → Distinct ((ys ++ zs) ++ (z ∷ []))
      → Chain next previous a (ys ++ zs) z
      → Chain next1 previous1 a (ys ++ (p ∷ zs)) z
  insert-Chain (np, pp) (nb, pc) a [] [] z e f absent d t chain =
      ((ap next1 e ∙ nb, pp ∙ ap some (sym e)), (np ∙ ap some (sym f), ap previous1 f ∙ pc))
  insert-Chain (np, pp) (nb, pc) a [] (x ∷ zs) z e f (pa, absent) d t (link, chain) = (
    (ap next1 e ∙ nb, pp ∙ ap some (sym e)),
    ((np ∙ ap some (sym f), ap previous1 f ∙ pc), rest-Chain a x zs z e f absent d t chain),
  )
  insert-Chain at_p at_sides a (y ∷ ys) zs z e f (pa, (py, absent)) (da, ds) (ty, ts)
        (link, chain) =
      (
        same-link a y ys zs z e f (λ g. pa (sym g)) (λ g. py (sym g)) da ty link,
        insert-Chain at_p at_sides y ys zs z e f (py, absent) ds ts chain,
      )

  pub erase-Chain :
      (next1 b ≡ some c) × (previous1 c ≡ some b)
      → (a : ℕ) (ys zs : List ℕ) (z : ℕ) → last a ys ≡ b
      → first zs z ≡ c
      → Absent p (a ∷ ((ys ++ zs) ++ (z ∷ [])))
      → Distinct (a ∷ (ys ++ zs))
      → Distinct ((ys ++ zs) ++ (z ∷ []))
      → Chain next previous a (ys ++ (p ∷ zs)) z
      → Chain next1 previous1 a (ys ++ zs) z
  erase-Chain (nb, pc) a [] [] z e f absent d t chain =
      (ap next1 e ∙ nb ∙ ap some (sym f), ap previous1 f ∙ pc ∙ ap some (sym e))
  erase-Chain (nb, pc) a [] (x ∷ zs) z e f (pa, absent) d t (link, (link1, chain)) = (
    (ap next1 e ∙ nb ∙ ap some (sym f), ap previous1 f ∙ pc ∙ ap some (sym e)),
    rest-Chain a x zs z e f absent d t chain,
  )
  erase-Chain at_sides a (y ∷ ys) zs z e f (pa, (py, absent)) (da, ds) (ty, ts) (link, chain) = (
    same-link a y ys zs z e f (λ g. pa (sym g)) (λ g. py (sym g)) da ty link,
    erase-Chain at_sides y ys zs z e f (py, absent) ds ts chain,
  )
