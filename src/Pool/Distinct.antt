-- ===== src/Pool/Distinct.antt =====
-- A test for lists of addresses without repetition.
use libreactor_refactor.Prelude.{
  ℕ, Bool, true, false, List, [], ◌∷◌, ◌==◌, if◌then◌else◌, ◌≡◌, inl, inr, sym, ◌∙◌, arith,
  Bool-cases,
}
use mathlib.Core.Bool.{false≢true}
use mathlib.Core.List.{Memᴰ, Nodup, Nodup-cons}
use mathlib.Core.List.Pairwise as Pairwise
use mathlib.Core.Logic.{∥∥₁_elim}
use mathlib.Core.HLevel.{⊥_prop}

abbrev pub occurs : ℕ → List ℕ → Bool
occurs x [] = false
occurs x (y ∷ ys) = if x == y then true else occurs x ys

abbrev pub distinct : List ℕ → Bool
distinct [] = true
distinct (x ∷ xs) = if occurs x xs then false else distinct xs

Memᴰ-occurs : (x : ℕ) (xs : List ℕ) → Memᴰ x xs → occurs x xs ≡ true
Memᴰ-occurs x [] m = elim m [ ]
Memᴰ-occurs x (y ∷ ys) (Memᴰ.head e) = ground (arith, e)
Memᴰ-occurs x (y ∷ ys) (Memᴰ.tail m) = ground (arith, Memᴰ-occurs x ys m)

pub distinct-Nodup : (xs : List ℕ) → distinct xs ≡ true → Nodup xs
distinct-Nodup [] h = Pairwise.nil
distinct-Nodup (x ∷ xs) h = elim (Bool-cases (occurs x xs)) [
  | inl twice ↦ absurd (false≢true (ground (arith, twice, h)))
  | inr once ↦ Nodup-cons.1 (
    λ m. ∥∥₁_elim m ⊥_prop (λ d. false≢true (sym once ∙ Memᴰ-occurs x xs d)),
    distinct-Nodup xs (ground (arith, once, h)),
  )
]
