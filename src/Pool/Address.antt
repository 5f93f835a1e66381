-- ===== src/Pool/Address.antt =====
-- src/reactor/pool.c: where no chunk is at the address 0, `pool_malloc` returns, and not NULL.
use libreactor_refactor.Prelude.{
  ℕ, zero, suc, ◌+◌, ◌*◌, ◌≡◌, ◌≢◌, some, true, false, List, [], ◌∷◌, ◌++◌, length, ◌==◌, refl, ap,
  ◌∙◌, arith, inl, inr,
}
use mathlib.Core.Path.{subst}
use libreactor_refactor.Words.{add64}
use libreactor_refactor.Pool.Defs.{
  Pool, chunk_size, push_back, take_back, carve, refill, pool_malloc,
}
use libreactor_refactor.Pool.Laws.{length-carve, List-cases}

abbrev pub NonZero : List ℕ → Type 0
NonZero [] = Unit
NonZero (x ∷ xs) = (x ≢ 0) × NonZero xs

pub NonZero-append : (xs ys : List ℕ) → NonZero xs → NonZero ys → NonZero (xs ++ ys)
NonZero-append [] ys hx hy = hy
NonZero-append (x ∷ xs) ys hx hy = (hx.0, NonZero-append xs ys hx.1 hy)

NonZero-carve :
    (rounds i base size : ℕ) (free : List ℕ)
    → base ≢ 0
    → NonZero free
    → NonZero (carve rounds i base size free)
unfolding carve push_back
NonZero-carve zero i base size free n h = h
NonZero-carve (suc rounds) i base size free n h =
    NonZero-carve rounds (suc i) base size (free ++ ((base + i * size) ∷ [])) n
      (NonZero-append free ((base + i * size) ∷ []) h ((λ e. absurd (n (omega (arith, e)))), tt))

take_back-NonZero :
    (x : ℕ) (xs : List ℕ)
    → NonZero (x ∷ xs)
    → (rest : List ℕ) × (o : ℕ) × (take_back (x ∷ xs) ≡ some (rest, o)) × NonZero rest × (o ≢ 0)
unfolding take_back
take_back-NonZero x [] h = ([], x, refl, tt, h.0)
take_back-NonZero x (y ∷ ys) h =
    let (rest, o, run, r, n) = take_back-NonZero y ys h.1 in (x ∷ rest, o, rw run refl, (h.0, r), n)

module _ (chunk : ℕ → ℕ) (placed : (n : ℕ) → chunk n ≢ 0) where
  from_free :
      (p : Pool) (x : ℕ) (xs : List ℕ)
      → (refill chunk p).free ≡ x ∷ xs
      → NonZero (x ∷ xs)
      → (q : Pool) × (o : ℕ) × (pool_malloc chunk p ≡ some (q, o)) × NonZero q.free × (o ≢ 0)
  unfolding pool_malloc
  from_free p x xs e h =
      let (rest, o, run, r, n) = take_back-NonZero x xs h in
      let q = refill chunk p in
      let last : take_back q.free ≡ some (rest, o) = ap take_back e ∙ run in
      (record q { free = rest; allocated = add64 q.allocated 1 }, o, rw last refl, r, n)

  from_chunk :
      (p : Pool) (cs : List ℕ)
      → p.free ≡ []
      → carve chunk_size 0 (chunk p.chunks) p.size [] ≡ cs
      → length cs ≡ 128
      → NonZero cs
      → (q : Pool) × (o : ℕ) × (pool_malloc chunk p ≡ some (q, o)) × NonZero q.free × (o ≢ 0)
  unfolding refill
  from_chunk p [] e made n h = absurd (omega (arith, n))
  from_chunk p (c ∷ cs) e made n h =
      let test : (length p.free == 0) ≡ true = ground (arith, ap length e) in
      from_free p c cs (rw (test, e) made) h

  pub pool_malloc-NonZero :
      (p : Pool)
      → NonZero p.free
      → (q : Pool) × (o : ℕ) × (pool_malloc chunk p ≡ some (q, o)) × NonZero q.free × (o ≢ 0)
  unfolding refill
  pool_malloc-NonZero p h = elim (List-cases p.free) [
    | inr (x, xs, e) ↦
        let test : (length p.free == 0) ≡ false = ground (arith, ap length e) in
        from_free p x xs (rw test e) (subst NonZero e h)
    | inl e ↦
        from_chunk p (carve chunk_size 0 (chunk p.chunks) p.size []) e refl
          (length-carve chunk_size 0 (chunk p.chunks) p.size [])
          (NonZero-carve chunk_size 0 (chunk p.chunks) p.size [] (placed p.chunks) tt)
  ]
