-- ===== src/Pool/Laws.antt =====
-- src/reactor/pool.c: no object is lost, and none is handed out twice.
use libreactor_refactor.Prelude.{
  ℕ, zero, suc, ◌+◌, ◌*◌, ◌<◌, some, true, false, List, [], ◌∷◌, ◌++◌, length, ◌==◌, ◌⊎◌, inl, inr,
  ◌≡◌, refl, sym, ap, ◌∙◌, arith, append_assoc, length-append,
}
use mathlib.Core.Path.{subst}
use mathlib.Core.List.{Perm, Permᴰ, Mem, Nodup, Nodup-cons}
use mathlib.Core.List.Nodup as Nodup
use mathlib.Core.List.Perm as Permutation
use mathlib.Core.Logic.{∥∥₁_elim}
use native.Mathlib.Nat.{ℕ_set}
use libreactor_refactor.Words.{word, add64, sub64, add64-eq, sub64-eq}
use libreactor_refactor.Pool.Defs.{
  Pool, chunk_size, push_back, take_back, carve, refill, pool_malloc, pool_free,
}

length-perm_of : {xs ys : List ℕ} → Permᴰ xs ys → length xs ≡ length ys
length-perm_of Permᴰ.nil = refl
length-perm_of (Permᴰ.cons e p) = ap suc (length-perm_of p)
length-perm_of (Permᴰ.swap e f) = refl
length-perm_of (Permᴰ.trans p q) = length-perm_of p ∙ length-perm_of q

length-perm : {xs ys : List ℕ} → Perm xs ys → length xs ≡ length ys
length-perm {xs} {ys} p = ∥∥₁_elim p (ℕ_set (length xs) (length ys)) length-perm_of

pub List-cases : (xs : List ℕ) → (xs ≡ []) ⊎ ((y : ℕ) × (ys : List ℕ) × (xs ≡ y ∷ ys))
List-cases [] = inl refl
List-cases (y ∷ ys) = inr (y, ys, refl)

-- The last of a list that is not empty.
take_back-split :
    (x : ℕ) (xs : List ℕ)
    → (rest : List ℕ) × (o : ℕ) × (take_back (x ∷ xs) ≡ some (rest, o))
      × (x ∷ xs ≡ rest ++ (o ∷ []))
unfolding take_back
take_back-split x [] = ([], x, refl, refl)
take_back-split x (y ∷ ys) =
    let (rest, o, run, split) = take_back-split y ys in
    (x ∷ rest, o, rw run refl, ap (λ (l : List ℕ). x ∷ l) split)

pub length-carve :
    (rounds i base size : ℕ) (free : List ℕ)
    → length (carve rounds i base size free) ≡ rounds + length free
unfolding carve push_back
length-carve zero i base size free = omega arith
length-carve (suc rounds) i base size free = omega (
  arith,
  length-carve rounds (suc i) base size (free ++ ((base + i * size) ∷ [])),
  length-append free ((base + i * size) ∷ []),
)

module _ (chunk : ℕ → ℕ) where
  -- All the objects of the first `n` chunks.
  unfoldable pub objects : ℕ → ℕ → List ℕ
  unfolding carve
  objects size zero = []
  objects size (suc n) = carve chunk_size 0 (chunk n) size [] ++ objects size n

  -- The free objects and those in use are just the objects of the chunks, each once.
  pub record IsValid (p : Pool) (used : List ℕ) : Type 0 where
    pub all : Perm (p.free ++ used) (objects p.size p.chunks)
    pub count : p.allocated ≡ length used

  refill_full : (p : Pool) (x : ℕ) (xs : List ℕ) → p.free ≡ x ∷ xs → refill chunk p ≡ p
  unfolding refill
  refill_full p x xs e =
      let test : (length p.free == 0) ≡ false = ground (arith, ap length e) in rw test refl

  -- What `refill` leaves: a pool with free objects, and the same objects in use.
  record Refilled (p : Pool) (used : List ℕ) : Type 0 where
    first : ℕ
    others : List ℕ
    free : (refill chunk p).free ≡ first ∷ others
    valid : IsValid (refill chunk p) used
    size : (refill chunk p).size ≡ p.size

  -- `cs` is the new chunk.
  refill_empty :
      (p : Pool) (used cs : List ℕ)
      → IsValid p used
      → p.free ≡ []
      → carve chunk_size 0 (chunk p.chunks) p.size [] ≡ cs
      → length cs ≡ 128
      → Refilled p used
  unfolding refill objects
  refill_empty p used [] v e made n = absurd (omega (arith, n))
  refill_empty p used (c ∷ cs) v e made n =
      let test : (length p.free == 0) ≡ true = ground (arith, ap length e) in
      let old : Perm used (objects p.size p.chunks) =
        subst (λ (l : List ℕ). Perm (l ++ used) (objects p.size p.chunks)) e v.all in
      let whole : Perm ((c ∷ cs) ++ used) ((c ∷ cs) ++ objects p.size p.chunks) =
        Permutation.append_left (c ∷ cs) old in
      record {
        first = c;
        others = cs;
        free = rw (test, e) made;
        valid = rw test (record {
          all =
              subst
                (λ (l : List ℕ).
                  Perm (carve chunk_size 0 (chunk p.chunks) p.size p.free ++ used)
                    (l ++ objects p.size p.chunks))
                (sym made)
                (subst
                  (λ (l : List ℕ).
                    Perm (carve chunk_size 0 (chunk p.chunks) p.size l ++ used)
                      ((c ∷ cs) ++ objects p.size p.chunks))
                  (sym e)
                  (subst (λ (l : List ℕ). Perm (l ++ used) ((c ∷ cs) ++ objects p.size p.chunks))
                    (sym made) whole));
          count = v.count;
        });
        size = rw test refl;
      }

  refilled : (p : Pool) (used : List ℕ) → IsValid p used → Refilled p used
  refilled p used v = elim (List-cases p.free) [
    | inr (x, xs, e) ↦
        let same = refill_full p x xs e in
        record {
          first = x;
          others = xs;
          free = ap (λ (q : Pool). q.free) same ∙ e;
          valid = subst (λ (q : Pool). IsValid q used) (sym same) v;
          size = ap (λ (q : Pool). q.size) same;
        }
    | inl e ↦
        refill_empty p used (carve chunk_size 0 (chunk p.chunks) p.size []) v e refl
          (length-carve chunk_size 0 (chunk p.chunks) p.size [])
  ]

  -- `pool_malloc` on a valid pool with fewer than 2 ^ 64 - 1 objects in use, whose chunks do not overlap,
  -- succeeds; the pool stays valid, and the object is now in use and was not before.
  pub pool_malloc-IsValid :
      (p : Pool) (used : List ℕ)
      → IsValid p used
      → length used + 1 < word
      → Nodup (objects p.size (refill chunk p).chunks)
      → (q : Pool) × (o : ℕ) × (pool_malloc chunk p ≡ some (q, o))
        × IsValid q (o ∷ used)
        × (¬ Mem o used)
  unfolding pool_malloc
  pool_malloc-IsValid p used v small apart =
      let w = refilled p used v in
      let q = refill chunk p in
      let (rest, o, run, split) = take_back-split w.first w.others in
      let last : take_back q.free ≡ some (rest, o) = ap take_back w.free ∙ run in
      let place : q.free ++ used ≡ rest ++ (o ∷ used) =
        ap (λ (l : List ℕ). l ++ used) (w.free ∙ split) ∙ append_assoc rest (o ∷ []) used in
      let all : Perm (rest ++ (o ∷ used)) (objects q.size q.chunks) =
        subst (λ (l : List ℕ). Perm l (objects q.size q.chunks)) place w.valid.all in
      let distinct : Nodup (objects q.size q.chunks) =
        subst (λ (s : ℕ). Nodup (objects s q.chunks)) (sym w.size) apart in
      let tail : Nodup (o ∷ used) =
        Nodup.of_append_right rest (Permutation.nodup (Permutation.symm all) distinct) in
      (
        record q { free = rest; allocated = add64 q.allocated 1 },
        o,
        rw last refl,
        record {
          all = all;
          count =
              ap (λ (k : ℕ). add64 k 1) w.valid.count
              ∙ add64-eq (length used) 1 small
              ∙ omega arith;
        },
        (Nodup-cons.0 tail).0,
      )

-- `pool_free` of an object in use keeps the pool valid, and the object is then free.
pub pool_free-IsValid :
    (chunk : ℕ → ℕ) (p : Pool) (used left : List ℕ) (o : ℕ)
    → IsValid chunk p used
    → Perm used (o ∷ left)
    → length used < word
    → IsValid chunk (pool_free p o) left
unfolding pool_free push_back
pool_free-IsValid chunk p used left o v at small =
    let n = length-perm at in
    let moved : Perm (p.free ++ (o ∷ left)) (objects chunk p.size p.chunks) =
      Permutation.trans (Permutation.append_left p.free (Permutation.symm at)) v.all in
    record {
      all =
          subst (λ (l : List ℕ). Perm l (objects chunk p.size p.chunks))
            (sym (append_assoc p.free (o ∷ []) left)) moved;
      count =
          ap (λ (k : ℕ). sub64 k 1) v.count
          ∙ sub64-eq (length used) 1 (omega (arith, n)) small
          ∙ omega (arith, n);
    }
