-- ===== src/Vector/Erase.antt =====
-- The erasures of src/reactor/vector.c.
use libreactor_refactor.Prelude.{
  ℕ, ◌+◌, ◌<◌, Bool, true, false, some, List, [], ◌∷◌, ◌++◌, length, if◌then◌else◌, ◌≡◌, refl, sym,
  ap, ap₂, ◌∙◌, arith, length-append, append_assoc,
}
use libreactor_refactor.Words.{word, mul64, sub64, sub64-eq}
use libreactor_refactor.Memory.{Memory, load}
use libreactor_refactor.Memory.Blocks.{load-pieces}
use libreactor_refactor.Buffer.{buffer_at, buffer_erase}
use libreactor_refactor.Buffer.Laws.{base-pieces}
use libreactor_refactor.Buffer.Insert.{buffer_erase-Yields}
use libreactor_refactor.Vector.Defs.{
  Vector, with_buffer, object_at, vector_at, vector_size, released, vector_erase, vector_pop_back,
}
use libreactor_refactor.Vector.Laws.{
  Sized, join, join-append, Sized-split, Sized-append, Holds, place, vector_size-Holds,
}

Sized-cons :
    {n : ℕ} {x : Memory} {ys : List Memory} → Sized n (x ∷ ys) → (length x ≡ n) × Sized n ys
Sized-cons (Sized.one_more e s) = (e, s)

module _ (v : Vector) (xs ys : List Memory) (x : Memory) (h : Holds v (xs ++ (x ∷ ys))) where
  one_released : released v (length xs) 1 ≡ some (x ∷ [])
  unfolding released vector_at object_at buffer_at join
  one_released =
      let (at, size) = place v xs (x ∷ ys) h in
      let (sx, sxy) = Sized-split v.object_size xs (x ∷ ys) h.sized in
      let (e, sy) = Sized-cons sxy in
      let (r, base, _, _) =
        base-pieces v.buffer (join xs) (join (x ∷ ys)) h.valid
          (h.bytes ∙ join-append xs (x ∷ ys)) in
      let parts : v.buffer.base ≡ join xs ++ (x ++ (join ys ++ r)) =
        base ∙ ap (λ (l : Memory). join xs ++ l) (append_assoc x (join ys) r) in
      let loaded : load v.buffer.base (mul64 (length xs) v.object_size) v.object_size ≡ some x =
        ap (λ (m : Memory). load m (mul64 (length xs) v.object_size) v.object_size) parts
        ∙ ap₂ (λ (p n : ℕ). load (join xs ++ (x ++ (join ys ++ r))) p n) (sym at) (sym e)
        ∙ load-pieces (join xs) x (join ys ++ r) in
      rw loaded refl

  what_released :
      (release : Bool)
      → (if release then released v (length xs) 1 else some [])
        ≡ some (if release then x ∷ [] else [])
  what_released true = one_released
  what_released false = refl

  -- `vector_erase` at the place of an object succeeds and releases that object, if this is asked for;
  -- the vector then holds the others.
  pub vector_erase-Holds :
      (release : Bool)
      → (w : Vector) × (vector_erase v (length xs) release
          ≡ some (w, if release then x ∷ [] else []))
        × Holds w (xs ++ ys)
  unfolding vector_erase with_buffer join
  vector_erase-Holds release =
      let (at, size) = place v xs (x ∷ ys) h in
      let (sx, sxy) = Sized-split v.object_size xs (x ∷ ys) h.sized in
      let (e, sy) = Sized-cons sxy in
      let y =
        buffer_erase-Yields v.buffer (join xs) x (join ys) h.valid
          (h.bytes ∙ join-append xs (x ∷ ys)) in
      let ends : buffer_erase v.buffer (mul64 (length xs) v.object_size) v.object_size
          ≡ some y.final =
        ap₂ (λ (p n : ℕ). buffer_erase v.buffer p n) (sym at) (sym e) ∙ y.ends in
      (
        record v { buffer = y.final },
        rw (what_released release, ends) refl,
        record {
          valid = y.valid;
          positive = h.positive;
          sized = Sized-append v.object_size xs ys sx sy;
          bytes = y.holds ∙ sym (join-append xs ys);
        },
      )

-- `vector_pop_back` of a vector that is not empty succeeds and releases the last object, if this is
-- asked for; the vector then holds the others.
pub vector_pop_back-Holds :
    (v : Vector) (xs : List Memory) (x : Memory) (release : Bool)
    → Holds v (xs ++ (x ∷ []))
    → length xs + 1 < word
    → (w : Vector) × (vector_pop_back v release ≡ some (w, if release then x ∷ [] else []))
      × Holds w (xs ++ [])
unfolding vector_pop_back
vector_pop_back-Holds v xs x release h small =
    let count = vector_size-Holds v (xs ++ (x ∷ [])) h in
    let last : sub64 (vector_size v) 1 ≡ length xs =
      ap (λ (n : ℕ). sub64 n 1) (count ∙ length-append xs (x ∷ []))
      ∙ sub64-eq (length xs + 1) 1 (omega arith) small
      ∙ omega arith in
    rw last (vector_erase-Holds v xs [] x h release)
