-- ===== src/Vector/Laws.antt =====
-- src/reactor/vector.c by the objects that a vector holds.
use libreactor_refactor.Prelude.{
  ℕ, ◌+◌, ◌*◌, ◌/◌, ◌^◌, ◌≤◌, ◌<◌, some, List, [], ◌∷◌, ◌++◌, length, ◌≡◌, refl, sym, ap, ◌∙◌,
  arith, length-append, append_assoc, append-nil,
}
use mathlib.Core.Path.{subst}
use native.Mathlib.Nat.{suc-mul, mul-div_cancel}
use libreactor_refactor.Words.{word, mul64, mul64-eq}
use libreactor_refactor.Memory.{Memory}
use libreactor_refactor.Buffer.{buffer_data, buffer_size, buffer_insert}
use libreactor_refactor.Buffer.Laws.{IsValid, base-pieces}
use libreactor_refactor.Buffer.Insert.{buffer_insert-Yields}
use libreactor_refactor.Vector.Defs.{
  Vector, with_buffer, vector_size, vector_insert, vector_push_back,
}

-- The bytes of objects that follow each other.
unfoldable pub join : List Memory → Memory
join [] = []
join (x ∷ xs) = x ++ join xs

-- Objects of `n` bytes.
pub data Sized (n : ℕ) : List Memory → Type 0 where
  none_left : Sized n []
  one_more : {x : Memory} {xs : List Memory} → length x ≡ n → Sized n xs → Sized n (x ∷ xs)

pub join-append : (xs ys : List Memory) → join (xs ++ ys) ≡ join xs ++ join ys
unfolding join
join-append [] ys = refl
join-append (x ∷ xs) ys =
    ap (λ (l : Memory). x ++ l) (join-append xs ys) ∙ sym (append_assoc x (join xs) (join ys))

length-join : (n : ℕ) (xs : List Memory) → Sized n xs → length (join xs) ≡ length xs * n
unfolding join
length-join n [] s = omega arith
length-join n (x ∷ xs) (Sized.one_more e s) =
    omega (arith, length-append x (join xs), length-join n xs s, suc-mul (length xs) n, e)

pub Sized-split : (n : ℕ) (xs ys : List Memory) → Sized n (xs ++ ys) → Sized n xs × Sized n ys
Sized-split n [] ys s = (Sized.none_left, s)
Sized-split n (x ∷ xs) ys (Sized.one_more e s) =
    let (a, b) = Sized-split n xs ys s in (Sized.one_more e a, b)

pub Sized-append : (n : ℕ) (xs ys : List Memory) → Sized n xs → Sized n ys → Sized n (xs ++ ys)
Sized-append n [] ys s t = t
Sized-append n (x ∷ xs) ys (Sized.one_more e s) t = Sized.one_more e (Sized-append n xs ys s t)

-- The vector holds these objects, in this order.
pub record Holds (v : Vector) (xs : List Memory) : Type 0 where
  pub valid : IsValid v.buffer
  pub positive : 0 < v.object_size
  pub sized : Sized v.object_size xs
  pub bytes : buffer_data v.buffer ≡ join xs

-- The place of the object behind `xs`.
pub place :
    (v : Vector) (xs ys : List Memory)
    → Holds v (xs ++ ys)
    → (length (join xs) ≡ mul64 (length xs) v.object_size)
      × (length (join xs) + length (join ys) ≡ v.buffer.size)
place v xs ys h =
    let (sx, sy) = Sized-split v.object_size xs ys h.sized in
    let (r, base, size, rest) =
      base-pieces v.buffer (join xs) (join ys) h.valid (h.bytes ∙ join-append xs ys) in
    let len = length-join v.object_size xs sx in
    let small : length xs * v.object_size < word =
      omega (arith, len, size, h.valid.fits, h.valid.small) in
    (len ∙ sym (mul64-eq (length xs) v.object_size small), size)

-- `vector_size` counts the objects.
pub vector_size-Holds : (v : Vector) (xs : List Memory) → Holds v xs → vector_size v ≡ length xs
unfolding vector_size buffer_size join
vector_size-Holds v xs h =
    let same : Holds v (xs ++ []) = subst (Holds v) (sym (append-nil xs)) h in
    let (at, size) = place v xs [] same in
    let len = length-join v.object_size xs h.sized in
    let whole : v.buffer.size ≡ length xs * v.object_size = omega (arith, size, len) in
    ap (λ (n : ℕ). n / v.object_size) whole ∙ mul-div_cancel (length xs) h.positive

-- `vector_insert` of an object behind the objects `xs`, where the result has at most 2 ^ 63 bytes:
-- it succeeds, and the vector then holds `xs`, the object, and what followed `xs`.
pub vector_insert-Holds :
    (v : Vector) (xs ys : List Memory) (x : Memory)
    → Holds v (xs ++ ys)
    → length x ≡ v.object_size
    → v.buffer.size + v.object_size ≤ 2 ^ 63
    → (w : Vector) × (vector_insert v (length xs) x ≡ some w) × Holds w (xs ++ (x ∷ ys))
unfolding vector_insert with_buffer join
vector_insert-Holds v xs ys x h e le =
    let (at, size) = place v xs ys h in
    let (sx, sy) = Sized-split v.object_size xs ys h.sized in
    let y =
      buffer_insert-Yields v.buffer (join xs) (join ys) x h.valid (h.bytes ∙ join-append xs ys)
        (omega (arith, size, e)) in
    let ends : buffer_insert v.buffer (mul64 (length xs) v.object_size) x ≡ some y.final =
      ap (λ (n : ℕ). buffer_insert v.buffer n x) (sym at) ∙ y.ends in
    (
      record v { buffer = y.final },
      rw ends refl,
      record {
        valid = y.valid;
        positive = h.positive;
        sized = Sized-append v.object_size xs (x ∷ ys) sx (Sized.one_more e sy);
        bytes = y.holds ∙ sym (join-append xs (x ∷ ys));
      },
    )

-- `vector_push_back` of an object, where the result has at most 2 ^ 63 bytes, succeeds, and the
-- vector then holds the object last.
pub vector_push_back-Holds :
    (v : Vector) (xs : List Memory) (x : Memory)
    → Holds v xs
    → length x ≡ v.object_size
    → v.buffer.size + v.object_size ≤ 2 ^ 63
    → (w : Vector) × (vector_push_back v x ≡ some w) × Holds w (xs ++ (x ∷ []))
unfolding vector_push_back vector_insert buffer_size join
vector_push_back-Holds v xs x h e le =
    let same : Holds v (xs ++ []) = subst (Holds v) (sym (append-nil xs)) h in
    let (at, size) = place v xs [] same in
    let (w, run, held) = vector_insert-Holds v xs [] x same e le in
    let end : v.buffer.size ≡ mul64 (length xs) v.object_size = omega (arith, at, size) in
    (w, ap (λ (n : ℕ). with_buffer v (buffer_insert v.buffer n x)) end ∙ run, held)
