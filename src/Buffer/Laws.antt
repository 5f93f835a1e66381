-- ===== src/Buffer/Laws.antt =====
-- What the operations of src/reactor/buffer.c do to the bytes that a buffer holds.
use libreactor_refactor.Prelude.{
  append-nil, ℕ, ◌+◌, ◌-◌, ◌^◌, ◌≤◌, ◌<◌, true, false, none, some, [], ◌∷◌, ◌++◌, length, take,
  drop, replicate, ltb, ◌≡◌, refl, sym, ap, ◌∙◌, ◌⊎◌, inl, inr, arith, length-append, append_assoc,
  take-append-drop, length-take, take-append_left,
}
use native.Mathlib.Decide.{dec_lt}
use libreactor_refactor.Words.{word, sub64, sub64-eq, IsPowerAbove, roundup-IsPowerAbove, power-le}
use libreactor_refactor.Memory.{Memory}
use libreactor_refactor.Memory.Blocks.{front, take-pieces, realloc_more, length-realloc, memmove_up}
use libreactor_refactor.Buffer.Defs.{Buffer, buffer_roundup, buffer_reserve, make_gap, buffer_data}

pub record IsValid (b : Buffer) : Type 0 where
  pub full : length b.base ≡ b.capacity
  pub fits : b.size ≤ b.capacity
  pub small : b.capacity ≤ 2 ^ 63

-- `r` is `b` with room for `n` bytes and its bytes in place.
pub record IsReserved (b : Buffer) (n : ℕ) (r : Buffer) : Type 0 where
  pub valid : IsValid r
  pub room : n ≤ r.capacity
  pub size : r.size ≡ b.size
  pub bytes : buffer_data r ≡ buffer_data b
  pub capacity : (r.capacity ≡ b.capacity) ⊎ IsPowerAbove n r.capacity

buffer_data-grown : (m v : Memory) (s : ℕ) → s ≤ length m → take s (m ++ v) ≡ take s m
buffer_data-grown m v s le = take-append_left s m v le

-- `buffer_reserve` of at most 2 ^ 63 bytes on a valid buffer makes room for them: the capacity stays,
-- or is the least power of two that is not below the request. The size and the bytes stay.
pub buffer_reserve-IsReserved :
    (b : Buffer) (n : ℕ) → IsValid b → n ≤ 2 ^ 63 → IsReserved b n (buffer_reserve b n)
unfolding buffer_reserve buffer_roundup buffer_data
buffer_reserve-IsReserved b n v le = elim (dec_lt b.capacity n) [
  | no small ↦
      let test : ltb b.capacity n ≡ false = ground arith in
      rw test
        (record { valid = v; room = omega arith; size = refl; bytes = refl; capacity = inl refl })
  | yes big ↦
      let test : ltb b.capacity n ≡ true = ground arith in
      let power = roundup-IsPowerAbove n (omega arith) le in
      let above = power.above in
      let grown = realloc_more b.base (buffer_roundup n) (omega (arith, v.full)) in
      rw test (record {
        valid = record {
          full = length-realloc b.base (buffer_roundup n);
          fits = omega (arith, v.fits);
          small = power-le power;
        };
        room = above;
        size = refl;
        bytes =
            ap (take b.size) grown
            ∙ buffer_data-grown b.base (replicate (buffer_roundup n - length b.base) none) b.size
                (omega (arith, v.full, v.fits));
        capacity = inr power;
      })
]

-- The pieces of a valid buffer: its bytes `a` and `t`, and the rest of its block.
pub base-pieces :
    (b : Buffer) (a t : Memory)
    → IsValid b
    → buffer_data b ≡ a ++ t
    → (r : Memory) × (b.base ≡ a ++ (t ++ r))
      × (length a + length t ≡ b.size)
      × (b.size + length r ≡ b.capacity)
unfolding buffer_data
base-pieces b a t v e =
    let r = drop b.size b.base in
    let whole : b.base ≡ (a ++ t) ++ r =
      sym (take-append-drop b.size b.base) ∙ ap (λ (l : Memory). l ++ r) e in
    let counted : length b.base ≡ length a + length t + length r =
      ap length whole ∙ omega (arith, length-append (a ++ t) r, length-append a t) in
    let shown : b.size ≡ length a + length t =
      omega (arith, length-take b.size b.base, ap length e, length-append a t, v.full, v.fits) in
    (r, whole ∙ append_assoc a t r, sym shown, omega (arith, counted, v.full))

-- The bytes of a buffer whose block starts with them.
pub data-pieces :
    (l r : Memory) (s c : ℕ)
    → s ≡ length l
    → buffer_data (record { base = l ++ r; size = s; capacity = c }) ≡ l
unfolding buffer_data
data-pieces l r s c e = ap (λ (n : ℕ). take n (l ++ r)) e ∙ take-pieces l r

-- The gap of `n` bytes between `a` and `t`.
pub make_gap-pieces :
    (b : Buffer) (a t r : Memory) (n : ℕ)
    → b.base ≡ a ++ (t ++ r)
    → length a + length t ≡ b.size
    → b.size < word
    → n ≤ length r
    → (y : Memory) × (v : Memory) × (length y ≡ n)
      × (n + length v ≡ length r)
      × (make_gap b (length a) n ≡ some (a ++ (y ++ (t ++ v))))
unfolding make_gap
make_gap-pieces b a [] r n base size small le =
    let (y, v, split, ylen) = front r n le in
    let test : ltb (length a) b.size ≡ false = ground arith in
    let count : n + length v ≡ length r = omega (arith, ap length split, length-append y v) in
    (y, v, ylen, count, rw test (ap some (base ∙ ap (λ (l : Memory). a ++ l) split)))
make_gap-pieces b a (c ∷ t) r n base size small le =
    let test : ltb (length a) b.size ≡ true = ground arith in
    let rest : sub64 b.size (length a) ≡ length (c ∷ t) =
      sub64-eq b.size (length a) (omega arith) small ∙ omega arith in
    let (y, v, ylen, count, moved) = memmove_up a (c ∷ t) r n le in
    (y, v, ylen, count, rw (test, rest, base) moved)

-- The size of a valid buffer is that of its bytes.
pub size-data : (b : Buffer) → IsValid b → b.size ≡ length (buffer_data b)
size-data b v =
    let (r, base, size, rest) =
      base-pieces b (buffer_data b) [] v (sym (append-nil (buffer_data b))) in
    omega (arith, size)
