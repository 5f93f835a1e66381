-- ===== src/Buffer/Insert.antt =====
-- The insertions and the erasure of src/reactor/buffer.c, by the bytes that a buffer holds.
use libreactor_refactor.Prelude.{
  ℕ, zero, suc, ◌+◌, ◌*◌, ◌^◌, ◌≤◌, ◌<◌, Option, some, [], ◌∷◌, ◌++◌, length, ◌≡◌, refl, sym, ap,
  ◌∙◌, arith, length-append, append_assoc,
}
use native.Mathlib.Nat.{suc-mul, add-mul}
use libreactor_refactor.Words.{word, add64, sub64, mul64, add64-eq, sub64-eq, mul64-eq}
use libreactor_refactor.Memory.{Memory, store}
use libreactor_refactor.Memory.Blocks.{front, store-pieces, memmove_down}
use libreactor_refactor.Buffer.Defs.{
  Buffer, buffer_reserve, inserted, inserted_fill, buffer_insert, fill_from, buffer_insert_fill,
  buffer_erase, buffer_data,
}
use libreactor_refactor.Buffer.Laws.{
  IsValid, buffer_reserve-IsReserved, base-pieces, data-pieces, make_gap-pieces,
}

-- A run that ends in a valid buffer which holds just these bytes.
pub record Yields (run : Option Buffer) (bytes : Memory) : Type 0 where
  pub final : Buffer
  pub ends : run ≡ some final
  pub valid : IsValid final
  pub holds : buffer_data final ≡ bytes

-- A buffer that holds `l` at the start of its block.
pub Yields-front :
    (run : Option Buffer) (l r : Memory) (b : Buffer) (s : ℕ)
    → run ≡ some (record b { base = l ++ r; size = s })
    → s ≡ length l
    → length l + length r ≡ b.capacity
    → b.capacity ≤ 2 ^ 63
    → Yields run l
Yields-front run l r b s e size full small = record {
  final = record b { base = l ++ r; size = s };
  ends = e;
  valid = record { full = length-append l r ∙ full; fits = omega arith; small = small };
  holds = data-pieces l r s b.capacity size;
}

-- The insertion into a buffer that has the room.
inserted-Yields :
    (b : Buffer) (a t x : Memory)
    → IsValid b
    → buffer_data b ≡ a ++ t
    → b.size + length x ≤ b.capacity
    → Yields (inserted b (length a) x) (a ++ (x ++ t))
unfolding inserted
inserted-Yields b a t x v e room =
    let (r, base, size, rest) = base-pieces b a t v e in
    let (y, v', ylen, count, gap) =
      make_gap-pieces b a t r (length x) base size (omega (arith, v.small, v.fits))
        (omega (arith, room, rest)) in
    let filled = store-pieces a y (t ++ v') x ylen in
    let sum = add64-eq b.size (length x) (omega (arith, v.small)) in
    let whole : a ++ (x ++ (t ++ v')) ≡ (a ++ (x ++ t)) ++ v' =
      ap (λ (l : Memory). a ++ l) (sym (append_assoc x t v')) ∙ sym (append_assoc a (x ++ t) v') in
    Yields-front (inserted b (length a) x) (a ++ (x ++ t)) v' b (add64 b.size (length x))
      (rw (gap, filled)
        (ap (λ (m : Memory). some (record b { base = m; size = add64 b.size (length x) })) whole))
      (sum ∙ omega (arith, size, length-append a (x ++ t), length-append x t))
      (omega (arith, size, rest, count, length-append a (x ++ t), length-append x t)) v.small

-- `buffer_insert` of the bytes `x` behind the first bytes `a` of a valid buffer, where the result
-- has at most 2 ^ 63 bytes: it succeeds, the buffer stays valid, and it then holds `a`, `x`, and
-- what followed `a`.
pub buffer_insert-Yields :
    (b : Buffer) (a t x : Memory)
    → IsValid b
    → buffer_data b ≡ a ++ t
    → length a + length t + length x ≤ 2 ^ 63
    → Yields (buffer_insert b (length a) x) (a ++ (x ++ t))
unfolding buffer_insert
buffer_insert-Yields b a t x v e le =
    let (r, base, size, rest) = base-pieces b a t v e in
    let sum = add64-eq b.size (length x) (omega (arith, size)) in
    let p = buffer_reserve-IsReserved b (add64 b.size (length x)) v (omega (arith, sum, size)) in
    inserted-Yields (buffer_reserve b (add64 b.size (length x))) a t x p.valid (p.bytes ∙ e)
      (omega (arith, p.room, p.size, sum))

-- So many copies of the bytes `x`.
abbrev pub copies : ℕ → Memory → Memory
copies zero x = []
copies (suc count) x = x ++ copies count x

length-copies : (count : ℕ) (x : Memory) → length (copies count x) ≡ count * length x
length-copies zero x = omega arith
length-copies (suc count) x =
    omega (arith, length-append x (copies count x), length-copies count x, suc-mul count (length x))

-- The loop of `buffer_insert_fill` over the piece `y` behind `a`.
fill_from-copies :
    (rounds i p : ℕ) (a y w x : Memory)
    → length a ≡ p + i * length x
    → length y ≡ rounds * length x
    → (i + rounds) * length x < word
    → fill_from rounds i (a ++ (y ++ w)) p x ≡ some (a ++ (copies rounds x ++ w))
unfolding fill_from
fill_from-copies zero i p a [] w x at_i left small = refl
fill_from-copies zero i p a (c ∷ y) w x at_i left small = absurd (omega arith)
fill_from-copies (suc rounds) i p a y w x at_i left small =
    let n = length x in
    let more = suc-mul rounds n in
    let spread = add-mul i (suc rounds) n in
    let (y₁, y₂, split, y₁len) = front y n (omega (arith, left, more)) in
    let place : p + mul64 i n ≡ length a =
      ap (λ (k : ℕ). p + k) (mul64-eq i n (omega (arith, small, spread))) ∙ sym at_i in
    let stored : store (a ++ (y ++ w)) (length a) x ≡ some ((a ++ x) ++ (y₂ ++ w)) =
      ap (λ (l : Memory). store (a ++ l) (length a) x)
        (ap (λ (l : Memory). l ++ w) split ∙ append_assoc y₁ y₂ w)
      ∙ store-pieces a y₁ (y₂ ++ w) x y₁len
      ∙ ap some (sym (append_assoc a x (y₂ ++ w))) in
    let next : length y₂ ≡ rounds * n =
      omega (arith, ap length split, length-append y₁ y₂, left, more) in
    let step =
      fill_from-copies rounds (suc i) p (a ++ x) y₂ w x
        (omega (arith, length-append a x, at_i, suc-mul i n)) next
        (omega (arith, small, spread, more, add-mul (suc i) rounds n, suc-mul i n)) in
    rw (place, stored)
      (step
        ∙ ap some (
            append_assoc a x (copies rounds x ++ w)
            ∙ ap (λ (l : Memory). a ++ l) (sym (append_assoc x (copies rounds x) w))))

inserted_fill-Yields :
    (b : Buffer) (a t x : Memory) (count : ℕ)
    → IsValid b
    → buffer_data b ≡ a ++ t
    → b.size + count * length x ≤ b.capacity
    → Yields (inserted_fill b (length a) count x) (a ++ (copies count x ++ t))
unfolding inserted_fill
inserted_fill-Yields b a t x count v e room =
    let n = mul64 count (length x) in
    let xs = copies count x in
    let total = mul64-eq count (length x) (omega (arith, room, v.small)) in
    let (r, base, size, rest) = base-pieces b a t v e in
    let (y, v', ylen, counted, gap) =
      make_gap-pieces b a t r n base size (omega (arith, v.small, v.fits))
        (omega (arith, room, rest, total)) in
    let filled =
      fill_from-copies count 0 (length a) a y (t ++ v') x (omega arith) (ylen ∙ total)
        (omega (arith, room, v.small)) in
    let sum = add64-eq b.size n (omega (arith, v.small, total, room)) in
    let whole : a ++ (xs ++ (t ++ v')) ≡ (a ++ (xs ++ t)) ++ v' =
      ap (λ (l : Memory). a ++ l) (sym (append_assoc xs t v'))
      ∙ sym (append_assoc a (xs ++ t) v') in
    let len : length (a ++ (xs ++ t)) ≡ length a + (n + length t) =
      omega (arith, length-append a (xs ++ t), length-append xs t, length-copies count x, total) in
    Yields-front (inserted_fill b (length a) count x) (a ++ (xs ++ t)) v' b (add64 b.size n)
      (rw (gap, filled)
        (ap (λ (m : Memory). some (record b { base = m; size = add64 b.size n })) whole))
      (omega (arith, sum, size, len)) (omega (arith, size, rest, counted, len)) v.small

-- `buffer_insert_fill` of `count` copies of `x` behind the first bytes `a` of a valid buffer, where
-- the result has at most 2 ^ 63 bytes: it succeeds, the buffer stays valid, and it then holds
-- `a`, the copies, and what followed `a`.
pub buffer_insert_fill-Yields :
    (b : Buffer) (a t x : Memory) (count : ℕ)
    → IsValid b
    → buffer_data b ≡ a ++ t
    → length a + length t + count * length x ≤ 2 ^ 63
    → Yields (buffer_insert_fill b (length a) count x) (a ++ (copies count x ++ t))
unfolding buffer_insert_fill
buffer_insert_fill-Yields b a t x count v e le =
    let (r, base, size, rest) = base-pieces b a t v e in
    let total = mul64-eq count (length x) (omega arith) in
    let sum = add64-eq b.size (mul64 count (length x)) (omega (arith, size, total)) in
    let asked = add64 b.size (mul64 count (length x)) in
    let p = buffer_reserve-IsReserved b asked v (omega (arith, sum, size, total)) in
    inserted_fill-Yields (buffer_reserve b asked) a t x count p.valid (p.bytes ∙ e)
      (omega (arith, p.room, p.size, sum, total))

-- `buffer_erase` of the bytes `x` behind the first bytes `a` of a valid buffer succeeds, the buffer
-- stays valid, and it then holds `a` and what followed `x`.
pub buffer_erase-Yields :
    (b : Buffer) (a x t : Memory)
    → IsValid b
    → buffer_data b ≡ a ++ (x ++ t)
    → Yields (buffer_erase b (length a) (length x)) (a ++ t)
unfolding buffer_erase
buffer_erase-Yields b a x t v e =
    let (r, base, size, rest) = base-pieces b a (x ++ t) v e in
    let len = length-append x t in
    let off = sub64-eq b.size (length a) (omega arith) (omega (arith, v.small, v.fits)) in
    let left =
      sub64-eq (sub64 b.size (length a)) (length x) (omega (arith, off, size, len))
        (omega (arith, off, v.small, v.fits)) in
    let tail : sub64 (sub64 b.size (length a)) (length x) ≡ length t =
      omega (arith, off, left, size, len) in
    let parts : b.base ≡ a ++ (x ++ (t ++ r)) =
      base ∙ ap (λ (l : Memory). a ++ l) (append_assoc x t r) in
    let (v', counted, closed) = memmove_down a x t r in
    let end =
      sub64-eq b.size (length x) (omega (arith, size, len)) (omega (arith, v.small, v.fits)) in
    let moved = length-append a t in
    Yields-front (buffer_erase b (length a) (length x)) (a ++ t) v' b (sub64 b.size (length x))
      (rw (parts, tail, closed)
        (ap (λ (m : Memory). some (record b { base = m; size = sub64 b.size (length x) }))
          (sym (append_assoc a t v'))))
      (omega (arith, end, size, len, moved)) (omega (arith, size, len, rest, moved, counted))
      v.small
