-- ===== src/Buffer/Size.antt =====
-- The operations of src/reactor/buffer.c on the size and the capacity.
use libreactor_refactor.Prelude.{
  ℕ, ◌+◌, ◌^◌, ◌≤◌, Bool, none, true, false, length, take, min, ltb, if◌then◌else◌, ◌≡◌, refl, sym,
  ap, ◌∙◌, arith, inl, take-take, append-nil, ◌++◌, ◌-◌, replicate,
}
use native.Mathlib.Decide.{dec_lt}
use libreactor_refactor.Words.{add64, add64-eq}
use libreactor_refactor.Memory.{realloc}
use libreactor_refactor.Memory.Blocks.{length-realloc}
use libreactor_refactor.Buffer.Defs.{
  Buffer, buffer_reserve, buffer_resize, buffer_capacity, buffer_compact, buffer_allocate,
  buffer_data,
}
use libreactor_refactor.Buffer.Laws.{IsValid, IsReserved, buffer_reserve-IsReserved}

-- The buffer `r` has size `n`, and the bytes of `b` that are below both sizes.
pub record IsResized (b : Buffer) (n : ℕ) (r : Buffer) : Type 0 where
  pub valid : IsValid r
  pub size : r.size ≡ n
  pub bytes : take (min n b.size) (buffer_data r) ≡ take (min n b.size) (buffer_data b)

resized :
    (b : Buffer) (n : ℕ) (r : Buffer) → IsReserved b n r → IsResized b n (record r { size = n })
unfolding buffer_data
resized b n r p =
    let low = take-take (min n b.size) n r.base (omega arith) in
    let mid = take-take (min n b.size) r.size r.base (omega (arith, p.size)) in
    record {
      valid = record { full = p.valid.full; fits = p.room; small = p.valid.small };
      size = refl;
      bytes = low ∙ sym mid ∙ ap (take (min n b.size)) p.bytes;
    }

resize_if :
    (grow : Bool) (b : Buffer) (n : ℕ) (r : Buffer)
    → IsReserved b n r
    → (grow ≡ false → IsReserved b n b)
    → IsResized b n (record (if grow then r else b) { size = n })
resize_if true b n r p q = resized b n r p
resize_if false b n r p q = resized b n b (q refl)

-- `buffer_resize` of a valid buffer to at most 2 ^ 63 bytes gives a valid buffer of that size, which
-- keeps the bytes below both sizes.
pub buffer_resize-IsResized :
    (b : Buffer) (n : ℕ) → IsValid b → n ≤ 2 ^ 63 → IsResized b n (buffer_resize b n)
unfolding buffer_resize buffer_capacity
buffer_resize-IsResized b n v le =
    resize_if (ltb b.capacity n) b n (buffer_reserve b n) (buffer_reserve-IsReserved b n v le)
      (λ small. record {
        valid = v;
        room = ground (arith, small);
        size = refl;
        bytes = refl;
        capacity = inl refl;
      })

-- `buffer_allocate` of `n` bytes on a valid buffer, with at most 2 ^ 63 bytes in all, gives a valid
-- buffer that is longer by `n`, keeps its bytes, and has the new ones at the offset returned.
pub buffer_allocate-IsResized :
    (b : Buffer) (n : ℕ)
    → IsValid b
    → b.size + n ≤ 2 ^ 63
    → IsResized b (b.size + n) (buffer_allocate b n).0 × ((buffer_allocate b n).1 ≡ b.size)
unfolding buffer_allocate
buffer_allocate-IsResized b n v le =
    let sum : add64 b.size n ≡ b.size + n = add64-eq b.size n (omega arith) in
    let p = buffer_reserve-IsReserved b (b.size + n) v le in
    let r = buffer_reserve b (b.size + n) in
    let whole : add64 r.size n ≡ b.size + n = ap (λ (s : ℕ). add64 s n) p.size ∙ sum in
    rw (sum, whole) (resized b (b.size + n) r p, p.size)

-- `buffer_compact` of a valid buffer gives a valid one with no spare capacity and the same bytes.
pub buffer_compact-data :
    (b : Buffer)
    → IsValid b
    → IsValid (buffer_compact b)
      × ((buffer_compact b).capacity ≡ b.size)
      × (buffer_data (buffer_compact b) ≡ buffer_data b)
unfolding buffer_compact buffer_data realloc
buffer_compact-data b v = elim (dec_lt b.size b.capacity) [
  | no full ↦
      let test : ltb b.size b.capacity ≡ false = ground arith in
      rw test (v, omega (arith, v.fits), refl)
  | yes spare ↦
      let test : ltb b.size b.capacity ≡ true = ground arith in
      let no_more : b.size - length b.base ≡ 0 = omega (arith, v.full) in
      let cut : realloc b.base b.size ≡ take b.size b.base =
        ap (λ (k : ℕ). take b.size b.base ++ replicate k none) no_more
        ∙ append-nil (take b.size b.base) in
      rw test (
        record {
          full = length-realloc b.base b.size;
          fits = omega arith;
          small = omega (arith, v.small);
        },
        refl,
        ap (take b.size) cut ∙ take-take b.size b.size b.base (omega arith),
      )
]
