-- ===== src/Stream/Append.antt =====
-- Bytes that are copied to the end of a buffer, as `stream_write` does.
use libreactor_refactor.Prelude.{
  ◌>>=◌, ℕ, ◌+◌, ◌^◌, ◌≤◌, Option, some, [], ◌++◌, length, ◌≡◌, refl, sym, ap, ap₂, ◌∙◌, arith,
  append-nil, append_assoc, length-append,
}
use libreactor_refactor.Words.{add64, add64-eq}
use libreactor_refactor.Memory.{Memory, store}
use libreactor_refactor.Memory.Blocks.{front, store-pieces}
use libreactor_refactor.Buffer.{Buffer, buffer_reserve, buffer_allocate, buffer_data}
use libreactor_refactor.Buffer.Laws.{IsValid, base-pieces, buffer_reserve-IsReserved}
use libreactor_refactor.Buffer.Insert.{Yields, Yields-front}
use libreactor_refactor.Stream.Output.{append}

filled-Yields :
    (room : Buffer) (old x : Memory) (run : Option Buffer)
    → IsValid room
    → buffer_data room ≡ old
    → room.size + length x ≤ room.capacity
    → run ≡ (do
      filled ← store room.base room.size x
      some (record room { base = filled; size = add64 room.size (length x) }))
    → Yields run (old ++ x)
filled-Yields room old x run valid held fits made =
    let (r, base, size, rest) = base-pieces room old [] valid (held ∙ sym (append-nil old)) in
    let (y, v, split, ylen) = front r (length x) (omega (arith, rest)) in
    let parts : room.base ≡ old ++ (y ++ v) = base ∙ ap (λ (l : Memory). old ++ l) split in
    let stored : store room.base room.size x ≡ some ((old ++ x) ++ v) =
      ap₂ (λ (m : Memory) (p : ℕ). store m p x) parts (sym size ∙ omega arith)
      ∙ store-pieces old y v x ylen
      ∙ ap some (sym (append_assoc old x v)) in
    let sum = add64-eq room.size (length x) (omega (arith, valid.small)) in
    Yields-front run (old ++ x) v room (add64 room.size (length x)) (made ∙ rw stored refl)
      (omega (arith, sum, size, length-append old x))
      (omega (arith, size, rest, length-append old x, ap length split, length-append y v, ylen))
      valid.small

pub append-Yields :
    (b : Buffer) (x : Memory)
    → IsValid b
    → b.size + length x ≤ 2 ^ 63
    → Yields (append b x) (buffer_data b ++ x)
unfolding append buffer_allocate
append-Yields b x valid le =
    let sum = add64-eq b.size (length x) (omega arith) in
    let p = buffer_reserve-IsReserved b (add64 b.size (length x)) valid (omega (arith, sum)) in
    filled-Yields (buffer_reserve b (add64 b.size (length x))) (buffer_data b) x (append b x)
      p.valid p.bytes (omega (arith, p.room, p.size, sum)) refl
