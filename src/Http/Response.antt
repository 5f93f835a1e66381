-- ===== src/Http/Response.antt =====
-- src/reactor/http.c: `http_write_response` asks for the bytes of the response, and writes just these.
use libreactor_refactor.Prelude.{
  ◌>>=◌, ℕ, ◌+◌, ◌%◌, ◌^◌, ◌≤◌, ◌<◌, true, false, none, some, [], ◌∷◌, ◌++◌, length, take,
  replicate, leb, ◌==◌, if◌then◌else◌, codes, ◌≡◌, refl, sym, ap, ap₂, ◌∙◌, arith, append-nil,
  length-append,
}
use native.Mathlib.Decide.{ℕ_discrete}
use libreactor_refactor.Words.{add64, add64-eq, word32}
use libreactor_refactor.Memory.{Memory}
use libreactor_refactor.Memory.Blocks.{front, take-pieces}
use libreactor_refactor.Buffer.{Buffer, buffer_allocate, buffer_reserve, buffer_data}
use libreactor_refactor.Buffer.Laws.{IsValid, base-pieces, buffer_reserve-IsReserved}
use libreactor_refactor.Buffer.Insert.{Yields, Yields-front}
use libreactor_refactor.Http.Number.{utility_u32_len, utility_u32_sprint}
use libreactor_refactor.Http.Write.{
  cells, content_length, response_size, push_response, http_write_response,
}
use libreactor_refactor.Http.Digits.{decimal, utility_u32_len-length}
use libreactor_refactor.Http.Decimal.{length-cells, length-decimal, sprint_from-pieces}
use libreactor_refactor.Http.Push.{
  At, field_text, type_text, response_text, length-field_text, push_response-At,
}

-- The two number routines give the digits of a number.
digits_of :
    (n : ℕ)
    → n < 2 ^ 32
    → (do
      size ← utility_u32_len n
      (storage, _) ← utility_u32_sprint n (replicate 16 none) size
      some (take size storage))
      ≡ some (cells (decimal 10 n))
unfolding utility_u32_sprint
digits_of n small =
    let digits = cells (decimal 10 n) in
    let len = utility_u32_len-length n small in
    let free : Memory = replicate 16 none in
    let (y, z, split, ylen) =
      front free (length (decimal 10 n)) (omega (arith, length-decimal 10 n)) in
    let place : length (decimal 10 n) ≡ 0 + length y = omega (arith, ylen) in
    let wrote : utility_u32_sprint n free (length (decimal 10 n)) ≡ some (digits ++ z, 0) =
      ap₂ (λ (m : Memory) (p : ℕ). utility_u32_sprint n m p) split place
      ∙ sprint_from-pieces 5 n [] y z (omega arith) (omega arith) ylen in
    let part : take (length (decimal 10 n)) (digits ++ z) ≡ digits =
      ap (λ (k : ℕ). take k (digits ++ z)) (sym (length-cells (decimal 10 n)))
      ∙ take-pieces digits z in
    rw (len, wrote, part) refl

content_length-digits :
    (body : Memory)
    → length body < 2 ^ 32
    → content_length body ≡ some (cells (decimal 10 (length body)))
unfolding content_length
content_length-digits body small =
    let low : length body % word32 ≡ length body = omega arith in
    rw low (digits_of (length body) small)

-- The lengths of a response's text and of its optional field.
length-type_text :
    (type : Memory) → length (type_text type) ≡ (if length type == 0 then 0 else 16 + length type)
length-type_text type = elim (ℕ_discrete (length type) 0) [
  | yes e ↦ let test : (length type == 0) ≡ true = ground arith in rw test refl
  | no n ↦
      let test : (length type == 0) ≡ false = ground arith in
      rw test (omega (arith, length-field_text (cells (codes "Content-Type")) type))
]

length-response_text :
    (status date type size body : Memory)
    → length date ≡ 29
    → length (response_text status date type size body)
      ≡ length status + length (type_text type) + length size + length body + 85
length-response_text status date type size body day =
    let crlf = cells (codes "\r\n") in
    let field = field_text (cells (codes "Content-Length")) size in
    let today = field_text (cells (codes "Date")) date in
    let server = field_text (cells (codes "Server")) (cells (codes "reactor")) in
    let t1 = field ++ (crlf ++ body) in
    let t2 = server ++ (today ++ (type_text type ++ t1)) in
    omega (
      arith,
      day,
      length-append status (crlf ++ t2),
      length-append server (today ++ (type_text type ++ t1)),
      length-append today (type_text type ++ t1),
      length-append (type_text type) t1,
      length-append field (crlf ++ body),
      length-field_text (cells (codes "Content-Length")) size,
      length-field_text (cells (codes "Date")) date,
    )

-- The room that a response asks for is the length of its text.
response_size-text :
    (status date type size body : Memory)
    → length date ≡ 29
    → length (response_text status date type size body) < 2 ^ 64
    → response_size status type size body ≡ length (response_text status date type size body)
unfolding response_size
response_size-text status date type size body day small =
    let whole = length-response_text status date type size body day in
    rw (sym (length-type_text type)) (omega (arith, whole))

none_left : (l : Memory) → length l ≡ 0 → l ≡ []
none_left [] e = refl
none_left (x ∷ l) e = absurd (omega arith)

run-Yields :
    (room : Buffer) (old text date status type size body : Memory)
    → IsValid room
    → buffer_data room ≡ old
    → length date ≡ 29
    → length text ≡ length status + length (type_text type) + length size + length body + 85
    → text ≡ response_text status date type size body
    → room.size + length text ≤ room.capacity
    → (total : ℕ) → total ≡ room.size + length text
    → Yields
        (do
          (m, _) ← push_response status date type size body (room.base, room.size)
          some (record room { base = m; size = total }))
        (old ++ text)
run-Yields room old text date status type size body valid held day width same fits total sum =
    let (r, base, size', rest) = base-pieces room old [] valid (held ∙ sym (append-nil old)) in
    let (y, v, split, ylen) = front r (length text) (omega (arith, rest)) in
    let count : room.size ≡ length old = omega (arith, size') in
    let start : At (some (room.base, room.size)) old (length text) v = record {
      gap = y;
      width = ylen;
      ends =
          ap₂ (λ (m : Memory) (p : ℕ). some (m, p)) (base ∙ ap (λ (l : Memory). old ++ l) split)
            count;
    } in
    let at =
      push_response-At (room.base, room.size) old status date type size body v (length text) start
        day (sym width) in
    let written =
      at.ends
      ∙ ap₂ (λ (l k : Memory). some (old ++ k ++ (l ++ v), length (old ++ k)))
          (none_left at.gap at.width) (sym same) in
    Yields-front _ (old ++ text) v room total (rw written refl)
      (omega (arith, sum, size', length-append old text))
      (omega (arith, size', rest, length-append old text, ap length split, length-append y v, ylen))
      valid.small

first_29 : (date : Memory) → length date ≡ 29 → take 29 date ≡ date
first_29 date day =
    ap₂ (λ (k : ℕ) (l : Memory). take k l) (sym day) (sym (append-nil date)) ∙ take-pieces date []

-- The text of a response whose content length is that of its body.
abbrev pub response : Memory → Memory → Memory → Memory → Memory
response status date type body =
    response_text status date type (cells (decimal 10 (length body))) body

-- `http_write_response` to a valid buffer, with a date of 29 bytes and a body of less than 2 ^ 32
-- bytes, where the buffer's bytes and the response together are at most 2 ^ 63: it succeeds, and
-- the valid buffer then holds its old bytes and behind them the text of the response, in which the
-- content length is the length of the body in decimal digits.
pub http_write_response-Yields :
    (b : Buffer) (status date type body : Memory)
    → IsValid b
    → length date ≡ 29
    → length body < 2 ^ 32
    → length (buffer_data b) + length (response status date type body) ≤ 2 ^ 63
    → Yields
        (http_write_response b status date type body)
        (buffer_data b ++ response status date type body)
unfolding http_write_response buffer_allocate
http_write_response-Yields b status date type body valid day small le =
    let size = cells (decimal 10 (length body)) in
    let text = response_text status date type size body in
    let same = response_size-text status date type size body day (omega (arith, le)) in
    let (r, base, count, rest) =
      base-pieces b (buffer_data b) [] valid (sym (append-nil (buffer_data b))) in
    let held : b.size ≡ length (buffer_data b) = omega (arith, count) in
    let sum = add64-eq b.size (length text) (omega (arith, held, le)) in
    let p =
      buffer_reserve-IsReserved b (add64 b.size (length text)) valid
        (omega (arith, sum, held, le)) in
    let room = buffer_reserve b (add64 b.size (length text)) in
    let fits : room.size + length text ≤ room.capacity = omega (arith, p.room, p.size, sum) in
    let total = add64-eq room.size (length text) (omega (arith, fits, p.valid.small)) in
    let test : leb 29 (length date) ≡ true = ground (arith, day) in
    rw (content_length-digits body small, same, test, first_29 date day)
      (run-Yields room (buffer_data b) text date status type size body p.valid p.bytes day
        (length-response_text status date type size body day) refl fits
        (add64 room.size (length text)) total)
