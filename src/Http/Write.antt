-- ===== src/Http/Write.antt =====
-- src/reactor/http.c: a response is written into the space that a buffer gives for it. The bytes of
-- the arguments are cells of memory; a block with a pointer into it is a `Cursor`.
use libreactor_refactor.Prelude.{
  ◌>>=◌, ℕ, ◌+◌, ◌%◌, Option, none, some, List, [], ◌∷◌, length, take, replicate, leb, ◌==◌,
  if◌then◌else◌, codes,
}
use libreactor_refactor.Words.{word, word32}
use libreactor_refactor.Memory.{Memory, store}
use libreactor_refactor.Buffer.{Buffer, buffer_allocate}
use libreactor_refactor.Http.Number.{utility_u32_len, utility_u32_sprint}

abbrev pub Cursor : Type 0
Cursor = Memory × ℕ

-- A string literal.
abbrev pub cells : List ℕ → Memory
cells [] = []
cells (c ∷ cs) = some c ∷ cells cs

unfoldable pub utility_move : Cursor → ℕ → Cursor
utility_move (m, p) size = (m, p + size)

unfoldable pub utility_push_data : Memory → Cursor → Option Cursor
unfolding utility_move store
utility_push_data x (m, p) = do n ← store m p x; some (utility_move (n, p) (length x))

unfoldable pub utility_push_byte : ℕ → Cursor → Option Cursor
unfolding utility_move store
utility_push_byte c (m, p) = do n ← store m p (some c ∷ []); some (utility_move (n, p) 1)

pub record HttpField : Type 0 where
  pub name : Memory
  pub value : Memory

unfoldable pub http_field_define : Memory → Memory → HttpField
http_field_define name value = record { name = name; value = value }

unfoldable pub http_push_field : HttpField → Cursor → Option Cursor
unfolding utility_push_data utility_push_byte
http_push_field field c =
    utility_push_data field.name c
    >>= utility_push_byte 58
    >>= utility_push_byte 32
    >>= utility_push_data field.value
    >>= utility_push_byte 13
    >>= utility_push_byte 10

-- The size of `body` in digits, in the array `storage`.
unfoldable pub content_length : Memory → Option Memory
unfolding utility_u32_len utility_u32_sprint
content_length body = do
  let n = length body % word32
  size ← utility_u32_len n
  (storage, _) ← utility_u32_sprint n (replicate 16 none) size
  some (take size storage)

-- What `http_write_response` asks the buffer for.
unfoldable pub response_size : Memory → Memory → Memory → Memory → ℕ
response_size status type size body =
    (9
      + length status
      + 2
      + 17
      + 37
      + (if length type == 0 then 0 else 16 + length type)
      + (18 + length size)
      + 2
      + length body)
    % word

-- The writes of `http_write_response`; `date` has its size set.
unfoldable pub push_response : Memory → Memory → Memory → Memory → Memory → Cursor → Option Cursor
unfolding utility_push_data http_push_field http_field_define
push_response status date type size body c =
    let head =
      utility_push_data (cells (codes "HTTP/1.1 ")) c
      >>= utility_push_data status
      >>= utility_push_data (cells (codes "\r\n"))
      >>= http_push_field (http_field_define (cells (codes "Server")) (cells (codes "reactor")))
      >>= http_push_field (http_field_define (cells (codes "Date")) date) in
    let typed = head >>= http_push_field (http_field_define (cells (codes "Content-Type")) type) in
    (if length type == 0 then head else typed)
    >>= http_push_field (http_field_define (cells (codes "Content-Length")) size)
    >>= utility_push_data (cells (codes "\r\n"))
    >>= utility_push_data body

unfoldable pub http_write_response : Buffer → Memory → Memory → Memory → Memory → Option Buffer
unfolding content_length response_size buffer_allocate push_response
http_write_response b status date type body = do
  size ← content_length body
  let (room, p) = buffer_allocate b (response_size status type size body)
  day ← if leb 29 (length date) then some (take 29 date) else none
  (m, _) ← push_response status day type size body (room.base, p)
  some (record room { base = m })
