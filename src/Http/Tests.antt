-- ===== src/Http/Tests.antt =====
-- Tests and concrete cases for src/reactor/http.c.
use libreactor_refactor.Prelude.{
  take, ◌<◌, ◌≤◌, ◌⊎◌, ◌>>=◌, ℕ, ◌+◌, Option, none, some, List, [], ◌∷◌, ◌++◌, length, codes, ◌≡◌,
  refl, arith,
}
use libreactor_refactor.Memory.{Memory}
use libreactor_refactor.Buffer.{buffer_construct, buffer_data}
use libreactor_refactor.Buffer.Laws.{IsValid}
use libreactor_refactor.Buffer.Insert.{Yields}
use libreactor_refactor.Http.Write.{cells, http_write_response}
use libreactor_refactor.Data.{data_equal, data_equal_case}
use libreactor_refactor.Http.Hex.{hex}
use libreactor_refactor.Http.Dechunk.{encode}
use libreactor_refactor.Http.Bodies.{
  Has, reads, ReadsBody, http_read_request-length, http_read_request-chunks,
}
use libreactor_refactor.Http.Read.{
  null_region, incomplete, strtoull, bytes_of, http_field_lookup, Region, Field, Parser,
  http_read_request,
}
use libreactor_refactor.Http.Response.{response, http_write_response-Yields}

abbrev ok : Memory
ok = cells (codes "200 OK")

abbrev day : Memory
day = cells (codes "Thu, 01 Jan 1970 00:00:00 GMT")

abbrev plain : Memory
plain = cells (codes "text/plain")

abbrev hello : Memory
hello = cells (codes "Hello, World!")

buffer_construct-IsValid : IsValid buffer_construct
unfolding buffer_construct
buffer_construct-IsValid = record { full = refl; fits = omega arith; small = omega arith }

http_write_response-Yields_example :
    Yields
      (http_write_response buffer_construct ok day plain hello)
      (buffer_data buffer_construct ++ response ok day plain hello)
unfolding libreactor_refactor.Http.Digits.decimal
http_write_response-Yields_example =
    http_write_response-Yields buffer_construct ok day plain hello buffer_construct-IsValid refl
      (omega arith) (unfold buffer_construct buffer_data in omega arith)

-- A `POST` whose head takes the first `head` bytes, with one field.
abbrev posted : ℕ → Field → Parser
posted head field text count = record {
  result = head;
  method = record { start = 0; size = 4 };
  target = record { start = 5; size = 1 };
  fields = field ∷ [];
  fields_count = 1;
}

-- "POST / HTTP/1.0" and the line of one field
abbrev request : List ℕ → List ℕ → List ℕ → List ℕ
request name value body =
    codes "POST / HTTP/1.0\r\n" ++ (name ++ (codes ": " ++ (value ++ (codes "\r\n\r\n" ++ body))))

abbrev field_of : List ℕ → List ℕ → Field
field_of name value = record {
  name = record { start = 17; size = length name };
  value = record { start = 19 + length name; size = length value };
}

abbrev answer : List ℕ → List ℕ → List ℕ → Option (ℕ × Option Region)
answer name value body = do
  let m = request name value body
  let head = 23 + length name + length value
  r ← http_read_request (posted head (field_of name value)) (m ++ (0 ∷ [])) (length m) 16
  some (r.result, r.body)

whole_length :
    answer (codes "Content-Length") (codes "4") (codes "test")
    ≡ some (42, some (record { start = 38; size = 4 }))
unfolding http_read_request
whole_length = refl

-- A value of "-1" is taken as 2 ^ 64 - 1: the test against the buffer's size passes, and the body is
-- said to have that size.
negative_length :
    answer (codes "Content-Length") (codes "-1") (codes "test")
    ≡ some (38, some (record { start = 39; size = 18446744073709551615 }))
unfolding http_read_request
negative_length = refl

whole_chunks :
    answer (codes "Transfer-Encoding") (codes "chunked") (codes "5\r\nhello\r\n1\r\n!\r\n0\r\n\r\n")
    ≡ some (68, some (record { start = 47; size = 6 }))
unfolding http_read_request
whole_chunks = refl

-- A size of 2 ^ 64 - 1 passes as a whole chunk, and the second loop then leaves the memory.
endless_chunk :
    answer (codes "Transfer-Encoding") (codes "chunked") (codes "ffffffffffffffff\r\n\r\n0\r\n\r\n")
    ≡ none
unfolding http_read_request
endless_chunk = refl

abbrev with_length : List ℕ
with_length = request (codes "Content-Length") (codes "4") (codes "test\n")

abbrev length_parser : Parser
length_parser = posted 38 (field_of (codes "Content-Length") (codes "4"))

with_length-Has :
    Has with_length
      (length_parser (take 42 with_length) 16)
      null_region
      (record { start = 33; size = 1 })
unfolding http_field_lookup data_equal bytes_of
with_length-Has = record { whole = omega arith; method = refl; encoded = refl; sized = refl }

http_read_request-length_example :
    (42 < 42
      × (http_read_request length_parser with_length 42 16
          ≡ some (reads (length_parser (take 42 with_length) 16) incomplete with_length none)))
    ⊎ (42 ≤ 42
        × (http_read_request length_parser with_length 42 16
            ≡ some (
                reads
                  (length_parser (take 42 with_length) 16)
                  42
                  with_length
                  (some (record { start = 38; size = 4 })))))
http_read_request-length_example =
    http_read_request-length length_parser with_length 42 16 4 null_region
      (record { start = 33; size = 1 }) with_length-Has refl (omega arith) (unfold strtoull in refl)
      (omega arith) (omega arith)

abbrev chunked_head : List ℕ
chunked_head = request (codes "Transfer-Encoding") (codes "chunked") []

abbrev pieces : List (List ℕ)
pieces = codes "hello" ∷ codes "!" ∷ []

abbrev chunks_parser : Parser
chunks_parser = posted 47 (field_of (codes "Transfer-Encoding") (codes "chunked"))

abbrev in_chunks : List ℕ
in_chunks = chunked_head ++ encode pieces []

abbrev encoding_region : Region
encoding_region = record { start = 36; size = 7 }

in_chunks-Has : Has in_chunks (chunks_parser (take 68 in_chunks) 16) encoding_region null_region
unfolding http_field_lookup data_equal bytes_of
in_chunks-Has = record { whole = omega arith; method = refl; encoded = refl; sized = refl }

http_read_request-chunks_example :
    ReadsBody
      (http_read_request chunks_parser in_chunks 68 16)
      (chunks_parser (take 68 in_chunks) 16)
      chunked_head
      (codes "hello!")
      []
      21
unfolding libreactor_refactor.Http.Hex.hex
http_read_request-chunks_example =
    http_read_request-chunks chunks_parser pieces chunked_head [] 68 16 encoding_region null_region
      in_chunks-Has refl (unfold bytes_of data_equal_case in refl) (omega arith) refl
      (omega arith, (omega arith, tt)) (omega arith) (omega arith) (omega arith)
