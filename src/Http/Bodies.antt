-- ===== src/Http/Bodies.antt =====
-- src/reactor/http.c: the bodies that `http_read_request` finds.
use libreactor_refactor.Prelude.{
  ℕ, ◌+◌, ◌-◌, ◌%◌, ◌^◌, ◌≤◌, ◌<◌, true, false, Option, none, some, List, [], ◌∷◌, ◌++◌, length,
  take, drop, ltb, leb, codes, ◌≡◌, refl, ap, ap₂, ◌∙◌, arith, inl, inr, ◌⊎◌,
}
use native.Mathlib.Decide.{dec_lt}
use libreactor_refactor.Words.{word, word32, sub64, sub64-eq}
use libreactor_refactor.Data.{data_equal, data_equal_case}
use libreactor_refactor.Http.Read.{
  Region, bytes_of, strtoull, offset_by, http_dechunk, Parsed, Parser, ReadRequest,
  http_field_lookup, incomplete, read_length, read_chunks, http_read_request,
}
use libreactor_refactor.Http.Dechunk.{encode, encode_size, joined, NoneEmpty, region, not_zero}
use libreactor_refactor.Http.Joined.{http_dechunk-encode}

-- A request that is no `GET`, with the values of its two fields on the body.
pub record Has (m : List ℕ) (p : Parsed) (encoding value : Region) : Type 0 where
  pub whole : p.result < 2 ^ 31
  pub method : data_equal (bytes_of m p.method) (codes "GET") ≡ false
  pub encoded :
      http_field_lookup m p.fields p.fields_count (codes "Transfer-Encoding") ≡ some encoding
  pub sized : http_field_lookup m p.fields p.fields_count (codes "Content-Length") ≡ some value

-- The result for a request, with the body if it is set.
abbrev pub reads : Parsed → ℕ → List ℕ → Option Region → ReadRequest
reads p n m body = record { result = n; parsed = p; memory = m; body = body }

sized-case :
    (m : List ℕ) (size k : ℕ) (p : Parsed) (value : Region)
    → strtoull 10 (drop value.start m) ≡ some k
    → p.result + k < 2 ^ 64
    → size < 2 ^ 31
    → (size < p.result + k × (read_length m size p value ≡ some (reads p incomplete m none)))
      ⊎ (p.result + k ≤ size
          × (read_length m size p value
              ≡ some (reads p (p.result + k) m (some (region p.result k)))))
unfolding read_length
sized-case m size k p value read wide small =
    let low : (p.result + k) % word ≡ p.result + k = omega arith in
    elim (dec_lt size (p.result + k)) [
      | yes more ↦
          let test : ltb size (p.result + k) ≡ true = ground arith in
          inl (more, rw (read, low, test) refl)
      | no fits ↦
          let test : ltb size (p.result + k) ≡ false = ground arith in
          let low' : (p.result + k) % word32 ≡ p.result + k = omega arith in
          inr (omega arith, rw (read, low, test, low') refl)
    ]

-- `http_read_request` of a request with a content length and no encoding.
sized-request :
    (parse : Parser) (m : List ℕ) (size count : ℕ) (encoding value : Region)
    → Has m (parse (take size m) count) encoding value
    → encoding.size ≡ 0
    → 1 ≤ value.size
    → http_read_request parse m size count ≡ read_length m size (parse (take size m) count) value
unfolding http_read_request
sized-request parse m size count encoding value has none_encoded any =
    let whole : leb 2147483648 (parse (take size m) count).result ≡ false =
      ground (arith, has.whole) in
    rw (has.method, whole, has.encoded, has.sized, none_encoded, not_zero value.size any) refl

chunked-request :
    (parse : Parser) (m : List ℕ) (size count : ℕ) (encoding value : Region)
    → Has m (parse (take size m) count) encoding value
    → value.size ≡ 0
    → data_equal_case (bytes_of m encoding) (codes "Chunked") ≡ true
    → 1 ≤ encoding.size
    → http_read_request parse m size count ≡ read_chunks m size (parse (take size m) count)
unfolding http_read_request
chunked-request parse m size count encoding value has none_sized chunked any =
    let whole : leb 2147483648 (parse (take size m) count).result ≡ false =
      ground (arith, has.whole) in
    rw (has.method, whole, has.encoded, has.sized, none_sized, not_zero encoding.size any, chunked)
      refl

-- `http_read_request` of a request that is no `GET`, with a content length `k` that is read without
-- wrap-around, and with no transfer encoding, in a buffer of less than 2 ^ 31 bytes: if the buffer
-- ends before the body does, the result is -2 and no body is set; otherwise the body is the `k` bytes
-- behind the head, all of them in the buffer, and the result is the size of head and body.
pub http_read_request-length :
    (parse : Parser) (m : List ℕ) (size count k : ℕ) (encoding value : Region)
    → Has m (parse (take size m) count) encoding value
    → encoding.size ≡ 0
    → 1 ≤ value.size
    → strtoull 10 (drop value.start m) ≡ some k
    → (parse (take size m) count).result + k < 2 ^ 64
    → size < 2 ^ 31
    → (size < (parse (take size m) count).result + k
        × (http_read_request parse m size count
            ≡ some (reads (parse (take size m) count) incomplete m none)))
      ⊎ ((parse (take size m) count).result + k ≤ size
          × (http_read_request parse m size count
              ≡ some (
                  reads
                    (parse (take size m) count)
                    ((parse (take size m) count).result + k)
                    m
                    (some (region (parse (take size m) count).result k)))))
http_read_request-length parse m size count k encoding value has none_encoded any read wide small =
    let same = sized-request parse m size count encoding value has none_encoded any in
    rw same (sized-case m size k (parse (take size m) count) value read wide small)

-- A run of `http_read_request` that finds the body `x` behind `head`, where its text took `total`
-- bytes.
pub record ReadsBody (run : Option ReadRequest) (p : Parsed) (head x post : List ℕ) (total : ℕ)
    : Type 0 where
  pub left : List ℕ
  pub width : length left + length x ≡ total
  pub ends :
      run
      ≡ some (
          reads p
            (length head + total)
            (head ++ (x ++ (left ++ post)))
            (some (region (length head) (length x))))

body_input :
    (p : Parsed) (size n : ℕ)
    → p.result ≡ n
    → n ≤ size
    → size < 2 ^ 64
    → offset_by (region 0 size) p.result ≡ region n (size - n)
unfolding offset_by
body_input p size n start le small =
    ap₂ region (omega (arith, start)) (ap (sub64 size) start ∙ sub64-eq size n le (omega arith))

chunks-body :
    (ds : List (List ℕ)) (head post : List ℕ) (size : ℕ) (p : Parsed)
    → NoneEmpty ds
    → p.result ≡ length head
    → length head + encode_size ds ≤ size
    → size ≤ length head + encode_size ds + length post
    → size < 2 ^ 31
    → ReadsBody
        (read_chunks (head ++ encode ds post) size p)
        p
        head
        (joined ds)
        post
        (encode_size ds)
unfolding read_chunks
chunks-body ds head post size p full start ge le small =
    let d =
      http_dechunk-encode ds head post (size - length head) full (omega arith) (omega arith)
        (omega arith) in
    let some_bytes : 1 ≤ encode_size ds = size_any ds in
    let low : (length head + encode_size ds) % word32 ≡ length head + encode_size ds =
      omega arith in
    let input = body_input p size (length head) start (omega arith) (omega arith) in
    let found = ap (http_dechunk (head ++ encode ds post)) input ∙ d.ends in
    record {
      left = d.left;
      width = d.width;
      ends = rw (found, not_zero (encode_size ds) some_bytes, start, low) refl;
    }
  where
    size_any : (ds : List (List ℕ)) → 1 ≤ encode_size ds
    size_any [] = omega arith
    size_any (d ∷ ds) = omega arith

-- `http_read_request` of a request that is no `GET`, with the encoding `Chunked` and no content
-- length, in a buffer of less than 2 ^ 31 bytes, with the whole of a body in chunks behind its head:
-- the body is the bytes of the chunks, without the lines between them, right behind the head, and the
-- result is the size of the head and of the chunks' text.
pub http_read_request-chunks :
    (parse : Parser) (ds : List (List ℕ)) (head post : List ℕ) (size count : ℕ)
    (encoding value : Region)
    → Has (head ++ encode ds post) (parse (take size (head ++ encode ds post)) count) encoding value
    → value.size ≡ 0
    → data_equal_case (bytes_of (head ++ encode ds post) encoding) (codes "Chunked") ≡ true
    → 1 ≤ encoding.size
    → (parse (take size (head ++ encode ds post)) count).result ≡ length head
    → NoneEmpty ds
    → length head + encode_size ds ≤ size
    → size ≤ length head + encode_size ds + length post
    → size < 2 ^ 31
    → ReadsBody
        (http_read_request parse (head ++ encode ds post) size count)
        (parse (take size (head ++ encode ds post)) count)
        head
        (joined ds)
        post
        (encode_size ds)
http_read_request-chunks parse ds head post size count encoding value has none_sized chunked any
      start full ge le small =
    let m = head ++ encode ds post in
    let p = parse (take size m) count in
    let r = chunks-body ds head post size p full start ge le small in
    record {
      left = r.left;
      width = r.width;
      ends = chunked-request parse m size count encoding value has none_sized chunked any ∙ r.ends;
    }
