-- ===== src/Http/Joined.antt =====
-- src/reactor/http.c: the second loop of `http_dechunk`, and the function.
use libreactor_refactor.Prelude.{
  ℕ, zero, suc, ◌+◌, ◌-◌, ◌^◌, ◌≤◌, ◌<◌, false, Option, some, List, [], ◌∷◌, ◌++◌, length, ◌==◌,
  ◌≡◌, sym, ap, ap₂, ◌∙◌, arith, append_assoc, length-append,
}
use libreactor_refactor.Words.{sub64-eq}
use libreactor_refactor.Http.Read.{
  Region, http_chunk, offset_by, move_bytes, join_chunks, Dechunked, http_dechunk,
}
use libreactor_refactor.Http.Chunks.{chunk_text, line_size, chunk_size, http_chunk-text}
use libreactor_refactor.Http.Dechunk.{
  encode, encode_size, joined, NoneEmpty, length-encode, region, not_zero, scan_chunks-encode,
  move_bytes-chunk,
}

-- A run that leaves the bytes `x` at the offset of `a`, behind them `gap` bytes in between, and
-- `post`.
record Joins (run : Option (List ℕ × Region × ℕ)) (a x post : List ℕ) (gap total : ℕ) : Type 0 where
  left : List ℕ
  width : length left + length x ≡ gap
  ends : run ≡ some (a ++ (x ++ (left ++ post)), region (length a) (length x), total)

-- The step of the loop: the input behind a chunk.
step_input :
    (a done gap d left : List ℕ) (size : ℕ)
    → chunk_size d ≤ size
    → size < 2 ^ 64
    → length left ≡ length gap + chunk_size d - length d
    → offset_by (region (length a + length done + length gap) size) (chunk_size d)
      ≡ region (length a + length (done ++ d) + length left) (size - chunk_size d)
unfolding offset_by
step_input a done gap d left size le small width =
    let place : length a + length done + length gap + chunk_size d
        ≡ length a + length (done ++ d) + length left =
      omega (arith, width, length-append done d) in
    ap₂ region place (sub64-eq size (chunk_size d) le (omega arith))

-- What `http_chunk` finds at the input.
found-chunk :
    (a done gap d rest : List ℕ) (size : ℕ)
    → chunk_size d ≤ size
    → size ≤ chunk_size d + length rest
    → size < 2 ^ 64
    → http_chunk
        (a ++ (done ++ (gap ++ chunk_text d rest)))
        (region (length a + length done + length gap) size)
      ≡ some (
        chunk_size d,
        some (region (length a + length done + length gap + line_size d) (length d)),
      )
found-chunk a done gap d rest size ge le small =
    let b = (a ++ done) ++ gap in
    let place : length b ≡ length a + length done + length gap =
      omega (arith, length-append (a ++ done) gap, length-append a done) in
    ap₂ (λ (m : List ℕ) (n : ℕ). http_chunk m (region n size))
      (whole a done gap (chunk_text d rest)) (sym place)
    ∙ http_chunk-text b d rest size ge le small
    ∙ ap (λ (n : ℕ). some (chunk_size d, some (region (n + line_size d) (length d)))) place
  where
    whole : (a b c r : List ℕ) → a ++ (b ++ (c ++ r)) ≡ ((a ++ b) ++ c) ++ r
    whole a b c r = simp append_assoc

-- And the move of its data.
moved-chunk :
    (a done gap d rest : List ℕ)
    → (left : List ℕ) × (length left ≡ length gap + chunk_size d - length d)
      × (move_bytes
            (a ++ (done ++ (gap ++ chunk_text d rest)))
            (length a + length done)
            (region (length a + length done + length gap + line_size d) (length d))
          ≡ some (a ++ ((done ++ d) ++ (left ++ rest))))
moved-chunk a done gap d rest =
    let (left, width, moved) = move_bytes-chunk (a ++ done) gap d rest in
    let place = length-append a done in
    (
      left,
      width,
      ap₂
            (λ (m : List ℕ) (n : ℕ).
              move_bytes m n (region (n + length gap + line_size d) (length d)))
            (sym (append_assoc a done (gap ++ chunk_text d rest))) (sym place)
          ∙ moved
          ∙ ap some (whole a done d (left ++ rest)),
    )
  where
    whole : (a b c r : List ℕ) → (a ++ b) ++ (c ++ r) ≡ a ++ ((b ++ c) ++ r)
    whole a b c r = simp append_assoc

join_chunks-encode :
    (fuel : ℕ) (ds : List (List ℕ)) (a done gap post : List ℕ) (size offset : ℕ)
    → NoneEmpty ds
    → encode_size ds ≤ size
    → size ≤ encode_size ds + length post
    → size < 2 ^ 64
    → size < fuel
    → Joins
        (join_chunks fuel
          (a ++ (done ++ (gap ++ encode ds post)))
          (region (length a + length done + length gap) size)
          (region (length a) (length done))
          offset)
        a
        (done ++ joined ds)
        post
        (length done + length gap + encode_size ds)
        (offset + encode_size ds)
unfolding join_chunks
join_chunks-encode zero ds a done gap post size offset full ge le small enough =
    absurd (omega arith)
join_chunks-encode (suc fuel) [] a done gap post size offset full ge le small enough =
    let found = found-chunk a done gap [] post size ge le small in
    let (left, width, moved) = moved-chunk a done gap [] post in
    let count = length-append done [] in
    record {
      left = left;
      width = omega (arith, width, count);
      ends =
          rw (found, moved)
            (ap
              (λ (n : ℕ). some (
                a ++ ((done ++ []) ++ (left ++ post)),
                region (length a) n,
                offset + chunk_size [],
              ))
              (sym count));
    }
join_chunks-encode (suc fuel) (d ∷ ds) a done gap post size offset (any, full) ge le small enough =
    let rest = encode ds post in
    let found =
      found-chunk a done gap d rest size (omega arith) (omega (arith, length-encode ds post))
        small in
    let (left, width, moved) = moved-chunk a done gap d rest in
    let more : (length d == 0) ≡ false = not_zero (length d) any in
    let count = length-append done d in
    let p =
      join_chunks-encode fuel ds a (done ++ d) left post (size - chunk_size d)
        (offset + chunk_size d) full (omega arith) (omega arith) (omega arith) (omega arith) in
    let sum : offset + chunk_size d + encode_size ds ≡ offset + encode_size (d ∷ ds) =
      omega arith in
    let whole =
      ap₂
        (λ (l : List ℕ) (n : ℕ).
          some (a ++ (l ++ (p.left ++ post)), region (length a) (length l), n))
        (append_assoc done d (joined ds)) sum in
    let input = step_input a done gap d left size (omega arith) small width in
    record {
      left = p.left;
      width = omega (
        arith,
        p.width,
        width,
        count,
        length-append (done ++ d) (joined ds),
        length-append done (d ++ joined ds),
        length-append d (joined ds),
      );
      ends = rw (found, moved, more, input, sym count) (p.ends ∙ whole);
    }

-- A run of `http_dechunk` that finds the body `x` at the offset of `a`, where the input took `total`
-- bytes, and leaves what is before and behind the input.
pub record Dechunks (run : Option Dechunked) (a x post : List ℕ) (total : ℕ) : Type 0 where
  pub left : List ℕ
  pub width : length left + length x ≡ total
  pub ends :
      run
      ≡ some (record {
        memory = a ++ (x ++ (left ++ post));
        body = some (record { start = length a; size = length x });
        offset = total;
      })

-- `http_dechunk` of a body that was written in chunks, none of them empty but the last, each with its
-- size in hexadecimal digits: it ends in the bytes of the chunks, without the lines between them, at
-- the start of the input, and it counts the bytes of the chunks' text. The input is of less than
-- 2 ^ 64 bytes, and may go on behind the body.
pub http_dechunk-encode :
    (ds : List (List ℕ)) (a post : List ℕ) (size : ℕ)
    → NoneEmpty ds
    → encode_size ds ≤ size
    → size ≤ encode_size ds + length post
    → size < 2 ^ 64
    → Dechunks
        (http_dechunk (a ++ encode ds post) (record { start = length a; size = size }))
        a
        (joined ds)
        post
        (encode_size ds)
unfolding http_dechunk
http_dechunk-encode ds a post size full ge le small =
    let complete = scan_chunks-encode (suc size) ds a post size full ge le small (omega arith) in
    let p = join_chunks-encode (suc size) ds a [] [] post size 0 full ge le small (omega arith) in
    let place : length a + 0 + 0 ≡ length a = omega arith in
    let joins =
      ap
        (λ (n : ℕ).
          join_chunks (suc size) (a ++ encode ds post) (region n size) (region (length a) 0) 0)
        (sym place)
      ∙ p.ends in
    let result : ℕ → Dechunked = λ n. record {
      memory = a ++ (joined ds ++ (p.left ++ post));
      body = some (region (length a) (length (joined ds)));
      offset = n;
    } in
    let total : 0 + encode_size ds ≡ encode_size ds = omega arith in
    record {
      left = p.left;
      width = omega (arith, p.width);
      ends = rw (complete, joins) (ap (λ (n : ℕ). some (result n)) total);
    }
