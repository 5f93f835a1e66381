-- ===== src/Http/Dechunk.antt =====
-- src/reactor/http.c: `http_dechunk` of a body that was written in chunks.
use libreactor_refactor.Prelude.{
  ℕ, zero, suc, ◌+◌, ◌-◌, ◌^◌, ◌≤◌, ◌<◌, true, false, some, List, [], ◌∷◌, ◌++◌, length, drop, leb,
  ◌==◌, ◌≡◌, refl, sym, ap, ap₂, ◌∙◌, arith, append_assoc, length-append,
}
use libreactor_refactor.Memory.Blocks.{front, take-pieces, drop-pieces}
use libreactor_refactor.Words.{sub64-eq}
use libreactor_refactor.Http.Read.{Region, offset_by, scan_chunks, move_bytes}
use libreactor_refactor.Http.Hex.{hex}
use libreactor_refactor.Http.Chunks.{
  chunk_text, line_size, chunk_size, length-chunk_text, http_chunk-text,
}

-- The pieces of a body in chunks, and what follows them.
abbrev pub encode : List (List ℕ) → List ℕ → List ℕ
encode [] post = chunk_text [] post
encode (d ∷ ds) post = chunk_text d (encode ds post)

abbrev pub encode_size : List (List ℕ) → ℕ
encode_size [] = chunk_size []
encode_size (d ∷ ds) = chunk_size d + encode_size ds

-- The body.
abbrev pub joined : List (List ℕ) → List ℕ
joined [] = []
joined (d ∷ ds) = d ++ joined ds

-- A piece of no bytes is the end of the body.
abbrev pub NoneEmpty : List (List ℕ) → Type 0
NoneEmpty [] = Unit
NoneEmpty (d ∷ ds) = (1 ≤ length d) × NoneEmpty ds

pub length-encode :
    (ds : List (List ℕ)) (post : List ℕ) → length (encode ds post) ≡ encode_size ds + length post
length-encode [] post = length-chunk_text [] post
length-encode (d ∷ ds) post =
    omega (arith, length-chunk_text d (encode ds post), length-encode ds post)

-- The place behind a chunk.
pub behind-chunk : (a d rest : List ℕ) → a ++ chunk_text d rest ≡ (a ++ chunk_text d []) ++ rest
behind-chunk a d rest = simp append_assoc

abbrev pub region : ℕ → ℕ → Region
region p n = record { start = p; size = n }

pub behind :
    (a d : List ℕ) (size : ℕ)
    → chunk_size d ≤ size
    → size < 2 ^ 64
    → offset_by (record { start = length a; size = size }) (chunk_size d)
      ≡ record { start = length (a ++ chunk_text d []); size = size - chunk_size d }
unfolding offset_by
behind a d size le small =
    let place : length a + chunk_size d ≡ length (a ++ chunk_text d []) =
      omega (arith, length-append a (chunk_text d []), length-chunk_text d []) in
    ap₂ region place (sub64-eq size (chunk_size d) le (omega arith))

pub not_zero : (n : ℕ) → 1 ≤ n → (n == 0) ≡ false
not_zero n any = ground arith

pub scan_chunks-encode :
    (fuel : ℕ) (ds : List (List ℕ)) (a post : List ℕ) (size : ℕ)
    → NoneEmpty ds
    → encode_size ds ≤ size
    → size ≤ encode_size ds + length post
    → size < 2 ^ 64
    → size < fuel
    → scan_chunks fuel (a ++ encode ds post) (record { start = length a; size = size }) ≡ some true
unfolding scan_chunks
scan_chunks-encode zero ds a post size full ge le small enough = absurd (omega arith)
scan_chunks-encode (suc fuel) [] a post size full ge le small enough =
    let found = http_chunk-text a [] post size ge le small in
    let count : (chunk_size [] == 0) ≡ false = ground arith in rw (found, count) refl
scan_chunks-encode (suc fuel) (d ∷ ds) a post size (any, full) ge le small enough =
    let found =
      http_chunk-text a d (encode ds post) size (omega (arith))
        (omega (arith, length-encode ds post)) small in
    let count : (chunk_size d == 0) ≡ false = not_zero (chunk_size d) (omega arith) in
    let more : (length d == 0) ≡ false = not_zero (length d) any in
    let rest =
      ap₂ (scan_chunks fuel) (behind-chunk a d (encode ds post))
        (behind a d size (omega arith) small)
      ∙ scan_chunks-encode fuel ds (a ++ chunk_text d []) post (size - chunk_size d) full
          (omega arith) (omega arith) (omega arith) (omega arith) in
    rw (found, rest, count, more) refl

-- A move of the bytes `d` to the end of `b`.
move_bytes-pieces :
    (b p d r x w : List ℕ)
    → p ++ (d ++ r) ≡ x ++ w
    → length x ≡ length d
    → move_bytes (b ++ (p ++ (d ++ r))) (length b) (region (length b + length p) (length d))
      ≡ some (b ++ (d ++ w))
unfolding move_bytes
move_bytes-pieces b p d r x w split len =
    let m = b ++ (p ++ (d ++ r)) in
    let whole = length-append b (p ++ (d ++ r)) in
    let part = length-append p (d ++ r) in
    let tail = length-append d r in
    let from : leb (length b + length p + length d) (length m) ≡ true =
      ground (arith, whole, part, tail) in
    let to : leb (length b + length d) (length m) ≡ true = ground (arith, whole, part, tail) in
    let source : drop (length b + length p) m ≡ d ++ r =
      ap₂ (λ (n : ℕ) (l : List ℕ). drop n l) (sym (length-append b p))
        (sym (append_assoc b p (d ++ r)))
      ∙ drop-pieces (b ++ p) (d ++ r) in
    let count : length b + length d ≡ length (b ++ x) = omega (arith, length-append b x, len) in
    let rest : drop (length b + length d) m ≡ w =
      ap₂ (λ (n : ℕ) (l : List ℕ). drop n l) count
        (ap (λ (l : List ℕ). b ++ l) split ∙ sym (append_assoc b x w))
      ∙ drop-pieces (b ++ x) w in
    rw (from, to, take-pieces b (p ++ (d ++ r)), source, take-pieces d r, rest) refl

-- The data of a chunk is moved down over a gap, which moves behind it.
pub move_bytes-chunk :
    (b gap d rest : List ℕ)
    → (left : List ℕ) × (length left ≡ length gap + chunk_size d - length d)
      × (move_bytes
            (b ++ (gap ++ chunk_text d rest))
            (length b)
            (region (length b + length gap + line_size d) (length d))
          ≡ some (b ++ (d ++ (left ++ rest))))
move_bytes-chunk b gap d rest =
    let line = chunk_line d in
    let end = 13 ∷ 10 ∷ [] in
    let p = gap ++ line in
    let all = length-append p (d ++ end) in
    let plen = length-append gap line in
    let llen = length-append (hex 16 (length d)) (13 ∷ 10 ∷ []) in
    let (x, left, split, xlen) =
      front (p ++ (d ++ end)) (length d) (omega (arith, all, length-append d end)) in
    let same : b ++ (gap ++ chunk_text d rest) ≡ b ++ (p ++ (d ++ (end ++ rest))) =
      simp append_assoc in
    let cut : p ++ (d ++ (end ++ rest)) ≡ x ++ (left ++ rest) =
      reassoc p d end rest ∙ ap (λ (l : List ℕ). l ++ rest) split ∙ append_assoc x left rest in
    let place : length b + length gap + line_size d ≡ length b + length p =
      omega (arith, plen, llen) in
    (
      left,
      omega (
        arith,
        all,
        length-append d end,
        ap length split,
        length-append x left,
        xlen,
        plen,
        llen,
      ),
      ap₂ (λ (m : List ℕ) (n : ℕ). move_bytes m (length b) (region n (length d))) same place
          ∙ move_bytes-pieces b p d (end ++ rest) x (left ++ rest) cut xlen,
    )
  where
    chunk_line : List ℕ → List ℕ
    chunk_line d = hex 16 (length d) ++ (13 ∷ 10 ∷ [])

    reassoc : (p d end rest : List ℕ) → p ++ (d ++ (end ++ rest)) ≡ (p ++ (d ++ end)) ++ rest
    reassoc p d end rest = simp append_assoc
