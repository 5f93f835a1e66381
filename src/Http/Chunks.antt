-- ===== src/Http/Chunks.antt =====
-- src/reactor/http.c: one chunk as `http_chunk` finds it.
use libreactor_refactor.Prelude.{
  ℕ, suc, ◌+◌, ◌-◌, ◌%◌, ◌^◌, ◌≤◌, ◌<◌, true, false, some, List, ◌∷◌, ◌++◌, length, take, ltb, leb,
  ◌≡◌, refl, sym, ap, ap₂, ◌∙◌, arith, append_assoc, length-append,
}
use libreactor_refactor.Memory.Blocks.{front, take-pieces, drop-pieces}
use libreactor_refactor.Words.{word}
use libreactor_refactor.Http.Read.{bytes_of, strtoull, memchr, http_chunk}
use libreactor_refactor.Http.Hex.{hex, hex-ArePlain, strtoull-hex, memchr-plain}

abbrev line_of : List ℕ → List ℕ
line_of d = hex 16 (length d)

-- A chunk as text, and what follows it.
abbrev pub chunk_text : List ℕ → List ℕ → List ℕ
chunk_text d rest = line_of d ++ (13 ∷ 10 ∷ (d ++ (13 ∷ 10 ∷ rest)))

abbrev pub line_size : List ℕ → ℕ
line_size d = length (line_of d) + 2

abbrev pub chunk_size : List ℕ → ℕ
chunk_size d = length (line_of d) + 4 + length d

pub length-chunk_text : (d rest : List ℕ) → length (chunk_text d rest) ≡ chunk_size d + length rest
length-chunk_text d rest = omega (
  arith,
  length-append (line_of d) (13 ∷ 10 ∷ (d ++ (13 ∷ 10 ∷ rest))),
  length-append d (13 ∷ 10 ∷ rest),
)

-- The first bytes of a line that is taken whole.
take-line :
    (line s : List ℕ) (size : ℕ)
    → length line + 2 ≤ size
    → size ≤ length line + 2 + length s
    → take size (line ++ (13 ∷ 10 ∷ s)) ≡ line ++ (13 ∷ 10 ∷ take (size - (length line + 2)) s)
take-line line s size ge le =
    let k = size - (length line + 2) in
    let (x, y, split, xlen) = front s k (omega arith) in
    let whole : line ++ (13 ∷ 10 ∷ s) ≡ (line ++ (13 ∷ 10 ∷ x)) ++ y =
      ap (λ (l : List ℕ). line ++ (13 ∷ 10 ∷ l)) split ∙ sym (append_assoc line (13 ∷ 10 ∷ x) y) in
    let count : size ≡ length (line ++ (13 ∷ 10 ∷ x)) =
      omega (arith, length-append line (13 ∷ 10 ∷ x), xlen) in
    let part : take k s ≡ x =
      ap₂ (λ (n : ℕ) (l : List ℕ). take n l) (sym xlen) split ∙ take-pieces x y in
    ap₂ (λ (n : ℕ) (l : List ℕ). take n l) count whole
    ∙ take-pieces (line ++ (13 ∷ 10 ∷ x)) y
    ∙ ap (λ (l : List ℕ). line ++ (13 ∷ 10 ∷ l)) (sym part)

-- A chunk that is in its region is found, with its data.
pub http_chunk-text :
    (a d rest : List ℕ) (size : ℕ)
    → chunk_size d ≤ size
    → size ≤ chunk_size d + length rest
    → size < 2 ^ 64
    → http_chunk (a ++ chunk_text d rest) (record { start = length a; size = size })
      ≡ some (chunk_size d, some (record { start = length a + line_size d; size = length d }))
unfolding http_chunk bytes_of
http_chunk-text a d rest size ge le small =
    let line = line_of d in
    let tail = d ++ (13 ∷ 10 ∷ rest) in
    let whole = length-append a (chunk_text d rest) in
    let len = length-chunk_text d rest in
    let inside : leb (length a + size) (length (a ++ chunk_text d rest)) ≡ true =
      ground (arith, whole, len) in
    let found : memchr 10 (take size (chunk_text d rest)) ≡ some (suc (length line)) =
      ap (memchr 10)
        (take-line line tail size (omega arith) (omega (arith, length-append d (13 ∷ 10 ∷ rest))))
      ∙ memchr-plain line (take (size - (length line + 2)) tail) (hex-ArePlain 16 (length d)) in
    let read =
      ap (strtoull 16) (drop-pieces a (chunk_text d rest))
      ∙ strtoull-hex (length d) tail (omega arith) in
    let n : (suc (length line) + 1 + length d + 2) % word ≡ chunk_size d = omega arith in
    let fits : ltb size (chunk_size d) ≡ false = ground arith in
    let place : length a + suc (length line) + 1 ≡ length a + line_size d = omega arith in
    rw (inside, drop-pieces a (chunk_text d rest), found, read, n, fits, place) refl
