-- ===== src/Http/Hex.antt =====
-- src/reactor/http.c: the size of a chunk, in hexadecimal digits, as `strtoull` reads it.
use libreactor_refactor.Prelude.{
  ◌>>=◌, ℕ, zero, suc, ◌+◌, ◌*◌, ◌/◌, ◌%◌, ◌^◌, ◌≤◌, ◌<◌, true, false, some, List, [], ◌∷◌, ◌++◌,
  length, ltb, ◌==◌, if◌then◌else◌, ◌≡◌, ◌≢◌, refl, ap, ◌∙◌, arith, append_assoc, length-append,
}
use native.Mathlib.Nat.{pow-suc}
use native.Mathlib.Decide.{dec_lt}
use libreactor_refactor.Http.Read.{
  is_space, digit_value, skip_spaces, read_digits, skip_prefix, unsigned, limited, signed, strtoull,
  memchr,
}

-- Hexadecimal digits, lowest last, of at most so many.
abbrev digit : ℕ → ℕ
digit d = if ltb d 10 then 48 + d else 87 + d

unfoldable pub hex : ℕ → ℕ → List ℕ
hex zero n = []
hex (suc most) n =
    let rest = hex most (n / 16) in if ltb n 16 then digit n ∷ [] else rest ++ (digit (n % 16) ∷ [])

-- A character that is no space, no sign, no end of a line and no `x`.
pub record IsPlain (c : ℕ) : Type 0 where
  pub low : 48 ≤ c
  pub high : c ≤ 102
  pub no_x : c ≢ 88

digit-IsPlain : (d : ℕ) → d < 16 → IsPlain (digit d)
digit-IsPlain d lt = elim (dec_lt d 10) [
  | yes few ↦
      let test : ltb d 10 ≡ true = ground arith in
      rw test record { low = omega arith; high = omega arith; no_x = λ e. omega arith }
  | no more ↦
      let test : ltb d 10 ≡ false = ground arith in
      rw test record { low = omega arith; high = omega arith; no_x = λ e. omega arith }
]

digit_value-digit : (d : ℕ) → d < 16 → digit_value (digit d) ≡ d
unfolding digit_value
digit_value-digit d lt = ground arith

-- The digits of a number are read as that number.
read_digits-hex :
    (most n : ℕ) (s : List ℕ)
    → 0 < most
    → n < 16 ^ most
    → read_digits 16 0 (hex most n ++ s) ≡ read_digits 16 n s
unfolding hex read_digits
read_digits-hex zero n s pos small = absurd (omega arith)
read_digits-hex (suc most) n s pos small = elim (dec_lt n 16) [
  | yes one ↦
      let test : ltb n 16 ≡ true = ground arith in
      rw (test, digit_value-digit n one, test) (ap (λ (k : ℕ). read_digits 16 k s) (omega arith))
  | no more ↦
      let test : ltb n 16 ≡ false = ground arith in
      let low = digit_value-digit (n % 16) (omega arith) in
      let fits : ltb (n % 16) 16 ≡ true = ground arith in
      let sum : n / 16 * 16 + n % 16 ≡ n = omega arith in
      let rest =
        read_digits-hex most (n / 16) (digit (n % 16) ∷ s) (nonzero most small more)
          (omega (arith, pow-suc 16 most)) in
      rw (test, append_assoc (hex most (n / 16)) (digit (n % 16) ∷ []) s, rest, low, fits, sum) refl
]
  where
    nonzero : (most : ℕ) → n < 16 ^ suc most → (n < 16 → ⊥) → 0 < most
    nonzero zero small more = absurd (more (omega arith))
    nonzero (suc most) small more = omega arith

abbrev pub ArePlain : List ℕ → Type 0
ArePlain [] = Unit
ArePlain (c ∷ cs) = IsPlain c × ArePlain cs

append-ArePlain : (xs ys : List ℕ) → ArePlain xs → ArePlain ys → ArePlain (xs ++ ys)
append-ArePlain [] ys p q = q
append-ArePlain (x ∷ xs) ys (p, ps) q = (p, append-ArePlain xs ys ps q)

pub hex-ArePlain : (most n : ℕ) → ArePlain (hex most n)
unfolding hex
hex-ArePlain zero n = tt
hex-ArePlain (suc most) n = elim (dec_lt n 16) [
  | yes one ↦ let test : ltb n 16 ≡ true = ground arith in rw test (digit-IsPlain n one, tt)
  | no more ↦
      let test : ltb n 16 ≡ false = ground arith in
      rw test (
        append-ArePlain (hex most (n / 16)) (digit (n % 16) ∷ []) (hex-ArePlain most (n / 16))
          (digit-IsPlain (n % 16) (omega arith), tt))
]

no_prefix : (c d : ℕ) (s : List ℕ) → d ≢ 120 → d ≢ 88 → skip_prefix 16 (c ∷ d ∷ s) ≡ c ∷ d ∷ s
unfolding skip_prefix
no_prefix c d [] nx nX = refl
no_prefix c d (e ∷ s) nx nX =
    let low : (d == 120) ≡ false = ground arith in
    let high : (d == 88) ≡ false = ground arith in rw (low, high) (ground arith)

-- What the first character that is no space, and the second, decide.
signed-plain :
    (c d : ℕ) (s : List ℕ)
    → IsPlain c
    → d ≢ 120
    → d ≢ 88
    → signed 16 (skip_spaces (c ∷ d ∷ s))
      ≡ (read_digits 16 0 (c ∷ d ∷ s) >>= λ n. some (limited false n))
unfolding signed skip_spaces is_space unsigned
signed-plain c d s p nx nX =
    let space : is_space c ≡ false = unfold is_space in ground (arith, p.low) in
    let minus : (c == 45) ≡ false = ground (arith, p.low) in
    let plus : (c == 43) ≡ false = ground (arith, p.low) in
    let prefix = no_prefix c d s nx nX in rw (space, minus, plus, prefix) refl

read_digits-end : (n : ℕ) (s : List ℕ) → read_digits 16 n (13 ∷ s) ≡ some n
unfolding read_digits digit_value
read_digits-end n s = refl

hex_any : (n : ℕ) → 1 ≤ length (hex 16 n)
unfolding hex
hex_any n = elim (dec_lt n 16) [
  | yes one ↦ let test : ltb n 16 ≡ true = ground arith in rw test (omega arith)
  | no more ↦
      let test : ltb n 16 ≡ false = ground arith in
      rw test (omega (arith, length-append (hex 15 (n / 16)) (digit (n % 16) ∷ [])))
]

-- `strtoull` reads the digits of a number before the end of a line.
pub strtoull-hex :
    (n : ℕ) (s : List ℕ) → n < 2 ^ 64 → strtoull 16 (hex 16 n ++ (13 ∷ 10 ∷ s)) ≡ some n
unfolding strtoull
strtoull-hex n s small =
    let read =
      read_digits-hex 16 n (13 ∷ 10 ∷ s) (omega arith) (omega arith) ∙ read_digits-end n (10 ∷ s) in
    let low : limited false n ≡ n = unfold limited in ground arith in
    plain (hex 16 n) (hex-ArePlain 16 n) (hex_any n) ∙ rw (read, low) refl
  where
    plain :
        (line : List ℕ)
        → ArePlain line
        → 1 ≤ length line
        → signed 16 (skip_spaces (line ++ (13 ∷ 10 ∷ s)))
          ≡ (read_digits 16 0 (line ++ (13 ∷ 10 ∷ s)) >>= λ k. some (limited false k))
    plain [] p any = absurd (omega arith)
    plain (c ∷ []) (p, q) any = signed-plain c 13 (10 ∷ s) p (λ e. omega arith) (λ e. omega arith)
    plain (c ∷ d ∷ line) (p, (q, r)) any =
        signed-plain c d (line ++ (13 ∷ 10 ∷ s)) p (λ e. omega (arith, q.high)) q.no_x

-- The end of the line is found behind the digits.
pub memchr-plain :
    (line s : List ℕ) → ArePlain line → memchr 10 (line ++ (13 ∷ 10 ∷ s)) ≡ some (suc (length line))
unfolding memchr
memchr-plain [] s p = refl
memchr-plain (c ∷ line) s (p, q) =
    let other : (c == 10) ≡ false = ground (arith, p.low) in rw (other, memchr-plain line s q) refl
