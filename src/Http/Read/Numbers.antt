-- ===== src/Http/Read/Numbers.antt =====
-- `strtoull` and `memchr` as src/reactor/http.c uses them. `none` is a read behind the list.
use libreactor_refactor.Prelude.{
  ◌>>=◌, ℕ, suc, ◌+◌, ◌-◌, ◌*◌, ◌%◌, Bool, true, false, ◌&&◌, ◌||◌, Option, none, some, List, [],
  ◌∷◌, leb, ltb, ◌==◌, if◌then◌else◌,
}
use libreactor_refactor.Words.{word}

unfoldable pub is_space : ℕ → Bool
is_space c = (c == 32) || (leb 9 c && leb c 13)

-- The value of a digit; 99 is none.
unfoldable pub digit_value : ℕ → ℕ
digit_value c =
    if leb 48 c && leb c 57
    then c - 48
    else if leb 97 c && leb c 122
    then c - 87
    else if leb 65 c && leb c 90
    then c - 55
    else 99

unfoldable pub skip_spaces : List ℕ → List ℕ
unfolding is_space
skip_spaces [] = []
skip_spaces (c ∷ s) = if is_space c then skip_spaces s else c ∷ s

unfoldable pub read_digits : ℕ → ℕ → List ℕ → Option ℕ
unfolding digit_value
read_digits base acc [] = none
read_digits base acc (c ∷ s) =
    let d = digit_value c in
    let rest = read_digits base (acc * base + d) s in if ltb d base then rest else some acc

-- `0x` before a digit in base 16
unfoldable pub skip_prefix : ℕ → List ℕ → List ℕ
unfolding digit_value
skip_prefix base (a ∷ b ∷ c ∷ s) =
    if (base == 16) && ((a == 48) && (((b == 120) || (b == 88)) && ltb (digit_value c) 16))
    then c ∷ s
    else a ∷ b ∷ c ∷ s
skip_prefix base s = s

unfoldable pub unsigned : ℕ → List ℕ → Option ℕ
unfolding read_digits skip_prefix
unsigned base s = read_digits base 0 (skip_prefix base s)

-- The number with its sign, or the greatest one.
unfoldable pub limited : Bool → ℕ → ℕ
limited minus n = if leb word n then word - 1 else if minus then (word - n) % word else n

unfoldable pub signed : ℕ → List ℕ → Option ℕ
unfolding unsigned limited
signed base [] = none
signed base (c ∷ s) =
    if c == 45
    then (unsigned base s >>= λ n. some (limited true n))
    else if c == 43
    then (unsigned base s >>= λ n. some (limited false n))
    else (unsigned base (c ∷ s) >>= λ n. some (limited false n))

-- `strtoull(s, NULL, base)`
unfoldable pub strtoull : ℕ → List ℕ → Option ℕ
unfolding skip_spaces signed
strtoull base s = signed base (skip_spaces s)

-- `memchr`, as an offset
unfoldable pub memchr : ℕ → List ℕ → Option ℕ
memchr c [] = none
memchr c (x ∷ s) = let rest = memchr c s in if x == c then some 0 else (rest >>= λ i. some (suc i))
