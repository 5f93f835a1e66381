-- ===== src/Http/Decimal.antt =====
-- src/reactor/http.c: `utility_u32_sprint` writes the decimal digits of a number, and nothing else.
use libreactor_refactor.Prelude.{
  ℕ, zero, suc, ◌+◌, ◌-◌, ◌*◌, ◌/◌, ◌%◌, ◌^◌, ◌≤◌, ◌<◌, some, List, [], ◌∷◌, ◌++◌, length, ltb, leb,
  ◌≡◌, refl, sym, ap, ap₂, ◌∙◌, arith, true, false, length-append, append_assoc,
}
use native.Mathlib.Nat.{pow-suc}
use native.Mathlib.Decide.{dec_lt}
use libreactor_refactor.Memory.{Byte, Memory, store}
use libreactor_refactor.Memory.Blocks.{front, store-pieces}
use libreactor_refactor.Http.Number.{digit_high, digit_low, put_before, put_pair, sprint_from}
use libreactor_refactor.Http.Write.{cells}
use libreactor_refactor.Http.Digits.{decimal}

pub cells-append : (xs ys : List ℕ) → cells (xs ++ ys) ≡ cells xs ++ cells ys
cells-append [] ys = refl
cells-append (x ∷ xs) ys = ap (λ (l : Memory). some x ∷ l) (cells-append xs ys)

pub length-cells : (xs : List ℕ) → length (cells xs) ≡ length xs
length-cells [] = refl
length-cells (x ∷ xs) = ap suc (length-cells xs)

-- The number that digits are read as.
abbrev pub value : ℕ → List ℕ → ℕ
value acc [] = acc
value acc (c ∷ cs) = value (10 * acc + (c - 48)) cs

value-append : (acc : ℕ) (xs ys : List ℕ) → value acc (xs ++ ys) ≡ value (value acc xs) ys
value-append acc [] ys = refl
value-append acc (x ∷ xs) ys = value-append (10 * acc + (x - 48)) xs ys

-- The digits of a number are read as that number.
pub value-decimal : (most n : ℕ) → 0 < most → n < 10 ^ most → value 0 (decimal most n) ≡ n
unfolding decimal
value-decimal zero n pos small = absurd (omega arith)
value-decimal (suc most) n pos small = elim (dec_lt n 10) [
  | yes one ↦ let test : ltb n 10 ≡ true = ground arith in rw test (omega arith)
  | no more ↦
      let test : ltb n 10 ≡ false = ground arith in
      let rest =
        value-decimal most (n / 10) (nonzero most small more) (omega (arith, pow-suc 10 most)) in
      rw (test, value-append 0 (decimal most (n / 10)) ((48 + n % 10) ∷ []), rest) (omega arith)
]
  where
    nonzero : (most : ℕ) → n < 10 ^ suc most → (n < 10 → ⊥) → 0 < most
    nonzero zero small more = absurd (more (omega arith))
    nonzero (suc most) small more = omega arith

pub length-decimal : (most n : ℕ) → length (decimal most n) ≤ most
unfolding decimal
length-decimal zero n = omega arith
length-decimal (suc most) n = elim (dec_lt n 10) [
  | yes one ↦ let test : ltb n 10 ≡ true = ground arith in rw test (omega arith)
  | no more ↦
      let test : ltb n 10 ≡ false = ground arith in
      let rest = length-decimal most (n / 10) in
      let whole = length-append (decimal most (n / 10)) ((48 + n % 10) ∷ []) in
      rw test (omega (arith, rest, whole))
]

put_before-pieces :
    (a b : Memory) (y : Byte) (c : ℕ)
    → put_before (a ++ (y ∷ b)) (suc (length a)) c ≡ some (a ++ (some c ∷ b), length a)
unfolding put_before
put_before-pieces a b y c =
    let stored = store-pieces a (y ∷ []) b (some c ∷ []) refl in rw stored refl

put_pair-pieces :
    (a b : Memory) (y z : Byte) (i : ℕ)
    → put_pair (a ++ (y ∷ z ∷ b)) (suc (suc (length a))) i
      ≡ some (a ++ (some (48 + i / 10) ∷ some (48 + i % 10) ∷ b), length a)
unfolding put_pair digit_high digit_low
put_pair-pieces a b y z i =
    let c = some (48 + i % 10) in
    let stored : store (a ++ (y ∷ z ∷ b)) (suc (length a)) (c ∷ []) ≡ some (a ++ (y ∷ c ∷ b)) =
      ap₂ (λ (m : Memory) (p : ℕ). store m p (c ∷ [])) (sym (append_assoc a (y ∷ []) (z ∷ b)))
        (omega (arith, length-append a (y ∷ [])))
      ∙ store-pieces (a ++ (y ∷ [])) (z ∷ []) b (c ∷ []) refl
      ∙ ap some (append_assoc a (y ∷ []) (c ∷ b)) in
    let low : put_before (a ++ (y ∷ z ∷ b)) (suc (suc (length a))) (48 + i % 10)
        ≡ some (a ++ (y ∷ c ∷ b), suc (length a)) =
      unfold put_before in rw stored refl in
    rw (low, put_before-pieces a (some (48 + i % 10) ∷ b) y (48 + i / 10)) refl

abbrev pub double : ℕ → ℕ
double zero = zero
double (suc k) = suc (suc (double k))

two : (z : Memory) → length z ≡ 2 → (u : Byte) × (v : Byte) × (z ≡ u ∷ v ∷ [])
two [] e = absurd (omega arith)
two (u ∷ []) e = absurd (omega arith)
two (u ∷ v ∷ []) e = (u, v, refl)
two (u ∷ v ∷ w ∷ z) e = absurd (omega arith)

one : (z : Memory) → length z ≡ 1 → (u : Byte) × (z ≡ u ∷ [])
one [] e = absurd (omega arith)
one (u ∷ []) e = (u, refl)
one (u ∷ v ∷ z) e = absurd (omega arith)

-- The digits of a number of more than two digits.
decimal_hundred :
    (most n : ℕ)
    → 100 ≤ n
    → decimal (suc (suc most)) n
      ≡ decimal most (n / 100) ++ ((48 + n % 100 / 10) ∷ (48 + n % 100 % 10) ∷ [])
unfolding decimal
decimal_hundred most n more =
    let first : ltb n 10 ≡ false = ground arith in
    let second : ltb (n / 10) 10 ≡ false = ground arith in
    let part : n / 10 / 10 ≡ n / 100 = omega arith in
    let high : n / 10 % 10 ≡ n % 100 / 10 = omega arith in
    let low : n % 10 ≡ n % 100 % 10 = omega arith in
    rw (first, second, part, high, low)
      (append_assoc (decimal most (n / 100)) ((48 + n % 100 / 10) ∷ []) ((48 + n % 100 % 10) ∷ []))

decimal_one : (most n : ℕ) → n < 10 → decimal (suc most) n ≡ (48 + n) ∷ []
unfolding decimal
decimal_one most n lt = let test : ltb n 10 ≡ true = ground arith in rw test refl

decimal_two :
    (most n : ℕ)
    → 10 ≤ n
    → n < 100
    → decimal (suc (suc most)) n ≡ (48 + n / 10) ∷ (48 + n % 10) ∷ []
unfolding decimal
decimal_two most n ge lt =
    let first : ltb n 10 ≡ false = ground arith in
    let second : ltb (n / 10) 10 ≡ true = ground arith in rw (first, second) refl

-- A pair of digits at the end of the piece `y ++ z`.
put_pair-end :
    (a y z b : Memory) (i : ℕ)
    → length z ≡ 2
    → put_pair (a ++ ((y ++ z) ++ b)) (length a + length (y ++ z)) i
      ≡ some (a ++ (y ++ (some (48 + i / 10) ∷ some (48 + i % 10) ∷ b)), length a + length y)
put_pair-end a y z b i zlen =
    let (u, v, pair) = two z zlen in
    let c = some (48 + i / 10) in
    let d = some (48 + i % 10) in
    let parts : a ++ ((y ++ z) ++ b) ≡ (a ++ y) ++ (u ∷ v ∷ b) =
      ap (λ (l : Memory). a ++ ((y ++ l) ++ b)) pair
      ∙ ap (λ (l : Memory). a ++ l) (append_assoc y (u ∷ v ∷ []) b)
      ∙ sym (append_assoc a y (u ∷ v ∷ b)) in
    let place : length a + length (y ++ z) ≡ suc (suc (length (a ++ y))) =
      omega (arith, length-append y z, zlen, length-append a y) in
    ap₂ (λ (m : Memory) (p : ℕ). put_pair m p i) parts place
    ∙ put_pair-pieces (a ++ y) b u v i
    ∙ ap₂ (λ (m : Memory) (p : ℕ). some (m, p)) (append_assoc a y (c ∷ d ∷ b)) (length-append a y)

-- Enough rounds of `utility_u32_sprint` write the digits over a piece `y` of their length.
pub sprint_from-pieces :
    (fuel n : ℕ) (a y b : Memory)
    → n < 100 ^ fuel
    → 0 < fuel
    → length y ≡ length (decimal (double fuel) n)
    → sprint_from fuel n (a ++ (y ++ b)) (length a + length y)
      ≡ some (a ++ (cells (decimal (double fuel) n) ++ b), length a)
unfolding sprint_from
sprint_from-pieces zero n a y b small pos len = absurd (omega arith)
sprint_from-pieces (suc fuel) n a y b small pos len = elim (dec_lt n 100) [
  | no more ↦
      let test : leb 100 n ≡ true = ground arith in
      let rest = decimal (double fuel) (n / 100) in
      let hi = 48 + n % 100 / 10 in
      let lo = 48 + n % 100 % 10 in
      let text = decimal_hundred (double fuel) n (omega arith) in
      let count : length y ≡ length rest + 2 =
        len ∙ ap length text ∙ length-append rest (hi ∷ lo ∷ []) in
      let (y', z, split, ylen) = front y (length rest) (omega (arith, count)) in
      let zlen : length z ≡ 2 = omega (arith, count, ap length split, length-append y' z, ylen) in
      let wrote =
        ap (λ (l : Memory). put_pair (a ++ (l ++ b)) (length a + length l) (n % 100)) split
        ∙ put_pair-end a y' z b (n % 100) zlen in
      let rec =
        sprint_from-pieces fuel (n / 100) a y' (some hi ∷ some lo ∷ b)
          (omega (arith, pow-suc 100 fuel)) (some_fuel fuel small (omega arith)) ylen in
      let whole : cells rest ++ (some hi ∷ some lo ∷ b)
          ≡ cells (decimal (double (suc fuel)) n) ++ b =
        sym (append_assoc (cells rest) (some hi ∷ some lo ∷ []) b)
        ∙ ap (λ (l : Memory). l ++ b) (sym (ap cells text ∙ cells-append rest (hi ∷ lo ∷ []))) in
      rw (test, wrote) (rec ∙ ap (λ (l : Memory). some (a ++ l, length a)) whole)
  | yes few ↦
      let test : leb 100 n ≡ false = ground arith in
      elim (dec_lt n 10) [
        | yes digit ↦
            let test' : ltb n 10 ≡ true = ground arith in
            let text = decimal_one (suc (double fuel)) n digit in
            let (u, single) = one y (len ∙ ap length text) in
            let place : length a + length y ≡ suc (length a) = omega (arith, ap length single) in
            let wrote : put_before (a ++ (y ++ b)) (length a + length y) (n + 48)
                ≡ some (a ++ (cells (decimal (double (suc fuel)) n) ++ b), length a) =
              ap₂ (λ (l : Memory) (p : ℕ). put_before (a ++ (l ++ b)) p (n + 48)) single place
              ∙ put_before-pieces a b u (n + 48)
              ∙ ap (λ (c : ℕ). some (a ++ (some c ∷ b), length a)) (omega arith)
              ∙ ap (λ (l : List ℕ). some (a ++ (cells l ++ b), length a)) (sym text) in
            rw (test, test') wrote
        | no digits ↦
            let test' : ltb n 10 ≡ false = ground arith in
            let text = decimal_two (double fuel) n (omega arith) few in
            let (u, v, pair) = two y (len ∙ ap length text) in
            let place : length a + length y ≡ suc (suc (length a)) =
              omega (arith, ap length pair) in
            let wrote : put_pair (a ++ (y ++ b)) (length a + length y) n
                ≡ some (a ++ (cells (decimal (double (suc fuel)) n) ++ b), length a) =
              ap₂ (λ (l : Memory) (p : ℕ). put_pair (a ++ (l ++ b)) p n) pair place
              ∙ put_pair-pieces a b u v n
              ∙ ap (λ (l : List ℕ). some (a ++ (cells l ++ b), length a)) (sym text) in
            rw (test, test') wrote
      ]
]
  where
    some_fuel : (fuel : ℕ) → n < 100 ^ suc fuel → 100 ≤ n → 0 < fuel
    some_fuel zero small more = absurd (omega arith)
    some_fuel (suc fuel) small more = omega arith
