-- ===== src/Memory/Blocks.antt =====
-- Loads and stores by the pieces of the block that they meet.
use libreactor_refactor.Prelude.{
  ℕ, ◌+◌, ◌-◌, ◌≤◌, true, none, some, List, [], ◌∷◌, ◌++◌, length, take, drop, replicate, leb, ◌≡◌,
  refl, sym, ap, ◌∙◌, ap₂, arith, length-append, length-take, length-drop, take-append-drop,
  drop-append_right, append_assoc, take_all, length-replicate,
}
use libreactor_refactor.Memory.Defs.{Byte, Memory, load, store, memmove, realloc}

-- A block of `p + n` bytes and more has a piece of `n` bytes behind its first `p`.
pub pieces :
    {A : Type 0}
    → (m : List A) (p n : ℕ) → p + n ≤ length m
    → (a : List A) × (b : List A) × (c : List A) × (m ≡ a ++ (b ++ c))
      × (length a ≡ p)
      × (length b ≡ n)
pieces {A} m p n le = (
  take p m,
  take n (drop p m),
  drop n (drop p m),
  sym (take-append-drop p m)
      ∙ ap (λ (l : List A). take p m ++ l) (sym (take-append-drop n (drop p m))),
  omega (arith, length-take p m),
  omega (arith, length-take n (drop p m), length-drop p m),
)

pub front :
    {A : Type 0}
    → (m : List A) (n : ℕ) → n ≤ length m
    → (a : List A) × (b : List A) × (m ≡ a ++ b) × (length a ≡ n)
front m n le = (take n m, drop n m, sym (take-append-drop n m), omega (arith, length-take n m))

pub take-pieces : {A : Type 0} (a b : List A) → take (length a) (a ++ b) ≡ a
take-pieces [] b = refl
take-pieces {A} (x ∷ a) b = ap (λ (l : List A). x ∷ l) (take-pieces a b)

pub drop-pieces : {A : Type 0} (a b : List A) → drop (length a) (a ++ b) ≡ b
drop-pieces [] b = refl
drop-pieces (x ∷ a) b = drop-pieces a b

pub load-pieces : (a b c : Memory) → load (a ++ (b ++ c)) (length a) (length b) ≡ some b
unfolding load
load-pieces a b c =
    let whole = length-append a (b ++ c) in
    let tail = length-append b c in
    let fits : leb (length a + length b) (length (a ++ (b ++ c))) ≡ true =
      ground (arith, whole, tail) in
    rw (fits, drop-pieces a (b ++ c), take-pieces b c) refl

pub store-pieces :
    (a b c x : Memory)
    → length b ≡ length x
    → store (a ++ (b ++ c)) (length a) x ≡ some (a ++ (x ++ c))
unfolding store
store-pieces a b c x e =
    let whole = length-append a (b ++ c) in
    let tail = length-append b c in
    let fits : leb (length a + length x) (length (a ++ (b ++ c))) ≡ true =
      ground (arith, whole, tail) in
    let behind : drop (length a + length x) (a ++ (b ++ c)) ≡ c =
      drop-append_right a (b ++ c) (length x)
      ∙ ap (λ (n : ℕ). drop n (b ++ c)) (sym e)
      ∙ drop-pieces b c in
    rw (fits, take-pieces a (b ++ c), behind) refl

-- A block that grows keeps its bytes.
pub realloc_more :
    (m : Memory) (n : ℕ) → length m ≤ n → realloc m n ≡ m ++ replicate (n - length m) none
unfolding realloc
realloc_more m n le = ap (λ (l : Memory). l ++ replicate (n - length m) none) (take_all n m le)

pub length-realloc : (m : Memory) (n : ℕ) → length (realloc m n) ≡ n
unfolding realloc
length-realloc m n = omega (
  arith,
  length-append (take n m) (replicate (n - length m) none),
  length-take n m,
  length-replicate {A = Byte} (n - length m) none,
)

-- The piece `t` moves up by `n` bytes, into the block's rest `r`.
pub memmove_up :
    (a t r : Memory) (n : ℕ)
    → n ≤ length r
    → (y : Memory) × (v : Memory) × (length y ≡ n)
      × (n + length v ≡ length r)
      × (memmove (a ++ (t ++ r)) (length a + n) (length a) (length t) ≡ some (a ++ (y ++ (t ++ v))))
unfolding memmove
memmove_up a t r n le =
    let (y, u, v, split, ylen, ulen) =
      pieces (t ++ r) n (length t) (omega (arith, length-append t r)) in
    let above : length a + n ≡ length (a ++ y) = omega (arith, length-append a y) in
    let parts : a ++ (t ++ r) ≡ (a ++ y) ++ (u ++ v) =
      ap (λ (l : Memory). a ++ l) split ∙ sym (append_assoc a y (u ++ v)) in
    let moved : store (a ++ (t ++ r)) (length a + n) t ≡ some (a ++ (y ++ (t ++ v))) =
      ap₂ (λ (m : Memory) (n : ℕ). store m n t) parts above
      ∙ store-pieces (a ++ y) u v t ulen
      ∙ ap some (append_assoc a y (t ++ v)) in
    let count : n + length v ≡ length r =
      omega
        (arith, ap length split, length-append t r, length-append y (u ++ v), length-append u v) in
    (y, v, ylen, count, rw (load-pieces a t r) moved)

-- The piece `t` moves down over `x`.
pub memmove_down :
    (a x t r : Memory)
    → (v : Memory) × (length v ≡ length x + length r)
      × (memmove (a ++ (x ++ (t ++ r))) (length a) (length a + length x) (length t)
          ≡ some (a ++ (t ++ v)))
unfolding memmove
memmove_down a x t r =
    let whole : length (x ++ (t ++ r)) ≡ length x + (length t + length r) =
      omega (arith, length-append x (t ++ r), length-append t r) in
    let (y, v, split, ylen) = front (x ++ (t ++ r)) (length t) (omega arith) in
    let loaded : load (a ++ (x ++ (t ++ r))) (length a + length x) (length t) ≡ some t =
      ap₂ (λ (m : Memory) (n : ℕ). load m n (length t)) (sym (append_assoc a x (t ++ r)))
        (sym (length-append a x))
      ∙ load-pieces (a ++ x) t r in
    let stored : store (a ++ (x ++ (t ++ r))) (length a) t ≡ some (a ++ (t ++ v)) =
      ap (λ (l : Memory). store (a ++ l) (length a) t) split ∙ store-pieces a y v t ylen in
    let count : length v ≡ length x + length r =
      omega (arith, ap length split, whole, length-append y v) in
    (v, count, rw loaded stored)
