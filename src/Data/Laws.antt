-- ===== src/Data/Laws.antt =====
-- src/reactor/data.c: comparison decides equality.
use libreactor_refactor.Prelude.{ℕ, true, List, [], ◌∷◌, length, ◌≡◌, ◌↔◌, refl, ap₂, arith}
use libreactor_refactor.Data.Defs.{Data, data_size, data_base, data_equal, same_bytes}

same_bytes-eq : (a b : List ℕ) → length a ≡ length b → same_bytes a b ≡ true → a ≡ b
unfolding same_bytes
same_bytes-eq [] [] n h = refl
same_bytes-eq [] (y ∷ ys) n h = absurd (omega arith)
same_bytes-eq (x ∷ xs) [] n h = absurd (omega arith)
same_bytes-eq (x ∷ xs) (y ∷ ys) n h =
    let head : x ≡ y = ground (arith, h) in
    let tail : same_bytes xs ys ≡ true = ground (arith, h) in
    ap₂ (λ (z : ℕ) (zs : List ℕ). z ∷ zs) head (same_bytes-eq xs ys (omega arith) tail)

same_bytes_refl : (a : List ℕ) → same_bytes a a ≡ true
unfolding same_bytes
same_bytes_refl [] = refl
same_bytes_refl (x ∷ xs) = ground (arith, same_bytes_refl xs)

-- `data_equal` holds just of regions with the same bytes.
pub data_equal_iff : (a b : Data) → (data_equal a b ≡ true) ↔ (a ≡ b)
unfolding data_equal data_size data_base
data_equal_iff a b = (
  λ h. same_bytes-eq a b (ground (arith, h)) (ground (arith, h)),
  λ e. rw e (ground (arith, same_bytes_refl b)),
)
