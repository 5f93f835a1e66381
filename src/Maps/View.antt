-- ===== src/Maps/View.antt =====
-- What a table of src/reactor/maps.c stands for: a partial function from strings to values.
use libreactor_refactor.Prelude.{
  ℕ, ◌≡◌, ◌↔◌, refl, sym, ap, ap₂, ◌∙◌, true, Option, none, some, List, [], ◌∷◌, arith,
}
use mathlib.Core.Option.{some_inj}
use libreactor_refactor.Map.Slots.{IsKeyed}
use libreactor_refactor.Map.View as Table
use libreactor_refactor.Maps.Defs.{Maps, set, string_equal, key_equal, equal, hash, callbacks}

string_equal_refl : (a : List ℕ) → string_equal a a ≡ true
unfolding string_equal
string_equal_refl [] = refl
string_equal_refl (x ∷ a) = ground (arith, string_equal_refl a)

string_equal_eq : (a b : List ℕ) → string_equal a b ≡ true → a ≡ b
unfolding string_equal
string_equal_eq [] [] e = refl
string_equal_eq [] (y ∷ b) e = absurd (cc)
string_equal_eq (x ∷ a) [] e = absurd (cc)
string_equal_eq (x ∷ a) (y ∷ b) e =
    let head : x ≡ y = ground (arith, e) in
    let tail : string_equal a b ≡ true = ground (arith, e) in
    ap₂ (λ (z : ℕ) (zs : List ℕ). z ∷ zs) head (string_equal_eq a b tail)

string_equal_correct : (a b : List ℕ) → (string_equal a b ≡ true) ↔ (a ≡ b)
string_equal_correct a b =
    (string_equal_eq a b, λ e. ap (string_equal a) (sym e) ∙ string_equal_refl a)

pub key_equal_correct : (a b : Option (List ℕ)) → (key_equal a b ≡ true) ↔ (a ≡ b)
unfolding key_equal
key_equal_correct none none = (λ e. refl, λ e. refl)
key_equal_correct none (some b) = (λ e. absurd (cc), λ e. absurd (cc))
key_equal_correct (some a) none = (λ e. absurd (cc), λ e. absurd (cc))
key_equal_correct (some a) (some b) = (
  λ e. ap some ((string_equal_correct a b).0 e),
  λ e. (string_equal_correct a b).1 (some_inj.0 e),
)

-- `maps.c` gives map.c what it asks for.
pub callbacks-IsKeyed : IsKeyed callbacks
unfolding set equal hash
callbacks-IsKeyed = record {
  write_some = λ x. refl;
  write_none = (key_equal_correct none none).1 refl;
  same_refl = λ x. (key_equal_correct x.key x.key).1 refl;
  same_symm =
      λ x y h. (key_equal_correct y.key x.key).1 (sym ((key_equal_correct x.key y.key).0 h));
  same_trans = λ x y z h k.
      (key_equal_correct x.key z.key).1
        ((key_equal_correct x.key y.key).0 h ∙ (key_equal_correct y.key z.key).0 k);
  hash-same = λ x y h.
      ap (λ (k : Option (List ℕ)). hash (record { key = k; value = 0 }))
        ((key_equal_correct x.key y.key).0 h);
}

-- The keys; an element without a key is empty.
unfoldable pub keys : Table.Keys callbacks (Option (List ℕ))
unfolding set equal
keys = record {
  keyed = callbacks-IsKeyed;
  no_key = none;
  eq = key_equal;
  key = λ x. x.key;
  value = λ x. x.value;
  entry = λ k v. record { key = k; value = v };
  eq_correct = key_equal_correct;
  key-entry = λ k v. refl;
  value-entry = λ k v. refl;
  value_none = refl;
  entry-eta = λ x. refl;
  equal_none = λ x. refl;
  equal_some = λ x y. refl;
}

-- The value under a string.
abbrev pub view : Maps → List ℕ → Option ℕ
view m key = Table.view keys m (some key)
