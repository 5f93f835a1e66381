-- ===== src/Mapi/View.antt =====
-- What a table of src/reactor/mapi.c stands for: a partial function from numbers above 0 to values.
use libreactor_refactor.Prelude.{ℕ, ◌≡◌, refl, true, Option, ◌↔◌, arith, ◌==◌}
use libreactor_refactor.Map.Slots.{IsKeyed}
use libreactor_refactor.Map.View as Table
use libreactor_refactor.Mapi.Defs.{Entry, Mapi, set, equal, hash, callbacks}

abbrev pub entry : ℕ → ℕ → Entry
entry k v = record { key = k; value = v }

-- `mapi.c` gives map.c what it asks for.
pub callbacks-IsKeyed : IsKeyed callbacks
unfolding set equal hash
callbacks-IsKeyed = record {
  write_some = λ x. refl;
  write_none = refl;
  same_refl = λ x. ground arith;
  same_symm = λ x y h. ground arith;
  same_trans = λ x y z h k. ground arith;
  hash-same = λ x y h. ground arith;
}

pub eq_correct : (a b : ℕ) → ((a == b) ≡ true) ↔ (a ≡ b)
eq_correct a b = (λ e. ground arith, λ e. ground arith)

-- The keys; 0 is no key.
unfoldable pub keys : Table.Keys callbacks ℕ
unfolding set equal
keys = record {
  keyed = callbacks-IsKeyed;
  no_key = 0;
  eq = λ a b. a == b;
  key = λ x. x.key;
  value = λ x. x.value;
  entry = entry;
  eq_correct = eq_correct;
  key-entry = λ k v. refl;
  value-entry = λ k v. refl;
  value_none = refl;
  entry-eta = λ x. refl;
  equal_none = λ x. refl;
  equal_some = λ x y. refl;
}

-- The value under a key; 0 is no key.
abbrev pub view : Mapi → ℕ → Option ℕ
view = Table.view keys
