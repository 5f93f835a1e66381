-- ===== src/Object/Defs.antt =====
-- src/reactor/object.c: one function for each of the source, on the header and bytes of one object.
-- `none` in place of an object is one that was freed. A `destroy` that is NULL is `none`.
use libreactor_refactor.Prelude.{
  ℕ, Option, none, some, List, [], ◌∷◌, replicate, ◌==◌, if◌then◌else◌,
}
use libreactor_refactor.Words.{add64, sub64}
use libreactor_refactor.Memory.{Memory}

-- `struct object_header`; `destroy` is the number of a function.
pub record Header : Type 0 where
  pub references : ℕ
  pub value : ℕ
  pub destroy : Option ℕ
  pub object : Memory

-- `base` holds the `size` bytes that are copied, or is NULL, which is `none`.
unfoldable pub object_create : Option Memory → ℕ → ℕ → Option ℕ → Header
object_create base size value destroy =
    let bytes : Memory = elim base [ none ↦ replicate size none | some x ↦ x ] in
    record { references = 1; value = value; destroy = destroy; object = bytes }

unfoldable pub object_hold : Header → Header
unfolding add64
object_hold h = record h { references = add64 h.references 1 }

-- `if (header->destroy) header->destroy(object)`
abbrev pub destructors : Option ℕ → List ℕ
destructors none = []
destructors (some f) = f ∷ []

-- What is left of the object, and the destructors that are called.
unfoldable pub object_release : Header → Option Header × List ℕ
unfolding sub64
object_release h =
    let left = sub64 h.references 1 in
    if left == 0 then (none, destructors h.destroy) else (some (record h { references = left }), [])

unfoldable pub object_data : Header → ℕ
object_data h = h.value
