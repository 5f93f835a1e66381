-- ===== src/Vector/Tests.antt =====
-- The vector at concrete arguments: two objects of two bytes.
use libreactor_refactor.Prelude.{
  ◌≡◌, refl, true, none, some, [], ◌∷◌, ◌++◌, length, arith, if◌then◌else◌,
}
use libreactor_refactor.Memory.{Memory}
use libreactor_refactor.Buffer.{buffer_data}
use libreactor_refactor.Vector.Defs.{Vector, vector_insert, vector_erase}
use libreactor_refactor.Vector.Laws.{Sized, join, Holds, vector_insert-Holds}
use libreactor_refactor.Vector.Erase.{vector_erase-Holds}

abbrev one : Memory
one = some 1 ∷ some 0 ∷ []

abbrev two : Memory
two = some 2 ∷ some 0 ∷ []

abbrev both : Vector
both = record {
  buffer = record { base = some 1 ∷ some 0 ∷ some 2 ∷ some 0 ∷ none ∷ []; size = 4; capacity = 5 };
  object_size = 2;
}

both-Holds : Holds both (one ∷ two ∷ [])
unfolding buffer_data join
both-Holds = record {
  valid = record { full = refl; fits = omega arith; small = omega arith };
  positive = omega arith;
  sized = Sized.one_more refl (Sized.one_more refl Sized.none_left);
  bytes = refl;
}

vector_insert-Holds_example :
    (w : Vector) × (vector_insert both (length (one ∷ [])) two ≡ some w)
    × Holds w ((one ∷ []) ++ (two ∷ (two ∷ [])))
vector_insert-Holds_example =
    vector_insert-Holds both (one ∷ []) (two ∷ []) two both-Holds refl (omega arith)

vector_erase-Holds_example :
    (w : Vector) × (vector_erase both (length {A = Memory} []) true
      ≡ some (w, if true then one ∷ [] else []))
    × Holds w ([] ++ (two ∷ []))
vector_erase-Holds_example = vector_erase-Holds both [] (two ∷ []) one both-Holds true
