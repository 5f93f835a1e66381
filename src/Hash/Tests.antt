-- ===== src/Hash/Tests.antt =====
-- The hashes of the repository's own tests.
use libreactor_refactor.Prelude.{ℕ, ◌≡◌, refl, some, List, [], ◌∷◌, ◌++◌, length}
use libreactor_refactor.Hash.Long.{hash_data, hash_string}
use libreactor_refactor.Hash.Safe.{Gives, IsWord, hash_data-Gives}

abbrev ten : List ℕ
ten = 49 ∷ 50 ∷ 51 ∷ 52 ∷ 53 ∷ 54 ∷ 55 ∷ 56 ∷ 57 ∷ 48 ∷ []

abbrev thirty : List ℕ
thirty = ten ++ ten ++ ten

abbrev sixty : List ℕ
sixty = thirty ++ thirty

abbrev sixty_four : List ℕ
sixty_four = sixty ++ (49 ∷ 50 ∷ 51 ∷ 52 ∷ [])

abbrev very_long : List ℕ
very_long = sixty ++ thirty ++ ten ++ ten ++ (49 ∷ 50 ∷ 51 ∷ 52 ∷ 53 ∷ 54 ∷ 55 ∷ 56 ∷ 57 ∷ [])

hash_empty : hash_string [] ≡ some 0x9ae1_6a3b_2f90_404f
unfolding hash_string
hash_empty = refl

hash_one : hash_string (49 ∷ []) ≡ some 0x811f_023a_122d_0be1
unfolding hash_string
hash_one = refl

hash_four : hash_string (49 ∷ 50 ∷ 51 ∷ 52 ∷ []) ≡ some 0x0c3f_a0b4_6e8a_dcae
unfolding hash_string
hash_four = refl

hash_eight : hash_string (49 ∷ 50 ∷ 51 ∷ 52 ∷ 53 ∷ 54 ∷ 55 ∷ 56 ∷ []) ≡ some 0x2f99_d266_4a0f_b6ea
unfolding hash_string
hash_eight = refl

hash_sixteen : hash_string (ten ++ (49 ∷ 50 ∷ 51 ∷ 52 ∷ 53 ∷ 54 ∷ [])) ≡ some 0xef3d_9afd_2277_8424
unfolding hash_string
hash_sixteen = refl

hash_thirty_two : hash_string (thirty ++ (49 ∷ 50 ∷ [])) ≡ some 0xf831_7d59_683e_31b1
unfolding hash_string
hash_thirty_two = refl

hash_sixty_four : hash_string sixty_four ≡ some 0x78a9_5a0d_9788_b255
unfolding hash_string
hash_sixty_four = refl

hash_data-Gives_example : Gives IsWord (hash_data sixty_four (length sixty_four))
hash_data-Gives_example = hash_data-Gives sixty_four
