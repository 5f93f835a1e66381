-- ===== src/Data/Defs.antt =====
-- src/reactor/data.c. A region is the list of its bytes, and a C string that of the bytes before its
-- byte 0. `none` is a region that would start behind the end of another.
use libreactor_refactor.Prelude.{
  ℕ, ◌+◌, Bool, true, false, ◌&&◌, Option, none, some, List, [], ◌∷◌, length, drop, take, leb, ◌==◌,
  if◌then◌else◌,
}

abbrev pub Data : Type 0
Data = List ℕ

-- `base` is the bytes from the address on.
unfoldable pub data_define : List ℕ → ℕ → Data
data_define base size = take size base

unfoldable pub data_base : Data → List ℕ
data_base d = d

unfoldable pub data_size : Data → ℕ
data_size d = length d

unfoldable pub data_empty : Data → Bool
unfolding data_size
data_empty d = data_size d == 0

-- `memcmp(a, b, n) == 0` for regions of one size
unfoldable pub same_bytes : List ℕ → List ℕ → Bool
same_bytes [] ys = true
same_bytes (x ∷ xs) [] = true
same_bytes (x ∷ xs) (y ∷ ys) = (x == y) && same_bytes xs ys

-- `tolower`
unfoldable pub to_lower : ℕ → ℕ
to_lower c = if leb 65 c && leb c 90 then c + 32 else c

-- `strncasecmp(a, b, n) == 0` for regions of one size: it ends at a byte 0.
unfoldable pub same_letters : List ℕ → List ℕ → Bool
unfolding to_lower
same_letters [] ys = true
same_letters (x ∷ xs) [] = true
same_letters (x ∷ xs) (y ∷ ys) =
    if to_lower x == to_lower y then (if x == 0 then true else same_letters xs ys) else false

unfoldable pub data_equal : Data → Data → Bool
unfolding data_size same_bytes data_base
data_equal a b = (data_size a == data_size b) && same_bytes (data_base a) (data_base b)

unfoldable pub data_equal_case : Data → Data → Bool
unfolding data_size same_letters data_base
data_equal_case a b = (data_size a == data_size b) && same_letters (data_base a) (data_base b)

unfoldable pub data_string : List ℕ → Data
unfolding data_define
data_string s = data_define s (length s)

unfoldable pub data_null : Data
data_null = []

unfoldable pub data_offset : Data → ℕ → Option Data
unfolding data_size
data_offset d size = if leb size (data_size d) then some (drop size d) else none
