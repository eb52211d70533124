-- ===== src/CString.antt =====
-- C strings as the lists of their bytes before the NUL, and the <string.h> functions that the
-- programs call.
pub mod Laws
pub mod Entries
pub mod Scan
use Prim.Native.Char.{code}
use Prim.Native.String.{String}
use bedrocklinux_userland.Base.{
  ℕ, Bool, true, false, ◌&&◌, List, [], ◌∷◌, Option, none, some, ◌==◌, if◌then◌else◌,
}

abbrev pub Bytes : Type 0
Bytes = List ℕ

-- The bytes of an ASCII literal.
abbrev pub codes : String → Bytes
codes String.[] = []
codes (String.◌∷◌ c s) = code c ∷ codes s

-- `strcmp(a, b) == 0`
unfoldable pub str_eq : Bytes → Bytes → Bool
str_eq [] [] = true
str_eq (x ∷ a) (y ∷ b) = x == y && str_eq a b
str_eq _ _ = false

-- `strncmp(s, p, strlen(p)) == 0`
unfoldable pub is_prefix : Bytes → Bytes → Bool
is_prefix [] s = true
is_prefix (x ∷ p) [] = false
is_prefix (x ∷ p) (y ∷ s) = x == y && is_prefix p s

-- `strchr(s, c) != NULL`
unfoldable pub has : ℕ → Bytes → Bool
has c [] = false
has c (x ∷ s) = if x == c then true else has c s

-- `strchr(s, c)`: the bytes before the first `c`, and those after it.
unfoldable pub cut : ℕ → Bytes → Option (Bytes × Bytes)
cut c [] = none
cut c (x ∷ s) =
    if x == c then some ([], s) else elim (cut c s) [ none ↦ none | some (a, b) ↦ some (x ∷ a, b) ]

-- `strrchr(s, c)`: the bytes before the last `c`, and those after it.
unfoldable pub rcut : ℕ → Bytes → Option (Bytes × Bytes)
rcut c [] = none
rcut c (x ∷ s) = elim (rcut c s) [
  | some (a, b) ↦ some (x ∷ a, b)
  | none ↦ if x == c then some ([], s) else none
]

-- The string that a buffer holds: its bytes before the first NUL.
unfoldable pub cstr : Bytes → Bytes
cstr [] = []
cstr (x ∷ s) = if x == 0 then [] else x ∷ cstr s
