-- ===== src/CString/Scan.antt =====
-- The `sscanf` formats of src/etcfs/etcfs.c and src/crossfs/crossfs.c: words and single characters.
use bedrocklinux_userland.Base.{
  ℕ, Bool, ◌||◌, ◌&&◌, [], ◌∷◌, Option, none, some, if◌then◌else◌, ◌==◌, leb,
}
use bedrocklinux_userland.CString.{Bytes}

-- `isspace(c)`: a space, or one of \t \n \v \f \r.
unfoldable pub is_space : ℕ → Bool
is_space c = c == b' ' || leb 9 c && leb c 13

unfoldable pub skip_space : Bytes → Bytes
unfolding is_space
skip_space [] = []
skip_space (x ∷ s) = if is_space x then skip_space s else x ∷ s

-- The bytes up to the next white space, and the rest.
unfoldable pub span_word : Bytes → Bytes × Bytes
unfolding is_space
span_word [] = ([], [])
span_word (x ∷ s) =
    let (word, rest) = span_word s in if is_space x then ([], x ∷ s) else (x ∷ word, rest)

abbrev pub nonempty_word : Bytes × Bytes → Option (Bytes × Bytes)
nonempty_word ([], rest) = none
nonempty_word (x ∷ word, rest) = some (x ∷ word, rest)

-- `%s`: white space is skipped, and a word of one byte or more is read.
unfoldable pub scan_word : Bytes → Option (Bytes × Bytes)
unfolding skip_space span_word
scan_word s = nonempty_word (span_word (skip_space s))

-- `%c`: any byte.
abbrev pub scan_char : Bytes → Option (ℕ × Bytes)
scan_char [] = none
scan_char (x ∷ s) = some (x, s)

-- `%s%c`
unfoldable pub scan_pair : Bytes → Option (Bytes × ℕ × Bytes)
unfolding scan_word
scan_pair s = elim (scan_word s) [
  | none ↦ none
  | some (word, rest) ↦ elim (scan_char rest) [
    | none ↦ none
    | some (c, rest') ↦ some (word, c, rest')
  ]
]
