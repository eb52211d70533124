-- ===== src/Etcfs/Search.antt =====
-- `file_search` of src/etcfs/etcfs.c: a search for a string in a file that is read in parts.
use bedrocklinux_userland.Base.{
  ℕ, suc, ◌-◌, ◌≤◌, ◌<◌, ◌≡◌, refl, sym, ap, ◌∙◌, Bool, true, false, ◌||◌, List, [], ◌∷◌, ◌++◌,
  Option, none, some, map, length, drop, if◌then◌else◌, ◌==◌, ltb, arith, length-append,
  length-drop, Bool-cases, inl, inr, append_assoc, append-nil, concat,
}
use bedrocklinux_userland.CString.{Bytes, is_prefix}
use bedrocklinux_userland.CString.Laws.{is_prefix-append}

-- `memmem(haystack, …, needle, …) != NULL`
unfoldable pub contains : Bytes → Bytes → Bool
unfolding is_prefix
contains str [] = is_prefix str []
contains str (x ∷ s) = is_prefix str (x ∷ s) || contains str s

-- The last bytes of a buffer, which `memmove` keeps.
abbrev pub last_bytes : ℕ → Bytes → Bytes
last_bytes n s = drop (length s - n) s

-- `file_search(fd, str, len)`: `reads` are what the calls of `read` get until the one that returns 0,
-- `none` being -1, and `window` the bytes of `buf` below `off`. The result is `none` where `buf` is
-- read out of bounds: -1 is a size of SIZE_MAX, and fewer than `len - 1` bytes cannot be moved.
unfoldable pub file_search : Bytes → Bytes → List (Option Bytes) → Option Bool
unfolding contains
file_search str window [] = some false
file_search str window (none ∷ reads) = if length str == 0 then some true else none
file_search str window (some part ∷ reads) =
    let seen = window ++ part in
    let rest = file_search str (last_bytes (length str - 1) seen) reads in
    if contains str seen
    then some true
    else if ltb (length seen) (length str - 1)
    then none
    else rest

is_prefix-long :
    (str s t : Bytes) → length str ≤ length s → is_prefix str (s ++ t) ≡ is_prefix str s
unfolding is_prefix
is_prefix-long [] s t h = refl
is_prefix-long (x ∷ str) [] t h = absurd (omega arith)
is_prefix-long (x ∷ str) (y ∷ s) t h = rw (is_prefix-long str s t (omega arith)) refl

is_prefix-short : (str s : Bytes) → length s < length str → is_prefix str s ≡ false
unfolding is_prefix
is_prefix-short [] s h = absurd (omega arith)
is_prefix-short (x ∷ str) [] h = refl
is_prefix-short (x ∷ str) (y ∷ s) h = ground (arith, is_prefix-short str s)

pub contains-short : (str s : Bytes) → length s < length str → contains str s ≡ false
unfolding contains
contains-short str [] h = is_prefix-short str [] h
contains-short str (x ∷ s) h =
    rw (is_prefix-short str (x ∷ s) h) (contains-short str s (omega arith))

or_assoc : (a b c : Bool) → (a || (b || c)) ≡ ((a || b) || c)
or_assoc true b c = refl
or_assoc false b c = refl

last_bytes-all : (n : ℕ) (s : Bytes) → length s ≤ n → last_bytes n s ≡ s
last_bytes-all n s h = ap (λ k. drop k s) (none_left (length s) n h)
  where
    none_left : (a b : ℕ) → a ≤ b → a - b ≡ 0
    none_left a b h = omega arith

drop-suc : (n m : ℕ) (x : ℕ) (s : Bytes) → n ≡ suc m → drop n (x ∷ s) ≡ drop m s
drop-suc n m x s h = ap (λ k. drop k (x ∷ s)) h

-- A string that crosses the end of the bytes seen starts within their last `length str - 1`.
contains-last :
    (str seen next : Bytes)
    → 1 ≤ length str
    → contains str (seen ++ next)
      ≡ (contains str seen || contains str (last_bytes (length str - 1) seen ++ next))
unfolding contains
contains-last str [] next h =
    rw (is_prefix-short str [] (omega arith), last_bytes-all (length str - 1) [] (omega arith)) refl
contains-last str (x ∷ seen) next h = elim (Bool-cases (ltb (length seen) (length str - 1))) [
  | inl short ↦
      rw
        (
          contains-short str (x ∷ seen) (ground arith),
          last_bytes-all (length str - 1) (x ∷ seen) (ground arith),
        )
        refl
  | inr long ↦
      let kept : last_bytes (length str - 1) (x ∷ seen) ≡ last_bytes (length str - 1) seen =
        drop-suc (suc (length seen) - (length str - 1)) (length seen - (length str - 1)) x seen
          (ground arith) in
      rw (is_prefix-long str (x ∷ seen) next (ground arith), kept, contains-last str seen next h)
        (or_assoc (is_prefix str (x ∷ seen)) (contains str seen) _)
]

none_found : (str window : Bytes) → length window < length str → contains str (window ++ []) ≡ false
none_found str window h = rw (append-nil window) (contains-short str window h)

pub contains-append : (str s : Bytes) → contains str (s ++ str) ≡ true
unfolding contains
contains-append [] [] = refl
contains-append (x ∷ str) [] = rw (whole_prefix (x ∷ str)) refl
  where
    whole_prefix : (t : Bytes) → is_prefix t t ≡ true
    whole_prefix t = ap (is_prefix t) (sym (append-nil t)) ∙ is_prefix-append t []
contains-append str (x ∷ s) = ground (arith, contains-append str s)

-- From the second part on, `window` has `length str - 1` bytes.
file_search-full :
    (str window : Bytes) (parts : List Bytes)
    → 1 ≤ length str
    → length window ≡ length str - 1
    → file_search str window (map some parts) ≡ some (contains str (window ++ concat parts))
unfolding file_search
file_search-full str window [] h w = rw (none_found str window (omega arith)) refl
file_search-full str window (part ∷ parts) h w =
    let seen = window ++ part in
    let size = length-append window part in
    let long : ltb (length seen) (length str - 1) ≡ false = ground arith in
    let rest =
      file_search-full str (last_bytes (length str - 1) seen) parts h
        (omega (arith, length-drop (length seen - (length str - 1)) seen)) in
    let split =
      ap (contains str) (sym (append_assoc window part (concat parts)))
      ∙ contains-last str seen (concat parts) h in
    elim (Bool-cases (contains str seen)) [
      | inl t ↦ rw (t, split, t) refl
      | inr f ↦ rw (f, long, split, f) rest
    ]

-- For a string that is not empty, and reads of a file that do not fail, of which the first gets all
-- but one of the string's bytes or more: `file_search` stays inside its buffer, and finds the string
-- exactly where the file has it, however the reads cut the file.
pub file_search-contains :
    (str first : Bytes) (parts : List Bytes)
    → 1 ≤ length str
    → length str ≤ suc (length first)
    → file_search str [] (map some (first ∷ parts)) ≡ some (contains str (concat (first ∷ parts)))
unfolding file_search
file_search-contains str first parts h long =
    let enough : ltb (length first) (length str - 1) ≡ false = ground arith in
    let rest =
      file_search-full str (last_bytes (length str - 1) first) parts h
        (omega (arith, length-drop (length first - (length str - 1)) first)) in
    let split = contains-last str first (concat parts) h in
    elim (Bool-cases (contains str first)) [
      | inl t ↦ rw (t, split, t) refl
      | inr f ↦ rw (f, enough, split, f) rest
    ]
