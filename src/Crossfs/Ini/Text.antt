-- ===== src/Crossfs/Ini/Text.antt =====
-- The ini filter of src/crossfs/crossfs.c against the text that a file is to have in a stratum.
use mathlib.Core.Option.{some-injective}
use bedrocklinux_userland.Base.{
  concat, ℕ, zero, suc, ◌-◌, ◌≤◌, ◌≡◌, ◌≢◌, refl, sym, ap, ◌∙◌, Bool, true, false, List, [], ◌∷◌,
  ◌++◌, Option, none, some, length, take, drop, leb, arith, length-append, length-take,
  append_assoc, append-nil, ap₂, Bool-cases, Option-cases, inl, inr, subst, All,
}
use bedrocklinux_userland.CString.{Bytes, codes}
use bedrocklinux_userland.CString.Laws.{str_eq_iff}
use bedrocklinux_userland.Crossfs.Paths.{char_at, first_entry}
use bedrocklinux_userland.Crossfs.Read.{Output, strcatoff_all, strcatoff_all-take}
use bedrocklinux_userland.Crossfs.Ini.{
  strat_path, strata_dir, ini_inject_strat, ini_expand_path, same_start, is_expanded, inject_strat,
  expand_path, unless_found, read_line, read_lines, read_ini,
}

abbrev pub is_injected : Bytes → Bytes × ℕ → Bool
is_injected line (key, len) = same_start len line key

-- A line as a stratum's processes are to see it, in pieces: the command with a call of strat, or
-- the path below the stratum's root.
abbrev pub expanded : Bytes → Bytes → Option (Bytes × ℕ) → List Bytes
expanded name line none = line ∷ []
expanded name line (some (key, len)) = take len key ∷ strata_dir ∷ name ∷ drop len line ∷ []

abbrev pub injected : Bytes → Bytes → Option (Bytes × ℕ) → List Bytes
injected name line none = expanded name line (first_entry (is_expanded line) ini_expand_path)
injected name line (some (key, len)) =
    take len key ∷ strat_path ∷ codes " " ∷ name ∷ codes " " ∷ drop len line ∷ []

unfoldable pub pieces : Bytes → Bytes → List Bytes
pieces name line = injected name line (first_entry (is_injected line) ini_inject_strat)

unfoldable pub text : Bytes → List Bytes → Bytes
unfolding pieces
text name [] = []
text name (line ∷ lines) = concat (pieces name line) ++ text name lines

pub first-fits {ℓ} :
    {A : Type ℓ} (p : A → Bool) (xs : List A) (x : A) → first_entry p xs ≡ some x → p x ≡ true
unfolding first_entry
first-fits p [] x h = cc
first-fits p (y ∷ xs) x h = elim (Bool-cases (p y)) [
  | inl e ↦ ap p (sym (some-injective y x (ground arith))) ∙ e
  | inr e ↦ first-fits p xs x (ground arith)
]

first-All {ℓ κ} :
    {A : Type ℓ} (P : A → Type κ) (p : A → Bool) (xs : List A) (x : A)
    → All P xs
    → first_entry p xs ≡ some x
    → P x
unfolding first_entry
first-All P p [] x a h = cc
first-All P p (y ∷ xs) x (a, rest) h = elim (Bool-cases (p y)) [
  | inl e ↦ subst P (some-injective y x (ground arith)) a
  | inr e ↦ first-All P p xs x rest (ground arith)
]

char_at-take : (s : Bytes) (n : ℕ) → char_at (take (suc n) s) 0 ≡ char_at s 0
unfolding char_at
char_at-take [] n = refl
char_at-take (x ∷ s) n = refl

-- Where a key that starts with `c` fits, the line starts with it.
start_char :
    (n : ℕ) (line key : Bytes) (c : ℕ)
    → (1 ≤ n) × (char_at key 0 ≡ c)
    → same_start n line key ≡ true
    → char_at line 0 ≡ c
unfolding same_start
start_char zero line key c (p, q) h = absurd (omega arith)
start_char (suc n) line key c (p, q) h =
    sym (char_at-take line n)
    ∙ ap (λ s. char_at s 0) ((str_eq_iff (take (suc n) line) (take (suc n) key)).0 h)
    ∙ char_at-take key n
    ∙ q

contra : true ≡ false → ⊥
contra h = cc

abbrev Starts : ℕ → Bytes × ℕ → Type 0
Starts c (key, len) = (1 ≤ len) × (char_at key 0 ≡ c)

-- A key that starts with another byte does not fit.
other_start :
    (line : Bytes) (c d : ℕ) (k : Bytes × ℕ)
    → char_at line 0 ≡ c
    → c ≢ d
    → Starts d k
    → is_expanded line k ≡ false
unfolding is_expanded
other_start line c d (key, len) h n s = elim (Bool-cases (same_start len line key)) [
  | inl e ↦ absurd (n (sym h ∙ start_char len line key d s e))
  | inr e ↦ rw e refl
]

inject-Starts : All (Starts b'E') ini_inject_strat
unfolding char_at
inject-Starts =
    let st : (n : ℕ) → 1 ≤ suc n = λ n. omega arith in
    (
      (st 4, refl),
      (
        (st 10, refl),
        ((st 9, refl), ((st 13, refl), ((st 12, refl), ((st 8, refl), ((st 12, refl), tt))))),
      ),
    )

pub icon-Starts : Starts b'I' (codes "Icon=", 5)
unfolding char_at
icon-Starts = (omega arith, refl)

pub path-Starts : Starts b'P' (codes "Path=", 5)
unfolding char_at
path-Starts = (omega arith, refl)

pub try-Starts : Starts b'T' (codes "TryExec=", 8)
unfolding char_at
try-Starts = (omega arith, refl)

-- At most one key of the second loop fits, and none where a key of the first does.
pub one_expanded :
    (line : Bytes) (c : ℕ)
    → char_at line 0 ≡ c
    → (c ≢ b'I' → is_expanded line (codes "Icon=", 5) ≡ false)
      × (c ≢ b'P' → is_expanded line (codes "Path=", 5) ≡ false)
      × (c ≢ b'T' → is_expanded line (codes "TryExec=", 8) ≡ false)
one_expanded line c h = (
  λ n. other_start line c b'I' (codes "Icon=", 5) h n icon-Starts,
  λ n. other_start line c b'P' (codes "Path=", 5) h n path-Starts,
  λ n. other_start line c b'T' (codes "TryExec=", 8) h n try-Starts,
)

pub expanded_char :
    (line : Bytes) (c : ℕ) (k : Bytes × ℕ)
    → Starts c k
    → is_expanded line k ≡ true
    → char_at line 0 ≡ c
unfolding is_expanded
expanded_char line c (key, len) s h = start_char len line key c s (ground arith)

pub injected_char :
    (line : Bytes) (k : Bytes × ℕ)
    → first_entry (is_injected line) ini_inject_strat ≡ some k
    → char_at line 0 ≡ b'E'
injected_char line (key, len) h =
    start_char len line key b'E'
      (first-All (Starts b'E') (is_injected line) ini_inject_strat (key, len) inject-Starts h)
      (first-fits (is_injected line) ini_inject_strat (key, len) h)

module _ (name : Bytes) (size : ℕ) (line : Bytes) where
  abbrev after_inject : Output → Option (Bytes × ℕ) → Bool × Output
  after_inject o none = (false, o)
  after_inject o (some k) = (true, strcatoff_all size (injected name line (some k)) o)

  inject_strat-first :
      (keys : List (Bytes × ℕ)) (o : Output)
      → inject_strat name size line keys o ≡ after_inject o (first_entry (is_injected line) keys)
  unfolding inject_strat first_entry
  inject_strat-first [] o = refl
  inject_strat-first ((key, len) ∷ keys) o = elim (Bool-cases (same_start len line key)) [
    | inl e ↦ rw e refl
    | inr e ↦ rw e (inject_strat-first keys o)
  ]

  expand_path-none :
      (c : ℕ) (r : Bool × Output)
      → char_at line 0 ≡ c
      → c ≢ b'I'
      → c ≢ b'P'
      → c ≢ b'T'
      → expand_path name size line ini_expand_path r ≡ r
  unfolding expand_path
  expand_path-none c (f, o) h i p t =
      let (ni, np, nt) = one_expanded line c h in rw (ni i, np p, nt t) refl

  expand_path-first :
      (o : Output)
      → unless_found name size line (expand_path name size line ini_expand_path (false, o))
        ≡ strcatoff_all size (expanded name line (first_entry (is_expanded line) ini_expand_path)) o
  unfolding expand_path first_entry
  expand_path-first o = elim (Bool-cases (is_expanded line (codes "Icon=", 5))) [
    | inl i ↦
        let (ni, np, nt) =
          one_expanded line b'I' (expanded_char line b'I' (codes "Icon=", 5) icon-Starts i) in
        rw (i, np (omega arith), nt (omega arith)) refl
    | inr i ↦ elim (Bool-cases (is_expanded line (codes "Path=", 5))) [
      | inl p ↦
          let (ni, np, nt) =
            one_expanded line b'P' (expanded_char line b'P' (codes "Path=", 5) path-Starts p) in
          rw (i, p, nt (omega arith)) refl
      | inr p ↦ elim (Bool-cases (is_expanded line (codes "TryExec=", 8))) [
        | inl t ↦ rw (i, p, t) refl
        | inr t ↦ rw (i, p, t) refl
      ]
    ]
  ]

  -- A line is written as its pieces.
  read_line-pieces :
      (o : Output) → read_line name size line o ≡ strcatoff_all size (pieces name line) o
  unfolding read_line pieces
  read_line-pieces o = elim (Option-cases (first_entry (is_injected line) ini_inject_strat)) [
    | inl n ↦ rw (inject_strat-first ini_inject_strat o, n) (expand_path-first o)
    | inr (k, h) ↦
        rw (inject_strat-first ini_inject_strat o, h)
          (ap (unless_found name size line) (
            expand_path-none b'E' _ (injected_char line k h) (omega arith) (omega arith)
              (omega arith)))
  ]

strcatoff_all-append :
    (size : ℕ) (ss ts : List Bytes) (o : Output)
    → strcatoff_all size (ss ++ ts) o ≡ strcatoff_all size ts (strcatoff_all size ss o)
unfolding strcatoff_all
strcatoff_all-append size [] ts o = refl
strcatoff_all-append size (s ∷ ss) ts o = strcatoff_all-append size ss ts _

abbrev all_pieces : Bytes → List Bytes → List Bytes
all_pieces name [] = []
all_pieces name (line ∷ lines) = pieces name line ++ all_pieces name lines

concat-append : (ss ts : List Bytes) → concat (ss ++ ts) ≡ concat ss ++ concat ts
concat-append [] ts = refl
concat-append (s ∷ ss) ts =
    ap (λ t. s ++ t) (concat-append ss ts) ∙ sym (append_assoc s (concat ss) (concat ts))

concat-text : (name : Bytes) (lines : List Bytes) → concat (all_pieces name lines) ≡ text name lines
unfolding text
concat-text name [] = refl
concat-text name (line ∷ lines) =
    concat-append (pieces name line) (all_pieces name lines)
    ∙ ap (λ t. concat (pieces name line) ++ t) (concat-text name lines)

-- The output never exceeds the buffer.
strcatoff_all_le :
    (size : ℕ) (ss : List Bytes) (o : Output)
    → length o.out ≤ size
    → length (strcatoff_all size ss o).out ≤ size
strcatoff_all_le size ss o h = rw (strcatoff_all-take size ss o h) (
    omega (
      arith,
      length-append o.out (take (size - length o.out) (drop o.offset (concat ss))),
      length-take (size - length o.out) (drop o.offset (concat ss)),
    ))

take-zero : (s : Bytes) → take 0 s ≡ []
take-zero [] = refl
take-zero (x ∷ s) = refl

no_room : (a b : ℕ) → a ≡ b → b - a ≡ 0
no_room a b h = omega arith

-- Pieces behind a full buffer write nothing.
strcatoff_all-full :
    (size : ℕ) (ss : List Bytes) (o : Output)
    → length o.out ≡ size
    → (strcatoff_all size ss o).out ≡ o.out
strcatoff_all-full size ss o h =
    strcatoff_all-take size ss o (omega arith)
    ∙ ap (λ n. o.out ++ take n (drop o.offset (concat ss))) (no_room (length o.out) size h)
    ∙ ap (λ t. o.out ++ t) (take-zero (drop o.offset (concat ss)))
    ∙ append-nil o.out

-- The loop, with its break, writes what the pieces of all the lines write.
read_lines-pieces :
    (name : Bytes) (size : ℕ) (lines : List Bytes) (o : Output)
    → length o.out ≤ size
    → (read_lines name size lines o).out ≡ (strcatoff_all size (all_pieces name lines) o).out
unfolding read_lines strcatoff_all
read_lines-pieces name size [] o h = refl
read_lines-pieces name size (line ∷ lines) o h =
    let next = strcatoff_all size (pieces name line) o in
    let fits = strcatoff_all_le size (pieces name line) o h in
    let split = strcatoff_all-append size (pieces name line) (all_pieces name lines) o in
    elim (Bool-cases (leb size (length next.out))) [
      | inl b ↦
          rw (read_line-pieces name size line o, b, split)
            (sym (strcatoff_all-full size (all_pieces name lines) next (ground arith)))
      | inr b ↦
          rw (read_line-pieces name size line o, b, split)
            (read_lines-pieces name size lines next fits)
    ]

minus_zero : (n : ℕ) → n - 0 ≡ n
minus_zero n = omega arith

-- A read of an ini file yields the window of `size` bytes at the offset on the text in which each
-- line with a command calls strat, and each line with an absolute path has the path below the
-- stratum's root, whatever the break of the loop skips.
pub read_ini-window :
    (name : Bytes) (lines : List Bytes) (size offset : ℕ)
    → read_ini name lines size offset ≡ take size (drop offset (text name lines))
unfolding read_ini
read_ini-window name lines size offset =
    read_lines-pieces name size lines (record { out = []; offset = offset }) (omega arith)
    ∙ strcatoff_all-take size (all_pieces name lines) (record { out = []; offset = offset })
        (omega arith)
    ∙ ap₂ (λ n t. take n (drop offset t)) (minus_zero size) (concat-text name lines)
