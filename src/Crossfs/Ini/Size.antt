-- ===== src/Crossfs/Ini/Size.antt =====
-- The size that FILTER_INI in `getattr_back` of src/crossfs/crossfs.c counts, against that text.
use bedrocklinux_userland.Base.{
  concat, ℕ, ◌+◌, ◌≤◌, ◌<◌, ◌^◌, ◌≡◌, ◌≢◌, refl, sym, ap, ◌∙◌, true, List, [], ◌∷◌, ◌++◌, Option,
  none, some, length, take, drop, arith, length-append, Bool-cases, Option-cases, inl, inr,
  take-append-drop,
}
use bedrocklinux_userland.CString.{Bytes, codes}
use bedrocklinux_userland.CString.Laws.{str_eq_iff}
use bedrocklinux_userland.Crossfs.Commands.{size_add}
use bedrocklinux_userland.Crossfs.Paths.{char_at, first_entry}
use bedrocklinux_userland.Crossfs.Ini.{
  strat_path, strata_dir, ini_inject_strat, ini_expand_path, same_start, is_expanded, count_inject,
  count_expand, ini_size,
}
use bedrocklinux_userland.Crossfs.Ini.Text.{
  is_injected, first-fits, one_expanded, expanded_char, injected_char, icon-Starts, path-Starts,
  expanded, injected, pieces, text,
}

-- Sums that stay below 2 ^ 64.
size_add_le : (s n : ℕ) → s + n < 2 ^ 64 → size_add s n ≡ s + n
size_add_le s n h = omega arith

-- A line is its part that a key matches and the rest.
same_start-split :
    (n : ℕ) (line key : Bytes)
    → same_start n line key ≡ true
    → length (take n key) + length (drop n line) ≡ length line
unfolding same_start
same_start-split n line key h =
    ap (λ t. length t + length (drop n line)) (sym ((str_eq_iff (take n line) (take n key)).0 h))
    ∙ sym (length-append (take n line) (drop n line))
    ∙ ap length (take-append-drop n line)

module _ (name : Bytes) (line : Bytes) where
  abbrev after_count : ℕ → Option (Bytes × ℕ) → ℕ
  after_count n none = n
  after_count n (some k) =
      size_add (size_add (size_add (size_add n (length strat_path)) 1) (length name)) 1

  abbrev after_expand : ℕ → Option (Bytes × ℕ) → ℕ
  after_expand n none = n
  after_expand n (some k) = size_add (size_add n (length strata_dir)) (length name)

  count_inject-first :
      (keys : List (Bytes × ℕ)) (n : ℕ)
      → count_inject name line keys n ≡ after_count n (first_entry (is_injected line) keys)
  unfolding count_inject first_entry
  count_inject-first [] n = refl
  count_inject-first ((key, len) ∷ keys) n = elim (Bool-cases (same_start len line key)) [
    | inl e ↦ rw e refl
    | inr e ↦ rw e (count_inject-first keys n)
  ]

  count_expand-none :
      (c : ℕ) (m : ℕ)
      → char_at line 0 ≡ c
      → c ≢ b'I'
      → c ≢ b'P'
      → c ≢ b'T'
      → count_expand name line ini_expand_path m ≡ m
  unfolding count_expand
  count_expand-none c m h i p t =
      let (ni, np, nt) = one_expanded line c h in rw (ni i, np p, nt t) refl

  count_expand-first :
      (m : ℕ)
      → count_expand name line ini_expand_path m
        ≡ after_expand m (first_entry (is_expanded line) ini_expand_path)
  unfolding count_expand first_entry
  count_expand-first m = elim (Bool-cases (is_expanded line (codes "Icon=", 5))) [
    | inl i ↦
        let (ni, np, nt) =
          one_expanded line b'I' (expanded_char line b'I' (codes "Icon=", 5) icon-Starts i) in
        rw (i, np (omega arith), nt (omega arith)) refl
    | inr i ↦ elim (Bool-cases (is_expanded line (codes "Path=", 5))) [
      | inl p ↦
          let (ni, np, nt) =
            one_expanded line b'P' (expanded_char line b'P' (codes "Path=", 5) path-Starts p) in
          rw (i, p, nt (omega arith)) refl
      | inr p ↦ elim (Bool-cases (is_expanded line (codes "TryExec=", 8))) [
        | inl t ↦ rw (i, p, t) refl
        | inr t ↦ rw (i, p, t) refl
      ]
    ]
  ]

  -- The lengths of the pieces.
  length-injected :
      (k : Bytes × ℕ)
      → is_injected line k ≡ true
      → length (concat (injected name line (some k))) ≡ length line + length name + 20
  length-injected (key, len) h =
      let rest = drop len line ++ [] in
      omega (
        arith,
        same_start-split len line key h,
        length-append (take len key) (strat_path ++ (codes " " ++ (name ++ (codes " " ++ rest)))),
        length-append name (codes " " ++ rest),
        length-append (drop len line) [],
      )

  length-expanded :
      (k : Bytes × ℕ)
      → is_expanded line k ≡ true
      → length (concat (expanded name line (some k))) ≡ length line + length name + 16
  unfolding is_expanded
  length-expanded (key, len) h =
      let rest = drop len line ++ [] in
      let fits : same_start len line key ≡ true = ground arith in
      omega (
        arith,
        same_start-split len line key fits,
        length-append (take len key) (strata_dir ++ (name ++ rest)),
        length-append name rest,
        length-append (drop len line) [],
      )

  -- The size grows by what the line does.
  count-pieces :
      (n : ℕ)
      → n + length (concat (pieces name line)) < 2 ^ 64 + length line
      → count_expand name line ini_expand_path (count_inject name line ini_inject_strat n)
          + length line
        ≡ n + length (concat (pieces name line))
  unfolding pieces
  count-pieces n fits = elim (Option-cases (first_entry (is_injected line) ini_inject_strat)) [
    | inr (k, h) ↦
        let counted =
          ap (count_expand name line ini_expand_path)
            (count_inject-first ini_inject_strat n ∙ ap (after_count n) h)
          ∙ count_expand-none b'E' _ (injected_char line k h) (omega arith) (omega arith)
              (omega arith) in
        let written = ap (λ ps. length (concat ps)) (ap (injected name line) h) in
        omega (
          arith,
          counted,
          written,
          fits,
          length-injected k (first-fits (is_injected line) ini_inject_strat k h),
        )
    | inl z ↦
        let counted =
          ap (count_expand name line ini_expand_path)
            (count_inject-first ini_inject_strat n ∙ ap (after_count n) z) in
        let written = ap (λ ps. length (concat ps)) (ap (injected name line) z) in
        elim (Option-cases (first_entry (is_expanded line) ini_expand_path)) [
          | inl e ↦ omega (
            arith,
            counted ∙ count_expand-first n ∙ ap (after_expand n) e,
            written ∙ ap (λ k. length (concat (expanded name line k))) e,
            length-append line [],
          )
          | inr (k, e) ↦ omega (
            arith,
            counted ∙ count_expand-first n ∙ ap (after_expand n) e,
            written ∙ ap (λ k. length (concat (expanded name line k))) e,
            fits,
            length-expanded k (first-fits (is_expanded line) ini_expand_path k e),
          )
        ]
  ]

-- The pieces are not shorter than the line.
length-pieces : (name line : Bytes) → length line ≤ length (concat (pieces name line))
unfolding pieces
length-pieces name line = elim (Option-cases (first_entry (is_injected line) ini_inject_strat)) [
  | inr (k, h) ↦ rw h (
      omega
        (arith, length-injected name line k (first-fits (is_injected line) ini_inject_strat k h)))
  | inl z ↦ rw z (elim (Option-cases (first_entry (is_expanded line) ini_expand_path)) [
    | inl e ↦ rw e (omega (arith, length-append line []))
    | inr (k, e) ↦ rw e (
        omega
          (arith, length-expanded name line k (first-fits (is_expanded line) ini_expand_path k e)))
  ])
]

length-text : (name : Bytes) (lines : List Bytes) → length (concat lines) ≤ length (text name lines)
unfolding text
length-text name [] = omega arith
length-text name (line ∷ lines) = omega (
  arith,
  length-pieces name line,
  length-text name lines,
  length-append line (concat lines),
  length-append (concat (pieces name line)) (text name lines),
)

ini_size-from :
    (name : Bytes) (lines : List Bytes) (n : ℕ)
    → n + length (text name lines) < 2 ^ 64 + length (concat lines)
    → ini_size name lines n + length (concat lines) ≡ n + length (text name lines)
unfolding ini_size text
ini_size-from name [] n fits = refl
ini_size-from name (line ∷ lines) n fits =
    let here = length-append line (concat lines) in
    let there = length-append (concat (pieces name line)) (text name lines) in
    let longer = length-text name lines in
    let counted = count-pieces name line n (omega (arith, fits, here, there, longer)) in
    omega (
      arith,
      here,
      there,
      counted,
      ini_size-from name lines
          (count_expand name line ini_expand_path (count_inject name line ini_inject_strat n))
          (omega (arith, fits, here, there, counted)),
    )

-- The size that `getattr_back` counts for an ini file, from the size of the file itself, is the
-- length of the text that reads yield, where that is below 2 ^ 64: reads of the file and its size
-- agree.
pub ini_size-text :
    (name : Bytes) (lines : List Bytes)
    → length (text name lines) < 2 ^ 64
    → ini_size name lines (length (concat lines)) ≡ length (text name lines)
ini_size-text name lines fits =
    omega (arith, ini_size-from name lines (length (concat lines)) (omega (arith, fits)))
