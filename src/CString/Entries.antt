-- ===== src/CString/Entries.antt =====
-- The entries of a list such as $PATH: what stands between its separators.
use bedrocklinux_userland.Base.{
  ℕ, false, List, [], ◌∷◌, ◌++◌, ◌≡◌, refl, arith, ap, All, ◌==◌, if◌then◌else◌, ◌∙◌,
}
use bedrocklinux_userland.CString.{Bytes, has}

-- Prepend a byte to the first entry.
abbrev pub onto_first : ℕ → List Bytes → List Bytes
onto_first x [] = (x ∷ []) ∷ []
onto_first x (e ∷ es) = (x ∷ e) ∷ es

-- The entries of `s`, at least one.
unfoldable pub split : ℕ → Bytes → List Bytes
split c [] = [] ∷ []
split c (x ∷ s) = if x == c then [] ∷ split c s else onto_first x (split c s)

-- The entries with a separator between each two.
unfoldable pub join : ℕ → List Bytes → Bytes
join c [] = []
join c (e ∷ []) = e
join c (e ∷ f ∷ es) = e ++ (c ∷ join c (f ∷ es))

pub split-of_has : (c : ℕ) (s : Bytes) → has c s ≡ false → split c s ≡ s ∷ []
unfolding split has
split-of_has c [] h = refl
split-of_has c (x ∷ s) h = ground (arith, split-of_has c s)

pub split-append : (c : ℕ) (a s : Bytes) → has c a ≡ false → split c (a ++ (c ∷ s)) ≡ a ∷ split c s
unfolding split has
split-append c [] s h = ground arith
split-append c (x ∷ a) s h = ground (arith, split-append c a s)

-- No entry holds the separator.
pub split-All : (c : ℕ) (s : Bytes) → All (λ e. has c e ≡ false) (split c s)
unfolding split has
split-All c [] = (refl, tt)
split-All c (x ∷ s) = ground (arith, split-All c s)

-- Joined entries are found again by `split`.
pub split-join :
    (c : ℕ) (e : Bytes) (es : List Bytes)
    → All (λ f. has c f ≡ false) (e ∷ es)
    → split c (join c (e ∷ es)) ≡ e ∷ es
unfolding join
split-join c e [] h = split-of_has c e h.0
split-join c e (f ∷ es) h =
    split-append c e (join c (f ∷ es)) h.0 ∙ ap (◌∷◌ e) (split-join c f es h.1)
