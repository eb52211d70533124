-- ===== src/Crossfs/Paths/Laws.antt =====
-- What the path tests say of the spelling of paths.
use native.Mathlib.Decide.{ℕ_discrete}
use bedrocklinux_userland.Base.{
  ℕ, zero, suc, ◌+◌, ◌≤◌, ◌<◌, ◌≡◌, ◌↔◌, ◌⊎◌, inl, inr, refl, sym, ap, ◌∙◌, true, [], ◌∷◌, ◌++◌,
  none, some, length, take, drop, ap₂, if◌then◌else◌, leb, arith, length-append, drop-append, All,
}
use bedrocklinux_userland.CString.{Bytes}
use bedrocklinux_userland.CString.Laws.{str_eq_iff, str_eq_refl}
use bedrocklinux_userland.Crossfs.Paths.{
  path_max, char_at, is_parent, is_equal_or_parent, calc_bpath,
}

-- `p` lies under the directory `a`, by its spelling.
abbrev pub Under : Bytes → Bytes → Type 0
Under a p = (b : Bytes) × (p ≡ a ++ (b'/' ∷ b))

-- A C string holds no NUL.
abbrev pub NoNul : Bytes → Type 0
NoNul s = All (λ x. 0 < x) s

take-append : (a b : Bytes) → take (length a) (a ++ b) ≡ a
take-append [] b = refl
take-append (x ∷ a) b = ap (◌∷◌ x) (take-append a b)

char_at-append : (a : Bytes) (x : ℕ) (b : Bytes) → char_at (a ++ (x ∷ b)) (length a) ≡ x
unfolding char_at
char_at-append [] x b = refl
char_at-append (y ∷ a) x b = char_at-append a x b

-- Below its length, a string is its bytes up to an index, the byte there and the rest.
char_at-split : (s : Bytes) (n : ℕ) → n < length s → s ≡ take n s ++ (char_at s n ∷ drop (suc n) s)
unfolding char_at
char_at-split [] n h = absurd (omega arith)
char_at-split (x ∷ s) zero h = refl
char_at-split (x ∷ s) (suc n) h = ap (◌∷◌ x) (char_at-split s n (omega arith))

char_at-end : (s : Bytes) → char_at s (length s) ≡ 0
unfolding char_at
char_at-end [] = refl
char_at-end (x ∷ s) = char_at-end s

char_at-pos : (s : Bytes) (n : ℕ) → NoNul s → n < length s → 0 < char_at s n
unfolding char_at
char_at-pos [] n h lt = absurd (omega arith)
char_at-pos (x ∷ s) zero h lt = h.0
char_at-pos (x ∷ s) (suc n) h lt = char_at-pos s n h.1 (omega arith)

take-whole : (s : Bytes) → take (length s) s ≡ s
take-whole [] = refl
take-whole (x ∷ s) = ap (◌∷◌ x) (take-whole s)

is_parent-parts :
    (a b : Bytes)
    → is_parent a b ≡ true
    → (length a < length b) × (char_at b (length a) ≡ b'/') × (take (length a) b ≡ a)
unfolding is_parent
is_parent-parts a b h = ground (arith, str_eq_iff (take (length a) b) a)

under-is_parent :
    (a b : Bytes)
    → length a < length b
    → char_at b (length a) ≡ b'/'
    → take (length a) b ≡ a
    → is_parent a b ≡ true
unfolding is_parent
under-is_parent a b lt slash front = ground (arith, (str_eq_iff (take (length a) b) a).1 front)

is_parent-append : (a r : Bytes) → is_parent a (a ++ (b'/' ∷ r)) ≡ true
unfolding is_parent
is_parent-append a r = ground (
  arith,
  length-append a (b'/' ∷ r),
  char_at-append a b'/' r,
  take-append a (b'/' ∷ r),
  str_eq_refl a,
)

-- `is_parent(a, b)` holds exactly when `b` lies under `a`.
pub is_parent_iff : (a b : Bytes) → (is_parent a b ≡ true) ↔ Under a b
is_parent_iff a b = (
  λ h.
      let (lt, slash, front) = is_parent-parts a b h in
      let whole = char_at-split b (length a) lt in
      (
        drop (suc (length a)) b,
        whole ∙ ap₂ (λ s c. s ++ (c ∷ drop (suc (length a)) b)) front slash,
      ),
  λ (r, e). rw e (is_parent-append a r),
)

is_equal_or_parent-parts :
    (a b : Bytes)
    → is_equal_or_parent a b ≡ true
    → (length a ≤ length b)
      × ((char_at b (length a) ≡ 0) ⊎ (char_at b (length a) ≡ b'/'))
      × (take (length a) b ≡ a)
unfolding is_equal_or_parent
is_equal_or_parent-parts a b h = ground (arith, str_eq_iff (take (length a) b) a)

is_equal_or_parent_self : (a : Bytes) → is_equal_or_parent a a ≡ true
unfolding is_equal_or_parent
is_equal_or_parent_self a = ground (arith, char_at-end a, take-whole a, str_eq_refl a)

is_equal_or_parent-append : (a r : Bytes) → is_equal_or_parent a (a ++ (b'/' ∷ r)) ≡ true
unfolding is_equal_or_parent
is_equal_or_parent-append a r = ground (
  arith,
  length-append a (b'/' ∷ r),
  char_at-append a b'/' r,
  take-append a (b'/' ∷ r),
  str_eq_refl a,
)

-- For paths without a NUL in them, `is_equal_or_parent(a, b)` holds exactly when `b` is `a` or
-- lies under it. In particular it holds of two equal paths.
pub is_equal_or_parent_iff :
    (a b : Bytes) → NoNul b → (is_equal_or_parent a b ≡ true) ↔ ((b ≡ a) ⊎ Under a b)
is_equal_or_parent_iff a b n = (
  λ h.
      let (le, next, front) = is_equal_or_parent-parts a b h in
      elim (ℕ_discrete (length a) (length b)) [
        | yes e ↦ inl (sym (take-whole b) ∙ ap (λ k. take k b) (sym e) ∙ front)
        | no ne ↦ elim next [
          | inl z ↦ absurd (omega (arith, char_at-pos b (length a) n (omega arith)))
          | inr slash ↦ inr ((is_parent_iff a b).0 (under-is_parent a b (omega arith) slash front))
        ]
      ],
  λ h. elim h [
    | inl e ↦ rw e (is_equal_or_parent_self a)
    | inr (r, e) ↦ rw e (is_equal_or_parent-append a r)
  ],
)

calc_bpath_self : (cpath lpath : Bytes) → calc_bpath cpath lpath cpath ≡ some lpath
unfolding calc_bpath
calc_bpath_self cpath lpath = ground (arith, char_at-end cpath)

-- A path that is an entry's own is backed by the back's path itself. One that lies under it is
-- backed by the same path under the back's, if that fits PATH_MAX with its NUL, and else by none.
calc_bpath-under :
    (cpath lpath b : Bytes)
    → (calc_bpath cpath lpath cpath ≡ some lpath)
      × (calc_bpath cpath lpath (cpath ++ (b'/' ∷ b)) ≡ (
          if leb (length (lpath ++ (b'/' ∷ b)) + 1) path_max
          then some (lpath ++ (b'/' ∷ b))
          else none))
unfolding calc_bpath
calc_bpath-under cpath lpath b = (
  calc_bpath_self cpath lpath,
  ground (
    arith,
    length-append cpath (b'/' ∷ b),
    length-append lpath (b'/' ∷ b),
    char_at-append cpath b'/' b,
    drop-append cpath (b'/' ∷ b),
  ),
)
