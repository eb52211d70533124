-- ===== src/Crossfs/Backs.antt =====
-- The search of an entry's backs in src/crossfs/crossfs.c: `deref`, `stat_first_bpath` and
-- `open_first_bpath`.
pub mod First
use bedrocklinux_userland.Base.{
  ℕ, Bool, true, false, not, List, [], ◌∷◌, Option, none, some, if◌then◌else◌, ◌==◌, ◌≡◌, refl,
  Option-cases, Bool-cases, inl, inr, All, ◌⊎◌, ◌≢◌, sym, ◌∙◌,
}
use mathlib.Core.Option.{some-injective}
use bedrocklinux_userland.CString.{Bytes}
use bedrocklinux_userland.Strat.World.{enoent}
use bedrocklinux_userland.Crossfs.Config.{BackEntry}
use bedrocklinux_userland.Crossfs.Paths.{calc_bpath, first_entry}

-- How a call ends: with a result, or with -1 and a value of `errno`.
pub data Attempt {ℓ} (A : Type ℓ) : Type ℓ where
  found : A → Attempt A
  failed : ℕ → Attempt A

-- What a search returns, `none` being a negative number, and `errno` behind it.
pub record Tried (A : Type 0) : Type 0 where
  pub value : Option A
  pub errno : ℕ

-- `deref(back)->root_fd`
abbrev pub deref_fd : ℕ → BackEntry → Option ℕ
deref_fd local_fd b = if b.local then some local_fd else b.root_fd

none-some {ℓ} : {A : Type ℓ} {a : A} → ◌≡◌ {A = Option A} none (some a) → ⊥
none-some h = cc

-- `call` is `fchroot_stat`, or `fchroot_open` with its flags.
module _ {A : Type 0} (call : Option ℕ → Bytes → Attempt A) (local_fd : ℕ)
    (cpath ipath : Bytes) where
  unfoldable pub call_back : BackEntry → Option (Attempt A)
  unfolding calc_bpath
  call_back b = elim (calc_bpath cpath b.lpath ipath) [
    | none ↦ none
    | some bpath ↦ some (call (deref_fd local_fd b) bpath)
  ]

  unfoldable pub first_bpath : List BackEntry → ℕ → Tried A
  unfolding call_back
  first_bpath [] errno = record { value = none; errno = errno }
  first_bpath (b ∷ bs) errno = elim (call_back b) [
    | none ↦ first_bpath bs errno
    | some (found a) ↦ record { value = some a; errno = errno }
    | some (failed e) ↦
        let rest = first_bpath bs e in
        if e == enoent then rest else record { value = none; errno = e }
  ]

  -- A back that the search passes over: it has no path, or nothing is there.
  abbrev pub is_passed : Option (Attempt A) → Bool
  is_passed none = true
  is_passed (some (found a)) = false
  is_passed (some (failed e)) = e == enoent

  abbrev pub value_of : Option (Attempt A) → Option A
  value_of (some (found a)) = some a
  value_of _ = none

  abbrev pub at_first : Option BackEntry → Option A
  at_first none = none
  at_first (some b) = value_of (call_back b)

  -- The search yields what the first back yields that it does not pass over.
  first_bpath-first :
      (bs : List BackEntry) (errno : ℕ)
      → (first_bpath bs errno).value
        ≡ at_first (first_entry (λ b. not (is_passed (call_back b))) bs)
  unfolding first_bpath first_entry
  first_bpath-first [] errno = refl
  first_bpath-first (b ∷ bs) errno = elim (Option-cases (call_back b)) [
    | inl n ↦ rw (n, first_bpath, first_entry) (first_bpath-first bs errno)
    | inr (found a, h) ↦ rw (h, first_bpath, first_entry, h) refl
    | inr (failed e, h) ↦ elim (Bool-cases (e == enoent)) [
      | inl m ↦ rw (h, first_bpath, first_entry, m) (first_bpath-first bs e)
      | inr m ↦ rw (h, first_bpath, first_entry, m, h) refl
    ]
  ]

  call_back-failed :
      ((fd : Option ℕ) (path : Bytes) (e : ℕ) → call fd path ≡ failed e → e ≢ 0)
      → (b : BackEntry) (e : ℕ) → call_back b ≡ some (failed e)
      → e ≢ 0
  unfolding call_back
  call_back-failed set_errno b e h = elim (Option-cases (calc_bpath cpath b.lpath ipath)) [
    | inl n ↦ absurd (none-some (rw (n, call_back) at h))
    | inr (bpath, c) ↦
        set_errno (deref_fd local_fd b) bpath e
          (some-injective _ (failed e) (rw (c, call_back) at h))
  ]

  -- A search without a result leaves the `errno` of a call, or it made none.
  pub first_bpath-errno :
      ((fd : Option ℕ) (path : Bytes) (e : ℕ) → call fd path ≡ failed e → e ≢ 0)
      → (bs : List BackEntry) (errno : ℕ) → (first_bpath bs errno).value ≡ none
      → ((first_bpath bs errno).errno ≢ 0)
        ⊎ (((first_bpath bs errno).errno ≡ errno) × All (λ b. call_back b ≡ none) bs)
  unfolding first_bpath
  first_bpath-errno set_errno [] errno h = inr (refl, tt)
  first_bpath-errno set_errno (b ∷ bs) errno h = elim (Option-cases (call_back b)) [
    | inl n ↦
        let rest = first_bpath-errno set_errno bs errno (rw (n, first_bpath) at h) in
        rw (n, first_bpath) (elim rest [ inl z ↦ inl z | inr (z, a) ↦ inr (z, (refl, a)) ])
    | inr (found a, c) ↦ absurd (none-some (sym (rw (c, first_bpath) at h)))
    | inr (failed e, c) ↦
        let nonzero = call_back-failed set_errno b e c in
        elim (Bool-cases (e == enoent)) [
          | inr m ↦ rw (c, first_bpath, m) (inl nonzero)
          | inl m ↦
              let rest = first_bpath-errno set_errno bs e (rw (c, first_bpath, m) at h) in
              rw (c, first_bpath, m)
                (elim rest [ inl z ↦ inl z | inr (z, a) ↦ inl (λ y. nonzero (sym z ∙ y)) ])
        ]
  ]
