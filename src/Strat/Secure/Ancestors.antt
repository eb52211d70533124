-- ===== src/Strat/Secure/Ancestors.antt =====
-- The paths that `check_config_secure` looks at: the file, and the directories above it.
use mathlib.Core.Bool.{false≢true}
use bedrocklinux_userland.Base.{
  ℕ, zero, suc, ◌<◌, ◌≡◌, ◌≢◌, refl, sym, ap, ◌∙◌, ◌⊎◌, inl, inr, Bool, true, false, [], ◌∷◌, ◌++◌,
  Flow, Option, none, some, arith, length, append_assoc, Option-cases, ret,
}
use bedrocklinux_userland.CString.{Bytes, has, rcut}
use bedrocklinux_userland.CString.Laws.{
  rcut-has, length-rcut, rcut-eq-some, rcut-eq-none, has-append_right,
}
use bedrocklinux_userland.Strat.World.{
  Stat, s_islnk, loosely_writable, enoent, emlink, eacces, Os, World, History, lstat, log, Final,
}
use bedrocklinux_userland.Strat.Secure.{check_stat, secure_loop, check_config_secure}

-- `p` is `path`, or a directory that `path` lies under by its spelling.
abbrev pub IsAncestor : Bytes → Bytes → Type 0
IsAncestor p path = (p ≡ path) ⊎ ((b : Bytes) × (path ≡ p ++ (b'/' ∷ b)))

cons-injective : {x y : ℕ} {a b : Bytes} → ◌≡◌ {A = Bytes} (x ∷ a) (y ∷ b) → (x ≡ y) × (a ≡ b)
cons-injective e = (ground arith, ground arith)

IsAncestor-cons : {p a : Bytes} (x y : ℕ) → x ≡ y → IsAncestor p a → IsAncestor (y ∷ p) (x ∷ a)
IsAncestor-cons x y e (inl q) = inl cc
IsAncestor-cons x y e (inr (b, q)) = inr (b, cc)

-- Two places to cut one string: the last slash, and any.
last_slash :
    (a b p c : Bytes) → has b'/' b ≡ false → a ++ (b'/' ∷ b) ≡ p ++ (b'/' ∷ c) → IsAncestor p a
unfolding has
last_slash [] b [] c h e = inl refl
last_slash [] b (x ∷ p) c h e =
    let held = has-append_right b'/' p c in
    let same = (cons-injective e).1 in absurd (false≢true (sym h ∙ ap (has b'/') same ∙ held))
last_slash (x ∷ a) b [] c h e = inr (a, ground arith)
last_slash (x ∷ a) b (y ∷ p) c h e =
    let (q, r) = cons-injective e in IsAncestor-cons x y q (last_slash a b p c h r)

-- The ancestors of a path are itself and those of what stands before its last slash.
pub IsAncestor-rcut :
    (path a b p : Bytes)
    → rcut b'/' path ≡ some (a, b)
    → IsAncestor p path
    → (p ≡ path) ⊎ IsAncestor p a
IsAncestor-rcut path a b p e (inl q) = inl q
IsAncestor-rcut path a b p e (inr (c, q)) =
    let (s, n) = rcut-eq-some b'/' path a b e in inr (last_slash a b p c n (sym s ∙ q))

pub IsAncestor-parent :
    (path a b p : Bytes) → rcut b'/' path ≡ some (a, b) → IsAncestor p a → IsAncestor p path
IsAncestor-parent path a b p e (inl q) = inr (b, cc ((rcut-eq-some b'/' path a b e).0, q))
IsAncestor-parent path a b p e (inr (c, q)) =
    let s = (rcut-eq-some b'/' path a b e).0 in
    inr (c ++ (b'/' ∷ b), rw (s, q) (append_assoc p (b'/' ∷ c) (b'/' ∷ b)))

IsAncestor-has :
    (path p : Bytes) → has b'/' path ≡ false → IsAncestor p path → has b'/' p ≡ true → ⊥
IsAncestor-has path p n (inl q) h = cc (n, h, q)
IsAncestor-has path p n (inr (b, q)) h =
    let held = has-append_right b'/' p b in false≢true (sym n ∙ ap (has b'/') q ∙ held)

module _ (os : Os) where
  -- Nobody changes the tree while it is checked.
  abbrev pub Stable : Type 0
  Stable = (e : Bytes) (h : History) (q : Bytes) → os.lstat_of (lstat e ∷ h) q ≡ os.lstat_of h q

  -- Every ancestor with a slash in it passes the tests.
  abbrev pub Passes : History → Bytes → Type 0
  Passes h path =
      (p : Bytes) → IsAncestor p path → has b'/' p ≡ true → check_stat (os.lstat_of h p) ≡ none

  -- Some ancestor with a slash in it does not, and its errno is `e`.
  abbrev pub Fails : History → Bytes → ℕ → Type 0
  Fails h path e =
      (p : Bytes) × IsAncestor p path
      × (has b'/' p ≡ true)
      × (check_stat (os.lstat_of h p) ≡ some e)

  abbrev pub Verdict : History → Bytes → Flow Final Bool × World → Type 0
  Verdict h path r =
      ((r.0 ≡ ret true) × Passes h path) ⊎ ((r.0 ≡ ret false) × Fails h path r.1.errno)

  Verdict-parent :
      (h : History) (path a b : Bytes) (r : Flow Final Bool × World)
      → rcut b'/' path ≡ some (a, b)
      → check_stat (os.lstat_of h path) ≡ none
      → Verdict h a r
      → Verdict h path r
  Verdict-parent h path a b r e c (inl (t, all)) = inl (
    t,
    λ p anc s. elim (IsAncestor-rcut path a b p e anc) [ inl q ↦ rw q c | inr up ↦ all p up s ],
  )
  Verdict-parent h path a b r e c (inr (t, (p, anc, s, x))) =
      inr (t, (p, IsAncestor-parent path a b p e anc, s, x))

  Verdict-Stable :
      Stable
      → (e : Bytes) (h : History) (path : Bytes) (r : Flow Final Bool × World)
      → Verdict (lstat e ∷ h) path r
      → Verdict h path r
  Verdict-Stable st e h path r (inl (t, all)) =
      inl (t, λ p anc s. sym (ap check_stat (st e h p)) ∙ all p anc s)
  Verdict-Stable st e h path r (inr (t, (p, anc, s, x))) =
      inr (t, (p, anc, s, sym (ap check_stat (st e h p)) ∙ x))

  module _ (f : ℕ) (path : Bytes) (w : World) where
    secure_loop_end : rcut b'/' path ≡ none → secure_loop os (suc f) path w ≡ (ret true, w)
    unfolding secure_loop
    secure_loop_end e = rw (e, secure_loop)

    module _ (a b : Bytes) (e : rcut b'/' path ≡ some (a, b)) where
      secure_loop_next :
          check_stat (os.lstat_of w.history path) ≡ none
          → secure_loop os (suc f) path w ≡ secure_loop os f a (log (lstat path) w)
      unfolding secure_loop
      secure_loop_next c = ground arith

      secure_loop_fail :
          (n : ℕ)
          → check_stat (os.lstat_of w.history path) ≡ some n
          → secure_loop os (suc f) path w
            ≡ (ret false, record w { errno = n; history = lstat path ∷ w.history })
      unfolding secure_loop
      secure_loop_fail n c = ground arith

  secure_loop-Verdict :
      Stable
      → (f : ℕ) (path : Bytes) (w : World) → length path < f
      → Verdict w.history path (secure_loop os f path w)
  secure_loop-Verdict st zero path w lt = absurd (omega arith)
  secure_loop-Verdict st (suc f) path w lt = elim (Option-cases (rcut b'/' path)) [
    | inl e ↦
        rw (secure_loop_end f path w e)
          (inl (refl, λ p anc s. absurd (IsAncestor-has path p (rcut-eq-none b'/' path e) anc s)))
    | inr ((a, b), e) ↦ elim (Option-cases (check_stat (os.lstat_of w.history path))) [
      | inr (n, c) ↦
          rw (secure_loop_fail f path w a b e n c)
            (inr (refl, (path, inl refl, rcut-has b'/' path a b e, c)))
      | inl c ↦
          let w' : World = log (lstat path) w in
          let r : Flow Final Bool × World = secure_loop os f a w' in
          let shorter = length-rcut b'/' path a b e in
          let v : Verdict w'.history a r = secure_loop-Verdict st f a w' (omega arith) in
          rw (secure_loop_next f path w a b e c)
            (Verdict-parent w.history path a b r e c (Verdict-Stable st path w.history a r v))
    ]
  ]

  -- While nobody changes the tree, the check ends, and it succeeds if each ancestor with a slash
  -- is a root-owned file or directory that is no symlink and that group and others cannot write;
  -- if it fails, some ancestor breaks this, and errno is that of its first broken test.
  pub check_config_secure-Verdict :
      Stable → (path : Bytes) (w : World) → Verdict w.history path (check_config_secure os path w)
  unfolding check_config_secure
  check_config_secure-Verdict st path w =
      secure_loop-Verdict st (suc (length path)) path w (omega arith)

-- A root-owned file or directory, no symlink, that neither the group nor others can write.
pub record IsSafe (st : Stat) : Type 0 where
  pub no_link : s_islnk st.mode ≡ false
  pub root_owned : st.uid ≡ 0
  pub unwritable : loosely_writable st.mode ≡ false

abbrev pub SafeAt : Option Stat → Type 0
SafeAt none = ⊥
SafeAt (some st) = IsSafe st

-- Why a path is refused, with the errno that says so.
abbrev pub Refused : Option Stat → ℕ → Type 0
Refused none e = e ≡ enoent
Refused (some st) e =
    (s_islnk st.mode ≡ true) × (e ≡ emlink)
    ⊎ ((st.uid ≢ 0) ⊎ (loosely_writable st.mode ≡ true)) × (e ≡ eacces)

check_stat-SafeAt : (o : Option Stat) → check_stat o ≡ none → SafeAt o
unfolding check_stat
check_stat-SafeAt none h = cc
check_stat-SafeAt (some st) h = ground arith

check_stat-Refused : (o : Option Stat) (e : ℕ) → check_stat o ≡ some e → Refused o e
unfolding check_stat
check_stat-Refused none e h = ground arith
check_stat-Refused (some st) e h = ground arith

module _ (os : Os) where
  abbrev pub AllSafe : History → Bytes → Type 0
  AllSafe h path = (p : Bytes) → IsAncestor p path → has b'/' p ≡ true → SafeAt (os.lstat_of h p)

  abbrev pub SomeRefused : History → Bytes → ℕ → Type 0
  SomeRefused h path e =
      (p : Bytes) × IsAncestor p path × (has b'/' p ≡ true) × Refused (os.lstat_of h p) e

  -- While nobody changes the tree, the check ends with a verdict. It succeeds only if the file and
  -- each directory above it (with a slash in its path) is there, is no symlink, is owned by root
  -- and is not writable by group or others. It fails only if one of them is refused, and errno
  -- says why: missing, a symlink, or loose permissions.
  pub check_config_secure_lem :
      Stable os
      → (path : Bytes) (w : World)
      → (((check_config_secure os path w).0 ≡ ret true) × AllSafe w.history path)
        ⊎ (((check_config_secure os path w).0 ≡ ret false)
            × SomeRefused w.history path (check_config_secure os path w).1.errno)
  check_config_secure_lem st path w = elim (check_config_secure-Verdict os st path w) [
    | inl (t, all) ↦ inl (t, λ p anc s. check_stat-SafeAt (os.lstat_of w.history p) (all p anc s))
    | inr (t, (p, anc, s, x)) ↦
        inr (t, (p, anc, s, check_stat-Refused (os.lstat_of w.history p) _ x))
  ]
