-- ===== src/Strat/Switch/Guard.antt =====
-- What stands between a request and the first `chroot`.
use bedrocklinux_userland.Base.{
  ℕ, zero, suc, ◌≡◌, ◌≢◌, refl, ap, inl, inr, true, false, [], ◌∷◌, ◌++◌, Option, none, some, arith,
  length, ret, Option-cases, Bool-cases,
}
use bedrocklinux_userland.CString.{Bytes, codes, str_eq, rcut}
use bedrocklinux_userland.Strat.World.{
  Os, World, History, Caps, cap_get_proc, getcwd, getxattr, path_max, realpath, chroot, lstat, log,
}
use bedrocklinux_userland.Strat.Alias.{resolved, deref_alias, strata_root}
use bedrocklinux_userland.Strat.Secure.{secure_loop, check_config_secure}
use bedrocklinux_userland.Strat.Switch.{state_dir, enter, leave, change_to, switch_stratum}

-- How many `chroot` calls were made.
abbrev pub chroots : History → ℕ
chroots [] = 0
chroots (chroot p ∷ h) = suc (chroots h)
chroots (_ ∷ h) = chroots h

secure_loop-chroots :
    (os : Os) (f : ℕ) (path : Bytes) (w : World)
    → chroots (secure_loop os f path w).1.history ≡ chroots w.history
unfolding secure_loop
secure_loop-chroots os zero path w = refl
secure_loop-chroots os (suc f) path w = elim (Option-cases (rcut b'/' path)) [
  | inl e ↦ rw (e, secure_loop)
  | inr ((a, b), e) ↦ ground (arith, secure_loop-chroots os f a (log (lstat path) w))
]

check_config_secure-chroots :
    (os : Os) (path : Bytes) (w : World)
    → chroots (check_config_secure os path w).1.history ≡ chroots w.history
unfolding check_config_secure
check_config_secure-chroots os path w = secure_loop-chroots os (suc (length path)) path w

enter-secure :
    (os : Os) (fuel : ℕ) (stratum cwd : Bytes) (w : World)
    → chroots (enter os fuel stratum cwd w).1.history ≢ chroots w.history
    → (check_config_secure os (state_dir ++ stratum) w).0 ≡ ret true
unfolding enter
enter-secure os fuel stratum cwd w h =
    ground (arith, check_config_secure-chroots os (state_dir ++ stratum) w)

abbrev pub HasRightCaps : Option Caps → Type 0
HasRightCaps none = ⊥
HasRightCaps (some c) = (c.permitted ≡ true) × (c.effective ≡ true) × (c.inheritable ≡ false)

-- At some point before any `chroot`, the stratum's state file was found to be secure.
abbrev pub FoundSecure : Os → World → Bytes → Type 0
FoundSecure os w stratum =
    (w' : World) × (chroots w'.history ≡ chroots w.history)
    × ((check_config_secure os (state_dir ++ stratum) w').0 ≡ ret true)

leave-guarded :
    (os : Os) (fuel : ℕ) (stratum : Bytes) (w : World)
    → chroots (leave os fuel stratum w).1.history ≢ chroots w.history
    → HasRightCaps (os.caps_of w.history) × FoundSecure os w stratum
unfolding leave
leave-guarded os fuel stratum w h = elim (Option-cases (os.caps_of w.history)) [
  | inl e ↦ absurd (ground arith)
  | inr (c, e) ↦ elim (Option-cases (os.cwd_of (cap_get_proc ∷ w.history))) [
    | inl d ↦ absurd (ground arith)
    | inr (cwd, d) ↦
        let w' : World = record w { history = getcwd ∷ cap_get_proc ∷ w.history } in
        let s = enter-secure os fuel stratum cwd w' in
        (ground (arith, s), (w', refl, ground (arith, s)))
  ]
]

change_to-guarded :
    (os : Os) (fuel : ℕ) (stratum : Bytes) (w : World)
    → chroots (change_to os fuel stratum w).1.history ≢ chroots w.history
    → HasRightCaps (os.caps_of (getxattr ∷ w.history)) × FoundSecure os w stratum
unfolding change_to
change_to-guarded os fuel stratum w h = elim (Option-cases (os.stratum_xattr w.history)) [
  | inl e ↦ absurd (ground arith)
  | inr (c, e) ↦
      let w' : World = record w { history = getxattr ∷ w.history } in
      let s = leave-guarded os fuel stratum w' in (ground (arith, s), ground (arith, s))
]

-- A `chroot` happens in `switch_stratum` only for an alias other than "local" that stands for a
-- stratum, in a process with CAP_SYS_CHROOT permitted and effective and not inheritable, and
-- after the stratum's state file was found to be secure.
pub switch_stratum-guarded :
    (os : Os) (fuel : ℕ) (alias : Bytes) (w : World)
    → chroots (switch_stratum os fuel alias w).1.history ≢ chroots w.history
    → (str_eq alias (codes "local") ≡ false)
      × (stratum : Bytes) × ((deref_alias os alias path_max w).0 ≡ ret (some stratum))
      × HasRightCaps (os.caps_of (getxattr ∷ (deref_alias os alias path_max w).1.history))
      × FoundSecure os (deref_alias os alias path_max w).1 stratum
unfolding switch_stratum deref_alias
switch_stratum-guarded os fuel alias w h = elim (Bool-cases (str_eq alias (codes "local"))) [
  | inl l ↦ absurd (ground arith)
  | inr l ↦
      let o : Option Bytes = os.realpath_of w.history (strata_root ++ alias) in
      elim (Option-cases (resolved strata_root path_max o)) [
        | inl e ↦ absurd (ground arith)
        | inr (stratum, e) ↦
            let w' : World = log (realpath (strata_root ++ alias)) w in
            let s = change_to-guarded os fuel stratum w' in
            (l, stratum, ap ret e, ground (arith, s), ground (arith, s))
      ]
]
