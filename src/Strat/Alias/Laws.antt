-- ===== src/Strat/Alias/Laws.antt =====
-- What `deref_alias` accepts.
use bedrocklinux_userland.Base.{
  ℕ, ◌-◌, ◌<◌, ◌≡◌, ◌↔◌, ap, ◌∙◌, false, ◌++◌, Option, none, some, length, drop, ret, ret-injective,
  arith, take-all, length-drop, drop-append, length-append, le→ltb,
}
use bedrocklinux_userland.CString.{Bytes, has}
use bedrocklinux_userland.CString.Laws.{is_prefix-drop, is_prefix-append}
use bedrocklinux_userland.Strat.World.{Os, World}
use bedrocklinux_userland.Strat.Alias.{strata_root, name_below, resolved, deref_alias}

name_below-eq-some :
    (root : Bytes) (len : ℕ) (path name : Bytes)
    → 0 < len
    → name_below root len path ≡ some name
    → (path ≡ root ++ name) × (has b'/' name ≡ false) × (length name < len)
unfolding name_below
name_below-eq-some root len path name pos h = ground (
  arith,
  is_prefix-drop root path,
  length-drop (length root) path,
  take-all len (drop (length root) path),
)

name_below-append :
    (root : Bytes) (len : ℕ) (name : Bytes)
    → has b'/' name ≡ false
    → length name < len
    → name_below root len (root ++ name) ≡ some name
unfolding name_below
name_below-append root len name s lt = rw (
  drop-append root name,
  is_prefix-append root name,
  s,
  le→ltb (length (root ++ name) - length root) (len - 1) (omega (arith, length-append root name)),
  take-all len name (omega arith),
)

module _ (root : Bytes) (len : ℕ) (name : Bytes) (pos : 0 < len) where
  resolved-eq-some :
      (o : Option Bytes)
      → resolved root len o ≡ some name
      → (o ≡ some (root ++ name)) × (has b'/' name ≡ false) × (length name < len)
  unfolding resolved
  resolved-eq-some none h = cc
  resolved-eq-some (some path) h =
      let (e, s, lt) = name_below-eq-some root len path name pos h in (ap some e, s, lt)

  resolved-append :
      (o : Option Bytes)
      → (o ≡ some (root ++ name)) × (has b'/' name ≡ false) × (length name < len)
      → resolved root len o ≡ some name
  unfolding resolved
  resolved-append o (e, s, lt) = ap (resolved root len) e ∙ name_below-append root len name s lt

-- `deref_alias` gives the stratum's name exactly when the alias resolves to a path right under
-- /bedrock/strata/ and the name, with its NUL, fits the buffer.
pub deref_alias_iff :
    (os : Os) (alias : Bytes) (len : ℕ) (w : World) (name : Bytes)
    → 0 < len
    → ((deref_alias os alias len w).0 ≡ ret (some name)) ↔ (
        (os.realpath_of w.history (strata_root ++ alias) ≡ some (strata_root ++ name))
        × (has b'/' name ≡ false)
        × (length name < len))
unfolding deref_alias
deref_alias_iff os alias len w name pos =
    let o : Option Bytes = os.realpath_of w.history (strata_root ++ alias) in
    (
      λ h. resolved-eq-some strata_root len name pos o (ret-injective h),
      λ h. ap ret (resolved-append strata_root len name pos o h),
    )
