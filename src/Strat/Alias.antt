-- ===== src/Strat/Alias.antt =====
-- `deref_alias` of src/strat/strat.c.
pub mod Laws
use bedrocklinux_userland.Base.{
  ℕ, ◌-◌, not, ◌++◌, Option, none, some, length, drop, take, ltb, if◌then◌else◌, ◌>>=◌, pure, ret,
}
use bedrocklinux_userland.CString.{Bytes, codes, is_prefix, has}
use bedrocklinux_userland.Strat.World.{Os, Strat, realpath, log}

abbrev pub strata_root : Bytes
strata_root = codes "/bedrock/strata/"

-- The checks on the resolved path, and the copy into `stratum[len]`; `none` is -1.
unfoldable pub name_below : Bytes → ℕ → Bytes → Option Bytes
name_below root len path =
    let name = drop (length root) path in
    if not (is_prefix root path)
    then none
    else if has b'/' name
    then none
    else if ltb (len - 1) (length path - length root)
    then none
    else some (take len name)

unfoldable pub resolved : Bytes → ℕ → Option Bytes → Option Bytes
unfolding name_below
resolved root len none = none
resolved root len (some path) = name_below root len path

module _ (os : Os) where
  abbrev pub realpath_call : Bytes → Strat (Option Bytes)
  realpath_call path w = (ret (os.realpath_of w.history path), log (realpath path) w)

  -- `deref_alias(alias, stratum, len)`; `none` is -1.
  unfoldable pub deref_alias : Bytes → ℕ → Strat (Option Bytes)
  unfolding resolved
  deref_alias alias len = do
    r ← realpath_call (strata_root ++ alias)
    pure (resolved strata_root len r)
