-- ===== src/Strat/Secure.antt =====
-- `check_config_secure` of src/strat/strat.c.
pub mod Ancestors
use bedrocklinux_userland.Base.{
  ℕ, zero, suc, Bool, true, false, not, Option, none, some, length, ◌==◌, if◌then◌else◌, ◌>>=◌,
  ◌>>◌, pure, halt,
}
use bedrocklinux_userland.CString.{Bytes, rcut}
use bedrocklinux_userland.Strat.World.{
  Os, Strat, Stat, enoent, emlink, eacces, s_islnk, loosely_writable, lstat_path, set_errno,
  out_of_fuel,
}

-- The tests of one round: the errno of the first that fails.
unfoldable pub check_stat : Option Stat → Option ℕ
check_stat none = some enoent
check_stat (some st) =
    if s_islnk st.mode
    then some emlink
    else if not (st.uid == 0)
    then some eacces
    else if loosely_writable st.mode
    then some eacces
    else none

module _ (os : Os) where
  -- The loop: each round checks `path`, then cuts it at its last slash. `false` is -1, with errno.
  unfoldable pub secure_loop : ℕ → Bytes → Strat Bool
  unfolding check_stat
  secure_loop zero path = halt out_of_fuel
  secure_loop (suc fuel) path = elim (rcut b'/' path) [
    | none ↦ pure true
    | some (parent, _) ↦ do
      st ← lstat_path os path
      elim (check_stat st) [ some e ↦ set_errno e >> pure false | none ↦ secure_loop fuel parent ]
  ]

  -- A round shortens the path, so its length bounds the rounds.
  unfoldable pub check_config_secure : Bytes → Strat Bool
  unfolding secure_loop
  check_config_secure path = secure_loop (suc (length path)) path
