-- ===== src/Strat/Restrict.antt =====
-- `restrict_envvar`, `restrict_env` and `check_cmd_restricted` of src/strat/strat.c.
pub mod Entries
pub mod Env
use bedrocklinux_userland.Base.{
  ℕ, zero, suc, ◌+◌, Bool, false, ◌||◌, [], ◌∷◌, ◌++◌, Option, none, some, length, take,
  if◌then◌else◌, ◌>>=◌, ◌>>◌, pure, halt,
}
use bedrocklinux_userland.CString.{Bytes, codes, is_prefix, cut, rcut}
use bedrocklinux_userland.Strat.World.{Os, Strat, getenv, setenv_failed, out_of_fuel}
use bedrocklinux_userland.Strat.Secure.{check_config_secure}

abbrev pub cross_dir : Bytes
cross_dir = codes "/bedrock/cross"

abbrev pub restricted_cmd_dir : Bytes
restricted_cmd_dir = codes "/bedrock/run/restricted_cmds/"

-- `if (new_val[0] != '\0') strcat(new_val, ":");` and the entry behind it.
unfoldable pub append_entry : Bytes → Bytes → Bytes
append_entry [] entry = entry
append_entry (x ∷ acc) entry = (x ∷ acc) ++ (b':' ∷ entry)

-- The loop of `restrict_envvar` and the last entry behind it. `at` is `start - val`; `acc` is
-- `new_val`, which `new_val[end - val] = '\0'` cuts at that index. `none`: the fuel ran out.
unfoldable pub restrict_loop : Bytes → ℕ → Bytes → ℕ → Bytes → Option Bytes
unfolding append_entry
restrict_loop cross zero start at acc = none
restrict_loop cross (suc fuel) start at acc = elim (cut b':' start) [
  | none ↦ some (if is_prefix cross start then acc else append_entry acc start)
  | some (entry, rest) ↦
      restrict_loop cross fuel rest (at + length entry + 1)
        (if is_prefix cross start then acc else take (at + length entry) (append_entry acc entry))
]

-- The part of `file` behind its last slash.
abbrev pub base_name : Bytes → Bytes
base_name file = elim (rcut b'/' file) [ none ↦ file | some (_, cmd) ↦ cmd ]

module _ (os : Os) where
  abbrev pub set_restricted : Bytes → Option Bytes → Strat Bool
  set_restricted envvar none = halt out_of_fuel
  set_restricted envvar (some new_val) = setenv_failed os envvar new_val

  -- A round consumes a colon, so the length bounds the rounds.
  unfoldable pub restrict_value : Bytes → Option Bytes → Strat Bool
  unfolding restrict_loop
  restrict_value envvar none = pure false
  restrict_value envvar (some val) =
      set_restricted envvar (restrict_loop cross_dir (suc (length val)) val 0 [])

  -- `restrict_envvar(envvar) < 0`
  unfoldable pub restrict_envvar : Bytes → Strat Bool
  unfolding restrict_value
  restrict_envvar envvar = do val ← getenv envvar; restrict_value envvar val

  -- `restrict_env() < 0`: every call is made, whatever the others return.
  unfoldable pub restrict_env : Strat Bool
  unfolding restrict_envvar
  restrict_env = do
    e1 ← restrict_envvar (codes "PATH")
    e2 ← restrict_envvar (codes "MANPATH")
    e3 ← restrict_envvar (codes "INFOPATH")
    e4 ← restrict_envvar (codes "XDG_DATA_DIRS")
    e5 ← setenv_failed os (codes "SHELL") (codes "/bin/sh")
    e6 ← setenv_failed os (codes "BEDROCK_RESTRICT") (codes "1")
    pure (e1 || e2 || e3 || e4 || e5 || e6)

  unfoldable pub check_cmd_restricted : Option Bytes → Strat Bool
  unfolding check_config_secure
  check_cmd_restricted none = pure false
  check_cmd_restricted (some []) = pure false
  check_cmd_restricted (some (x ∷ file)) =
      check_config_secure os (restricted_cmd_dir ++ base_name (x ∷ file))
