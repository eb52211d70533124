-- ===== src/Strat/Switch.antt =====
-- `check_capsyschroot` and `switch_stratum` of src/strat/strat.c.
pub mod Guard
use bedrocklinux_userland.Base.{
  ℕ, Bool, true, false, not, ◌&&◌, Option, none, some, if◌then◌else◌, ◌==◌, ◌++◌, ◌∷◌, ◌>>=◌, ◌>>◌,
  pure, ret,
}
use bedrocklinux_userland.CString.{Bytes, codes, str_eq, cstr}
use bedrocklinux_userland.Strat.World.{
  Os, Strat, Caps, enoent, eacces, emlink, path_max, say, log, get_errno, chdir_failed, Message,
  getxattr, cap_get_proc, getcwd, cap_get_proc_failed, unable_to_find_stratum,
  unable_to_determine_stratum, wrong_capability, no_cwd, state_file_insecure, state_file_symlink,
  state_file_missing, state_file_error, unable_to_break_out, unable_to_chroot, cwd_fallback, due_to,
}
use bedrocklinux_userland.Strat.Alias.{strata_root, deref_alias}
use bedrocklinux_userland.Strat.Secure.{check_config_secure}
use bedrocklinux_userland.Strat.Chroot.{break_out_of_chroot, chroot_to_stratum}

abbrev pub state_dir : Bytes
state_dir = codes "/bedrock/run/enabled_strata/"

-- What is said of a state file that is not secure.
unfoldable pub refusal : ℕ → Message
refusal e =
    if e == eacces
    then state_file_insecure
    else if e == emlink
    then state_file_symlink
    else if e == enoent
    then state_file_missing
    else state_file_error

module _ (os : Os) where
  abbrev cap_get_proc_call : Strat (Option Caps)
  cap_get_proc_call w = (ret (os.caps_of w.history), log cap_get_proc w)

  abbrev getxattr_call : Strat (Option Bytes)
  getxattr_call w = (
    ret (os.stratum_xattr w.history),
    record w {
      errno = elim (os.stratum_xattr w.history) [
        | none ↦ os.xattr_errno w.history
        | some _ ↦ w.errno
      ];
      history = getxattr ∷ w.history;
    },
  )

  abbrev getcwd_call : Strat (Option Bytes)
  getcwd_call w = (ret (os.cwd_of w.history), log getcwd w)

  -- `check_capsyschroot() < 0`
  unfoldable pub check_capsyschroot : Strat Bool
  check_capsyschroot = do
    r ← cap_get_proc_call
    elim r [
      | none ↦ say cap_get_proc_failed >> pure true
      | some caps ↦ pure (not (caps.permitted && caps.effective && not caps.inheritable))
    ]

  abbrev give_up : Message → Strat Bool
  give_up m = say m >> pure true

  -- From the check of the state file on; `cwd` is where the process was.
  unfoldable pub enter : ℕ → Bytes → Bytes → Strat Bool
  unfolding refusal
  enter fuel stratum cwd = do
    secure ← check_config_secure os (state_dir ++ stratum)
    if not secure then (do e ← get_errno; give_up (refusal e)) else do
      stuck ← break_out_of_chroot os fuel (codes "/bedrock")
      if stuck then give_up unable_to_break_out else do
        lost ← chroot_to_stratum os (strata_root ++ stratum)
        if lost then give_up unable_to_chroot else do
          away ← chdir_failed os cwd
          if not away then pure false else do
            _ ← chdir_failed os (codes "/")
            say cwd_fallback
            e ← get_errno
            say (due_to e)
            pure false

  -- From the check of the capabilities on.
  unfoldable pub leave : ℕ → Bytes → Strat Bool
  unfolding check_capsyschroot
  leave fuel stratum = do
    wrong ← check_capsyschroot
    if wrong then give_up wrong_capability else do
      r ← getcwd_call
      elim r [ none ↦ give_up no_cwd | some cwd ↦ enter fuel stratum cwd ]

  -- From the stratum's name on.
  unfoldable pub change_to : ℕ → Bytes → Strat Bool
  unfolding leave
  change_to fuel stratum = do
    c ← getxattr_call
    elim c [
      | none ↦ do say unable_to_determine_stratum; e ← get_errno; pure (not (e == 0))
      | some current ↦ if str_eq (cstr current) stratum then pure false else leave fuel stratum
    ]

  -- `switch_stratum(alias) < 0`
  unfoldable pub switch_stratum : ℕ → Bytes → Strat Bool
  switch_stratum fuel alias = if str_eq alias (codes "local") then pure false else do
    d ← deref_alias os alias path_max
    elim d [ none ↦ give_up unable_to_find_stratum | some stratum ↦ change_to fuel stratum ]
