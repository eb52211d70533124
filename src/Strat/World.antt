-- ===== src/Strat/World.antt =====
-- The state of a `strat` process, and the system calls that src/strat/strat.c makes. The kernel is
-- a parameter `Os`: what a call returns may depend on all the calls before it.
use bedrocklinux_userland.Base.{
  ℕ, Bool, true, false, List, ◌∷◌, Option, none, some, M, ret, if◌then◌else◌, ◌==◌, ◌/◌, ◌%◌, ◌||◌,
  stop,
}
use bedrocklinux_userland.CString.{Bytes, str_eq}

-- errno values of the Linux ABI
abbrev pub enoent : ℕ
enoent = 2

abbrev pub eacces : ℕ
eacces = 13

abbrev pub emlink : ℕ
emlink = 31

abbrev pub path_max : ℕ
path_max = 4096

-- The fields of `struct stat` that the program reads.
pub record Stat : Type 0 where
  pub mode : ℕ
  pub uid : ℕ
  pub dev : ℕ
  pub ino : ℕ

-- `S_ISLNK(mode)`: the type bits, 0170000, are those of a symlink, 0120000.
abbrev pub s_islnk : ℕ → Bool
s_islnk m = m / 4096 % 16 == 10

-- `(mode & (S_IWGRP | S_IWOTH)) != 0`: bit 020 or bit 002.
abbrev pub loosely_writable : ℕ → Bool
loosely_writable m = m / 16 % 2 == 1 || m / 2 % 2 == 1

-- What is printed on stderr or stdout.
pub data Message : Type 0 where
  no_stratum_specified usage cap_get_proc_failed : Message
  unable_to_find_stratum unable_to_determine_stratum wrong_capability no_cwd : Message
  state_file_insecure state_file_symlink state_file_missing state_file_error : Message
  unable_to_break_out unable_to_chroot cwd_fallback could_not_run : Message
  unable_to_restrict : Message
  due_to : ℕ → Message

-- The calls that a run makes, for what can be seen from outside.
pub data Event : Type 0 where
  realpath lstat stat chdir chroot : Bytes → Event
  getxattr cap_get_proc getcwd : Event
  setenv : Bytes → Bytes → Event
  execv : Bytes → List Bytes → Event
  message : Message → Event

-- The calls so far, the latest first.
abbrev pub History : Type 0
History = List Event

-- The CAP_SYS_CHROOT flags of the process.
pub record Caps : Type 0 where
  pub permitted : Bool
  pub effective : Bool
  pub inheritable : Bool

-- What the kernel and libc answer. Where an answer is an `Option ℕ`, `none` is success and `some`
-- an errno; elsewhere `none` is failure. `junk` and `junk_too` are what uninitialised `struct stat`s hold.
pub record Os : Type 0 where
  pub realpath_of : History → Bytes → Option Bytes
  pub lstat_of : History → Bytes → Option Stat
  pub stat_of : History → Bytes → Option Stat
  pub chdir_fails : History → Bytes → Option ℕ
  pub chroot_fails : History → Bytes → Option ℕ
  pub setenv_fails : History → Bytes → Bytes → Option ℕ
  pub execv_fails : History → Bytes → List Bytes → Option ℕ
  pub stratum_xattr : History → Option Bytes
  pub xattr_errno : History → ℕ
  pub caps_of : History → Option Caps
  pub cwd_of : History → Option Bytes
  pub junk : Stat
  pub junk_too : Stat

pub record World : Type 0 where
  pub env : Bytes → Option Bytes
  pub errno : ℕ
  pub history : History

-- How the process ends inside a function: `exit`, a program image that replaces it, or a loop that
-- outruns its fuel.
pub data Final : Type 0 where
  exit : ℕ → Final
  becomes : Bytes → List Bytes → Final
  out_of_fuel : Final

abbrev pub Strat : Type 0 → Type 0
Strat A = M World Final A

abbrev pub log : Event → World → World
log e w = record w { history = e ∷ w.history }

abbrev pub say : Message → Strat (Unit {0})
say m w = (ret tt, log (message m) w)

abbrev pub set_errno : ℕ → Strat (Unit {0})
set_errno e w = (ret tt, record w { errno = e })

abbrev pub get_errno : Strat ℕ
get_errno w = (ret w.errno, w)

abbrev pub getenv : Bytes → Strat (Option Bytes)
getenv name w = (ret (w.env name), w)

-- The errno that a failing call leaves, and the old one otherwise.
abbrev pub note_errno : Option ℕ → ℕ → ℕ
note_errno none e = e
note_errno (some e') e = e'

abbrev pub failed : Option ℕ → Bool
failed none = false
failed (some e) = true

abbrev pub env_set : (Bytes → Option Bytes) → Bytes → Bytes → Bytes → Option Bytes
env_set env name value k = if str_eq k name then some value else env k

module _ (os : Os) where
  -- `chdir(path) < 0`
  abbrev pub chdir_failed : Bytes → Strat Bool
  chdir_failed path w =
      let r = os.chdir_fails w.history path in
      (ret (failed r), record w { errno = note_errno r w.errno; history = chdir path ∷ w.history })

  -- `chroot(path) < 0`
  abbrev pub chroot_failed : Bytes → Strat Bool
  chroot_failed path w =
      let r = os.chroot_fails w.history path in
      (ret (failed r), record w { errno = note_errno r w.errno; history = chroot path ∷ w.history })

  -- `setenv(name, value, 1) < 0`
  abbrev pub setenv_failed : Bytes → Bytes → Strat Bool
  setenv_failed name value w =
      let r = os.setenv_fails w.history name value in
      (
        ret (failed r),
        record {
          env = if failed r then w.env else env_set w.env name value;
          errno = note_errno r w.errno;
          history = setenv name value ∷ w.history;
        },
      )

  abbrev pub lstat_path : Bytes → Strat (Option Stat)
  lstat_path path w = (ret (os.lstat_of w.history path), log (lstat path) w)

  abbrev pub stat_path : Bytes → Strat (Option Stat)
  stat_path path w = (ret (os.stat_of w.history path), log (stat path) w)

  -- `execv` returns only if it fails.
  abbrev pub execv_result : Option ℕ → Bytes → List Bytes → Strat (Unit {0})
  execv_result none path argv w = (stop (becomes path argv), log (execv path argv) w)
  execv_result (some e) path argv w =
      (ret tt, record w { errno = e; history = execv path argv ∷ w.history })

  abbrev pub execv_path : Bytes → List Bytes → Strat (Unit {0})
  execv_path path argv w = execv_result (os.execv_fails w.history path argv) path argv w
