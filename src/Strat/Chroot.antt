-- ===== src/Strat/Chroot.antt =====
-- `break_out_of_chroot` and `chroot_to_stratum` of src/strat/strat.c.
pub mod Climb
use bedrocklinux_userland.Base.{
  ℕ, zero, suc, Bool, true, false, ◌&&◌, Option, none, some, if◌then◌else◌, ◌==◌, ◌>>=◌, ◌>>◌, pure,
  halt,
}
use bedrocklinux_userland.CString.{Bytes, codes}
use bedrocklinux_userland.Strat.World.{
  Os, Strat, Stat, chdir_failed, chroot_failed, lstat_path, stat_path, out_of_fuel,
}

-- A failing `stat` leaves the buffer as it was.
abbrev pub filled : Stat → Option Stat → Stat
filled buf none = buf
filled buf (some st) = st

unfoldable pub same_file : Stat → Stat → Bool
same_file a b = a.ino == b.ino && a.dev == b.dev

module _ (os : Os) where
  -- The `do … while`: the depth of the tree is not known, so the rounds are bounded by fuel.
  unfoldable pub climb : ℕ → Stat → Stat → Strat (Unit {0})
  climb zero cwd parent = halt out_of_fuel
  climb (suc fuel) cwd parent = do
    _ ← chdir_failed os (codes "..")
    c ← lstat_path os (codes ".")
    p ← lstat_path os (codes "..")
    elim (same_file (filled cwd c) (filled parent p)) [
      | true ↦ pure tt
      | false ↦ climb fuel (filled cwd c) (filled parent p)
    ]

  -- `break_out_of_chroot(reference_dir) < 0`
  unfoldable pub break_out_of_chroot : ℕ → Bytes → Strat Bool
  break_out_of_chroot fuel reference_dir = do
    _ ← chdir_failed os (codes "/")
    bad ← chroot_failed os reference_dir
    if bad then pure true else climb fuel os.junk os.junk_too >> chroot_failed os (codes ".")

  -- `chroot_to_stratum(stratum_path) < 0`
  unfoldable pub chroot_to_stratum : Bytes → Strat Bool
  chroot_to_stratum stratum_path = do
    r ← stat_path os (codes "/")
    s ← stat_path os stratum_path
    if same_file (filled os.junk r) (filled os.junk_too s) then pure false else do
      bad ← chdir_failed os stratum_path
      if bad then pure true else chroot_failed os (codes ".")
