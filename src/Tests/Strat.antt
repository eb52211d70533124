-- ===== src/Tests/Strat.antt =====
-- Runs of src/strat/strat.c on a machine with the stratum "void".
use bedrocklinux_userland.Base.{
  ℕ, ◌-◌, ◌+◌, ◌≡◌, ◌≢◌, ◌⊎◌, ◌↔◌, refl, true, false, [], ◌∷◌, ◌++◌, none, some, ret, if◌then◌else◌,
  ◌<◌, arith,
}
use bedrocklinux_userland.CString.{Bytes, codes, str_eq, has, rcut, is_prefix, cstr}
use bedrocklinux_userland.CString.Entries.{split, join}
use bedrocklinux_userland.Strat.World.{
  Os, World, History, Stat, path_max, chdir, chroot, getxattr, failed,
}
use bedrocklinux_userland.Strat.Alias.{deref_alias, strata_root, resolved}
use bedrocklinux_userland.Strat.Alias.Laws.{deref_alias_iff}
use bedrocklinux_userland.Strat.Secure.{check_config_secure, secure_loop, check_stat}
use bedrocklinux_userland.Strat.Secure.Ancestors.{check_config_secure_lem, AllSafe, SomeRefused}
use bedrocklinux_userland.Strat.Restrict.{restrict_loop, restrict_env, cross_dir}
use bedrocklinux_userland.Strat.Restrict.Entries.{restrict_loop_lem, from_nonempty, outside}
use bedrocklinux_userland.Strat.Restrict.Env.{restrict_env_lem, restricted_env, Changes}
use bedrocklinux_userland.Strat.Exec.{execv_skip}
use bedrocklinux_userland.Strat.Exec.Path.{execv_skip-Attempts, Attempts, candidates, path_of}
use bedrocklinux_userland.Strat.Chroot.{break_out_of_chroot, climb, same_file, chroot_to_stratum}
use bedrocklinux_userland.Strat.Chroot.Climb.{break_out_of_chroot-root, IsTree}
use bedrocklinux_userland.Strat.Switch.{switch_stratum, change_to, leave, enter, check_capsyschroot}
use bedrocklinux_userland.Strat.Switch.Guard.{
  switch_stratum-guarded, chroots, HasRightCaps, FoundSecure,
}

abbrev safe_dir : ℕ → Stat
safe_dir ino = record { mode = 16877; uid = 0; dev = 1; ino = ino }

-- How often the process went up.
abbrev ups : History → ℕ
ups [] = 0
ups (chdir p ∷ h) = if str_eq p (codes "..") then ups h + 1 else ups h
ups (_ ∷ h) = ups h

-- Two directories below the root of the tree, when it leaves its root.
abbrev depth : History → ℕ
depth h = 2 - ups h

abbrev machine : Os
machine = record {
  realpath_of = λ h p. some p;
  lstat_of = λ h p. some (
      safe_dir (
        if str_eq p (codes ".")
        then depth h
        else if str_eq p (codes "..")
        then depth h - 1
        else 7));
  stat_of = λ h p. some (safe_dir (if str_eq p (codes "/") then 1 else 2));
  chdir_fails = λ h p. none;
  chroot_fails = λ h p. none;
  setenv_fails = λ h name value. none;
  execv_fails = λ h p argv. if str_eq p (codes "/bin/ls") then none else some 2;
  stratum_xattr = λ h. some (codes "bedrock");
  xattr_errno = λ h. 0;
  caps_of = λ h. some (record { permitted = true; effective = true; inheritable = false });
  cwd_of = λ h. some (codes "/root");
  junk = safe_dir 0;
  junk_too = safe_dir 0;
}

abbrev world : World
world = record {
  env = λ k.
      if str_eq k (codes "PATH") then some (codes "/bedrock/cross/bin:/usr/bin:/bin") else none;
  errno = 0;
  history = [];
}

void_chroots :
    chroots (switch_stratum machine 5 (codes "void") world).1.history ≢ chroots world.history
unfolding switch_stratum change_to leave enter check_capsyschroot deref_alias resolved has rcut
    str_eq is_prefix check_config_secure secure_loop check_stat break_out_of_chroot climb same_file
    chroot_to_stratum cstr
void_chroots e = cc

switch_stratum-guarded_example :
    (str_eq (codes "void") (codes "local") ≡ false)
    × (stratum : Bytes) × ((deref_alias machine (codes "void") path_max world).0
        ≡ ret (some stratum))
    × HasRightCaps
        (machine.caps_of (getxattr ∷ (deref_alias machine (codes "void") path_max world).1.history))
    × FoundSecure machine (deref_alias machine (codes "void") path_max world).1 stratum
switch_stratum-guarded_example = switch_stratum-guarded machine 5 (codes "void") world void_chroots

-- The tree of `machine`: the directory at depth `d` has inode `d`.
tree : IsTree machine depth
unfolding same_file str_eq
tree = record {
  depth-up = λ h. omega arith;
  depth-lstat = λ p h. refl;
  here = λ h. safe_dir (depth h);
  parent = λ h. safe_dir (depth h - 1);
  lstat-here = λ h. refl;
  lstat-parent = λ h. refl;
  same_at_root = λ h e. ground arith;
  apart_below = λ h ne. ground arith;
}

break_out_of_chroot-root_example :
    (h : History) × (depth h ≡ 0)
    × ((break_out_of_chroot machine 3 (codes "/bedrock") world).0
        ≡ ret (failed (machine.chroot_fails h (codes "."))))
    × ((break_out_of_chroot machine 3 (codes "/bedrock") world).1.history ≡ chroot (codes ".") ∷ h)
unfolding str_eq
break_out_of_chroot-root_example =
    break_out_of_chroot-root machine depth tree 2 (codes "/bedrock") world refl (omega arith)

abbrev static_machine : Os
static_machine = record machine { lstat_of = λ h p. some (safe_dir 7) }

check_config_secure_lem_example :
    (((check_config_secure static_machine (codes "/bedrock/run/void") world).0 ≡ ret true)
      × AllSafe static_machine [] (codes "/bedrock/run/void"))
    ⊎ (((check_config_secure static_machine (codes "/bedrock/run/void") world).0 ≡ ret false)
        × SomeRefused static_machine []
            (codes "/bedrock/run/void")
            (check_config_secure static_machine (codes "/bedrock/run/void") world).1.errno)
check_config_secure_lem_example =
    check_config_secure_lem static_machine (λ e h q. refl) (codes "/bedrock/run/void") world

restrict_env_lem_example : Changes (restrict_env machine) restricted_env
restrict_env_lem_example = restrict_env_lem machine

restrict_loop_lem_example :
    restrict_loop cross_dir 33 (codes "/bedrock/cross/bin:/usr/bin:/bin") 0 []
    ≡ some (
        join b':' (
          from_nonempty
            (outside cross_dir (split b':' (codes "/bedrock/cross/bin:/usr/bin:/bin")))))
unfolding has
restrict_loop_lem_example =
    restrict_loop_lem cross_dir refl (codes "/bedrock/cross/bin:/usr/bin:/bin")

execv_skip-Attempts_example :
    Attempts machine
      (codes "ls" ∷ [])
      (candidates (codes "ls") cross_dir (path_of world))
      []
      (execv_skip machine (some (codes "ls")) (codes "ls" ∷ []) cross_dir world)
unfolding has
execv_skip-Attempts_example =
    execv_skip-Attempts machine b'l' (codes "s") (codes "ls" ∷ []) cross_dir refl world refl

deref_alias_iff_example :
    ((deref_alias machine (codes "void") path_max world).0 ≡ ret (some (codes "void"))) ↔ (
      (machine.realpath_of [] (strata_root ++ codes "void") ≡ some (strata_root ++ codes "void"))
      × (has b'/' (codes "void") ≡ false)
      × (4 < 4096))
deref_alias_iff_example =
    deref_alias_iff machine (codes "void") path_max world (codes "void") (omega arith)
