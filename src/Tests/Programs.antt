-- ===== src/Tests/Programs.antt =====
-- Runs of src/bouncer/bouncer.c and of the small programs.
use bedrocklinux_userland.Base.{
  ◌≡◌, ◌⊎◌, refl, true, List, [], ◌∷◌, none, some, if◌then◌else◌, arith,
}
use bedrocklinux_userland.CString.{Bytes, codes, str_eq, cstr}
use bedrocklinux_userland.Strat.Args.{option_of, parse_args}
use bedrocklinux_userland.Bouncer.{Kernel, main}
use bedrocklinux_userland.Bouncer.Handoff.{request, restricts_itself, Executes, main-parse_args}
use bedrocklinux_userland.TtyLock
use bedrocklinux_userland.TtyLock.Success.{SetsLock, main-zero}
use bedrocklinux_userland.Keyboard
use bedrocklinux_userland.Keyboard.Present.{HasKeyboard, main-present}
use bedrocklinux_userland.PlymouthQuit
use bedrocklinux_userland.PlymouthQuit.Delivery.{Outcome, main-Outcome}

-- The file of a bouncer for /usr/bin/sv of the stratum "void".
abbrev kernel : Kernel
kernel = record {
  xattr = λ name.
      if str_eq name (codes "user.bedrock.stratum")
      then some (codes "void")
      else if str_eq name (codes "user.bedrock.localpath")
      then some (codes "/usr/bin/sv")
      else none;
  xattr_errno = λ name. 61;
  execv_fails = λ path argv. none;
}

main-parse_args_example :
    (argv : List Bytes) × (parse_args argv
      ≡ some (
          request
            (restricts_itself kernel)
            (codes "sv")
            (cstr (codes "void"))
            (cstr (codes "/usr/bin/sv"))
            (codes "up" ∷ [])))
    × Executes kernel argv (main kernel (codes "sv") (codes "up" ∷ []))
unfolding str_eq option_of cstr
main-parse_args_example =
    main-parse_args kernel (codes "sv") (codes "up" ∷ []) (codes "void") (codes "/usr/bin/sv") refl
      refl refl

abbrev terminals : TtyLock.Kernel
terminals = record { open_file = λ p. some 3; ioctl_errno = λ fd byte. none }

main-zero_example :
    ((codes "lock" ≡ codes "-h") ⊎ (codes "lock" ≡ codes "--help"))
    ⊎ SetsLock terminals
        (codes "lock")
        (codes "/dev/pts/1" ∷ [])
        (TtyLock.main terminals (codes "manage_tty_lock" ∷ codes "lock" ∷ codes "/dev/pts/1" ∷ []))
unfolding TtyLock.main TtyLock.open_tty TtyLock.dispatch TtyLock.lock_tty TtyLock.set_lock str_eq
main-zero_example =
    main-zero terminals (λ fd byte e. cc) (codes "manage_tty_lock") (codes "lock")
      (codes "/dev/pts/1" ∷ []) refl

abbrev devices : Keyboard.Files
devices = record {
  entries = λ p. some (codes "." ∷ codes "event0" ∷ []);
  is_dir = λ p. true;
  hex_words = λ p. some (0 ∷ 4294967295 ∷ []);
}

main-present_example :
    ((Keyboard.main devices ≡ 0) × HasKeyboard devices (codes "." ∷ codes "event0" ∷ []))
    ⊎ ((Keyboard.main devices ≡ 1) × (HasKeyboard devices (codes "." ∷ codes "event0" ∷ []) → ⊥))
main-present_example =
    main-present devices (codes "." ∷ codes "event0" ∷ []) refl (omega arith, (omega arith, tt))

abbrev splash : PlymouthQuit.Kernel
splash = record { socket = some 3; connect_errno = λ fd name. none }

main-Outcome_example : Outcome splash (PlymouthQuit.main splash)
main-Outcome_example = main-Outcome splash
