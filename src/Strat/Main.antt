-- ===== src/Strat/Main.antt =====
-- `main` of src/strat/strat.c.
use bedrocklinux_userland.Base.{
  ℕ, Bool, true, false, List, [], ◌∷◌, Option, none, some, if◌then◌else◌, ◌>>=◌, ◌>>◌, pure, halt,
}
use bedrocklinux_userland.CString.{Bytes, codes}
use bedrocklinux_userland.Strat.World.{
  Os, Strat, exit, say, get_errno, getenv, no_stratum_specified, usage, unable_to_restrict,
  could_not_run, due_to,
}
use bedrocklinux_userland.Strat.Args.{Args, parse_args}
use bedrocklinux_userland.Strat.Restrict.{cross_dir, base_name, restrict_env, check_cmd_restricted}
use bedrocklinux_userland.Strat.Exec.{execv_skip}
use bedrocklinux_userland.Strat.Switch.{switch_stratum}

abbrev pub first : List Bytes → Option Bytes
first [] = none
first (x ∷ xs) = some x

module _ (os : Os) where
  -- The restriction that the flags and the command ask for; `true` is a failure.
  unfoldable pub restrict_failed : Args → Strat Bool
  restrict_failed a = if a.flag_unrestrict then pure false else do
    bad ← if a.flag_restrict then restrict_env os else pure false
    if bad then pure true else do
      listed ← check_cmd_restricted os (first a.param_arglist)
      if listed then restrict_env os else pure false

  -- `param_arglist[0] = param_arg0`, if that was given.
  abbrev pub with_arg0 : Option Bytes → Bytes → List Bytes → List Bytes
  with_arg0 none file rest = file ∷ rest
  with_arg0 (some arg0) file rest = arg0 ∷ rest

  -- The command, or else the shell.
  unfoldable pub run_command : Option Bytes → List Bytes → Strat (Unit {0})
  run_command arg0 (file ∷ rest) = execv_skip os (some file) (with_arg0 arg0 file rest) cross_dir
  run_command arg0 [] = do
    shell ← getenv (codes "SHELL")
    elim shell [
      | none ↦ pure tt
      | some path ↦ let name = base_name path in execv_skip os (some name) (name ∷ []) cross_dir
    ]
    execv_skip os (some (codes "/bin/sh")) (codes "/bin/sh" ∷ []) cross_dir

  -- What `main` does with its arguments once they are parsed; its result is the exit status.
  unfoldable pub run : ℕ → Args → Bytes → Strat ℕ
  unfolding restrict_failed run_command
  run fuel a stratum = do
    bad ← restrict_failed a
    if bad then say unable_to_restrict >> pure 1 else do
      lost ← switch_stratum os fuel stratum
      if lost then pure 1 else do
        run_command a.param_arg0 a.param_arglist
        say could_not_run
        e ← get_errno
        say (due_to e)
        pure 1

  unfoldable pub main : ℕ → List Bytes → Strat ℕ
  unfolding run
  main fuel argv = elim (parse_args argv) [
    | none ↦ say no_stratum_specified >> halt (exit 1)
    | some a ↦ if a.flag_help then say usage >> pure 0 else elim a.param_stratum [
      | none ↦ say no_stratum_specified >> halt (exit 1)
      | some stratum ↦ run fuel a stratum
    ]
  ]
