-- ===== src/Strat/Exec.antt =====
-- `execv_skip` of src/strat/strat.c.
pub mod Path
use bedrocklinux_userland.Base.{
  ℕ, zero, suc, ◌+◌, ◌||◌, List, [], ◌∷◌, ◌++◌, Option, none, some, length, if◌then◌else◌, ◌>>=◌,
  ◌>>◌, pure, halt, ltb,
}
use bedrocklinux_userland.CString.{Bytes, codes, is_prefix, cut, has}
use bedrocklinux_userland.Strat.World.{
  Os, Strat, enoent, getenv, set_errno, execv_path, out_of_fuel,
}

abbrev pub default_path : Bytes
default_path = codes "/usr/bin:/bin"

module _ (os : Os) (file : Bytes) (argv : List Bytes) (skip : Bytes) where
  -- The loop over the entries of $PATH, and the last entry behind it. `entry_len` is the size of
  -- the buffer that `snprintf` writes to.
  unfoldable pub path_loop : ℕ → ℕ → Bytes → Strat (Unit {0})
  path_loop zero entry_len start = halt out_of_fuel
  path_loop (suc fuel) entry_len start = elim (cut b':' start) [
    | none ↦
        (if is_prefix skip start || ltb entry_len (length start + 1 + length file + 1)
          then pure tt
          else execv_path os (start ++ (b'/' ∷ file)) argv)
        >> set_errno enoent
    | some (entry, rest) ↦
        (if is_prefix skip start then pure tt else execv_path os (entry ++ (b'/' ∷ file)) argv)
        >> path_loop fuel entry_len rest
  ]

  abbrev pub search_path : Bytes → Strat (Unit {0})
  search_path path = path_loop (suc (length path)) (length path + 1 + length file + 1) path

module _ (os : Os) where
  -- `execv_skip(file, argv, skip)`: it returns only if nothing could be executed.
  unfoldable pub execv_skip : Option Bytes → List Bytes → Bytes → Strat (Unit {0})
  unfolding path_loop
  execv_skip none argv skip = set_errno enoent
  execv_skip (some []) argv skip = set_errno enoent
  execv_skip (some (x ∷ f)) argv skip = if has b'/' (x ∷ f) then execv_path os (x ∷ f) argv else do
    r ← getenv (codes "PATH")
    search_path os (x ∷ f) argv skip (elim r [ none ↦ default_path | some path ↦ path ])
