-- ===== src/Etcfs/Listing.antt =====
-- `m_readdir` of src/etcfs/etcfs.c: what a directory lists of the global files, of the overrides and
-- of the stratum's own files.
pub mod Kept
pub mod Members
pub mod Overridden
use bedrocklinux_userland.Base.{
  ℕ, ◌+◌, Bool, true, false, not, ◌&&◌, ◌||◌, List, [], ◌∷◌, ◌++◌, Option, none, some, length, drop,
  if◌then◌else◌, ◌==◌, leb, ℤ, pos, neg,
}
use bedrocklinux_userland.CString.{Bytes, codes, str_eq, is_prefix, has}
use bedrocklinux_userland.Strat.World.{enoent}
use bedrocklinux_userland.Crossfs.Paths.{path_max, char_at}
use bedrocklinux_userland.Etcfs.Config.{
  OType, symlink, directory, inject, Override, Config, is_global,
}
use bedrocklinux_userland.Etcfs.Handlers.{cfg_name}

-- `snprintf(full_path, …)`: `none` is one that does not fit.
abbrev pub full_path : Bytes → Bytes → Bytes
full_path path name = if not (char_at path 1 == 0) then path ++ (b'/' ∷ name) else path ++ name

abbrev pub fits : Bytes → Bool
fits s = not (leb path_max (length s))

abbrev pub is_inject : OType → Bool
is_inject symlink = false
is_inject directory = false
is_inject inject = true

-- The loop that sets `is_override`.
unfoldable pub is_override : Bytes → List Override → Bool
unfolding str_eq
is_override path [] = false
is_override path (o ∷ os) =
    let rest = is_override path os in
    if is_inject o.otype then rest else if str_eq path o.path then true else rest

-- The loop over the global directory.
unfoldable pub global_names : Config → Bytes → List Bytes → List Bytes
unfolding is_global char_at
global_names cfg path [] = []
global_names cfg path (name ∷ names) =
    let rest = global_names cfg path names in
    if fits (full_path path name) && is_global (full_path path name) cfg.globals
    then name ∷ rest
    else rest

-- The name that an override has in the directory.
unfoldable pub override_name : Bytes → Override → Option Bytes
unfolding is_prefix has char_at
override_name path o =
    if is_inject o.otype
    then none
    else if not (is_prefix path o.path)
    then none
    else if char_at path 1 == 0
    then if has b'/' (drop 1 o.path) then none else some (drop (length path) o.path)
    else if not (char_at o.path (length path) == b'/')
    then none
    else if has b'/' (drop (length path + 1) o.path)
    then none
    else some (drop (length path + 1) o.path)

abbrev pub with_name : Option Bytes → List Bytes → List Bytes
with_name none names = names
with_name (some name) names = name ∷ names

-- The loop over the overrides.
unfoldable pub override_names : Bytes → List Override → List Bytes
unfolding override_name
override_names path [] = []
override_names path (o ∷ os) = with_name (override_name path o) (override_names path os)

-- The loop over the directory below `ref_fd`. `is_cfg` is `strcmp(buf, CFG_NAME) == 0`, of the buffer
-- of `filler`.
unfoldable pub own_names : Bool → Config → Bytes → List Bytes → List Bytes
unfolding is_global is_override char_at
own_names is_cfg cfg path [] = []
own_names is_cfg cfg path (name ∷ names) =
    let rest = own_names is_cfg cfg path names in
    if fits (full_path path name)
      && not (is_global (full_path path name) cfg.globals)
      && not (is_override (full_path path name) cfg.overrides)
      && not is_cfg
    then name ∷ rest
    else rest

abbrev pub names_in : Option (List Bytes) → List Bytes
names_in none = []
names_in (some names) = names

abbrev pub is_some : Option (List Bytes) → Bool
is_some none = false
is_some (some names) = true

-- `m_readdir(path, …)` after its checks, for the names in the two directories where they can be opened:
-- what it returns, and the names that `filler` gets.
unfoldable pub m_readdir :
    Bool → Config → Bytes → Option (List Bytes) → Option (List Bytes) → ℤ × List Bytes
unfolding global_names override_names own_names char_at
m_readdir is_cfg cfg path global_dir own_dir =
    let names =
      global_names cfg path (names_in global_dir)
      ++ (override_names path cfg.overrides ++ own_names is_cfg cfg path (names_in own_dir)) in
    if is_some global_dir || is_some own_dir
    then (pos 0, if char_at path 1 == 0 then names ++ (cfg_name ∷ []) else names)
    else (neg enoent, names)
