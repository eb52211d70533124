-- ===== src/Etcfs/Overrides.antt =====
-- `apply_override` of src/etcfs/etcfs.c, which every call on a path begins with.
pub mod Enforced
pub mod Touched
use bedrocklinux_userland.Base.{
  ℕ, ◌+◌, Bool, true, false, not, ◌&&◌, ◌++◌, List, Option, none, some, take, set, get_elem?,
  if◌then◌else◌, leb, ◌==◌, [], ◌∷◌, ℤ, pos, neg,
}
use bedrocklinux_userland.CString.{Bytes, str_eq}
use bedrocklinux_userland.Etcfs.Config.{
  OType, symlink, directory, inject, Override, Config, find_index,
}
use bedrocklinux_userland.Etcfs.Files.{Node, file, folder, link, device, Disk, put}
use bedrocklinux_userland.Etcfs.Inject.{Calls as InjectCalls, Result, inject as inject_string}

-- What the calls yield: whether the first one, on what is at the path, succeeds; the bytes of `buf`
-- behind those that `readlinkat` wrote; the time; whether one of the two `unlinkat` removes what is
-- at the path; whether `symlinkat` and `mkdirat` succeed where nothing is; and those of `inject`.
pub record Calls : Type 0 where
  pub stat_works : Bool
  pub behind : Bytes
  pub now : ℕ
  pub unlink_removes : Bool
  pub make_works : Bool
  pub inject_calls : InjectCalls

pub record Applied : Type 0 where
  pub rv : ℤ
  pub cfg : Config
  pub disk : Disk

abbrev pub is_for : Bytes → Override → Bool
is_for path o = str_eq o.path path

abbrev pub is_folder : Option Node → Bool
is_folder (some folder) = true
is_folder _ = false

abbrev pub is_file : Option Node → Bool
is_file (some (file s)) = true
is_file _ = false

-- `strcmp(buf, content) == 0` for the bytes of an array, in which nobody put a NUL, and a string:
-- `none` is a read behind the array.
unfoldable pub strcmp_array : Bytes → Bytes → Option Bool
strcmp_array [] content = none
strcmp_array (x ∷ buf) [] = some (x == 0)
strcmp_array (x ∷ buf) (y ∷ content) =
    let rest = strcmp_array buf content in
    if x == 0 then some false else if x == y then rest else some false

-- The test of a link, where `readlinkat` wrote at most `sizeof(buf) - 1` bytes.
abbrev pub is_link_to : Bytes → Bytes → Option Node → Option Bool
is_link_to behind content (some (link target)) = strcmp_array (take 4095 target ++ behind) content
is_link_to behind content _ = some false

module _ (k : Calls) (rpath : Bytes) where
  -- The test on which each case breaks; `none` is an access out of bounds.
  unfoldable pub nothing_to_do : OType → Override → Option Node → Option Bool
  unfolding strcmp_array
  nothing_to_do symlink o found =
      if k.stat_works then is_link_to k.behind o.content found else some false
  nothing_to_do directory o found = some (k.stat_works && is_folder found)
  nothing_to_do inject o found = some (not (k.stat_works && is_file found))

  -- The two calls of `unlinkat`.
  unfoldable pub unlink_both : Disk → Disk
  unfolding put
  unlink_both disk = if k.unlink_removes then put rpath none disk else disk

  -- `symlinkat` or `mkdirat`.
  unfoldable pub make_node : Node → Disk → ℤ × Disk
  unfolding put
  make_node v disk = elim (disk rpath) [
    | some _ ↦ (neg 1, disk)
    | none ↦ if k.make_works then (pos 0, put rpath (some v) disk) else (neg 1, disk)
  ]

  abbrev pub injected : Config → Option Result → Option Applied
  injected cfg none = none
  injected cfg (some r) = some (record { rv = r.rv; cfg = cfg; disk = r.disk })

  abbrev pub replaced : Config → ℤ × Disk → Option Applied
  replaced cfg (rv, disk) = some (record { rv = rv; cfg = cfg; disk = disk })

  -- The end of each case, for the configuration in which the time is noted.
  unfoldable pub enforce : OType → Override → Config → Disk → Option Applied
  unfolding unlink_both make_node inject_string
  enforce symlink o cfg disk = replaced cfg (make_node (link o.content) (unlink_both disk))
  enforce directory o cfg disk = replaced cfg (make_node folder (unlink_both disk))
  enforce inject o cfg disk = elim o.injected [
    | none ↦ none
    | some str ↦ injected cfg (inject_string k.inject_calls rpath str disk)
  ]

  -- The switch behind the test, for the override at index `i`: `(now - last_override) <= 1` breaks too.
  abbrev pub apply_tested : ℕ → Override → Config → Disk → Option Bool → Option Applied
  apply_tested i o cfg disk none = none
  apply_tested i o cfg disk (some nothing) =
      let unchanged : Option Applied = some (record { rv = pos 0; cfg = cfg; disk = disk }) in
      if nothing
      then unchanged
      else if leb k.now (o.last_override + 1)
      then unchanged
      else enforce o.otype o
          (record cfg { overrides = set cfg.overrides i (record o { last_override = k.now }) }) disk

  -- The switch.
  unfoldable pub apply_at : ℕ → Override → Config → Disk → Option Applied
  unfolding nothing_to_do enforce
  apply_at i o cfg disk = apply_tested i o cfg disk (nothing_to_do o.otype o (disk rpath))

  -- `apply_override(ref_fd, path, rpath)`; `none` is an access out of bounds.
  unfoldable pub apply_override : Bytes → Config → Disk → Option Applied
  unfolding apply_at find_index
  apply_override path cfg disk =
      let unchanged : Option Applied = some (record { rv = pos 0; cfg = cfg; disk = disk }) in
      elim (find_index (is_for path) cfg.overrides) [
        | none ↦ unchanged
        | some i ↦ elim (get_elem? cfg.overrides i) [
          | none ↦ unchanged
          | some o ↦ apply_at i o cfg disk
        ]
      ]
