-- ===== src/Etcfs/Uninject.antt =====
-- `uninject` of src/etcfs/etcfs.c, which removes a string from a file by way of a temporary file.
pub mod Offsets
pub mod Removed
use bedrocklinux_userland.Base.{
  ℕ, suc, ◌+◌, ◌-◌, ◌*◌, Bool, true, false, not, List, [], ◌∷◌, ◌++◌, Option, none, some, length,
  take, drop, if◌then◌else◌, ◌==◌, leb, ltb, pos,
}
use bedrocklinux_userland.CString.{Bytes, is_prefix}
use bedrocklinux_userland.Crossfs.Paths.{path_max}
use bedrocklinux_userland.Etcfs.Files.{file, Disk, put, resize}
use bedrocklinux_userland.Etcfs.Inject.{Result, fail, suffix, copy_loop, overwrite, bytes_of}

-- What the system calls answer. `searched` are the reads of the search, `none` being -1, each with
-- whether the `lseek` behind it works; `copies` and `rest` are the reads and writes of the two copies.
pub record Calls : Type 0 where
  pub open_works : Bool
  pub fstat : Option ℕ
  pub searched : List (Option Bytes × Bool)
  pub unlink_works : Bool
  pub create_works : Bool
  pub rewind_works : Bool
  pub copies : List (Option (Bytes × Option ℕ))
  pub ftruncate_works : Bool
  pub lseek_works : Bool
  pub lseek_tmp_works : Bool
  pub rest : List (Option (Bytes × Option ℕ))
  pub rename_works : Bool
  pub cleaned : Bool

abbrev pub later : Option (Option ℕ) → Option (Option ℕ)
later none = none
later (some none) = some none
later (some (some i)) = some (some (suc i))

-- `strstr(buf, inject)` where `read` filled `buf` with these bytes and no NUL behind them: the offset
-- of the string, or `some none` for NULL at a NUL; `none` where it reads behind the bytes.
unfoldable pub strstr : Bytes → Bytes → Option (Option ℕ)
unfolding is_prefix
strstr str [] = none
strstr str (x ∷ s) =
    let next = strstr str s in
    if is_prefix str (x ∷ s) then some (some 0) else if x == 0 then some none else later next

-- The search: `some none` leaves `offset` at -1.
unfoldable pub search : Bytes → ℕ → List (Option Bytes × Bool) → Option (Option ℕ)
unfolding strstr
search str multiple [] = some none
search str multiple ((none, seeks) ∷ reads) = some none
search str multiple ((some part, seeks) ∷ reads) =
    let next = search str (suc multiple) reads in
    elim (strstr str part) [
      | none ↦ none
      | some (some i) ↦ some (some (i + multiple * length str))
      | some none ↦ if seeks then next else some none
    ]

-- Bytes written into a file at an offset.
abbrev pub write_at : ℕ → Bytes → Bytes → Bytes
write_at offset written old = take offset old ++ (written ++ drop (offset + length written) old)

module _ (k : Calls) (rpath str : Bytes) where
  abbrev pub tmp_file : Bytes
  tmp_file = rpath ++ suffix

  -- `clean_up_and_return` after a failure, with the temporary file open.
  unfoldable pub clean_up : Bytes → Disk → Option Result
  unfolding put
  clean_up content disk = fail (put tmp_file (if k.cleaned then none else some (file content)) disk)

  -- The end of the second copy, and the rename.
  unfoldable pub rename_tmp : ℕ → Bool × Bytes → Bytes → Disk → Option Result
  unfolding clean_up put
  rename_tmp offset (false, written) content disk = clean_up (write_at offset written content) disk
  rename_tmp offset (true, written) content disk =
      let shifted = write_at offset written content in
      if k.rename_works
      then some
          (record { rv = pos 0; disk = put tmp_file none (put rpath (some (file shifted)) disk) })
      else clean_up shifted disk

  -- From `ftruncate` on, with the bytes of the temporary file.
  unfoldable pub shift : ℕ → ℕ → Bytes → Disk → Option Result
  unfolding clean_up rename_tmp copy_loop
  shift offset init_len content disk =
      let short = resize (init_len - length str) content in
      if not k.ftruncate_works
      then clean_up content disk
      else if not k.lseek_works
      then clean_up short disk
      else if not k.lseek_tmp_works
      then clean_up short disk
      else rename_tmp offset (copy_loop k.rest []) short disk

  unfoldable pub copied : ℕ → ℕ → Bool × Bytes → Bytes → Disk → Option Result
  unfolding clean_up shift
  copied offset init_len (false, written) old disk = clean_up (overwrite written old) disk
  copied offset init_len (true, written) old disk =
      shift offset init_len (overwrite written old) disk

  -- From "Create a temporary file" on.
  unfoldable pub remove_content : ℕ → ℕ → Disk → Option Result
  unfolding clean_up copied copy_loop put
  remove_content offset init_len disk =
      let unlinked = if k.unlink_works then put tmp_file none disk else disk in
      let old = bytes_of (unlinked tmp_file) in
      if leb path_max (length tmp_file)
      then fail disk
      else if not k.create_works
      then fail unlinked
      else if not k.rewind_works
      then clean_up old unlinked
      else copied offset init_len (copy_loop k.copies []) old unlinked

  -- `uninject(ref_fd, rpath, inject, inject_len)`; `none` is a read out of bounds in `strstr`.
  unfoldable pub uninject : Disk → Option Result
  unfolding remove_content search
  uninject disk = if not k.open_works then fail disk else elim k.fstat [
    | none ↦ fail disk
    | some init_len ↦
        if ltb init_len (length str)
        then some (record { rv = pos 0; disk = disk })
        else elim (search str 0 k.searched) [
          | none ↦ none
          | some none ↦ some (record { rv = pos 0; disk = disk })
          | some (some offset) ↦ remove_content offset init_len disk
        ]
  ]
