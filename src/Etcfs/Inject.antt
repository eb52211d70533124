-- ===== src/Etcfs/Inject.antt =====
-- `inject` of src/etcfs/etcfs.c, which adds a string to a file by way of a temporary file.
pub mod Atomic
use bedrocklinux_userland.Base.{
  ℕ, ◌+◌, Bool, true, false, List, [], ◌∷◌, ◌++◌, Option, none, some, length, take, drop,
  if◌then◌else◌, ◌==◌, leb, ℤ, pos, neg, not,
}
use bedrocklinux_userland.CString.{Bytes, codes}
use bedrocklinux_userland.Crossfs.Paths.{path_max}
use bedrocklinux_userland.Etcfs.Search.{file_search}
use bedrocklinux_userland.Etcfs.Files.{Node, file, Disk, put}

-- What the system calls answer. A read is `none` for -1, and a write the number of bytes written or
-- `none` for -1; `search_reads` are the reads of `file_search`, `copies` those of the copy, each with
-- its write. `cleaned` tells whether the last `unlinkat` succeeds.
pub record Calls : Type 0 where
  pub open_works : Bool
  pub fstat : Option ℕ
  pub search_reads : List (Option Bytes)
  pub unlink_works : Bool
  pub create_works : Bool
  pub lseek_works : Bool
  pub copies : List (Option (Bytes × Option ℕ))
  pub append : Option ℕ
  pub rename_works : Bool
  pub cleaned : Bool

pub record Result : Type 0 where
  pub rv : ℤ
  pub disk : Disk

-- `-1`, with nothing to clean up.
abbrev pub fail : Disk → Option Result
fail disk = some (record { rv = neg 1; disk = disk })

-- ATOMIC_UPDATE_SUFFIX
abbrev pub suffix : Bytes
suffix = codes "-bedrock-backup"

-- The bytes that the loop wrote, and whether it ended: a read that fails ends it as the end of the
-- file does.
unfoldable pub copy_loop : List (Option (Bytes × Option ℕ)) → Bytes → Bool × Bytes
copy_loop [] written = (true, written)
copy_loop (none ∷ cs) written = (true, written)
copy_loop (some (part, none) ∷ cs) written = (false, written)
copy_loop (some (part, some n) ∷ cs) written = copy_loop cs (written ++ take n part)

-- The bytes of a file after others were written over its start.
abbrev pub overwrite : Bytes → Bytes → Bytes
overwrite written old = written ++ drop (length written) old

abbrev pub bytes_of : Option Node → Bytes
bytes_of (some (file s)) = s
bytes_of _ = []

module _ (k : Calls) (rpath str : Bytes) where
  abbrev pub tmp_file : Bytes
  tmp_file = rpath ++ suffix

  -- `clean_up_and_return` after a failure, with the temporary file open.
  unfoldable pub clean_up : Bytes → Disk → Option Result
  unfolding put
  clean_up content disk = fail (put tmp_file (if k.cleaned then none else some (file content)) disk)

  -- The append and the rename, after `written` was copied into a file that had `old`.
  unfoldable pub append_and_rename : Bytes → Bytes → Disk → Option Result
  unfolding clean_up put
  append_and_rename written old disk = elim k.append [
    | none ↦ clean_up (overwrite written old) disk
    | some n ↦
        if k.rename_works
        then some (record {
          rv = pos 0;
          disk =
              put tmp_file none
                (put rpath (some (file (overwrite (written ++ take n str) old))) disk);
        })
        else clean_up (overwrite (written ++ take n str) old) disk
  ]

  unfoldable pub copy_file : Bool × Bytes → Bytes → Disk → Option Result
  unfolding append_and_rename clean_up
  copy_file (true, written) old disk = append_and_rename written old disk
  copy_file (false, written) old disk = clean_up (overwrite written old) disk

  -- From `tmp_file` on.
  unfoldable pub add_content : Disk → Option Result
  unfolding copy_file copy_loop clean_up put
  add_content disk =
      if leb path_max (length tmp_file)
      then fail disk
      else (let unlinked = if k.unlink_works then put tmp_file none disk else disk in
          if not k.create_works
          then fail unlinked
          else (let old = bytes_of (unlinked tmp_file) in
              if not k.lseek_works
              then clean_up old unlinked
              else copy_file (copy_loop k.copies []) old unlinked))

  -- `inject(ref_fd, rpath, inject, inject_len)`; `none` is an access out of bounds in `file_search`.
  unfoldable pub inject : Disk → Option Result
  unfolding add_content file_search
  inject disk = if not k.open_works then fail disk else elim k.fstat [
    | none ↦ fail disk
    | some init_len ↦
        if init_len == 0
        then some (record { rv = pos 0; disk = disk })
        else if leb (length str) init_len
        then elim (file_search str [] k.search_reads) [
          | none ↦ none
          | some true ↦ some (record { rv = pos 0; disk = disk })
          | some false ↦ add_content disk
        ]
        else add_content disk
  ]
