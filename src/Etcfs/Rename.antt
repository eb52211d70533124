-- ===== src/Etcfs/Rename.antt =====
-- `m_rename` of src/etcfs/etcfs.c, which copies where the two paths are on different mount points.
pub mod Copied
pub mod Kept
pub mod Places
use bedrocklinux_userland.Base.{
  ℕ, Bool, true, false, not, ◌&&◌, List, [], ◌∷◌, ◌++◌, Option, none, some, length, take, drop,
  replicate, if◌then◌else◌, ◌==◌, leb, ℤ, pos, neg,
}
use bedrocklinux_userland.CString.{Bytes, codes, str_eq}
use bedrocklinux_userland.Strat.World.{enoent}
use bedrocklinux_userland.Crossfs.Paths.{path_max}
use bedrocklinux_userland.Etcfs.Config.{RefFd, einval, enametoolong}
use bedrocklinux_userland.Etcfs.Files.{resize}
use bedrocklinux_userland.Etcfs.Handlers.{cfg_name, same_ref}
use bedrocklinux_userland.Etcfs.Serve.{fs_imp_return}

abbrev pub exdev : ℕ
exdev = 18

abbrev pub eopnotsupp : ℕ
eopnotsupp = 95

-- What `st_mode & S_IFMT` tells apart: a device, FIFO or socket with its type and `st_rdev`, a link
-- with its target, a directory, or a regular file with its bytes.
pub data Content : Type 0 where
  special : ℕ → ℕ → Content
  symbolic : Bytes → Content
  folder : Content
  regular : Bytes → Content

pub record Item : Type 0 where
  pub content : Content
  pub owner : ℕ × ℕ
  pub mode : ℕ

-- What is at the paths below the descriptors.
abbrev pub Files : Type 0
Files = RefFd → Bytes → Option Item

abbrev pub same_place : RefFd → Bytes → RefFd → Bytes → Bool
same_place r p ref path = same_ref r ref && str_eq p path

unfoldable pub place : RefFd → Bytes → Option Item → Files → Files
place ref path v files r p = if same_place r p ref path then v else files r p

-- A read and the write of what it got: the read's `errno`, the write's, or the part and how many bytes
-- of it were written.
pub data Copy : Type 0 where
  read_error write_error : ℕ → Copy
  chunk : Bytes → ℕ → Copy

-- What the first `renameat` does: it leaves files, or fails with an `errno`.
pub data Moved : Type 0 where
  moved : Files → Moved
  unmoved : ℕ → Moved

-- What the other calls answer: `none`, or the `errno` they fail with. `unlinked` is whether there is no
-- file at the temporary path after `unlinkat`. `close_again` is the second `close(to_fd)`.
pub record Calls : Type 0 where
  pub rename_files : Moved
  pub fstatat : Option ℕ
  pub mknodat : Option ℕ
  pub readlinkat : Option ℕ
  pub symlinkat : Option ℕ
  pub mkdirat : Option ℕ
  pub tid : Bytes
  pub unlinked : Bool
  pub open_to : Option ℕ
  pub open_from : Option ℕ
  pub ftruncate : Option ℕ
  pub copies : List Copy
  pub rename_tmp : Option ℕ
  pub fchownat : Option ℕ
  pub fchmodat : Option ℕ
  pub unlinkat : Option ℕ
  pub close_again : Option ℕ
  pub caller : ℕ × ℕ

pub record Renamed : Type 0 where
  pub rv : ℤ
  pub files : Files

-- The loop that copies: the `errno` it ends with, and the bytes that it wrote.
unfoldable pub copy_loop : List Copy → Bytes → Option ℕ × Bytes
copy_loop [] written = (none, written)
copy_loop (read_error e ∷ cs) written = (some e, written)
copy_loop (write_error e ∷ cs) written = (some e, written)
copy_loop (chunk part n ∷ cs) written = copy_loop cs (written ++ take n part)

abbrev pub bytes_of : Option Item → Bytes
bytes_of none = []
bytes_of (some i) = elim i.content [
  | special t rdev ↦ []
  | symbolic target ↦ []
  | folder ↦ []
  | regular s ↦ s
]

-- `errno` after the last `close(to_fd)`.
abbrev pub last_errno : Option ℕ → ℕ → ℕ
last_errno none e = e
last_errno (some closed) e = closed

abbrev pub change : (Item → Item) → Option Item → Option Item
change f none = none
change f (some i) = some (f i)

abbrev pub failed_with : ℕ → Files → Renamed
failed_with errno files = record { rv = fs_imp_return errno (neg 1); files = files }

module _ (k : Calls) (ref : RefFd) (from : Bytes) (to_ref : RefFd) (to : Bytes) where
  -- `tmp_path` without its "./".
  abbrev pub tmp_name : Bytes
  tmp_name = codes ".bedrock-tmpfile-" ++ k.tid

  -- "Copy metadata", "Remove original" and `clean_up_and_return`. `closed` is the effect on `errno` of
  -- the `close(to_fd)` there.
  unfoldable pub copy_metadata : Option ℕ → Item → Files → Renamed
  unfolding place fs_imp_return
  copy_metadata closed item files = elim k.fchownat [
    | some e ↦ failed_with (last_errno closed e) files
    | none ↦
        let owned =
          place to_ref to (change (λ i. record i { owner = item.owner }) (files to_ref to)) files in
        elim k.fchmodat [
          | some e ↦ failed_with (last_errno closed e) owned
          | none ↦
              let equal =
                place to_ref to (change (λ i. record i { mode = item.mode }) (owned to_ref to))
                  owned in
              elim k.unlinkat [
                | some e ↦ failed_with (last_errno closed e) equal
                | none ↦ record { rv = pos 0; files = place ref from none equal }
              ]
        ]
  ]

  -- A case that makes `to` with one call.
  unfoldable pub made : Option ℕ → Item → Files → Renamed
  unfolding copy_metadata place fs_imp_return
  made (some e) item files = failed_with e files
  made none item files =
      copy_metadata none item (place to_ref to (some (record item { owner = k.caller })) files)

  -- The temporary file with other bytes, and as `openat` leaves it: a new one has the mode of the item.
  abbrev pub with_bytes : Bytes → Item → Option Item
  with_bytes s i = some (record i { content = regular s })

  abbrev pub created : Item → Option Item → Item
  created item none = record { content = regular []; owner = k.caller; mode = item.mode }
  created item (some i) = i

  -- From the first `close(to_fd)` on, with the bytes of the temporary file.
  unfoldable pub rename_copy : Bytes → Item → Item → Files → Renamed
  unfolding copy_metadata place fs_imp_return
  rename_copy s base item files =
      let copied = place to_ref tmp_name (with_bytes s base) files in
      elim k.rename_tmp [
        | some e ↦ failed_with (last_errno k.close_again e) copied
        | none ↦
            copy_metadata k.close_again item
              (place to_ref to (with_bytes s base) (place to_ref tmp_name none copied))
      ]

  -- The loop, after the temporary file got its size.
  unfoldable pub copied : Option ℕ × Bytes → Bytes → Item → Item → Files → Renamed
  unfolding rename_copy place fs_imp_return
  copied (some e, written) old base item files =
      failed_with e
        (place to_ref tmp_name (with_bytes (written ++ drop (length written) old) base) files)
  copied (none, written) old base item files =
      rename_copy (written ++ drop (length written) old) base item files

  -- The case of S_IFREG.
  unfoldable pub copy_regular : Bytes → Item → Files → Renamed
  unfolding copied copy_loop place fs_imp_return
  copy_regular s item files =
      let unlinked = if k.unlinked then place to_ref tmp_name none files else files in
      let base = created item (unlinked to_ref tmp_name) in
      let opened = place to_ref tmp_name (some base) unlinked in
      if leb path_max (length (codes "./" ++ tmp_name))
      then failed_with enametoolong files
      else elim k.open_to [
        | some e ↦ failed_with e unlinked
        | none ↦ elim k.open_from [
          | some e ↦ failed_with e opened
          | none ↦ elim k.ftruncate [
            | some e ↦ failed_with e opened
            | none ↦
                copied (copy_loop k.copies []) (resize (length s) (bytes_of (some base))) base item
                  unlinked
          ]
        ]
      ]

  -- The case of S_IFLNK.
  unfoldable pub copy_link : Bytes → Item → Files → Renamed
  unfolding made fs_imp_return
  copy_link target item files = elim k.readlinkat [
    | some e ↦ failed_with e files
    | none ↦
        if leb path_max (length target)
        then failed_with enametoolong files
        else made k.symlinkat item files
  ]

  -- The `switch`.
  unfoldable pub copy_item : Content → Item → Files → Renamed
  unfolding made copy_link copy_regular
  copy_item (special t rdev) item files = made k.mknodat item files
  copy_item (symbolic target) item files = copy_link target item files
  copy_item folder item files = made k.mkdirat item files
  copy_item (regular s) item files = copy_regular s item files

  -- After the first `renameat`.
  unfoldable pub rename_item : Files → Renamed
  unfolding copy_item fs_imp_return
  rename_item files = elim k.rename_files [
    | moved after ↦ record { rv = pos 0; files = after }
    | unmoved e ↦ if not (e == exdev) then failed_with e files else elim k.fstatat [
      | some e' ↦ failed_with e' files
      | none ↦ elim (files ref from) [
        | none ↦ failed_with enoent files
        | some item ↦ copy_item item.content item files
      ]
    ]
  ]

  -- `m_rename(from, to, flags)` behind FS_IMP_SETUP, which gives `ref` and `from`; `to_ref` and `to`
  -- are `get_ref_fd(to)` and the path without its slash.
  unfoldable pub m_rename : ℕ → Files → Renamed
  unfolding rename_item fs_imp_return
  m_rename flags files =
      if str_eq from cfg_name
      then failed_with einval files
      else if str_eq to cfg_name
      then failed_with einval files
      else if not (flags == 0)
      then failed_with eopnotsupp files
      else rename_item files
