-- ===== src/Crossfs/Listing.antt =====
-- Directories of src/crossfs/crossfs.c: `insert_h_str`, `virt_filldir`, `fchroot_filldir`,
-- `filldir_all_bpath` and `m_readdir`.
pub mod Children
pub mod Backs
use bedrocklinux_userland.Base.{
  ℕ, ◌+◌, Bool, true, false, not, List, [], ◌∷◌, ◌++◌, Option, none, some, length, drop,
  if◌then◌else◌, leb, ltb, ℤ, pos, neg,
}
use bedrocklinux_userland.CString.{Bytes, codes, str_eq, cut}
use bedrocklinux_userland.Crossfs.Config.{BackEntry, CfgEntry}
use bedrocklinux_userland.Crossfs.Paths.{
  path_max, is_parent, calc_bpath, IpathClass, class_back, class_vdir, class_root, class_cfg,
  class_local, class_enoent,
}
use bedrocklinux_userland.Strat.World.{enoent}
use bedrocklinux_userland.Etcfs.Config.{enomem}
use bedrocklinux_userland.Crossfs.Backs.{deref_fd}
use bedrocklinux_userland.Crossfs.Commands.{Scanned, mismatch, overrun, got, then_scan}

-- The hash table, in the order in which its names were added, and whether `malloc` failed.
pub record NameTable : Type 0 where
  pub files : List Bytes
  pub out_of_memory : Bool

-- HASH_FIND
unfoldable pub is_listed : Bytes → List Bytes → Bool
is_listed x [] = false
is_listed x (y ∷ ys) = if str_eq y x then true else is_listed x ys

-- `insert_h_str(&files, str, str_len)`
unfoldable pub insert_h_str : (Bytes → Bool) → Bytes → NameTable → NameTable
unfolding is_listed
insert_h_str malloc name n =
    if is_listed name n.files
    then n
    else if not (malloc name)
    then record n { out_of_memory = true }
    else record n { files = n.files ++ (name ∷ []) }

-- What the caller of a function that has the head of the table by value sees of the names that it
-- added: none where the head was NULL, since the head that it set is its own.
abbrev pub by_value : List Bytes → NameTable → NameTable
by_value [] n = record n { files = [] }
by_value (x ∷ files) n = n

-- `fchroot_stat` of a back yields a file. `local_fd` is the root of the caller's stratum.
module _ (stat : Option ℕ → Bytes → Bool) (local_fd : ℕ) where
  -- The loop over the backs of a direct child.
  unfoldable pub has_file : List BackEntry → Bool
  has_file [] = false
  has_file (b ∷ bs) = if stat (deref_fd local_fd b) b.lpath then true else has_file bs

  -- The case of a grandchild, whose part up to the slash is `name`: `memcpy` reads `slash - cpath`
  -- bytes behind the slash of the directory, of a `cpath` of `cpath_len + 1` bytes.
  unfoldable pub virtual_child : Bytes → CfgEntry → Bytes → Scanned (Option Bytes)
  virtual_child ipath e name =
      let slash = length ipath + 1 + length name in
      if ltb path_max (slash + 1)
      then got none
      else if ltb (length e.cpath + 1) (length ipath + 1 + slash)
      then overrun
      else got (some name)

  -- The name that an entry adds to the directory `ipath`.
  unfoldable pub child_name : Bytes → CfgEntry → Scanned (Option Bytes)
  unfolding is_parent cut has_file virtual_child
  child_name ipath e =
      if not (is_parent ipath e.cpath)
      then got none
      else (elim (cut b'/' (drop (length ipath + 1) e.cpath)) [
        | some (name, _) ↦ virtual_child ipath e name
        | none ↦ if has_file e.back then got (some (drop (length ipath + 1) e.cpath)) else got none
      ])

  abbrev pub insert_child : (Bytes → Bool) → Option Bytes → NameTable → NameTable
  insert_child malloc none n = n
  insert_child malloc (some name) n = insert_h_str malloc name n

  -- The loop over the entries; `overrun` is a read past the end of a `cpath`.
  unfoldable pub fill_children :
      (Bytes → Bool) → Bytes → List CfgEntry → NameTable → Scanned NameTable
  unfolding child_name insert_h_str then_scan
  fill_children malloc ipath [] n = got n
  fill_children malloc ipath (e ∷ es) n =
      then_scan (child_name ipath e) (λ c. fill_children malloc ipath es (insert_child malloc c n))

  -- `virt_filldir(ipath, ipath_len, files)`, with the table as the caller has it behind the call.
  unfoldable pub virt_filldir :
      (Bytes → Bool) → Bytes → List CfgEntry → NameTable → Scanned NameTable
  unfolding fill_children then_scan
  virt_filldir malloc ipath es n =
      then_scan (fill_children malloc ipath es n) (λ r. got (by_value n.files r))

-- The directory behind a descriptor at a path: whether the path is a link to `.`, and the names in it
-- with whether `stat` finds them, where it can be opened.
module _ (is_self_link : Option ℕ → Bytes → Bool)
    (opendir : Option ℕ → Bytes → Option (List (Bytes × Bool))) (malloc : Bytes → Bool) where
  -- The loop over `readdir`.
  unfoldable pub fill_entries : List (Bytes × Bool) → NameTable → NameTable
  unfolding insert_h_str
  fill_entries [] n = n
  fill_entries ((name, there) ∷ entries) n =
      fill_entries entries
        (if is_listed name n.files then n else if not there then n else insert_h_str malloc name n)

  -- `fchroot_filldir(root_fd, bpath, files)`, with the table as the caller has it behind the call; what
  -- it returns is not read. Where the root cannot be entered, `opendir` has no directory.
  unfoldable pub fchroot_filldir : Option ℕ → Bytes → NameTable → NameTable
  unfolding fill_entries
  fchroot_filldir root_fd bpath n =
      if is_self_link root_fd bpath then n else elim (opendir root_fd bpath) [
        | none ↦ n
        | some entries ↦ by_value n.files (fill_entries entries n)
      ]

  -- `filldir_all_bpath(cfg, ipath, ipath_len, files)`, for the `cpath` of the entry.
  unfoldable pub filldir_all_bpath : ℕ → Bytes → Bytes → List BackEntry → NameTable → NameTable
  unfolding fchroot_filldir calc_bpath
  filldir_all_bpath local_fd cpath ipath [] n = n
  filldir_all_bpath local_fd cpath ipath (b ∷ bs) n = elim (calc_bpath cpath b.lpath ipath) [
    | none ↦ filldir_all_bpath local_fd cpath ipath bs n
    | some bpath ↦
        filldir_all_bpath local_fd cpath ipath bs (fchroot_filldir (deref_fd local_fd b) bpath n)
  ]

  -- The names that `filler` gets, and what `m_readdir` returns.
  abbrev pub answered : NameTable → ℤ × List Bytes
  answered n = if n.out_of_memory then (neg enomem, []) else (pos 0, n.files)

  -- The names `.` and `..`.
  unfoldable pub dots : NameTable
  unfolding insert_h_str
  dots =
      insert_h_str malloc (codes "..")
        (insert_h_str malloc (codes ".") (record { files = []; out_of_memory = false }))

  -- The switch of `m_readdir`. What a failed allocation in `filldir_all_bpath` returns is lost.
  unfoldable pub readdir_class :
      (Option ℕ → Bytes → Bool)
      → ℕ
      → List CfgEntry
      → Bytes
      → IpathClass CfgEntry
      → Scanned (ℤ × List Bytes)
  unfolding filldir_all_bpath virt_filldir dots then_scan insert_h_str
  readdir_class stat local_fd cfgs ipath (class_back e) = got (
      answered (record (filldir_all_bpath local_fd e.cpath ipath e.back dots) {
        out_of_memory = dots.out_of_memory;
      }))
  readdir_class stat local_fd cfgs ipath class_root =
      then_scan
        (virt_filldir stat local_fd malloc [] cfgs (
          insert_h_str malloc (codes ".local-alias")
            (insert_h_str malloc (codes ".bedrock-config-filesystem") dots)))
        (λ n. got (answered n))
  readdir_class stat local_fd cfgs ipath (class_vdir e) =
      then_scan (virt_filldir stat local_fd malloc ipath cfgs dots) (λ n. got (answered n))
  readdir_class stat local_fd cfgs ipath class_cfg = got (neg enoent, [])
  readdir_class stat local_fd cfgs ipath class_local = got (neg enoent, [])
  readdir_class stat local_fd cfgs ipath class_enoent = got (neg enoent, [])
