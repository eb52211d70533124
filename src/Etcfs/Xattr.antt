-- ===== src/Etcfs/Xattr.antt =====
-- `m_getxattr` of src/etcfs/etcfs.c, behind FS_IMP_SETUP.
pub mod Sized
use bedrocklinux_userland.Base.{
  ℕ, suc, Bool, true, false, ◌&&◌, List, [], ◌∷◌, ◌++◌, Option, none, some, length, if◌then◌else◌,
  ◌==◌, leb, ltb, ℤ, pos, neg,
}
use bedrocklinux_userland.CString.{Bytes, codes, str_eq}
use bedrocklinux_userland.Crossfs.Paths.{path_max}
use bedrocklinux_userland.Etcfs.Config.{RefFd, global_ref, enametoolong}
use bedrocklinux_userland.Etcfs.Handlers.{erange, cfg_name, same_ref}

abbrev pub e2big : ℕ
e2big = 7

abbrev pub enodata : ℕ
enodata = 61

-- STRATUM_XATTR, LPATH_XATTR, GLOBAL_STRATUM and ROOTDIR
abbrev pub stratum_xattr : Bytes
stratum_xattr = codes "user.bedrock.stratum"

abbrev pub lpath_xattr : Bytes
lpath_xattr = codes "user.bedrock.localpath"

abbrev pub global_stratum : Bytes
global_stratum = codes "global"

abbrev pub rootdir : Bytes
rootdir = codes "/"

-- What is returned, and the bytes written to `value`; or a write behind the end of `value`.
pub data Answer : Type 0 where
  replies : ℤ → Bytes → Answer
  past : Answer

-- The four tests of `size`: a text is written with its NUL.
unfoldable pub answer : Bytes → ℕ → Answer
answer text size =
    if size == 0
    then replies (pos (length text)) []
    else if ltb size (length text)
    then replies (neg erange) []
    else if leb (suc (length text)) size
    then replies (pos (length text)) (text ++ (0 ∷ []))
    else past

-- `procpath(fd, buf, size)` for the digits of `fd`; `none` is -1.
unfoldable pub procpath : Bytes → ℕ → Option Bytes
procpath fd size =
    let path = codes "/proc/self/fd/" ++ fd in if leb size (length path) then none else some path

-- An `openat`: its `errno`, or the digits of the descriptor.
pub data Opened : Type 0 where
  refused : ℕ → Opened
  opened : Bytes → Opened

pub record Calls : Type 0 where
  pub mntpt : Bytes
  pub local_name : Bytes
  pub open_file : Opened
  pub lgetxattr : Bytes → Bytes → ℕ → Answer

module _ (k : Calls) (ref : RefFd) (path name : Bytes) (size : ℕ) where
  -- LPATH_XATTR.
  unfoldable pub local_path : Answer
  unfolding answer
  local_path =
      let lpath = k.mntpt ++ path in
      if leb path_max (length lpath) then replies (neg e2big) [] else answer lpath size

  -- An attribute of the file itself.
  unfoldable pub own_xattr : Option Bytes → Answer
  own_xattr none = replies (neg enametoolong) []
  own_xattr (some buf) = k.lgetxattr buf name size

  -- The branches after `openat`.
  unfoldable pub file_xattr : Opened → Answer
  unfolding answer local_path own_xattr procpath
  file_xattr (refused e) = replies (neg e) []
  file_xattr (opened fd) =
      if str_eq stratum_xattr name && same_ref ref global_ref
      then answer global_stratum size
      else if str_eq stratum_xattr name
      then answer k.local_name size
      else if str_eq lpath_xattr name
      then local_path
      else own_xattr (procpath fd path_max)

  unfoldable pub m_getxattr : Bytes → Answer
  unfolding answer file_xattr
  m_getxattr rpath =
      if str_eq rpath cfg_name && str_eq stratum_xattr name
      then answer global_stratum size
      else if str_eq rpath cfg_name && str_eq lpath_xattr name
      then answer rootdir size
      else if str_eq rpath cfg_name
      then replies (neg enodata) []
      else file_xattr k.open_file
