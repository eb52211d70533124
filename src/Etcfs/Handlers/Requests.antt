-- ===== src/Etcfs/Handlers/Requests.antt =====
-- The handlers of src/etcfs/etcfs.c that pass one call on.
use Prim.Native.Nat.{bit_or}
use bedrocklinux_userland.Base.{
  [], leb, negsuc, ℕ, ◌+◌, Bool, true, false, Option, if◌then◌else◌, ℤ, pos, neg, is_neg,
}
use bedrocklinux_userland.CString.{Bytes}
use bedrocklinux_userland.Etcfs.Handlers.{
  readlinkat, fdopendir, lsetxattr, llistxattr, lremovexattr, Kernel, Server, Served, fs_imp_setup,
  pass_on, one_call, opened_call, faccessat, mknodat, mkdirat, symlinkat, unlinkat, fchmodat,
  fchownat, utimensat, create, ftruncate, fstatvfs, fallocate, o_nofollow, o_nonblock, o_rdwr,
  o_directory,
}

abbrev pub Handler : Type 0
Handler = Kernel → Option Bytes → Server → Option Served

abbrev pub m_access : ℕ → Handler
m_access mask k path s = one_call k (faccessat mask) path s

abbrev pub m_mknod : ℕ → ℕ → Handler
m_mknod mode rdev k path s = one_call k (mknodat mode rdev) path s

abbrev pub m_mkdir : ℕ → Handler
m_mkdir mode k path s = one_call k (mkdirat mode) path s

abbrev pub m_symlink : Bytes → Handler
m_symlink symlink_string k path s = one_call k (symlinkat symlink_string) path s

abbrev pub m_unlink : Handler
m_unlink k path s = one_call k (unlinkat false) path s

-- With AT_REMOVEDIR.
abbrev pub m_rmdir : Handler
m_rmdir k path s = one_call k (unlinkat true) path s

abbrev pub m_chmod : ℕ → Handler
m_chmod mode k path s = one_call k (fchmodat mode) path s

abbrev pub m_chown : ℕ → ℕ → Handler
m_chown uid gid k path s = one_call k (fchownat uid gid) path s

-- With the two times.
abbrev pub m_utimens : ℕ → ℕ → Handler
m_utimens access_time modified k path s = one_call k (utimensat access_time modified) path s

abbrev pub m_truncate : ℕ → Handler
m_truncate size k path s = opened_call k (o_nonblock + o_rdwr + o_nofollow) (ftruncate size) path s

abbrev pub m_statfs : Handler
m_statfs k path s = opened_call k (o_nonblock + o_nofollow) fstatvfs path s

abbrev pub m_fallocate : ℕ → ℕ → ℕ → Handler
m_fallocate mode offset len k path s =
    opened_call k (o_nonblock + o_rdwr + o_nofollow) (fallocate mode offset len) path s

-- `(size_t)bytes_read >= size`, or -1.
abbrev pub unread : ℕ → ℤ → Bool
unread size (pos n) = leb size n
unread size (negsuc n) = true

unfoldable pub m_readlink : ℕ → Handler
unfolding fs_imp_setup pass_on
m_readlink size k path s =
    pass_on k (λ creds (n, errno). (if unread size n then neg errno else pos 0, []))
      (readlinkat size) (fs_imp_setup k path s)

-- `fi->fh`, which gets the descriptor, is not modelled.
unfoldable pub m_create : ℕ → ℕ → Handler
unfolding fs_imp_setup pass_on
m_create flags mode k path s =
    pass_on k (λ creds (fd, errno). (if is_neg fd then neg errno else pos 0, []))
      (create (bit_or o_nonblock flags) mode) (fs_imp_setup k path s)

abbrev pub m_opendir : Handler
m_opendir k path s = opened_call k (o_nonblock + o_directory + o_nofollow) fdopendir path s

abbrev pub m_setxattr : Bytes → Bytes → ℕ → ℕ → Handler
m_setxattr name value size flags k path s =
    opened_call k (o_nonblock + o_nofollow) (lsetxattr name value size flags) path s

abbrev pub m_listxattr : ℕ → Handler
m_listxattr size k path s = opened_call k (o_nonblock + o_nofollow) (llistxattr size) path s

abbrev pub m_removexattr : Bytes → Handler
m_removexattr name k path s =
    opened_call k (o_nonblock + o_rdwr + o_nofollow) (lremovexattr name) path s

-- A request that one of these handlers serves.
pub data Request : Type 0 where
  access mkdir chmod truncate readlink listxattr : ℕ → Request
  mknod chown utimens new_file : ℕ → ℕ → Request
  make_symlink : Bytes → Request
  unlink rmdir statfs opendir : Request
  setxattr : Bytes → Bytes → ℕ → ℕ → Request
  removexattr : Bytes → Request
  allocate : ℕ → ℕ → ℕ → Request

abbrev pub handler : Request → Handler
handler (access mask) = m_access mask
handler (mkdir mode) = m_mkdir mode
handler (chmod mode) = m_chmod mode
handler (truncate size) = m_truncate size
handler (mknod mode rdev) = m_mknod mode rdev
handler (chown uid gid) = m_chown uid gid
handler (utimens access_time modified) = m_utimens access_time modified
handler (make_symlink target) = m_symlink target
handler unlink = m_unlink
handler rmdir = m_rmdir
handler statfs = m_statfs
handler (allocate mode offset len) = m_fallocate mode offset len
handler (readlink size) = m_readlink size
handler opendir = m_opendir
handler (setxattr name value size flags) = m_setxattr name value size flags
handler (listxattr size) = m_listxattr size
handler (removexattr name) = m_removexattr name
handler (new_file flags mode) = m_create flags mode
