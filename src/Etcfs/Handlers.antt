-- ===== src/Etcfs/Handlers.antt =====
-- The handlers of src/etcfs/etcfs.c that pass a call on, between FS_IMP_SETUP and FS_IMP_RETURN.
pub mod Finished
pub mod Passed
pub mod Requests
use Prim.Native.Nat.{bit_or}
use bedrocklinux_userland.Base.{
  leb, negsuc, ℕ, ◌+◌, Bool, true, false, not, List, [], ◌∷◌, Option, none, some, drop,
  if◌then◌else◌, ◌==◌, ℤ, pos, neg, is_neg,
}
use bedrocklinux_userland.CString.{Bytes, codes, str_eq}
use bedrocklinux_userland.Crossfs.Paths.{char_at}
use bedrocklinux_userland.Etcfs.Config.{einval, Config, RefFd, global_ref, local_ref, get_ref_fd}
use bedrocklinux_userland.Etcfs.Serve.{fs_imp_return}
use bedrocklinux_userland.Etcfs.Caller.{
  Credentials, Caller, Ending, returns, overrun, uninitialised, set_caller_permissions,
}
use bedrocklinux_userland.Etcfs.Files.{Disk}
use bedrocklinux_userland.Etcfs.Overrides.{Calls as OverrideCalls, Applied, apply_override}

abbrev pub eperm : ℕ
eperm = 1

abbrev pub edom : ℕ
edom = 33

abbrev pub erange : ℕ
erange = 34

-- CFG_NAME
abbrev pub cfg_name : Bytes
cfg_name = codes ".bedrock-config-filesystem"

-- The configuration, the files below the two descriptors, and the credentials of the thread.
pub record Server : Type 0 where
  pub cfg : Config
  pub disks : RefFd → Disk
  pub creds : Credentials

-- The calls with a descriptor and a path.
pub data AtCall : Type 0 where
  faccessat : ℕ → AtCall
  mknodat : ℕ → ℕ → AtCall
  mkdirat : ℕ → AtCall
  symlinkat : Bytes → AtCall
  unlinkat : Bool → AtCall
  linkat : RefFd → Bytes → AtCall
  fchmodat : ℕ → AtCall
  fchownat : ℕ → ℕ → AtCall
  utimensat : ℕ → ℕ → AtCall
  openat : ℕ → AtCall
  create : ℕ → ℕ → AtCall
  fstatat : AtCall
  readlinkat : ℕ → AtCall

-- The calls with a descriptor that was opened. Those of extended attributes go by way of its path in
-- /proc, which `procpath` makes: for an `int` it always fits.
pub data FdCall : Type 0 where
  ftruncate : ℕ → FdCall
  fstatvfs : FdCall
  fallocate : ℕ → ℕ → ℕ → FdCall
  fdopendir : FdCall
  lsetxattr : Bytes → Bytes → ℕ → ℕ → FdCall
  llistxattr : ℕ → FdCall
  lremovexattr : Bytes → FdCall
  pread : ℕ → ℕ → FdCall
  pwrite : Bytes → ℕ → FdCall

-- What the kernel answers: `run` and `on_fd` with a result and `errno`, for the thread's credentials.
pub record Kernel : Type 0 where
  pub euid_works : Bool
  pub is_open : RefFd → Bool
  pub overrides : OverrideCalls
  pub caller : Caller
  pub run : RefFd → Bytes → AtCall → Credentials → ℤ × ℕ
  pub on_fd : FdCall → Credentials → ℤ × ℕ

-- How FS_IMP_SETUP ends: it returns; or a function that it calls accesses memory out of bounds; or the
-- handler goes on, with `ref_fd` and `rpath`.
pub data Setup : Type 0 where
  refused : ℤ → Server → Setup
  faulted : Setup
  ready : RefFd → Bytes → Server → Setup

-- `(path && path[1]) ? path + 1 : "."`
unfoldable pub rpath_of : Bytes → Bytes
unfolding char_at
rpath_of path = if char_at path 1 == 0 then codes "." else drop 1 path

abbrev pub same_ref : RefFd → RefFd → Bool
same_ref global_ref global_ref = true
same_ref local_ref local_ref = true
same_ref _ _ = false

-- The files after a change below one descriptor.
abbrev pub with_disk : RefFd → Disk → Server → Server
with_disk ref d s = record s { disks = λ r. if same_ref r ref then d else s.disks r }

abbrev pub with_permissions : RefFd → Bytes → Server → Ending × Credentials → Setup
with_permissions ref rpath s (returns rv, creds) =
    if is_neg rv
    then refused (neg eperm) (record s { creds = creds })
    else ready ref rpath (record s { creds = creds })
with_permissions ref rpath s (overrun, creds) = faulted
with_permissions ref rpath s (uninitialised, creds) = faulted

-- The rest of the macro, after `apply_override`.
abbrev pub overridden : Kernel → RefFd → Bytes → Server → Option Applied → Setup
overridden k ref rpath s none = faulted
overridden k ref rpath s (some a) =
    let s' = with_disk ref a.disk (record s { cfg = a.cfg }) in
    if is_neg a.rv
    then refused (neg erange) s'
    else with_permissions ref rpath s' (set_caller_permissions k.caller s'.creds)

-- `FS_IMP_SETUP(path)`; `none` is NULL.
unfoldable pub fs_imp_setup : Kernel → Option Bytes → Server → Setup
unfolding get_ref_fd rpath_of apply_override set_caller_permissions
fs_imp_setup k none s = refused (neg einval) s
fs_imp_setup k (some path) s =
    let root : Server = record s { creds = record s.creds { euid = 0 } } in
    let ref = get_ref_fd s.cfg path in
    if not k.euid_works
    then refused (neg eperm) s
    else if not (k.is_open ref)
    then refused (neg edom) root
    else overridden k ref (rpath_of path) root
        (apply_override k.overrides (rpath_of path) path s.cfg (s.disks ref))

-- A call as the kernel sees it.
pub record Made : Type 0 where
  pub ref : RefFd
  pub rpath : Bytes
  pub call : AtCall
  pub creds : Credentials

-- What a handler returns, the calls that it made behind FS_IMP_SETUP, with a path and on a descriptor
-- that it opened, and what it leaves.
pub record Served : Type 0 where
  pub rv : ℤ
  pub made : List Made
  pub on_fd : List (FdCall × Credentials)
  pub server : Server

-- `FS_IMP_RETURN(rv)` of the result of a call.
abbrev pub returned : ℤ × ℕ → ℤ
returned (rv, errno) = fs_imp_return errno rv

-- What a handler makes of the result of its call with a path: what it returns, and the calls on the
-- descriptor.
abbrev pub Finish : Type 0
Finish = Credentials → ℤ × ℕ → ℤ × List (FdCall × Credentials)

module _ (k : Kernel) (finish : Finish) (call : AtCall) where
  -- `DISALLOW_ON_CFG(rpath)`, and the call.
  unfoldable pub pass_on : Setup → Option Served
  pass_on (refused rv s) = some (record { rv = rv; made = []; on_fd = []; server = s })
  pass_on faulted = none
  pass_on (ready ref rpath s) =
      if str_eq rpath cfg_name
      then some (record { rv = neg einval; made = []; on_fd = []; server = s })
      else some (record {
        rv = (finish s.creds (k.run ref rpath call s.creds)).0;
        made = (record { ref = ref; rpath = rpath; call = call; creds = s.creds }) ∷ [];
        on_fd = (finish s.creds (k.run ref rpath call s.creds)).1;
        server = s;
      })

-- A handler that makes one call.
unfoldable pub one_call : Kernel → AtCall → Option Bytes → Server → Option Served
unfolding fs_imp_setup pass_on fs_imp_return
one_call k call path s = pass_on k (λ creds r. (returned r, [])) call (fs_imp_setup k path s)

-- A handler that opens the file, makes a call on it, and closes it.
abbrev pub on_opened : Kernel → FdCall → Finish
on_opened k call creds (fd, errno) =
    if is_neg fd then (neg errno, []) else (returned (k.on_fd call creds), (call, creds) ∷ [])

unfoldable pub opened_call : Kernel → ℕ → FdCall → Option Bytes → Server → Option Served
unfolding fs_imp_setup pass_on fs_imp_return
opened_call k flags call path s =
    pass_on k (on_opened k call) (openat flags) (fs_imp_setup k path s)

abbrev pub o_nofollow : ℕ
o_nofollow = 131072

abbrev pub o_nonblock : ℕ
o_nonblock = 2048

abbrev pub o_rdwr : ℕ
o_rdwr = 2

abbrev pub o_directory : ℕ
o_directory = 65536
