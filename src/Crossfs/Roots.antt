-- ===== src/Crossfs/Roots.antt =====
-- Calls at the root of a stratum in src/crossfs/crossfs.c: `fchroot_open`, `fchroot_stat`,
-- `fchroot_file_exists` and `fchroot_fopen_rdonly`, and the descriptor of the caller's stratum that
-- a request holds.
pub mod Reuse
use Prim.Native.Nat.{bit_and, bit_or}
use bedrocklinux_userland.Base.{
  ℕ, Bool, true, false, not, Option, none, some, if◌then◌else◌, ◌==◌, ◌-◌,
}
use bedrocklinux_userland.CString.{Bytes}
use bedrocklinux_userland.Strat.World.{enoent}
use bedrocklinux_userland.Etcfs.Config.{einval}
use bedrocklinux_userland.Crossfs.Backs.{Attempt, found, failed}

-- The process: the directory at its root, `current_root_fd`, and the directories behind its
-- descriptors.
pub record Process : Type 0 where
  pub root : ℕ
  pub current_root_fd : ℕ
  pub table : ℕ → Option ℕ

-- `may_chroot` tells whether `fchdir` to a directory and `chroot(".")` succeed there.
module _ (may_chroot : ℕ → Bool) where
  -- `current_root_fd == root_fd || (fchdir(root_fd) >= 0 && chroot(".") >= 0)`, and the assignment
  -- behind it.
  unfoldable pub enter_root : ℕ → Process → Option Process
  enter_root root_fd p = if p.current_root_fd == root_fd then some p else elim (p.table root_fd) [
    | none ↦ none
    | some d ↦
        if may_chroot d then some (record p { root = d; current_root_fd = root_fd }) else none
  ]

  -- A call under `root_lock`: `run` is `open`, `stat` or `fopen` in a process with a root, and
  -- `fail_rv` the `rv` of the declaration.
  unfoldable pub fchroot {ℓ} : {A : Type ℓ} → (ℕ → A) → A → ℕ → Process → A × Process
  unfolding enter_root
  fchroot run fail_rv root_fd p = elim (enter_root root_fd p) [
    | none ↦ (fail_rv, p)
    | some q ↦ (run q.root, q)
  ]

-- A call of `openat2` with the descriptor of a root: the kernel takes the directory from it, and no
-- root is entered. `fail_rv` is that of a descriptor that is not open.
unfoldable pub fchroot_openat2 {ℓ} : {A : Type ℓ} → (ℕ → A) → A → ℕ → Process → A × Process
fchroot_openat2 run fail_rv root_fd p = elim (p.table root_fd) [
  | none ↦ (fail_rv, p)
  | some d ↦ (run d, p)
]

-- The calls in a process whose root is a directory; `openat2` at a directory with RESOLVE_IN_ROOT; and
-- the calls on a descriptor.
pub record Kernel (S : Type 0) : Type 0 where
  pub open_file : ℕ → Bytes → ℕ → Attempt ℕ
  pub openat2_in_root : ℕ → Bytes → ℕ → Attempt ℕ
  pub stat : ℕ → Bytes → Attempt S
  pub fstat : ℕ → Attempt S
  pub fopen : ℕ → Bytes → Option ℕ
  pub fdopen : ℕ → Option ℕ

abbrev pub ebadf : ℕ
ebadf = 9

abbrev pub o_nonblock : ℕ
o_nonblock = 2048

abbrev pub o_path : ℕ
o_path = 2097152

abbrev pub o_rdonly : ℕ
o_rdonly = 0

abbrev pub is_found {ℓ} : {A : Type ℓ} → Attempt A → Bool
is_found (found a) = true
is_found (failed e) = false

-- `fd >= 0 || errno != ENOENT`
abbrev pub may_exist {ℓ} : {A : Type ℓ} → Attempt A → Bool
may_exist (found a) = true
may_exist (failed e) = not (e == enoent)

module _ {S : Type 0} (k : Kernel S) (openat2_available : Bool) (may_chroot : ℕ → Bool) where
  -- `flags & ~(040)`; the mode is 0.
  unfoldable pub openat2_fchroot_open : ℕ → Bytes → ℕ → Attempt ℕ
  openat2_fchroot_open d path flags = k.openat2_in_root d path (flags - bit_and flags 32)

  -- A negative `rv` without a call is `failed` too; its callers look at `errno`, which is that of the
  -- call before, `errno`.
  unfoldable pub fchroot_open : ℕ → ℕ → Bytes → ℕ → Process → Attempt ℕ × Process
  unfolding fchroot fchroot_openat2 openat2_fchroot_open
  fchroot_open errno root_fd bpath flags p =
      if openat2_available
      then fchroot_openat2 (λ d. openat2_fchroot_open d bpath (bit_or o_nonblock flags))
          (failed ebadf) root_fd p
      else fchroot may_chroot (λ d. k.open_file d bpath (bit_or o_nonblock flags)) (failed errno)
          root_fd p

  abbrev pub fstat_found : Attempt ℕ → Attempt S
  fstat_found (failed e) = failed e
  fstat_found (found fd) = k.fstat fd

  unfoldable pub fchroot_stat : ℕ → ℕ → Bytes → Process → Attempt S × Process
  unfolding fchroot fchroot_openat2 openat2_fchroot_open
  fchroot_stat errno root_fd bpath p =
      if openat2_available
      then fchroot_openat2
          (λ d. fstat_found (openat2_fchroot_open d bpath (bit_or o_rdonly o_path))) (failed ebadf)
          root_fd p
      else fchroot may_chroot (λ d. k.stat d bpath) (failed errno) root_fd p

  -- Whether the result is not 0; -EINVAL, where no root is entered, is not.
  unfoldable pub fchroot_file_exists : ℕ → Bytes → Process → Bool × Process
  unfolding fchroot fchroot_openat2 openat2_fchroot_open
  fchroot_file_exists root_fd bpath p =
      if openat2_available
      then fchroot_openat2 (λ d. may_exist (openat2_fchroot_open d bpath o_path)) true root_fd p
      else fchroot may_chroot (λ d. is_found (k.stat d bpath)) true root_fd p

  abbrev pub fdopen_found : Attempt ℕ → Option ℕ
  fdopen_found (failed e) = none
  fdopen_found (found fd) = k.fdopen fd

  unfoldable pub fchroot_fopen_rdonly : ℕ → Bytes → Process → Option ℕ × Process
  unfolding fchroot fchroot_openat2 openat2_fchroot_open
  fchroot_fopen_rdonly root_fd bpath p =
      if openat2_available
      then fchroot_openat2 (λ d. fdopen_found (openat2_fchroot_open d bpath o_rdonly)) none root_fd
          p
      else fchroot may_chroot (λ d. k.fopen d bpath) none root_fd p

-- `open` of a directory that yields a descriptor, and `close`.
unfoldable pub open_fd : ℕ → ℕ → Process → Process
open_fd fd d p = record p { table = λ n. if n == fd then some d else p.table n }

unfoldable pub close_fd : ℕ → Process → Process
close_fd fd p = record p { table = λ n. if n == fd then none else p.table n }

-- A request of a process whose stratum is at `d`: FS_IMP_SETUP opens that as `fd`, a call is made for
-- a back of the local alias, and FS_IMP_RETURN closes `fd`.
unfoldable pub local_request {ℓ} :
    {A : Type ℓ} → (ℕ → Bool) → (ℕ → A) → A → ℕ → ℕ → Process → A × Process
unfolding open_fd close_fd fchroot
local_request may_chroot run fail_rv fd d p =
    let (a, q) = fchroot may_chroot run fail_rv fd (open_fd fd d p) in (a, close_fd fd q)
