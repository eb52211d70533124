-- ===== src/Etcfs/Handlers/Passed.antt =====
-- On whose behalf the handlers of src/etcfs/etcfs.c call the kernel, and where.
use mathlib.Core.Option.{some-injective}
use Prim.Native.Nat.{bit_or}
use bedrocklinux_userland.Base.{
  ℕ, ◌≤◌, ◌≡◌, ◌≢◌, inl, inr, refl, sym, ap, ◌∙◌, subst, true, false, List, [], ◌∷◌, Option, none,
  some, length, ◌+◌, neg, is_neg, Bool-cases, zero, suc,
}
use bedrocklinux_userland.CString.{Bytes, str_eq}
use bedrocklinux_userland.CString.Laws.{str_eq_refl}
use bedrocklinux_userland.Etcfs.Config.{get_ref_fd}
use bedrocklinux_userland.Etcfs.Caller.{
  Credentials, Caller, Ending, returns, set_caller_permissions,
}
use bedrocklinux_userland.Etcfs.Caller.Adoption.{groups_found, set_caller_permissions-Adopts}
use bedrocklinux_userland.Etcfs.Overrides.{Applied}
use bedrocklinux_userland.Etcfs.Handlers.{
  create, readlinkat, fdopendir, lsetxattr, llistxattr, lremovexattr, o_directory, cfg_name, Server,
  AtCall, Kernel, Setup, refused, faulted, ready, rpath_of, with_disk, with_permissions, overridden,
  fs_imp_setup, Served, pass_on, ftruncate, fstatvfs, fallocate, one_call, opened_call, faccessat,
  mknodat, mkdirat, symlinkat, unlinkat, fchmodat, fchownat, utimensat, openat, o_nonblock, o_rdwr,
  o_nofollow,
}
use bedrocklinux_userland.Etcfs.Overrides.Touched.{Touched, apply_override-Touched}
use bedrocklinux_userland.Etcfs.Handlers.Finished.{
  EndingBy, as_is, zero_rv, within, then_do, Finished, finish_by, finish_by-Finished,
}
use bedrocklinux_userland.Etcfs.Handlers.Requests.{
  m_create, new_file, m_readlink, readlink, opendir, setxattr, listxattr, removexattr, Request,
  access, mkdir, chmod, truncate, mknod, chown, utimens, make_symlink, unlink, rmdir, statfs,
  allocate, handler,
}

-- The caller's credentials.
abbrev pub adopted : Caller → Credentials
adopted k = record { groups = groups_found k.groups_of; egid = k.gid; euid = k.uid }

-- What FS_IMP_SETUP hands to the handler.
abbrev pub SetupEnds : Kernel → Bytes → Server → Setup → Type 0
SetupEnds k path s (refused rv s') = (is_neg rv ≡ true) × Touched s.cfg s'.cfg
SetupEnds k path s faulted = Unit
SetupEnds k path s (ready ref rpath s') =
    (ref ≡ get_ref_fd s.cfg path)
    × (rpath ≡ rpath_of path)
    × (s'.creds ≡ adopted k.caller)
    × Touched s.cfg s'.cfg

-- A system call that fails leaves an `errno` that is not 0.
pub record SetsErrno (k : Caller) : Type 0 where
  pub setgroups : (gs : List ℕ) (e : ℕ) → k.setgroups_fails gs ≡ some e → e ≢ 0
  pub setregid : (g e : ℕ) → k.setregid_fails g ≡ some e → e ≢ 0
  pub setreuid : (u e : ℕ) → k.setreuid_fails u ≡ some e → e ≢ 0

-- A request was refused before any call was made for it; or one call with a path was made, with the
-- caller's credentials, at the descriptor and the path of the request, which is not the configuration,
-- and the request was finished. Of the configuration, only the time in one override changed.
pub data Passes (k : Kernel) (path : Bytes) (s : Server) (call : AtCall) (how : EndingBy)
    (v : Served) : Type 0 where
  quiet :
      v.made ≡ []
      → v.on_fd ≡ []
      → is_neg v.rv ≡ true
      → Touched s.cfg v.server.cfg
      → Passes k path s call how v
  passed :
      v.made
        ≡ (record {
          ref = get_ref_fd s.cfg path;
          rpath = rpath_of path;
          call = call;
          creds = adopted k.caller;
        })
          ∷ []
      → rpath_of path ≢ cfg_name
      → Finished k
          (adopted k.caller)
          how
          (k.run (get_ref_fd s.cfg path) (rpath_of path) call (adopted k.caller))
          (v.rv, v.on_fd)
      → Touched s.cfg v.server.cfg
      → Passes k path s call how v

neg_nonzero : (e : ℕ) → e ≢ 0 → is_neg (neg e) ≡ true
neg_nonzero zero h = absurd (h refl)
neg_nonzero (suc e) h = refl

contra : true ≡ false → ⊥
contra h = cc

module _ (k : Kernel) (path : Bytes) (s : Server)
    (few : length (groups_found k.caller.groups_of) ≤ 64) (errnos : SetsErrno k.caller) where
  failed-Ends :
      (s' : Server) (e : ℕ) (r : Ending × Credentials)
      → r.0 ≡ returns (neg e)
      → e ≢ 0
      → Touched s.cfg s'.cfg
      → SetupEnds k path s (with_permissions (get_ref_fd s.cfg path) (rpath_of path) s' r)
  failed-Ends s' e (ending, c) h n touched =
      subst
        (λ q.
          SetupEnds k path s (with_permissions (get_ref_fd s.cfg path) (rpath_of path) s' (q, c)))
        (sym h) (rw (neg_nonzero e n) (refl, touched))

  permissions-Ends :
      (s' : Server)
      → Touched s.cfg s'.cfg
      → SetupEnds k path s (
          with_permissions
            (get_ref_fd s.cfg path)
            (rpath_of path)
            s'
            (set_caller_permissions k.caller s'.creds))
  permissions-Ends s' touched = elim (set_caller_permissions-Adopts k.caller s'.creds few) [
    | inl all ↦
        subst
          (λ q. SetupEnds k path s (with_permissions (get_ref_fd s.cfg path) (rpath_of path) s' q))
          (sym all) (refl, refl, refl, touched)
    | inr (e, why, rv, _) ↦
        failed-Ends s' e (set_caller_permissions k.caller s'.creds) rv
          (elim why [
            | inl g ↦ errnos.setgroups _ e g
            | inr (inl g) ↦ errnos.setregid _ e g
            | inr (inr u) ↦ errnos.setreuid _ e u
          ])
          touched
  ]

  overridden-Ends :
      (s' : Server) (o : Option Applied)
      → ((a : Applied) → o ≡ some a → Touched s.cfg a.cfg)
      → SetupEnds k path s (overridden k (get_ref_fd s.cfg path) (rpath_of path) s' o)
  overridden-Ends s' none touched = tt
  overridden-Ends s' (some a) touched = elim (Bool-cases (is_neg a.rv)) [
    | inl t ↦ rw t (refl, touched a refl)
    | inr f ↦ rw f (
        permissions-Ends (with_disk (get_ref_fd s.cfg path) a.disk (record s' { cfg = a.cfg }))
          (touched a refl))
  ]

  pub setup-Ends : SetupEnds k path s (fs_imp_setup k (some path) s)
  unfolding fs_imp_setup
  setup-Ends = elim (Bool-cases k.euid_works) [
    | inr f ↦ rw f (refl, inl refl)
    | inl t ↦ elim (Bool-cases (k.is_open (get_ref_fd s.cfg path))) [
      | inr c ↦ rw (t, c) (refl, inl refl)
      | inl o ↦
          rw (t, o)
            (overridden-Ends (record s { creds = record s.creds { euid = 0 } }) _
              (apply_override-Touched k.overrides (rpath_of path) path s.cfg
                (s.disks (get_ref_fd s.cfg path))))
    ]
  ]

  pass_on-Passes :
      (how : EndingBy) (call : AtCall) (v : Served) (w : Setup)
      → SetupEnds k path s w
      → pass_on k (finish_by k how) call w ≡ some v
      → Passes k path s call how v
  unfolding pass_on
  pass_on-Passes how call v (refused rv s') (negative, touched) h =
      subst (Passes k path s call how) (some-injective _ v h) (quiet refl refl negative touched)
  pass_on-Passes how call v faulted ends h = cc
  pass_on-Passes how call v (ready ref rpath s') (r, p, c, touched) h =
      elim (Bool-cases (str_eq rpath cfg_name)) [
        | inl t ↦
            subst (Passes k path s call how) (some-injective _ v (rw t at h))
              (quiet refl refl refl touched)
        | inr f ↦ subst (Passes k path s call how) (some-injective _ v (rw f at h)) (
            passed (rw (r, p, c) refl)
              (λ e. contra (sym (ap (λ q. str_eq q cfg_name) (p ∙ e) ∙ str_eq_refl cfg_name) ∙ f))
              (rw (sym r, sym p, sym c)
                (finish_by-Finished k how s'.creds (k.run ref rpath call s'.creds)))
              touched)
      ]

-- The call that a request asks for.
abbrev pub call_of : Request → AtCall
call_of (access mask) = faccessat mask
call_of (mkdir mode) = mkdirat mode
call_of (chmod mode) = fchmodat mode
call_of (truncate size) = openat (o_nonblock + o_rdwr + o_nofollow)
call_of (mknod mode rdev) = mknodat mode rdev
call_of (chown uid gid) = fchownat uid gid
call_of (utimens access_time modified) = utimensat access_time modified
call_of (make_symlink target) = symlinkat target
call_of unlink = unlinkat false
call_of rmdir = unlinkat true
call_of statfs = openat (o_nonblock + o_nofollow)
call_of (allocate mode offset len) = openat (o_nonblock + o_rdwr + o_nofollow)
call_of (readlink size) = readlinkat size
call_of (new_file flags mode) = create (bit_or o_nonblock flags) mode
call_of opendir = openat (o_nonblock + o_directory + o_nofollow)
call_of (setxattr name value size flags) = openat (o_nonblock + o_nofollow)
call_of (listxattr size) = openat (o_nonblock + o_nofollow)
call_of (removexattr name) = openat (o_nonblock + o_rdwr + o_nofollow)

-- How the request is finished behind it.
abbrev pub how_of : Request → EndingBy
how_of (access mask) = as_is
how_of (mkdir mode) = as_is
how_of (chmod mode) = as_is
how_of (truncate size) = then_do (ftruncate size)
how_of (mknod mode rdev) = as_is
how_of (chown uid gid) = as_is
how_of (utimens access_time modified) = as_is
how_of (make_symlink target) = as_is
how_of unlink = as_is
how_of rmdir = as_is
how_of statfs = then_do fstatvfs
how_of (allocate mode offset len) = then_do (fallocate mode offset len)
how_of (readlink size) = within size
how_of (new_file flags mode) = zero_rv
how_of opendir = then_do fdopendir
how_of (setxattr name value size flags) = then_do (lsetxattr name value size flags)
how_of (listxattr size) = then_do (llistxattr size)
how_of (removexattr name) = then_do (lremovexattr name)

handler_lem :
    (req : Request) (k : Kernel) (path : Bytes) (s : Server)
    → handler req k (some path) s
      ≡ pass_on k (finish_by k (how_of req)) (call_of req) (fs_imp_setup k (some path) s)
unfolding one_call opened_call m_readlink m_create
handler_lem (access mask) k path s = refl
handler_lem (mkdir mode) k path s = refl
handler_lem (chmod mode) k path s = refl
handler_lem (truncate size) k path s = refl
handler_lem (mknod mode rdev) k path s = refl
handler_lem (chown uid gid) k path s = refl
handler_lem (utimens access_time modified) k path s = refl
handler_lem (make_symlink target) k path s = refl
handler_lem unlink k path s = refl
handler_lem rmdir k path s = refl
handler_lem statfs k path s = refl
handler_lem (allocate mode offset len) k path s = refl
handler_lem (readlink size) k path s = refl
handler_lem (new_file flags mode) k path s = refl
handler_lem opendir k path s = refl
handler_lem (setxattr name value size flags) k path s = refl
handler_lem (listxattr size) k path s = refl
handler_lem (removexattr name) k path s = refl

-- For a caller of at most 64 groups, or whose groups cannot be read, and where failing calls set
-- `errno`: whatever the request, behind FS_IMP_SETUP its handler makes no call and fails, or makes the
-- one call with a path that was asked for, with the caller's credentials, at the descriptor that is
-- right for the path, which is not the configuration's. It returns `errno` negated where that call
-- fails; else it makes the call on the opened descriptor that was asked for, as the caller, and
-- returns its result. Of the configuration only the time in one override changes. The calls of
-- `apply_override` in FS_IMP_SETUP are not among those calls.
pub handler-Passes :
    (req : Request) (k : Kernel) (path : Bytes) (s : Server) (v : Served)
    → length (groups_found k.caller.groups_of) ≤ 64
    → SetsErrno k.caller
    → handler req k (some path) s ≡ some v
    → Passes k path s (call_of req) (how_of req) v
handler-Passes req k path s v few errnos h =
    pass_on-Passes k path s few errnos (how_of req) (call_of req) v (fs_imp_setup k (some path) s)
      (setup-Ends k path s few errnos) (sym (handler_lem req k path s) ∙ h)
