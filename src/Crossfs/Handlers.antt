-- ===== src/Crossfs/Handlers.antt =====
-- Handlers of src/crossfs/crossfs.c: `m_readlink` and `m_open`, between FS_IMP_SETUP and
-- FS_IMP_RETURN.
pub mod Release
pub mod Admission
use bedrocklinux_userland.Base.{
  ℕ, ◌+◌, ◌%◌, Bool, true, false, not, ◌&&◌, ◌||◌, List, [], ◌∷◌, ◌++◌, Option, none, some, ℤ, pos,
  neg, length, if◌then◌else◌, ◌==◌, leb,
}
use bedrocklinux_userland.CString.{Bytes}
use bedrocklinux_userland.Strat.World.{enoent}
use bedrocklinux_userland.Etcfs.Config.{einval, enametoolong}
use bedrocklinux_userland.Etcfs.Serve.{eacces}
use bedrocklinux_userland.Crossfs.Config.{
  Filter, filter_bin, filter_bin_restrict, filter_ini, filter_font, filter_pass, CfgEntry,
}
use bedrocklinux_userland.Crossfs.Paths.{
  IpathClass, class_back, class_vdir, class_root, class_cfg, class_local, class_enoent,
  classify_ipath,
}
use bedrocklinux_userland.Crossfs.Write.{erofs}
use bedrocklinux_userland.Crossfs.Ini.{strata_dir}
use bedrocklinux_userland.Crossfs.Backs.{Attempt, Tried, first_bpath}
use bedrocklinux_userland.Crossfs.Request.{LocalStratum, Caller, Handled, Returned, serve}

abbrev pub eloop : ℕ
eloop = 40

-- `FS_IMP_RETURN(rv)`
abbrev pub reply : ℤ → Handled
reply rv = record { rv = rv; out = []; opened = []; closed = []; released = true }

-- The case CLASS_LOCAL of `m_readlink`, whose error returns at once.
unfoldable pub readlink_local : ℕ → LocalStratum → Handled
readlink_local size l =
    if leb size (length strata_dir + l.name_len)
    then record { rv = neg enametoolong; out = []; opened = []; closed = []; released = false }
    else record {
      rv = pos 0;
      out = strata_dir ++ l.name;
      opened = [];
      closed = [];
      released = true;
    }

abbrev pub readlink_class : ℕ → LocalStratum → IpathClass CfgEntry → Handled
readlink_class size l (class_back e) = reply (neg einval)
readlink_class size l (class_vdir e) = reply (neg einval)
readlink_class size l class_root = reply (neg einval)
readlink_class size l class_cfg = reply (neg einval)
readlink_class size l class_local = readlink_local size l
readlink_class size l class_enoent = reply (neg enoent)

-- `m_readlink(ipath, buf, size)`, over the entries of the configuration.
unfoldable pub m_readlink : List CfgEntry → Bytes → ℕ → Caller → Returned
unfolding readlink_local classify_ipath serve
m_readlink cfgs ipath size caller =
    serve (λ l. readlink_class size l (classify_ipath (λ e. e.cpath) cfgs ipath)) caller

abbrev pub is_bin : Filter → Bool
is_bin filter_bin = true
is_bin filter_bin_restrict = true
is_bin filter_ini = false
is_bin filter_font = false
is_bin filter_pass = false

-- The case CLASS_BACK of `m_open` after `open_first_bpath`, whose descriptor it closes; `flags % 4` is `fi->flags & 3`, and
-- O_RDONLY is 0.
unfoldable pub opened_back : CfgEntry → ℕ → Tried ℕ → Handled
opened_back e flags r = elim r.value [
  | none ↦
      if is_bin e.filter && flags % 4 == 0 && r.errno == eacces
      then reply (pos 0)
      else reply (neg r.errno)
  | some fd ↦ record {
    rv = if not (flags % 4 == 0) then neg erofs else pos 0;
    out = [];
    opened = fd ∷ [];
    closed = fd ∷ [];
    released = true;
  }
]

-- `call` is `fchroot_open` with the flags, `errno` its value before, and `uid` that of the context.
module _ (call : Option ℕ → Bytes → Attempt ℕ) (errno uid : ℕ) (ipath : Bytes) (flags : ℕ) where
  abbrev pub open_class : LocalStratum → IpathClass CfgEntry → Handled
  open_class l (class_back e) =
      opened_back e flags (first_bpath call l.root_fd e.cpath ipath e.back errno)
  open_class l (class_vdir e) = reply (pos 0)
  open_class l class_root = reply (pos 0)
  open_class l class_cfg = if not (uid == 0) then reply (neg eacces) else reply (pos 0)
  open_class l class_local = reply (neg eloop)
  open_class l class_enoent = reply (neg enoent)

  -- `m_open(ipath, fi)`
  unfoldable pub m_open : List CfgEntry → Caller → Returned
  unfolding opened_back first_bpath classify_ipath serve
  m_open cfgs caller = serve (λ l. open_class l (classify_ipath (λ e. e.cpath) cfgs ipath)) caller
