-- ===== src/Tests/Requests.antt =====
-- Requests to src/etcfs/etcfs.c.
use bedrocklinux_userland.Base.{
  ◌≤◌, ◌<◌, subst, sym, All, ◌≡◌, refl, true, [], ◌∷◌, none, some, length, arith, pos,
}
use bedrocklinux_userland.CString.{Bytes, codes, str_eq}
use bedrocklinux_userland.CString.Laws.{str_eq_refl}
use bedrocklinux_userland.Etcfs.Config.{local_ref, symlink, Override, Config, find_index}
use bedrocklinux_userland.Etcfs.Files.{link, Disk}
use bedrocklinux_userland.Etcfs.Inject.{Calls as InjectCalls}
use bedrocklinux_userland.Etcfs.Overrides.{Calls as OverrideCalls, apply_override, is_for}
use bedrocklinux_userland.Crossfs.Paths.{char_at}
use bedrocklinux_userland.Etcfs.Config.{get_ref_fd, is_global}
use bedrocklinux_userland.Etcfs.Serve.{fs_imp_return}
use bedrocklinux_userland.Etcfs.Caller.{Caller, set_caller_permissions, set_groups, set_ids}
use bedrocklinux_userland.Etcfs.Handlers.{
  Server, Kernel, Served, mkdirat, rpath_of, fs_imp_setup, pass_on, one_call,
}
use bedrocklinux_userland.Etcfs.Handlers.Requests.{mkdir, handler}
use bedrocklinux_userland.Etcfs.Handlers.Finished.{as_is}
use bedrocklinux_userland.Etcfs.Handlers.Passed.{SetsErrno, Passes, handler-Passes}
use bedrocklinux_userland.Etcfs.Overrides.Enforced.{
  Ends, Sound as SoundOverride, apply_override-Enforced,
}
use bedrocklinux_userland.Etcfs.Handlers.{cfg_name}
use bedrocklinux_userland.Etcfs.Serve.{read_config}
use bedrocklinux_userland.Etcfs.Own.{
  read_at, serve_own, own, call_of, finish, handler as own_handler,
}
use bedrocklinux_userland.Etcfs.Own.Guarded.{Serves, handler-Serves}
use bedrocklinux_userland.Etcfs.Xattr.{Calls as XattrCalls, opened, past, stratum_xattr, m_getxattr}
use bedrocklinux_userland.Etcfs.Xattr.Sized.{Ends as Answers, text_of, m_getxattr-Ends}

abbrev inject_calls : InjectCalls
inject_calls = record {
  open_works = true;
  fstat = some 2;
  search_reads = some (codes "ab") ∷ [];
  unlink_works = true;
  create_works = true;
  lseek_works = true;
  copies = some (codes "ab", some 2) ∷ [];
  append = some 2;
  rename_works = true;
  cleaned = true;
}

abbrev config : Config
config = record {
  globals = codes "/passwd" ∷ [];
  global_alloc = 1;
  overrides =
      (record {
        path = codes "/mtab";
        otype = symlink;
        content = codes "/proc/mounts";
        injected = none;
        last_override = 0;
      })
      ∷ [];
  override_alloc = 1;
  st_size = 0;
}

abbrev xattr_calls : XattrCalls
xattr_calls = record {
  mntpt = codes "/etc";
  local_name = codes "void";
  open_file = opened (codes "7");
  lgetxattr = λ p n s. past;
}

m_getxattr-Ends_example :
    Answers
      (text_of xattr_calls local_ref (codes "/hosts") stratum_xattr (codes "hosts"))
      (λ size. m_getxattr xattr_calls local_ref (codes "/hosts") stratum_xattr size (codes "hosts"))
m_getxattr-Ends_example =
    m_getxattr-Ends xattr_calls local_ref (codes "/hosts") stratum_xattr (codes "hosts")
      (rw (str_eq_refl stratum_xattr) refl)

abbrev override_calls : OverrideCalls
override_calls = record {
  stat_works = true;
  behind = 0 ∷ [];
  now = 100;
  unlink_removes = true;
  make_works = true;
  inject_calls = inject_calls;
}

abbrev old_link : Disk
old_link p = some (link (codes "/old"))

abbrev mtab : Override
mtab = record {
  path = codes "/mtab";
  otype = symlink;
  content = codes "/proc/mounts";
  injected = none;
  last_override = 0;
}

old_bytes : (t : Bytes) → some (link (codes "/old")) ≡ some (link t) → t ≡ codes "/old"
old_bytes t h = cc

mtab_found : find_index (is_for (codes "/mtab")) config.overrides ≡ some 0
unfolding find_index
mtab_found = rw (str_eq_refl (codes "/mtab")) refl

mtab-Sound : SoundOverride symlink override_calls (codes "mtab") mtab old_link
mtab-Sound = (
  λ t h.
      subst (λ b. All (λ x. 0 < x) b × (length b ≤ 4095)) (sym (old_bytes t h))
        ((omega arith, (omega arith, (omega arith, (omega arith, tt)))), omega arith),
  ([], refl),
)

apply_override-Enforced_example :
    Ends symlink
      (codes "mtab")
      (codes "mtab-bedrock-backup")
      override_calls
      mtab
      old_link
      (apply_override override_calls (codes "mtab") (codes "/mtab") config old_link)
apply_override-Enforced_example =
    apply_override-Enforced override_calls (codes "/mtab") (codes "mtab") config old_link 0 mtab
      mtab_found refl mtab-Sound

abbrev caller : Caller
caller = record {
  groups_of = some (10 ∷ []);
  groups_again = none;
  malloc_works = true;
  gid = 1000;
  uid = 1000;
  setgroups_fails = λ g. none;
  setregid_fails = λ g. none;
  setreuid_fails = λ g. none;
}

abbrev kernel : Kernel
kernel = record {
  euid_works = true;
  is_open = λ r. true;
  overrides = override_calls;
  caller = caller;
  run = λ ref rpath call creds. (pos 0, 0);
  on_fd = λ call creds. (pos 0, 0);
}

abbrev server : Server
server = record {
  cfg = config;
  disks = λ r. old_link;
  creds = record { groups = []; egid = 0; euid = 0 };
}

caller-SetsErrno : SetsErrno caller
caller-SetsErrno = record {
  setgroups = λ gs e h. cc;
  setregid = λ g e h. cc;
  setreuid = λ u e h. cc;
}

mkdir_run : (v : Served) × (handler (mkdir 493) kernel (some (codes "/hosts")) server ≡ some v)
unfolding one_call pass_on fs_imp_setup fs_imp_return get_ref_fd is_global rpath_of char_at
    apply_override find_index set_caller_permissions set_groups set_ids str_eq
mkdir_run = (_, refl)

handler-Passes_example : Passes kernel (codes "/hosts") server (mkdirat 493) as_is mkdir_run.0
handler-Passes_example =
    handler-Passes (mkdir 493) kernel (codes "/hosts") server mkdir_run.0 (omega arith)
      caller-SetsErrno mkdir_run.1

-- The file of the configuration, for a caller who is not root.
abbrev cfg_path : Bytes
cfg_path = b'/' ∷ cfg_name

read_run : (v : Served) × (own_handler (read_at 10 0) kernel (some cfg_path) server ≡ some v)
unfolding own_handler serve_own own read_config call_of finish fs_imp_setup get_ref_fd is_global
    rpath_of char_at apply_override find_index set_caller_permissions set_groups set_ids str_eq
read_run = (_, refl)

handler-Serves_example : Serves kernel cfg_path server (read_at 10 0) read_run.0
handler-Serves_example =
    handler-Serves (read_at 10 0) kernel cfg_path server read_run.0 (omega arith) caller-SetsErrno
      read_run.1
