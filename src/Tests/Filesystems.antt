-- ===== src/Tests/Filesystems.antt =====
-- Configurations and paths of src/etcfs/etcfs.c and src/crossfs/crossfs.c.
use bedrocklinux_userland.Base.{
  ℕ, ◌≢◌, negsuc, ◌≡◌, ◌⊎◌, ◌↔◌, refl, true, List, [], ◌∷◌, none, some, arith, take, drop,
}
use bedrocklinux_userland.CString.{Bytes, codes}
use bedrocklinux_userland.Etcfs.Config.{Config, symlink}
use bedrocklinux_userland.Etcfs.Commands.{Calls}
use bedrocklinux_userland.Etcfs.Invariant.{IsValid}
use bedrocklinux_userland.Etcfs.Printed.{cfg_read, cfg_read-IsValid, copied, config_text}
use bedrocklinux_userland.Etcfs.Serve.{write_config, write_config-IsValid}
use bedrocklinux_userland.Etcfs.Caller.{Caller, Credentials, set_caller_permissions}
use bedrocklinux_userland.Etcfs.Caller.Adoption.{Adopts, set_caller_permissions-Adopts}
use bedrocklinux_userland.Crossfs.Paths.{is_equal_or_parent, classify_ipath}
use bedrocklinux_userland.Crossfs.Paths.Laws.{Under, is_equal_or_parent_iff}
use bedrocklinux_userland.Crossfs.Paths.Classes.{Classified, classify_ipath-Classified}

abbrev config : Config
config = record {
  globals = codes "pam.d/su" ∷ [];
  global_alloc = 2;
  overrides =
      (record {
        path = codes "mtab";
        otype = symlink;
        content = codes "/proc/mounts";
        injected = none;
        last_override = 0;
      })
      ∷ [];
  override_alloc = 1;
  st_size = 51;
}

config-IsValid : IsValid config
config-IsValid = record {
  globals_unique = λ y. ground arith;
  overrides_unique = λ y. ground arith;
  global_room = omega arith;
  override_room = omega arith;
  size_exact = refl;
}

abbrev calls : Calls
calls = record {
  realloc_works = true;
  malloc_works = true;
  second_malloc_works = true;
  file_content = λ p. some (codes "session");
}

write_config-IsValid_example :
    IsValid (write_config 0 1000 calls (codes "rm_global pam.d/su\n") config).cfg
    × (◌≢◌ {A = ℕ} 1000 0
        → ((write_config 0 1000 calls (codes "rm_global pam.d/su\n") config).rv ≡ negsuc 12)
          × ((write_config 0 1000 calls (codes "rm_global pam.d/su\n") config).cfg ≡ config))
write_config-IsValid_example =
    write_config-IsValid 0 1000 calls (codes "rm_global pam.d/su\n") config config-IsValid

abbrev root_thread : Credentials
root_thread = record { groups = []; egid = 0; euid = 0 }

abbrev caller : List ℕ → Caller
caller gs = record {
  groups_of = some gs;
  groups_again = none;
  malloc_works = true;
  gid = 1000;
  uid = 1000;
  setgroups_fails = λ g. none;
  setregid_fails = λ g. none;
  setreuid_fails = λ g. none;
}

set_caller_permissions-Adopts_example :
    Adopts
      (caller (10 ∷ 27 ∷ []))
      (10 ∷ 27 ∷ [])
      root_thread
      (set_caller_permissions (caller (10 ∷ 27 ∷ [])) root_thread)
set_caller_permissions-Adopts_example =
    set_caller_permissions-Adopts (caller (10 ∷ 27 ∷ [])) root_thread (omega arith)

cfg_read-IsValid_example :
    cfg_read config 4096 14 ≡ copied (take 4096 (drop 14 (config_text config)))
cfg_read-IsValid_example =
    cfg_read-IsValid config 4096 14 config-IsValid (omega arith) (omega arith)

is_equal_or_parent_iff_example :
    (is_equal_or_parent (codes "/proc") (codes "/proc/1") ≡ true)
    ↔ ((codes "/proc/1" ≡ codes "/proc") ⊎ Under (codes "/proc") (codes "/proc/1"))
is_equal_or_parent_iff_example = is_equal_or_parent_iff (codes "/proc") (codes "/proc/1") (
  omega arith,
  (omega arith, (omega arith, (omega arith, (omega arith, (omega arith, (omega arith, tt)))))),
)

classify_ipath-Classified_example :
    Classified
      (λ (p : Bytes). p)
      (codes "/pin/bin" ∷ codes "/bin" ∷ [])
      (codes "/pin")
      (classify_ipath (λ (p : Bytes). p) (codes "/pin/bin" ∷ codes "/bin" ∷ []) (codes "/pin"))
classify_ipath-Classified_example =
    classify_ipath-Classified (λ (p : Bytes). p) (codes "/pin/bin" ∷ codes "/bin" ∷ [])
      (codes "/pin") (omega arith, (omega arith, (omega arith, (omega arith, tt))))
