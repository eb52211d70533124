-- ===== src/Etcfs/Listing/Members.antt =====
-- Which names a directory of src/etcfs/etcfs.c lists.
use bedrocklinux_userland.Base.{◌≡◌, ◌⊎◌, Bool, true, List, Option, ◌==◌}
use bedrocklinux_userland.CString.{Bytes}
use bedrocklinux_userland.Crossfs.Paths.{char_at}
use bedrocklinux_userland.Etcfs.Config.{Config}
use bedrocklinux_userland.Etcfs.Handlers.{cfg_name}
use bedrocklinux_userland.Etcfs.Listing.{names_in}
use bedrocklinux_userland.Etcfs.Listing.Kept.{Listed, global_test, own_test}
use bedrocklinux_userland.Etcfs.Listing.Overridden.{Overridden}

-- A global file, an override, a file of the stratum that is neither, or the configuration file in the
-- root.
abbrev pub Shown :
    Bool → Config → Bytes → Option (List Bytes) → Option (List Bytes) → Bytes → Type 0
Shown is_cfg cfg path global_dir own_dir x =
    (Listed x (names_in global_dir) × (global_test cfg path x ≡ true))
    ⊎ (Overridden path x cfg.overrides
        ⊎ ((Listed x (names_in own_dir) × (own_test is_cfg cfg path x ≡ true))
            ⊎ ((char_at path 1 == 0) ≡ true) × (cfg_name ≡ x)))
