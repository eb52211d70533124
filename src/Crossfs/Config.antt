-- ===== src/Crossfs/Config.antt =====
-- The configuration of src/crossfs/crossfs.c, its text (`cfg_read`) and its removal (`cfg_clear`).
use bedrocklinux_userland.Base.{
  ℕ, ◌==◌, Bool, List, [], ◌∷◌, ◌++◌, Option, none, some, length, take, drop, if◌then◌else◌, ltb,
}
use bedrocklinux_userland.CString.{Bytes, codes}

-- `enum filter`
pub data Filter : Type 0 where
  filter_bin filter_bin_restrict filter_ini filter_font filter_pass : Filter

abbrev pub filter_str : Filter → Bytes
filter_str filter_bin = codes "bin"
filter_str filter_bin_restrict = codes "bin-restrict"
filter_str filter_ini = codes "ini"
filter_str filter_font = codes "font"
filter_str filter_pass = codes "pass"

-- `struct back_entry`, with the fields `name` and `root_fd` of its `alias`. `none` is -1.
pub record BackEntry : Type 0 where
  pub lpath : Bytes
  pub name : Bytes
  pub root_fd : Option ℕ
  pub local : Bool

-- `struct cfg_entry`; `back_cnt` is the length of `back`.
pub record CfgEntry : Type 0 where
  pub filter : Filter
  pub cpath : Bytes
  pub back : List BackEntry
  pub back_alloc : ℕ

-- `cfgs`, of length `cfg_cnt`, and the size in `cfg_stat`.
pub record Cfgs : Type 0 where
  pub entries : List CfgEntry
  pub cfg_alloc : ℕ
  pub st_size : ℕ

-- The line for a back of an entry.
abbrev pub back_line : CfgEntry → BackEntry → Bytes
back_line e b =
    filter_str e.filter
    ++ (codes " " ++ (e.cpath ++ (codes " " ++ (b.name ++ (codes ":" ++ (b.lpath ++ codes "\n"))))))

unfoldable pub back_lines : CfgEntry → List BackEntry → Bytes
back_lines e [] = []
back_lines e (b ∷ bs) = back_line e b ++ back_lines e bs

unfoldable pub entry_lines : List CfgEntry → Bytes
unfolding back_lines
entry_lines [] = []
entry_lines (e ∷ es) = back_lines e e.back ++ entry_lines es

-- `cfg_read(buf, size, offset)`: what it copies; `none` is an access to bytes of `str`, which has
-- `st_size + 1`, that are not there or were never set. `malloc` is taken not to fail.
unfoldable pub cfg_read : Cfgs → ℕ → ℕ → Option Bytes
unfolding entry_lines
cfg_read c size offset =
    let text = entry_lines c.entries in
    if length c.entries == 0
    then some []
    else if ltb c.st_size (length text)
    then none
    else if ltb (length text) offset
    then none
    else some (take size (drop offset text))

-- The descriptors that `cfg_clear` closes.
unfoldable pub closed_backs : List BackEntry → List (Option ℕ)
closed_backs [] = []
closed_backs (b ∷ bs) = if b.local then closed_backs bs else b.root_fd ∷ closed_backs bs

unfoldable pub closed_entries : List CfgEntry → List (Option ℕ)
unfolding closed_backs
closed_entries [] = []
closed_entries (e ∷ es) = closed_backs e.back ++ closed_entries es

-- `cfg_clear()`: the descriptors closed, in their order, and the configuration left.
unfoldable pub cfg_clear : Cfgs → List (Option ℕ) × Cfgs
unfolding closed_entries
cfg_clear c = (closed_entries c.entries, record { entries = []; cfg_alloc = 0; st_size = 0 })
