-- ===== src/Crossfs/Paths.antt =====
-- Paths and their classes: `is_parent`, `is_equal_or_parent`, `pstrcmp`, `classify_ipath` and
-- `calc_bpath` of src/crossfs/crossfs.c.
pub mod Laws
pub mod Classes
use bedrocklinux_userland.Base.{
  ℕ, zero, suc, ◌+◌, ◌-◌, Bool, false, not, ◌&&◌, List, [], ◌∷◌, ◌++◌, Option, none, some, length,
  take, drop, if◌then◌else◌, ◌==◌, ltb, leb,
}
use bedrocklinux_userland.CString.{Bytes, codes, str_eq}

abbrev pub path_max : ℕ
path_max = 4096

-- `s[i]`: 0 is the NUL behind the last byte, and nothing is read further on.
unfoldable pub char_at : Bytes → ℕ → ℕ
char_at [] i = 0
char_at (x ∷ s) zero = x
char_at (x ∷ s) (suc i) = char_at s i

-- `memcmp(b, a, a_len) == 0`, where `a_len` is the length of `a` and at most that of `b`.
abbrev pub same_bytes : Bytes → Bytes → Bool
same_bytes b a = str_eq (take (length a) b) a

unfoldable pub is_parent : Bytes → Bytes → Bool
unfolding char_at
is_parent a b =
    if leb (length b) (length a)
    then false
    else if not (char_at b (length a) == b'/')
    then false
    else same_bytes b a

unfoldable pub is_equal_or_parent : Bytes → Bytes → Bool
unfolding char_at
is_equal_or_parent a b =
    if ltb (length b) (length a)
    then false
    else if not (char_at b (length a) == 0) && not (char_at b (length a) == b'/')
    then false
    else same_bytes b a

-- `pstrcmp(a, b) == 0`
unfoldable pub same_path : Bytes → Bytes → Bool
same_path a b = if not (length a == length b) then false else same_bytes a b

-- `enum ipath_class`, with the entry that `*cfg` is set to.
pub data IpathClass (A : Type 0) : Type 0 where
  class_back class_vdir : A → IpathClass A
  class_root class_cfg class_local class_enoent : IpathClass A

abbrev pub cfg_path : Bytes
cfg_path = codes "/.bedrock-config-filesystem"

abbrev pub local_alias_path : Bytes
local_alias_path = codes "/.local-alias"

-- The first entry for which a test on its `cpath` holds.
unfoldable pub first_entry {ℓ} : {A : Type ℓ} → (A → Bool) → List A → Option A
first_entry p [] = none
first_entry p (x ∷ xs) = if p x then some x else first_entry p xs

module _ {A : Type 0} (cpath : A → Bytes) where
  unfoldable pub classify_special : Bytes → IpathClass A
  classify_special ipath =
      if char_at ipath 0 == b'/' && char_at ipath 1 == 0
      then class_root
      else if same_path ipath cfg_path
      then class_cfg
      else if same_path ipath local_alias_path
      then class_local
      else class_enoent

  unfoldable pub classify_vdir : Bytes → Option A → IpathClass A
  unfolding classify_special
  classify_vdir ipath none = classify_special ipath
  classify_vdir ipath (some e) = class_vdir e

  unfoldable pub classify_back : List A → Bytes → Option A → IpathClass A
  unfolding classify_vdir first_entry is_parent
  classify_back cfgs ipath none =
      classify_vdir ipath (first_entry (λ e. is_parent ipath (cpath e)) cfgs)
  classify_back cfgs ipath (some e) = class_back e

  unfoldable pub classify_ipath : List A → Bytes → IpathClass A
  unfolding classify_back is_equal_or_parent
  classify_ipath cfgs ipath =
      classify_back cfgs ipath (first_entry (λ e. is_equal_or_parent (cpath e) ipath) cfgs)

-- `calc_bpath`, for an entry's `cpath` and the `lpath` of one of its backs; `none` is NULL.
unfoldable pub calc_bpath : Bytes → Bytes → Bytes → Option Bytes
unfolding char_at
calc_bpath cpath lpath ipath =
    if ltb (length ipath) (length cpath)
    then none
    else if char_at ipath (length cpath) == 0
    then some lpath
    else if not (char_at ipath (length cpath) == b'/')
    then none
    else if ltb path_max (length lpath + length ipath - length cpath + 1)
    then none
    else some (lpath ++ drop (length cpath) ipath)
