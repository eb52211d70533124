-- ===== src/Etcfs/Config.antt =====
-- The configuration that src/etcfs/etcfs.c keeps: the global paths and the overrides.
use bedrocklinux_userland.Base.{
  ℕ, suc, ◌-◌, Bool, true, false, List, [], ◌∷◌, Option, none, some, length, take, set, get_elem?,
  if◌then◌else◌, ◌==◌,
}
use bedrocklinux_userland.CString.{Bytes, codes, str_eq}

abbrev pub enomem : ℕ
enomem = 12

abbrev pub einval : ℕ
einval = 22

abbrev pub enametoolong : ℕ
enametoolong = 36

abbrev pub pipe_buf : ℕ
pipe_buf = 4096

-- `enum o_type`
pub data OType : Type 0 where
  symlink directory inject : OType

-- `o_type_str`
abbrev pub o_type_str : OType → Bytes
o_type_str symlink = codes "symlink"
o_type_str directory = codes "directory"
o_type_str inject = codes "inject"

-- `struct override`; `injected` is `inject` with its length, NULL unless the type is inject.
pub record Override : Type 0 where
  pub path : Bytes
  pub otype : OType
  pub content : Bytes
  pub injected : Option Bytes
  pub last_override : ℕ

-- The configuration variables. `globals` and `overrides` are the used parts of the arrays, so that
-- `global_cnt` and `override_cnt` are their lengths; `st_size` is that of `cfg_stat`.
pub record Config : Type 0 where
  pub globals : List Bytes
  pub global_alloc : ℕ
  pub overrides : List Override
  pub override_alloc : ℕ
  pub st_size : ℕ

-- The file descriptors that calls are directed to.
pub data RefFd : Type 0 where
  global_ref local_ref : RefFd

-- The loops that compare a path with each of `globals`.
unfoldable pub is_global : Bytes → List Bytes → Bool
is_global path [] = false
is_global path (g ∷ gs) = if str_eq g path then true else is_global path gs

-- `get_ref_fd(path)`
unfoldable pub get_ref_fd : Config → Bytes → RefFd
unfolding is_global
get_ref_fd c path = if is_global path c.globals then global_ref else local_ref

-- The index at which a loop over an array breaks; `none` if it runs to the end.
unfoldable pub find_index {ℓ} : {A : Type ℓ} → (A → Bool) → List A → Option ℕ
find_index p [] = none
find_index p (x ∷ xs) =
    if p x then some 0 else elim (find_index p xs) [ none ↦ none | some i ↦ some (suc i) ]

-- `cnt--; if (i != cnt) a[i] = a[cnt];` on the used part of an array.
unfoldable pub swap_remove {ℓ} : {A : Type ℓ} → ℕ → List A → List A
swap_remove i xs =
    let cnt = length xs - 1 in
    take cnt (if i == cnt then xs else elim (get_elem? xs cnt) [ none ↦ xs | some x ↦ set xs i x ])
