-- ===== src/Etcfs/Rename/Places.antt =====
-- What is at a path below a descriptor, after a change of src/etcfs/etcfs.c.
use bedrocklinux_userland.Base.{◌≡◌, inl, inr, refl, sym, false, Option, Bool-cases}
use bedrocklinux_userland.CString.{Bytes, str_eq}
use bedrocklinux_userland.CString.Laws.{str_eq_refl, str_eq_iff}
use bedrocklinux_userland.Etcfs.Config.{RefFd, global_ref, local_ref}
use bedrocklinux_userland.Etcfs.Rename.{Item, Files, same_place, place}

pub place-same :
    (ref : RefFd) (path : Bytes) (v : Option Item) (files : Files)
    → place ref path v files ref path ≡ v
unfolding place
place-same global_ref path v files = rw (str_eq_refl path) refl
place-same local_ref path v files = rw (str_eq_refl path) refl

pub place-other :
    (ref : RefFd) (path : Bytes) (v : Option Item) (files : Files) (r : RefFd) (p : Bytes)
    → same_place r p ref path ≡ false
    → place ref path v files r p ≡ files r p
unfolding place
place-other ref path v files r p n = rw n refl

str_eq-sym : (a b : Bytes) → str_eq a b ≡ false → str_eq b a ≡ false
str_eq-sym a b h = elim (Bool-cases (str_eq b a)) [
  | inl t ↦ let same = (str_eq_iff a b).1 (sym ((str_eq_iff b a).0 t)) in cc
  | inr f ↦ f
]

pub same_place-sym :
    (r : RefFd) (p : Bytes) (ref : RefFd) (path : Bytes)
    → same_place r p ref path ≡ false
    → same_place ref path r p ≡ false
same_place-sym global_ref p global_ref path h = str_eq-sym p path h
same_place-sym local_ref p local_ref path h = str_eq-sym p path h
same_place-sym global_ref p local_ref path h = refl
same_place-sym local_ref p global_ref path h = refl
