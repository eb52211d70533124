-- ===== src/Etcfs/Rename/Kept.antt =====
-- `m_rename` of src/etcfs/etcfs.c loses no file.
use bedrocklinux_userland.Base.{
  ℕ, ◌≡◌, ◌≢◌, ◌⊎◌, inl, inr, refl, sym, false, none, some, ◌==◌, Bool-cases, Option-cases,
}
use bedrocklinux_userland.CString.{Bytes, str_eq}
use bedrocklinux_userland.Etcfs.Config.{RefFd, einval}
use bedrocklinux_userland.Etcfs.Handlers.{cfg_name}
use bedrocklinux_userland.Etcfs.Rename.{
  exdev, eopnotsupp, Content, special, symbolic, folder, regular, Item, Files, same_place, Moved,
  moved, unmoved, Calls, Renamed, failed_with, tmp_name, copy_item, rename_item, m_rename,
}
use bedrocklinux_userland.Etcfs.Rename.Copied.{
  Follows, Kept, SetsErrno, nonzero, failed-Kept, made-Kept, copy_link-Kept, copy_regular-Kept,
}

-- What `m_rename` relies on: the two paths and the temporary file are apart, the item is at the old
-- path, a `renameat` that works moves it, a call that fails sets an `errno` other than 0, and the copy reads a regular file's bytes and writes what it
-- read, up to an error.
pub record Sound (k : Calls) (ref : RefFd) (from : Bytes) (to_ref : RefFd) (to : Bytes)
    (item : Item) (files : Files) : Type 0 where
  pub apart : same_place ref from to_ref to ≡ false
  pub apart_tmp : same_place ref from to_ref (tmp_name k ref from to_ref to) ≡ false
  pub there : files ref from ≡ some item
  pub moves :
      (after : Files)
      → k.rename_files ≡ moved after
      → (after to_ref to ≡ some item) × (after ref from ≡ none)
  pub sets : SetsErrno k
  pub not_moved : (e : ℕ) → k.rename_files ≡ unmoved e → e ≢ 0
  pub follows : (s : Bytes) → item.content ≡ regular s → Follows k.copies s

Moved-cases : (m : Moved) → ((after : Files) × (m ≡ moved after)) ⊎ ((e : ℕ) × (m ≡ unmoved e))
Moved-cases (moved after) = inl (after, refl)
Moved-cases (unmoved e) = inr (e, refl)

module _ (k : Calls) (ref : RefFd) (from : Bytes) (to_ref : RefFd) (to : Bytes) (item : Item)
    (files : Files) (sound : Sound k ref from to_ref to item files) where
  abbrev Ends : Renamed → Type 0
  Ends r = Kept k ref from to_ref to item sound.apart sound.sets r

  fails : (e : ℕ) → e ≢ 0 → Ends (failed_with e files)
  fails e n = failed-Kept k ref from to_ref to item sound.apart sound.sets e files n sound.there

  copy_item-Kept :
      (c : Content) → item.content ≡ c → Ends (copy_item k ref from to_ref to c item files)
  unfolding copy_item
  copy_item-Kept (special t rdev) h =
      made-Kept k ref from to_ref to item sound.apart sound.sets k.mknodat files sound.sets.mknodat
        sound.there
  copy_item-Kept (symbolic target) h =
      copy_link-Kept k ref from to_ref to item sound.apart sound.sets target files sound.there
  copy_item-Kept folder h =
      made-Kept k ref from to_ref to item sound.apart sound.sets k.mkdirat files sound.sets.mkdirat
        sound.there
  copy_item-Kept (regular s) h =
      copy_regular-Kept k ref from to_ref to item sound.apart sound.sets sound.apart_tmp s files
        (sym h) (sound.follows s h) sound.there

  rename_item-Kept : Ends (rename_item k ref from to_ref to files)
  unfolding rename_item
  rename_item-Kept = elim (Moved-cases k.rename_files) [
    | inl (after, h) ↦ let (new, old) = sound.moves after h in rw h (inl (refl, new, old))
    | inr (e, h) ↦ elim (Bool-cases (e == exdev)) [
      | inr f ↦ rw (h, f) (fails e (sound.not_moved e h))
      | inl t ↦ elim (Option-cases k.fstatat) [
        | inr (e', s) ↦ rw (h, t, s) (fails e' (nonzero k.fstatat e' sound.sets.fstatat s))
        | inl s ↦ rw (h, t, s, sound.there) (copy_item-Kept item.content refl)
      ]
    ]
  ]

-- Whichever call fails, and whether the file is renamed or copied, `m_rename` loses nothing: it returns
-- 0, and what was at the old path is at the new path, with its content, owner and mode, and no longer
-- at the old one; or it returns an errno, not 0, negated, and it is at the old path as before. The paths
-- are apart from each other and from the temporary file's, no write of the copy is short, and a call
-- that fails sets `errno`.
pub m_rename-Kept :
    (k : Calls) (ref : RefFd) (from : Bytes) (to_ref : RefFd) (to : Bytes) (item : Item)
    (files : Files) (flags : ℕ)
    → (sound : Sound k ref from to_ref to item files)
    → Kept k ref from to_ref to item sound.apart sound.sets
        (m_rename k ref from to_ref to flags files)
unfolding m_rename
m_rename-Kept k ref from to_ref to item files flags sound =
    elim (Bool-cases (str_eq from cfg_name)) [
      | inl t ↦ rw t (fails k ref from to_ref to item files sound einval (λ z. cc))
      | inr f ↦ elim (Bool-cases (str_eq to cfg_name)) [
        | inl t ↦ rw (f, t) (fails k ref from to_ref to item files sound einval (λ z. cc))
        | inr g ↦ elim (Bool-cases (flags == 0)) [
          | inr n ↦ rw (f, g, n) (fails k ref from to_ref to item files sound eopnotsupp (λ z. cc))
          | inl z ↦ rw (f, g, z) (rename_item-Kept k ref from to_ref to item files sound)
        ]
      ]
    ]
