-- ===== src/Crossfs/Listing/Backs.antt =====
-- What a directory of src/crossfs/crossfs.c lists that its backs have.
use mathlib.Core.Option.{some-injective}
use bedrocklinux_userland.Base.{
  ℕ, ◌≡◌, ◌⊎◌, ◌↔◌, inl, inr, refl, sym, ap, subst, Bool, true, false, not, List, [], ◌∷◌, Option,
  some, if◌then◌else◌, Bool-cases, Option-cases,
}
use bedrocklinux_userland.CString.{Bytes}
use bedrocklinux_userland.Crossfs.Config.{BackEntry}
use bedrocklinux_userland.Crossfs.Paths.{calc_bpath}
use bedrocklinux_userland.Crossfs.Backs.{deref_fd}
use bedrocklinux_userland.Crossfs.Listing.{
  NameTable, is_listed, insert_h_str, fill_entries, fchroot_filldir, filldir_all_bpath,
}
use bedrocklinux_userland.Crossfs.Listing.Children.{none-some, insert_child-lists, by_value-listed}

contra : true ≡ false → ⊥
contra h = cc

-- A directory has a name that `stat` finds.
abbrev pub Present : Bytes → List (Bytes × Bool) → Type 0
Present x [] = ⊥
Present x ((name, there) ∷ entries) = ((name ≡ x) × (there ≡ true)) ⊎ Present x entries

module _ (is_self_link : Option ℕ → Bytes → Bool)
    (opendir : Option ℕ → Bytes → Option (List (Bytes × Bool))) where
  abbrev all_succeed : Bytes → Bool
  all_succeed s = true

  insert-lists :
      (name : Bytes) (n : NameTable) (x : Bytes)
      → (is_listed x (insert_h_str (λ s. true) name n).files ≡ true)
        ↔ ((is_listed x n.files ≡ true) ⊎ (name ≡ x))
  insert-lists name n x =
      let one = insert_child-lists (λ fd p. true) 0 (some name) n x in
      (
        λ h. elim (one.0 h) [ inl a ↦ inl a | inr b ↦ inr (some-injective name x b) ],
        λ h. elim h [ inl a ↦ one.1 (inl a) | inr b ↦ one.1 (inr (ap some b)) ],
      )

  -- One name of the directory.
  entry-lists :
      (name : Bytes) (there : Bool) (n : NameTable) (x : Bytes)
      → (is_listed x
            (if is_listed name n.files
              then n
              else if not there
              then n
              else insert_h_str (λ s. true) name n).files
          ≡ true)
        ↔ ((is_listed x n.files ≡ true) ⊎ ((name ≡ x) × (there ≡ true)))
  entry-lists name there n x = elim (Bool-cases (is_listed name n.files)) [
    | inl t ↦ rw t (
      λ h. inl h,
      λ h. elim h [ inl a ↦ a | inr (e, _) ↦ subst (λ y. is_listed y n.files ≡ true) e t ],
    )
    | inr f ↦ rw f (elim (Bool-cases there) [
      | inr gone ↦
          rw gone (λ h. inl h, λ h. elim h [ inl a ↦ a | inr (e, y) ↦ absurd (contra (sym y)) ])
      | inl y ↦
          let one = insert-lists name n x in
          rw y (
            λ h. elim (one.0 h) [ inl a ↦ inl a | inr b ↦ inr (b, refl) ],
            λ h. elim h [ inl a ↦ one.1 (inl a) | inr (b, _) ↦ one.1 (inr b) ],
          )
    ])
  ]

  fill_entries-lists :
      (entries : List (Bytes × Bool)) (n : NameTable) (x : Bytes)
      → (is_listed x (fill_entries is_self_link opendir (λ s. true) entries n).files ≡ true)
        ↔ ((is_listed x n.files ≡ true) ⊎ Present x entries)
  unfolding fill_entries
  fill_entries-lists [] n x = (λ h. inl h, λ h. elim h [ inl a ↦ a | inr b ↦ absurd b ])
  fill_entries-lists ((name, there) ∷ entries) n x =
      let rest =
        fill_entries-lists entries
          (if is_listed name n.files
            then n
            else if not there
            then n
            else insert_h_str (λ s. true) name n)
          x in
      let here = entry-lists name there n x in
      (
        λ z. elim (rest.0 z) [
          | inl a ↦ elim (here.0 a) [ inl b ↦ inl b | inr b ↦ inr (inl b) ]
          | inr a ↦ inr (inr a)
        ],
        λ z. elim z [
          | inl a ↦ rest.1 (inl (here.1 (inl a)))
          | inr (inl b) ↦ rest.1 (inl (here.1 (inr b)))
          | inr (inr b) ↦ rest.1 (inr b)
        ],
      )

  -- The directory at a path has a name, unless it is a link to itself.
  abbrev pub InDirectory : Option ℕ → Bytes → Bytes → Type 0
  InDirectory fd path x =
      (is_self_link fd path ≡ false)
      × ((entries : List (Bytes × Bool)) × (opendir fd path ≡ some entries) × Present x entries)

  fchroot_filldir-lists :
      (fd : Option ℕ) (path : Bytes) (n : NameTable) (y : Bytes)
      → is_listed y n.files ≡ true
      → (x : Bytes)
      → (is_listed x (fchroot_filldir is_self_link opendir (λ s. true) fd path n).files ≡ true)
        ↔ ((is_listed x n.files ≡ true) ⊎ InDirectory fd path x)
  unfolding fchroot_filldir
  fchroot_filldir-lists fd path n y listed x = elim (Bool-cases (is_self_link fd path)) [
    | inl t ↦ rw t (λ h. inl h, λ h. elim h [ inl a ↦ a | inr (f, _) ↦ absurd (contra f) ])
    | inr f ↦ elim (Option-cases (opendir fd path)) [
      | inl z ↦
          rw (f, z)
            (
              λ h. inl h,
              λ h. elim h [ inl a ↦ a | inr (_, (entries, o, _)) ↦ absurd (none-some o) ],
            )
      | inr (entries, o) ↦
          let all = fill_entries-lists entries n x in
          rw
            (
              f,
              o,
              by_value-listed y n.files (fill_entries is_self_link opendir (λ s. true) entries n)
                  listed,
            )
            (
              λ h. elim (all.0 h) [ inl a ↦ inl a | inr p ↦ inr (refl, (entries, refl, p)) ],
              λ h. elim h [
                | inl a ↦ all.1 (inl a)
                | inr (_, (es, o', p)) ↦
                    all.1 (inr (subst (Present x) (sym (some-injective entries es o')) p))
              ],
            )
    ]
  ]

  -- Some back has a name in its directory.
  abbrev pub InBacks : ℕ → Bytes → Bytes → List BackEntry → Bytes → Type 0
  InBacks local_fd cpath ipath [] x = ⊥
  InBacks local_fd cpath ipath (b ∷ bs) x =
      ((path : Bytes) × (calc_bpath cpath b.lpath ipath ≡ some path)
        × InDirectory (deref_fd local_fd b) path x)
      ⊎ InBacks local_fd cpath ipath bs x

  -- For a table that has a name already, and where no allocation fails, the caller of
  -- `filldir_all_bpath` has the names that were there, and those that `stat` finds in a directory of
  -- one of the backs, and no other. Directories that are links to themselves, that cannot be opened, or
  -- whose path does not fit into PATH_MAX, are passed over.
  pub filldir_all_bpath-lists :
      (local_fd : ℕ) (cpath ipath : Bytes) (bs : List BackEntry) (n : NameTable) (y : Bytes)
      → is_listed y n.files ≡ true
      → (x : Bytes)
      → (is_listed x
            (filldir_all_bpath is_self_link opendir (λ s. true) local_fd cpath ipath bs n).files
          ≡ true)
        ↔ ((is_listed x n.files ≡ true) ⊎ InBacks local_fd cpath ipath bs x)
  unfolding filldir_all_bpath
  filldir_all_bpath-lists local_fd cpath ipath [] n y listed x =
      (λ h. inl h, λ h. elim h [ inl a ↦ a | inr b ↦ absurd b ])
  filldir_all_bpath-lists local_fd cpath ipath (b ∷ bs) n y listed x =
      elim (Option-cases (calc_bpath cpath b.lpath ipath)) [
        | inl z ↦
            let rest = filldir_all_bpath-lists local_fd cpath ipath bs n y listed x in
            rw (z, filldir_all_bpath)
              (
                λ h. elim (rest.0 h) [ inl a ↦ inl a | inr a ↦ inr (inr a) ],
                λ h. elim h [
                  | inl a ↦ rest.1 (inl a)
                  | inr (inl (path, e, _)) ↦ absurd (none-some e)
                  | inr (inr a) ↦ rest.1 (inr a)
                ],
              )
        | inr (path, c) ↦
            let fd = deref_fd local_fd b in
            let rest =
              filldir_all_bpath-lists local_fd cpath ipath bs
                (fchroot_filldir is_self_link opendir (λ s. true) fd path n) y
                ((fchroot_filldir-lists fd path n y listed y).1 (inl listed)) x in
            let here = fchroot_filldir-lists fd path n y listed x in
            rw (c, filldir_all_bpath)
              (
                λ h. elim (rest.0 h) [
                  | inl a ↦ elim (here.0 a) [ inl y ↦ inl y | inr y ↦ inr (inl (path, refl, y)) ]
                  | inr a ↦ inr (inr a)
                ],
                λ h. elim h [
                  | inl a ↦ rest.1 (inl (here.1 (inl a)))
                  | inr (inl (q, e, y)) ↦ rest.1 (
                      inl (
                        here.1 (
                          inr (subst (λ p. InDirectory fd p x) (sym (some-injective path q e)) y))))
                  | inr (inr a) ↦ rest.1 (inr a)
                ],
              )
      ]
