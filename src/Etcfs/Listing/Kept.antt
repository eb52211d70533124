-- ===== src/Etcfs/Listing/Kept.antt =====
-- The loops of `m_readdir` of src/etcfs/etcfs.c over the two directories.
use bedrocklinux_userland.Base.{
  ◌≡◌, ◌⊎◌, ◌↔◌, inl, inr, sym, ap, ◌∙◌, Bool, true, false, not, ◌&&◌, List, [], ◌∷◌, ◌++◌,
  if◌then◌else◌, Bool-cases,
}
use bedrocklinux_userland.CString.{Bytes}
use bedrocklinux_userland.Etcfs.Config.{Config, is_global}
use bedrocklinux_userland.Etcfs.Listing.{full_path, fits, is_override, global_names, own_names}

-- A name is in a list.
abbrev pub Listed : Bytes → List Bytes → Type 0
Listed x [] = ⊥
Listed x (y ∷ ys) = (y ≡ x) ⊎ Listed x ys

pub Listed-append :
    (x : Bytes) (ys zs : List Bytes) → Listed x (ys ++ zs) ↔ (Listed x ys ⊎ Listed x zs)
Listed-append x [] zs = (λ h. inr h, λ h. elim h [ inl a ↦ absurd a | inr b ↦ b ])
Listed-append x (y ∷ ys) zs =
    let rest = Listed-append x ys zs in
    (
      λ h. elim h [
        | inl e ↦ inl (inl e)
        | inr t ↦ elim (rest.0 t) [ inl a ↦ inl (inr a) | inr b ↦ inr b ]
      ],
      λ h. elim h [
        | inl (inl e) ↦ inl e
        | inl (inr a) ↦ inr (rest.1 (inl a))
        | inr b ↦ inr (rest.1 (inr b))
      ],
    )

-- A loop that keeps the names that pass a test.
Listed-kept :
    (test : Bytes → Bool) (x y : Bytes) (names kept : List Bytes)
    → (Listed x kept ↔ (Listed x names × (test x ≡ true)))
    → Listed x (if test y then y ∷ kept else kept) ↔ (((y ≡ x) ⊎ Listed x names) × (test x ≡ true))
Listed-kept test x y names kept ih = elim (Bool-cases (test y)) [
  | inl t ↦ rw t (
    λ h. elim h [ inl e ↦ (inl e, ap test (sym e) ∙ t) | inr r ↦ (inr (ih.0 r).0, (ih.0 r).1) ],
    λ (h, p). elim h [ inl e ↦ inl e | inr r ↦ inr (ih.1 (r, p)) ],
  )
  | inr f ↦ rw f (
    λ r. (inr (ih.0 r).0, (ih.0 r).1),
    λ (h, p). elim h [
      | inl e ↦ absurd (contra (sym p ∙ (ap test (sym e) ∙ f)))
      | inr r ↦ ih.1 (r, p)
    ],
  )
]
  where
    contra : true ≡ false → ⊥
    contra h = cc

abbrev pub global_test : Config → Bytes → Bytes → Bool
global_test cfg path name =
    fits (full_path path name) && is_global (full_path path name) cfg.globals

abbrev pub own_test : Bool → Config → Bytes → Bytes → Bool
own_test is_cfg cfg path name =
    fits (full_path path name)
    && not (is_global (full_path path name) cfg.globals)
    && not (is_override (full_path path name) cfg.overrides)
    && not is_cfg

no_names : {P : Type 0} (x : Bytes) → Listed x [] ↔ (Listed x [] × P)
no_names x = (λ h. absurd h, λ (h, _). absurd h)

pub global_names-Listed :
    (cfg : Config) (path : Bytes) (names : List Bytes) (x : Bytes)
    → Listed x (global_names cfg path names) ↔ (Listed x names × (global_test cfg path x ≡ true))
unfolding global_names
global_names-Listed cfg path [] x = no_names x
global_names-Listed cfg path (y ∷ names) x =
    Listed-kept (global_test cfg path) x y names (global_names cfg path names)
      (global_names-Listed cfg path names x)

pub own_names-Listed :
    (is_cfg : Bool) (cfg : Config) (path : Bytes) (names : List Bytes) (x : Bytes)
    → Listed x (own_names is_cfg cfg path names)
      ↔ (Listed x names × (own_test is_cfg cfg path x ≡ true))
unfolding own_names
own_names-Listed is_cfg cfg path [] x = no_names x
own_names-Listed is_cfg cfg path (y ∷ names) x =
    Listed-kept (own_test is_cfg cfg path) x y names (own_names is_cfg cfg path names)
      (own_names-Listed is_cfg cfg path names x)
