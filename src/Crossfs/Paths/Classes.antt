-- ===== src/Crossfs/Paths/Classes.antt =====
-- What the class of a path says of the configuration's entries.
use bedrocklinux_userland.Base.{
  ◌≢◌, length, take, take-all, sym, ◌∙◌, ◌↔◌, ◌==◌, ◌&&◌, subst, ◌≡◌, inl, inr, refl, ap, Bool,
  true, false, List, [], ◌∷◌, Option, none, some, All, arith, Bool-cases,
}
use bedrocklinux_userland.CString.{Bytes}
use bedrocklinux_userland.CString.Laws.{str_eq_iff}
use bedrocklinux_userland.Crossfs.Paths.Laws.{NoNul}
use bedrocklinux_userland.Crossfs.Paths.{
  cfg_path, local_alias_path, same_path, char_at, IpathClass, class_back, class_vdir, class_root,
  class_cfg, class_local, class_enoent, is_parent, is_equal_or_parent, first_entry,
  classify_special, classify_vdir, classify_back, classify_ipath,
}

-- `x` is the first element that passes.
pub data FirstIn {A : Type 0} (p : A → Bool) (x : A) : List A → Type 0 where
  here : (xs : List A) → p x ≡ true → FirstIn p x (x ∷ xs)
  later : (y : A) (xs : List A) → p y ≡ false → FirstIn p x xs → FirstIn p x (y ∷ xs)

first_entry-some :
    {A : Type 0} (p : A → Bool) (xs : List A) (x : A) → first_entry p xs ≡ some x → FirstIn p x xs
unfolding first_entry
first_entry-some p [] x h = cc
first_entry-some p (y ∷ xs) x h = elim (Bool-cases (p y)) [
  | inl e ↦ subst (λ z. FirstIn p z (y ∷ xs)) (ground arith) (here xs e)
  | inr e ↦ later y xs e (first_entry-some p xs x (ground arith))
]

first_entry-none :
    {A : Type 0} (p : A → Bool) (xs : List A) → first_entry p xs ≡ none → All (λ y. p y ≡ false) xs
unfolding first_entry
first_entry-none p [] h = tt
first_entry-none p (y ∷ xs) h = elim (Bool-cases (p y)) [
  | inl e ↦ absurd (ground arith)
  | inr e ↦ (e, first_entry-none p xs (ground arith))
]

contra : true ≡ false → ⊥
contra h = cc

same_path-whole : (a b : Bytes) → same_path a b ≡ true → a ≡ take (length b) a
unfolding same_path
same_path-whole a b h = sym (take-all (length b) a (ground arith))

same_path_iff : (a b : Bytes) → (same_path a b ≡ true) ↔ (a ≡ b)
unfolding same_path
same_path_iff a b = (
  λ h. same_path-whole a b h ∙ (ground (arith, str_eq_iff (take (length b) a) b)),
  λ e. rw e (ground (arith, str_eq_iff (take (length b) b) b, take-all (length b) b)),
)

root_iff :
    (s : Bytes) → NoNul s → (char_at s 0 == b'/' && char_at s 1 == 0 ≡ true) ↔ (s ≡ b'/' ∷ [])
unfolding char_at
root_iff [] nn = ground arith
root_iff (x ∷ []) nn = (λ h. ap (λ z. z ∷ []) (ground arith), λ e. ground arith)
root_iff (x ∷ y ∷ s) nn = (λ h. absurd (ground arith), λ e. ground arith)

module _ {A : Type 0} (cpath : A → Bytes) (cfgs : List A) (ipath : Bytes) where
  -- What a class of `ipath` says of the entries, which are tried in order.
  pub data Classified : IpathClass A → Type 0 where
    behind :
        (e : A)
        → FirstIn (λ x. is_equal_or_parent (cpath x) ipath) e cfgs
        → Classified (class_back e)
    above :
        (e : A)
        → All (λ x. is_equal_or_parent (cpath x) ipath ≡ false) cfgs
        → FirstIn (λ x. is_parent ipath (cpath x)) e cfgs
        → Classified (class_vdir e)
    at_root :
        All (λ x. is_equal_or_parent (cpath x) ipath ≡ false) cfgs
        → All (λ x. is_parent ipath (cpath x) ≡ false) cfgs
        → ipath ≡ b'/' ∷ []
        → Classified class_root
    at_cfg :
        All (λ x. is_equal_or_parent (cpath x) ipath ≡ false) cfgs
        → All (λ x. is_parent ipath (cpath x) ≡ false) cfgs
        → ipath ≡ cfg_path
        → Classified class_cfg
    at_local :
        All (λ x. is_equal_or_parent (cpath x) ipath ≡ false) cfgs
        → All (λ x. is_parent ipath (cpath x) ≡ false) cfgs
        → ipath ≡ local_alias_path
        → Classified class_local
    nowhere :
        All (λ x. is_equal_or_parent (cpath x) ipath ≡ false) cfgs
        → All (λ x. is_parent ipath (cpath x) ≡ false) cfgs
        → ipath ≢ (b'/' ∷ [])
        → ipath ≢ cfg_path
        → ipath ≢ local_alias_path
        → Classified class_enoent

  special_lem :
      NoNul ipath
      → All (λ x. is_equal_or_parent (cpath x) ipath ≡ false) cfgs
      → All (λ x. is_parent ipath (cpath x) ≡ false) cfgs
      → Classified (classify_special cpath ipath)
  unfolding classify_special
  special_lem nn h k = elim (Bool-cases (char_at ipath 0 == b'/' && char_at ipath 1 == 0)) [
    | inl e ↦ subst Classified (sym (ground arith)) (at_root h k ((root_iff ipath nn).0 e))
    | inr e ↦ elim (Bool-cases (same_path ipath cfg_path)) [
      | inl e1 ↦
          subst Classified (sym (ground arith)) (at_cfg h k ((same_path_iff ipath cfg_path).0 e1))
      | inr e1 ↦ elim (Bool-cases (same_path ipath local_alias_path)) [
        | inl e2 ↦
            subst Classified (sym (ground arith))
              (at_local h k ((same_path_iff ipath local_alias_path).0 e2))
        | inr e2 ↦ subst Classified (sym (ground arith)) (
            nowhere h k (λ q. contra ((sym ((root_iff ipath nn).1 q) ∙ e)))
              (λ q. contra ((sym ((same_path_iff ipath cfg_path).1 q) ∙ e1)))
              (λ q. contra ((sym ((same_path_iff ipath local_alias_path).1 q) ∙ e2))))
      ]
    ]
  ]

  vdir_lem :
      NoNul ipath
      → All (λ x. is_equal_or_parent (cpath x) ipath ≡ false) cfgs
      → (o : Option A) → first_entry (λ x. is_parent ipath (cpath x)) cfgs ≡ o
      → Classified (classify_vdir cpath ipath o)
  unfolding classify_vdir
  vdir_lem nn h none e = special_lem nn h (first_entry-none _ cfgs e)
  vdir_lem nn h (some x) e = above x h (first_entry-some _ cfgs x e)

  back_lem :
      NoNul ipath
      → (o : Option A) → first_entry (λ x. is_equal_or_parent (cpath x) ipath) cfgs ≡ o
      → Classified (classify_back cpath cfgs ipath o)
  unfolding classify_back
  back_lem nn none e = vdir_lem nn (first_entry-none _ cfgs e) _ refl
  back_lem nn (some x) e = behind x (first_entry-some _ cfgs x e)

  -- For a path without NUL, `classify_ipath` gives class back with the first entry whose `cpath`
  -- equals the path or is a parent of it; without one, class vdir with the first entry that the
  -- path is a parent of; without either, root, cfg or local by the path's spelling, else enoent.
  pub classify_ipath-Classified : NoNul ipath → Classified (classify_ipath cpath cfgs ipath)
  unfolding classify_ipath
  classify_ipath-Classified nn = back_lem nn _ refl
