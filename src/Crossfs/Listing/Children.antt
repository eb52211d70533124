-- ===== src/Crossfs/Listing/Children.antt =====
-- What the virtual directories of src/crossfs/crossfs.c list.
use mathlib.Core.Option.{some-injective}
use bedrocklinux_userland.Base.{
  ℕ, suc, ◌+◌, ◌≤◌, ◌<◌, ◌≡◌, ◌⊎◌, ◌↔◌, inl, inr, refl, sym, ap, ◌∙◌, subst, Bool, true, false,
  List, [], ◌∷◌, ◌++◌, Option, none, some, length, drop, ltb, arith, Bool-cases, length-append,
  le→ltb,
}
use bedrocklinux_userland.CString.{Bytes, str_eq, has}
use bedrocklinux_userland.CString.Laws.{str_eq_iff, cut-append}
use bedrocklinux_userland.Crossfs.Config.{CfgEntry}
use bedrocklinux_userland.Crossfs.Paths.{path_max}
use bedrocklinux_userland.Crossfs.Paths.Laws.{is_parent_iff}
use bedrocklinux_userland.Crossfs.Commands.{overrun, then_scan}
use bedrocklinux_userland.Crossfs.Listing.{
  NameTable, is_listed, insert_h_str, has_file, virtual_child, child_name, insert_child,
  virt_filldir, by_value, fill_children,
}

contra : true ≡ false → ⊥
contra h = cc

pub none-some {ℓ} : {A : Type ℓ} {a : A} → ◌≡◌ {A = Option A} none (some a) → ⊥
none-some h = cc

suc_plus : (n : ℕ) → suc n + 1 ≡ suc (n + 1)
suc_plus n = omega arith

drop-past : (a b : Bytes) (x : ℕ) → drop (length a + 1) (a ++ (x ∷ b)) ≡ b
drop-past [] b x = refl
drop-past (y ∷ a) b x =
    ap (λ n. drop n (y ∷ (a ++ (x ∷ b)))) (suc_plus (length a)) ∙ drop-past a b x

module _ (stat : Option ℕ → Bytes → Bool) (local_fd : ℕ) (ipath : Bytes) where
  -- A name is a child of the directory by an entry: the first part of a path further below, which
  -- is a virtual directory, or the whole rest of the path, where a back has the file.
  abbrev pub Child : CfgEntry → Bytes → Type 0
  Child e x =
      (r : Bytes) × (e.cpath ≡ ipath ++ (b'/' ∷ r))
      × (((t : Bytes) × (r ≡ x ++ (b'/' ∷ t))
            × (has b'/' x ≡ false)
            × (length ipath + 1 + length x + 1 ≤ path_max))
          ⊎ ((r ≡ x) × (has b'/' x ≡ false) × (has_file stat local_fd e.back ≡ true)))

  module _ (e : CfgEntry) (r : Bytes) (below : e.cpath ≡ ipath ++ (b'/' ∷ r)) where
    rest_lem : drop (length ipath + 1) e.cpath ≡ r
    rest_lem = ap (drop (length ipath + 1)) below ∙ drop-past ipath r b'/'

  abbrev pub AnyChild : Bytes → List CfgEntry → Type 0
  AnyChild x [] = ⊥
  AnyChild x (e ∷ es) = Child e x ⊎ AnyChild x es

is_listed-append :
    (x y : Bytes) (ys : List Bytes)
    → (is_listed x (ys ++ (y ∷ [])) ≡ true) ↔ ((is_listed x ys ≡ true) ⊎ (y ≡ x))
unfolding is_listed
is_listed-append x y [] = elim (Bool-cases (str_eq y x)) [
  | inl t ↦ (λ h. inr ((str_eq_iff y x).0 t), λ h. rw t refl)
  | inr f ↦ (
    λ h. absurd (contra (sym (rw f at h))),
    λ h. elim h [
      | inl z ↦ absurd (contra (sym z))
      | inr e ↦ absurd (contra (sym ((str_eq_iff y x).1 e) ∙ f))
    ],
  )
]
is_listed-append x y (z ∷ ys) = elim (Bool-cases (str_eq z x)) [
  | inl t ↦ (λ h. inl (rw t refl), λ h. rw t refl)
  | inr f ↦ rw f (is_listed-append x y ys)
]

pub insert_child-lists :
    (stat : Option ℕ → Bytes → Bool) (local_fd : ℕ) (o : Option Bytes) (n : NameTable) (x : Bytes)
    → (is_listed x (insert_child stat local_fd (λ s. true) o n).files ≡ true)
      ↔ ((is_listed x n.files ≡ true) ⊎ (o ≡ some x))
unfolding insert_h_str
insert_child-lists stat local_fd none n x =
    (λ h. inl h, λ h. elim h [ inl a ↦ a | inr b ↦ absurd (none-some b) ])
insert_child-lists stat local_fd (some name) n x = elim (Bool-cases (is_listed name n.files)) [
  | inl t ↦ rw t (
    λ h. inl h,
    λ h. elim h [
      | inl a ↦ a
      | inr b ↦ subst (λ y. is_listed y n.files ≡ true) (some-injective name x b) t
    ],
  )
  | inr f ↦
      let one = is_listed-append x name n.files in
      rw f (
        λ h. elim (one.0 h) [ inl a ↦ inl a | inr b ↦ inr (ap some b) ],
        λ h. elim h [ inl a ↦ one.1 (inl a) | inr b ↦ one.1 (inr (some-injective name x b)) ],
      )
]

-- Behind a call with a table that has a name, the caller has all names.
pub by_value-listed :
    (x : Bytes) (files : List Bytes) (n : NameTable)
    → is_listed x files ≡ true
    → by_value files n ≡ n
unfolding is_listed
by_value-listed x [] n h = cc
by_value-listed x (y ∷ files) n h = refl

short_rest :
    (i n t c : ℕ) → c ≡ i + suc (n + suc t) → t + 1 < i → ltb (c + 1) (i + 1 + (i + 1 + n)) ≡ true
short_rest i n t c h lt = ground arith

-- Where the path of the first entry is that of the directory, a name that fits into PATH_MAX with it,
-- and a part below that is shorter than the path of the directory by more than a byte,
-- `virt_filldir` reads past the end of the path.
pub virt_filldir-overrun :
    (stat : Option ℕ → Bytes → Bool) (local_fd : ℕ) (malloc : Bytes → Bool) (ipath name t : Bytes)
    (e : CfgEntry) (es : List CfgEntry) (n : NameTable)
    → e.cpath ≡ ipath ++ (b'/' ∷ (name ++ (b'/' ∷ t)))
    → has b'/' name ≡ false
    → length ipath + 1 + length name + 1 ≤ path_max
    → length t + 1 < length ipath
    → virt_filldir stat local_fd malloc ipath (e ∷ es) n ≡ overrun
unfolding virt_filldir fill_children then_scan child_name virtual_child
virt_filldir-overrun stat local_fd malloc ipath name t e es n below clear fits lt =
    let rest = rest_lem stat local_fd ipath e (name ++ (b'/' ∷ t)) below in
    let parent = (is_parent_iff ipath e.cpath).1 (name ++ (b'/' ∷ t), below) in
    let whole : length e.cpath ≡ length ipath + suc (length name + suc (length t)) =
      ap length below
      ∙ length-append ipath (b'/' ∷ (name ++ (b'/' ∷ t)))
      ∙ ap (λ k. length ipath + suc k) (length-append name (b'/' ∷ t)) in
    rw
      (
        parent,
        rest,
        cut-append b'/' name t clear,
        le→ltb (length ipath + 1 + length name + 1) path_max fits,
        short_rest (length ipath) (length name) (length t) (length e.cpath) whole lt,
      )
      refl
