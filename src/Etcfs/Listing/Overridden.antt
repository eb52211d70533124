-- ===== src/Etcfs/Listing/Overridden.antt =====
-- The loop of `m_readdir` of src/etcfs/etcfs.c over the overrides.
use bedrocklinux_userland.Base.{
  ℕ, suc, ◌+◌, ◌≡◌, ◌⊎◌, ◌↔◌, inl, inr, refl, sym, ap, ◌∙◌, Bool, true, false, not, List, [], ◌∷◌,
  ◌++◌, Option, none, some, length, drop, if◌then◌else◌, ◌==◌, arith, Bool-cases, ==_iff,
  drop-append,
}
use bedrocklinux_userland.CString.{Bytes, is_prefix, has}
use bedrocklinux_userland.CString.Laws.{is_prefix-append, is_prefix-drop}
use bedrocklinux_userland.Crossfs.Paths.{char_at}
use bedrocklinux_userland.Etcfs.Config.{Override}
use bedrocklinux_userland.Etcfs.Listing.{
  full_path, is_inject, override_name, with_name, override_names,
}
use bedrocklinux_userland.Etcfs.Listing.Kept.{Listed}

-- An override that stands for the name in the directory.
pub record Names (path x : Bytes) (o : Override) : Type 0 where
  pub kind : is_inject o.otype ≡ false
  pub where_it_is : o.path ≡ full_path path x
  pub plain : has b'/' x ≡ false

-- Some override stands for the name in the directory.
abbrev pub Overridden : Bytes → Bytes → List Override → Type 0
Overridden path x [] = ⊥
Overridden path x (o ∷ os) = Names path x o ⊎ Overridden path x os

guarded :
    (a b c : Bool) (y x : Bytes)
    → ((if a then none else if not b then none else if c then none else some y) ≡ some x)
      ↔ ((a ≡ false) × (b ≡ true) × (c ≡ false) × (y ≡ x))
guarded true b c y x = (λ h. cc, λ h. cc)
guarded false false c y x = (λ h. cc, λ h. cc)
guarded false true true y x = (λ h. cc, λ h. cc)
guarded false true false y x = (λ h. (refl, refl, refl, cc), λ (_, _, _, e). ap some e)

guarded_twice :
    (a b c d : Bool) (y x : Bytes)
    → ((if a
          then none
          else if not b
          then none
          else if not c
          then none
          else if d
          then none
          else some y)
        ≡ some x)
      ↔ ((a ≡ false) × (b ≡ true) × (c ≡ true) × (d ≡ false) × (y ≡ x))
guarded_twice true b c d y x = (λ h. cc, λ h. cc)
guarded_twice false false c d y x = (λ h. cc, λ h. cc)
guarded_twice false true false d y x = (λ h. cc, λ h. cc)
guarded_twice false true true true y x = (λ h. cc, λ h. cc)
guarded_twice false true true false y x =
    (λ h. (refl, refl, refl, refl, cc), λ (_, _, _, _, e). ap some e)

starts : (p s x : Bytes) → ((is_prefix p s ≡ true) × (drop (length p) s ≡ x)) ↔ (s ≡ p ++ x)
starts p s x = (
  λ (h, e). is_prefix-drop p s h ∙ ap (λ t. p ++ t) e,
  λ e. (ap (is_prefix p) e ∙ is_prefix-append p x, ap (drop (length p)) e ∙ drop-append p x),
)

full_path-root : (path x : Bytes) → (char_at path 1 == 0) ≡ true → full_path path x ≡ path ++ x
full_path-root path x root = rw root refl

full_path-below :
    (path x : Bytes) → (char_at path 1 == 0) ≡ false → full_path path x ≡ path ++ (b'/' ∷ x)
full_path-below path x root = rw root refl

-- The root directory lists what is below it.
override_name-root :
    (path x : Bytes) (o : Override)
    → (char_at path 1 == 0) ≡ true
    → length path ≡ 1
    → (override_name path o ≡ some x) ↔ Names path x o
unfolding override_name
override_name-root path x o root one =
    let guarded_root =
      guarded (is_inject o.otype) (is_prefix path o.path) (has b'/' (drop 1 o.path))
        (drop (length path) o.path) x in
    rw root (
      λ h.
          let (i, p, c, e) = guarded_root.0 h in
          record {
            kind = i;
            where_it_is = (starts path o.path x).0 (p, e) ∙ sym (full_path-root path x root);
            plain = ap (has b'/') (sym e ∙ ap (λ n. drop n o.path) one) ∙ c;
          },
      λ n.
          let (p, e) = (starts path o.path x).1 (n.where_it_is ∙ full_path-root path x root) in
          guarded_root.1
            (n.kind, p, ap (has b'/') (ap (λ m. drop m o.path) (sym one) ∙ e) ∙ n.plain, e),
    )

slash_drop : (path x : Bytes) → drop (length path + 1) (path ++ (b'/' ∷ x)) ≡ x
slash_drop [] x = refl
slash_drop (y ∷ path) x =
    ap (λ n. drop n (y ∷ (path ++ (b'/' ∷ x)))) (one_more (length path)) ∙ slash_drop path x
  where
    one_more : (n : ℕ) → suc n + 1 ≡ suc (n + 1)
    one_more n = omega arith

slash_at : (path s : Bytes) → char_at (path ++ s) (length path) ≡ char_at s 0
unfolding char_at
slash_at [] s = refl
slash_at (y ∷ path) s = slash_at path s

slash_first : (s : Bytes) → char_at s 0 ≡ b'/' → s ≡ b'/' ∷ drop 1 s
unfolding char_at
slash_first [] h = cc
slash_first (y ∷ s) h = ap (λ c. c ∷ s) h

-- Any other directory lists what is below it, after a slash.
override_name-below :
    (path x : Bytes) (o : Override)
    → (char_at path 1 == 0) ≡ false
    → (override_name path o ≡ some x) ↔ Names path x o
unfolding override_name
override_name-below path x o root =
    let guarded_below =
      guarded_twice (is_inject o.otype) (is_prefix path o.path)
        (char_at o.path (length path) == b'/') (has b'/' (drop (length path + 1) o.path))
        (drop (length path + 1) o.path) x in
    rw root (
      λ h.
          let (i, p, c, d, e) = guarded_below.0 h in
          let whole = is_prefix-drop path o.path p in
          let at_slash =
            sym (slash_at path (drop (length path) o.path))
            ∙ ap (λ s. char_at s (length path)) (sym whole)
            ∙ (==_iff _ _).0 c in
          let tail = slash_first (drop (length path) o.path) at_slash in
          let full = whole ∙ ap (λ t. path ++ t) tail in
          let rest =
            sym (slash_drop path (drop 1 (drop (length path) o.path)))
            ∙ ap (drop (length path + 1)) (sym full)
            ∙ e in
          record {
            kind = i;
            where_it_is =
                full ∙ ap (λ t. path ++ (b'/' ∷ t)) rest ∙ sym (full_path-below path x root);
            plain = ap (has b'/') (sym e) ∙ d;
          },
      λ n.
          let full = n.where_it_is ∙ full_path-below path x root in
          let (p, e) = (starts path o.path (b'/' ∷ x)).1 full in
          let rest = ap (drop (length path + 1)) full ∙ slash_drop path x in
          guarded_below.1 (
            n.kind,
            p,
            (==_iff _ _).1 (ap (λ s. char_at s (length path)) full ∙ slash_at path (b'/' ∷ x)),
            ap (has b'/') rest ∙ n.plain,
            rest,
          ),
    )

override_name-Names :
    (path x : Bytes) (o : Override)
    → ((char_at path 1 == 0) ≡ true → length path ≡ 1)
    → (override_name path o ≡ some x) ↔ Names path x o
override_name-Names path x o one = elim (Bool-cases (char_at path 1 == 0)) [
  | inl t ↦ override_name-root path x o t (one t)
  | inr f ↦ override_name-below path x o f
]

Listed-with_name :
    (x : Bytes) (name : Option Bytes) (names : List Bytes)
    → Listed x (with_name name names) ↔ ((name ≡ some x) ⊎ Listed x names)
Listed-with_name x none names = (λ h. inr h, λ h. elim h [ inl e ↦ cc | inr r ↦ r ])
Listed-with_name x (some name) names = (
  λ h. elim h [ inl e ↦ inl (ap some e) | inr r ↦ inr r ],
  λ h. elim h [ inl e ↦ inl cc | inr r ↦ inr r ],
)

pub override_names-Overridden :
    (path x : Bytes) (os : List Override)
    → ((char_at path 1 == 0) ≡ true → length path ≡ 1)
    → Listed x (override_names path os) ↔ Overridden path x os
unfolding override_names
override_names-Overridden path x [] one = (λ h. h, λ h. h)
override_names-Overridden path x (o ∷ os) one =
    let here = override_name-Names path x o one in
    let rest = override_names-Overridden path x os one in
    let both = Listed-with_name x (override_name path o) (override_names path os) in
    (
      λ h. elim (both.0 h) [ inl e ↦ inl (here.0 e) | inr r ↦ inr (rest.0 r) ],
      λ h. both.1 (elim h [ inl n ↦ inl (here.1 n) | inr r ↦ inr (rest.1 r) ]),
    )
