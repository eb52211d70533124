-- ===== src/CString/Laws.antt =====
-- What the string functions say of their arguments.
use bedrocklinux_userland.Base.{
  ℕ, ◌<◌, true, false, [], ◌∷◌, ◌++◌, none, some, ◌≡◌, ◌↔◌, inl, inr, refl, ap, arith, length, drop,
  length-append, Option-cases,
}
use bedrocklinux_userland.CString.{Bytes, str_eq, is_prefix, has, cut, rcut}

pub str_eq_iff : (a b : Bytes) → (str_eq a b ≡ true) ↔ (a ≡ b)
unfolding str_eq
str_eq_iff (x ∷ a) (y ∷ b) = ground (arith, str_eq_iff a b)
str_eq_iff _ _ = ground arith

pub str_eq_refl : (a : Bytes) → str_eq a a ≡ true
str_eq_refl a = (str_eq_iff a a).1 refl

pub is_prefix-append : (p s : Bytes) → is_prefix p (p ++ s) ≡ true
unfolding is_prefix
is_prefix-append [] s = refl
is_prefix-append (x ∷ p) s = ground (arith, is_prefix-append p s)

pub is_prefix-drop : (p s : Bytes) → is_prefix p s ≡ true → s ≡ p ++ drop (length p) s
unfolding is_prefix
is_prefix-drop [] s h = refl
is_prefix-drop (x ∷ p) [] h = cc
is_prefix-drop (x ∷ p) (y ∷ s) h = ground (arith, is_prefix-drop p s)

pub has-append : (c : ℕ) (a b : Bytes) → has c a ≡ true → has c (a ++ b) ≡ true
unfolding has
has-append c [] b h = cc
has-append c (x ∷ a) b h = ground (arith, has-append c a b)

pub has-append_false :
    (c : ℕ) (a b : Bytes) → has c a ≡ false → has c b ≡ false → has c (a ++ b) ≡ false
unfolding has
has-append_false c [] b h k = k
has-append_false c (x ∷ a) b h k = ground (arith, has-append_false c a b)

pub has-append_right : (c : ℕ) (a b : Bytes) → has c (a ++ (c ∷ b)) ≡ true
unfolding has
has-append_right c [] b = ground arith
has-append_right c (x ∷ a) b = ground (arith, has-append_right c a b)

-- `cut` splits at the first `c`.
pub cut-eq-some :
    (c : ℕ) (s a b : Bytes) → cut c s ≡ some (a, b) → (s ≡ a ++ (c ∷ b)) × (has c a ≡ false)
unfolding cut has
cut-eq-some c [] a b h = cc
cut-eq-some c (x ∷ s) a b h = elim (Option-cases (cut c s)) [
  | inl e ↦ ground arith
  | inr ((a', b'), e) ↦ ground (arith, cut-eq-some c s a' b' e)
]

pub cut-eq-none : (c : ℕ) (s : Bytes) → cut c s ≡ none → has c s ≡ false
unfolding cut has
cut-eq-none c [] h = refl
cut-eq-none c (x ∷ s) h = ground (arith, cut-eq-none c s)

pub cut-append : (c : ℕ) (a b : Bytes) → has c a ≡ false → cut c (a ++ (c ∷ b)) ≡ some (a, b)
unfolding cut has
cut-append c [] b h = ground arith
cut-append c (x ∷ a) b h = ground (arith, cut-append c a b)

pub cut-eq-none_of_has : (c : ℕ) (s : Bytes) → has c s ≡ false → cut c s ≡ none
unfolding cut has
cut-eq-none_of_has c [] h = refl
cut-eq-none_of_has c (x ∷ s) h = ground (arith, cut-eq-none_of_has c s)

pub rcut-eq-none : (c : ℕ) (s : Bytes) → rcut c s ≡ none → has c s ≡ false
unfolding rcut has
rcut-eq-none c [] h = refl
rcut-eq-none c (x ∷ s) h = ground (arith, rcut-eq-none c s)

-- `rcut` splits at the last `c`.
pub rcut-eq-some :
    (c : ℕ) (s a b : Bytes) → rcut c s ≡ some (a, b) → (s ≡ a ++ (c ∷ b)) × (has c b ≡ false)
unfolding rcut
rcut-eq-some c [] a b h = cc
rcut-eq-some c (x ∷ s) a b h = elim (Option-cases (rcut c s)) [
  | inl e ↦ ground (arith, rcut-eq-none c s e)
  | inr ((a', b'), e) ↦ ground (arith, rcut-eq-some c s a' b' e)
]

pub rcut-eq-none_of_has : (c : ℕ) (s : Bytes) → has c s ≡ false → rcut c s ≡ none
unfolding rcut has
rcut-eq-none_of_has c [] h = refl
rcut-eq-none_of_has c (x ∷ s) h = ground (arith, rcut-eq-none_of_has c s)

pub rcut-append : (c : ℕ) (a b : Bytes) → has c b ≡ false → rcut c (a ++ (c ∷ b)) ≡ some (a, b)
unfolding rcut
rcut-append c [] b h = ground (arith, rcut-eq-none_of_has c b h)
rcut-append c (x ∷ a) b h = ground (arith, rcut-append c a b)

pub length-rcut : (c : ℕ) (s a b : Bytes) → rcut c s ≡ some (a, b) → length a < length s
length-rcut c s a b h = omega (arith, ap length (rcut-eq-some c s a b h).0, length-append a (c ∷ b))

pub rcut-has : (c : ℕ) (s a b : Bytes) → rcut c s ≡ some (a, b) → has c s ≡ true
rcut-has c s a b h = rw (rcut-eq-some c s a b h).0 (has-append_right c a b)
