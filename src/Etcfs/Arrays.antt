-- ===== src/Etcfs/Arrays.antt =====
-- The used part of an array: sums over it, searches in it, and the removal that moves the last
-- element.
use native.Mathlib.Decide.{ℕ_discrete}
use mathlib.Core.Option.{some-injective}
use bedrocklinux_userland.Base.{
  ℕ, zero, suc, ◌+◌, ◌-◌, ◌<◌, ◌≡◌, ◌≢◌, refl, sym, ap, ◌∙◌, Bool, true, false, List, [], ◌∷◌, ◌++◌,
  none, some, length, take, set, get_elem?, length-set, arith, if◌then◌else◌, ◌==◌, Option-cases,
  Bool-cases, inl, inr, ==_iff,
}
use bedrocklinux_userland.Etcfs.Config.{find_index, swap_remove}

module _ {ℓ} {A : Type ℓ} (f : A → ℕ) where
  abbrev pub total : List A → ℕ
  total [] = 0
  total (x ∷ xs) = f x + total xs

  pub total-append : (xs ys : List A) → total (xs ++ ys) ≡ total xs + total ys
  total-append [] ys = omega arith
  total-append (x ∷ xs) ys = omega (arith, total-append xs ys)

  pub total-set :
      (xs : List A) (i : ℕ) (x v : A)
      → get_elem? xs i ≡ some x
      → total (set xs i v) + f x ≡ total xs + f v
  total-set [] i x v h = cc
  total-set (y ∷ xs) zero x v h = ground arith
  total-set (y ∷ xs) (suc i) x v h = omega (arith, total-set xs i x v h)

  total-take :
      (xs : List A) (n : ℕ) (x : A)
      → length xs ≡ suc n
      → get_elem? xs n ≡ some x
      → total (take n xs) + f x ≡ total xs
  total-take [] n x e h = cc
  total-take (y ∷ []) zero x e h = ground arith
  total-take (y ∷ z ∷ xs) zero x e h = absurd (omega arith)
  total-take (y ∷ xs) (suc n) x e h = omega (arith, total-take xs n x (omega arith) h)

module _ {ℓ} {A : Type ℓ} where
  pub get_elem?-lt : (xs : List A) (i : ℕ) (x : A) → get_elem? xs i ≡ some x → i < length xs
  get_elem?-lt [] i x h = cc
  get_elem?-lt (y ∷ xs) zero x h = omega arith
  get_elem?-lt (y ∷ xs) (suc i) x h = omega (arith, get_elem?-lt xs i x h)

  get_elem?-last : (xs : List A) (n : ℕ) → length xs ≡ suc n → (x : A) × (get_elem? xs n ≡ some x)
  get_elem?-last [] n h = absurd (omega arith)
  get_elem?-last (x ∷ xs) zero h = (x, refl)
  get_elem?-last (x ∷ xs) (suc n) h = get_elem?-last xs n (omega arith)

  get_elem?-set_ne :
      (xs : List A) (i j : ℕ) (v : A) → i ≢ j → get_elem? (set xs i v) j ≡ get_elem? xs j
  get_elem?-set_ne [] i j v h = refl
  get_elem?-set_ne (x ∷ xs) zero zero v h = absurd (h refl)
  get_elem?-set_ne (x ∷ xs) zero (suc j) v h = refl
  get_elem?-set_ne (x ∷ xs) (suc i) zero v h = refl
  get_elem?-set_ne (x ∷ xs) (suc i) (suc j) v h = get_elem?-set_ne xs i j v (λ e. h (ap suc e))

  length-take_pred : (xs : List A) (n : ℕ) → length xs ≡ suc n → length (take n xs) ≡ n
  length-take_pred [] n h = absurd (omega arith)
  length-take_pred (x ∷ xs) zero h = refl
  length-take_pred (x ∷ xs) (suc n) h = ap suc (length-take_pred xs n (omega arith))

  module _ (p : A → Bool) where
    find_index-nil : find_index p [] ≡ none
    unfolding find_index
    find_index-nil = refl

    find_index-here : (x : A) (xs : List A) → p x ≡ true → find_index p (x ∷ xs) ≡ some 0
    unfolding find_index
    find_index-here x xs e = rw e

    find_index-later :
        (x : A) (xs : List A) (j : ℕ)
        → p x ≡ false
        → find_index p xs ≡ some j
        → find_index p (x ∷ xs) ≡ some (suc j)
    unfolding find_index
    find_index-later x xs j e h = rw (e, h)

    find_index-absent :
        (x : A) (xs : List A) → p x ≡ false → find_index p xs ≡ none → find_index p (x ∷ xs) ≡ none
    unfolding find_index
    find_index-absent x xs e h = rw (e, h)

    -- The index at which the loop breaks holds an element that passes the test.
    pub find_index-eq-some :
        (xs : List A) (i : ℕ)
        → find_index p xs ≡ some i
        → (x : A) × (get_elem? xs i ≡ some x) × (p x ≡ true)
    find_index-eq-some [] i h = cc (find_index-nil, h)
    find_index-eq-some (x ∷ xs) i h = elim (Bool-cases (p x)) [
      | inl e ↦ let at = some-injective 0 i (sym (find_index-here x xs e) ∙ h) in (x, rw (← at), e)
      | inr e ↦ elim (Option-cases (find_index p xs)) [
        | inl r ↦ cc (find_index-absent x xs e r, h)
        | inr (j, r) ↦
            let (y, found, passes) = find_index-eq-some xs j r in
            let at = some-injective (suc j) i (sym (find_index-later x xs j e r) ∙ h) in
            (y, rw (← at) found, passes)
      ]
    ]

    -- If the loop runs to the end, no element passes the test.
    pub find_index-eq-none :
        (xs : List A) → find_index p xs ≡ none → total (λ x. if p x then 1 else 0) xs ≡ 0
    find_index-eq-none [] h = refl
    find_index-eq-none (x ∷ xs) h = elim (Bool-cases (p x)) [
      | inl e ↦ cc (find_index-here x xs e, h)
      | inr e ↦ elim (Option-cases (find_index p xs)) [
        | inl r ↦ rw e (omega (arith, find_index-eq-none xs r))
        | inr (j, r) ↦ cc (find_index-later x xs j e r, h)
      ]
    ]

-- What `swap_remove` leaves, by cases on whether the last element goes.
module _ {ℓ} {A : Type ℓ} (xs : List A) (n i : ℕ) (size : length xs ≡ suc n) where
  swap_remove_last : i ≡ n → swap_remove i xs ≡ take n xs
  unfolding swap_remove
  swap_remove_last e = let m : length xs - 1 ≡ n = omega arith in rw (m, e, (==_iff n n).1 refl)

  swap_remove_inner :
      (l : A) → i ≢ n → get_elem? xs n ≡ some l → swap_remove i xs ≡ take n (set xs i l)
  unfolding swap_remove
  swap_remove_inner l ne e =
      let m : length xs - 1 ≡ n = omega arith in
      let other : (i == n) ≡ false = ground arith in rw (m, e, other)

  -- Exactly the element at `i` goes, whatever is summed up.
  pub total-swap_remove :
      (f : A → ℕ) (x : A) → get_elem? xs i ≡ some x → total f (swap_remove i xs) + f x ≡ total f xs
  total-swap_remove f x h = elim (ℕ_discrete i n) [
    | yes e ↦ rw (swap_remove_last e) (total-take f xs n x size (rw e at h))
    | no ne ↦
        let (l, last) = get_elem?-last xs n size in
        let kept =
          total-take f (set xs i l) n l (length-set xs i l ∙ size)
            (get_elem?-set_ne xs i n l ne ∙ last) in
        rw (swap_remove_inner l ne last) (omega (arith, kept, total-set f xs i x l h))
  ]

  pub length-swap_remove : length (swap_remove i xs) ≡ n
  length-swap_remove = elim (ℕ_discrete i n) [
    | yes e ↦ rw (swap_remove_last e) (length-take_pred xs n size)
    | no ne ↦
        let (l, last) = get_elem?-last xs n size in
        rw (swap_remove_inner l ne last)
          (length-take_pred (set xs i l) n (length-set xs i l ∙ size))
  ]
