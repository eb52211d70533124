-- ===== src/Keyboard/Words.antt =====
-- The words of the capability files that src/keyboard_is_present/keyboard_is_present.c tests.
use bedrocklinux_userland.Base.{
  ℕ, zero, suc, ◌+◌, ◌*◌, ◌/◌, ◌%◌, ◌^◌, ==_iff, ◌≡◌, ◌⊎◌, ◌↔◌, inl, inr, refl, sym, ap, ◌∙◌, subst,
  true, false, List, [], ◌∷◌, ◌++◌, Option, none, some, arith,
}
use mathlib.Core.Option.{some-injective}
use bedrocklinux_userland.CString.{Bytes}
use bedrocklinux_userland.Keyboard.{
  Files, bit_and, has_bits, last_word, ev_key, keyboard_mask, file_has_bits,
}

-- The lowest bits of a number, so many, are 1.
abbrev pub AllSet : ℕ → ℕ → Type 0
AllSet zero a = Unit
AllSet (suc n) a = (a % 2 ≡ 1) × AllSet n (a / 2)

-- The last word of a file, as an `unsigned int`, is one of `P`.
abbrev pub EndsIn : Files → Bytes → (ℕ → Type 0) → Type 0
EndsIn fs path P =
    (front : List ℕ) × (w : ℕ) × (fs.hex_words path ≡ some (front ++ (w ∷ []))) × P (w % 2 ^ 32)

abbrev ones : ℕ → ℕ
ones zero = 0
ones (suc w) = 1 + 2 * ones w

bit_and-zero : (w a : ℕ) → bit_and w a 0 ≡ 0
unfolding bit_and
bit_and-zero zero a = refl
bit_and-zero (suc w) a = omega (arith, bit_and-zero w (a / 2))

odd_lem : (n : ℕ) → ((1 + 2 * n) % 2 ≡ 1) × ((1 + 2 * n) / 2 ≡ n)
odd_lem n = (omega arith, omega arith)

bit_and-ones : (w a : ℕ) → (bit_and w a (ones w) ≡ ones w) ↔ AllSet w a
unfolding bit_and
bit_and-ones zero a = (λ h. tt, λ h. refl)
bit_and-ones (suc w) a =
    let (odd, half) = odd_lem (ones w) in
    let rest = bit_and-ones w (a / 2) in
    let sum : bit_and (suc w) a (ones (suc w)) ≡ a % 2 + 2 * bit_and w (a / 2) (ones w) =
      rw (odd, half) (omega arith) in
    (λ h. (omega arith, rest.0 (omega arith)), λ (one, all). let same = rest.1 all in omega arith)

-- The test of the event types reads the lowest bit of the word, and no other.
has_bits-ev_key : (bits : ℕ) → (has_bits bits ev_key ≡ true) ↔ (bits % 2 ≡ 1)
unfolding has_bits bit_and
has_bits-ev_key bits = ground (arith, bit_and-zero 31 (bits / 2))

-- That of the keys reads the other 31.
has_bits-keyboard_mask : (bits : ℕ) → (has_bits bits keyboard_mask ≡ true) ↔ AllSet 31 (bits / 2)
unfolding has_bits bit_and
has_bits-keyboard_mask bits =
    let rest = bit_and-ones 31 (bits / 2) in
    let test = ==_iff (bit_and 32 bits keyboard_mask) keyboard_mask in
    (λ h. rest.0 (let eq = test.0 h in omega arith), λ h. test.1 (let eq = rest.1 h in omega arith))

last_word-append : (b : ℕ) (front : List ℕ) (w : ℕ) → last_word b (front ++ (w ∷ [])) ≡ w % 2 ^ 32
unfolding last_word
last_word-append b [] w = refl
last_word-append b (x ∷ front) w = last_word-append (x % 2 ^ 32) front w

words_lem :
    (words : List ℕ) → (words ≡ []) ⊎ ((front : List ℕ) × (w : ℕ) × (words ≡ front ++ (w ∷ [])))
words_lem [] = inl refl
words_lem (x ∷ words) = elim (words_lem words) [
  | inl e ↦ inr ([], x, ap (λ l. x ∷ l) e)
  | inr (front, w, e) ↦ inr (x ∷ front, w, ap (λ l. x ∷ l) e)
]

module _ (fs : Files) (path : Bytes) (mask : ℕ) (P : ℕ → Type 0)
    (test : (bits : ℕ) → (has_bits bits mask ≡ true) ↔ P bits) (nonzero : P 0 → ⊥) where
  words-EndsIn :
      (words : List ℕ)
      → fs.hex_words path ≡ some words
      → (has_bits (last_word 0 words) mask ≡ true) ↔ EndsIn fs path P
  unfolding last_word
  words-EndsIn words h = elim (words_lem words) [
    | inl e ↦ (
      λ t. absurd (nonzero ((test 0).0 (rw e at t))),
      λ (front, w, e', p). absurd (no_end front w (sym e ∙ some-injective words _ (sym h ∙ e'))),
    )
    | inr (front, w, e) ↦ (
      λ t. (
        front,
        w,
        h ∙ ap some e,
        subst P (ap (last_word 0) e ∙ last_word-append 0 front w) ((test (last_word 0 words)).0 t),
      ),
      λ (front', w', e', p). (test (last_word 0 words)).1 (
          subst P
            (sym (
              ap (last_word 0) (some-injective words _ (sym h ∙ e'))
              ∙ last_word-append 0 front' w'))
            p),
    )
  ]
    where
      no_end : (front : List ℕ) (w : ℕ) → [] ≡ front ++ (w ∷ []) → ⊥
      no_end [] w e = cc
      no_end (x ∷ front) w e = cc

  read-EndsIn :
      (o : Option (List ℕ))
      → fs.hex_words path ≡ o
      → (elim o [ none ↦ false | some words ↦ has_bits (last_word 0 words) mask ] ≡ true)
        ↔ EndsIn fs path P
  read-EndsIn none n = (λ t. cc, λ (front, w, e, p). absurd (not_some (sym n ∙ e)))
    where
      not_some : {A : Type 0} {a : A} → ◌≡◌ {A = Option A} none (some a) → ⊥
      not_some e = cc
  read-EndsIn (some words) h = words-EndsIn words h

  file_has_bits-EndsIn : (file_has_bits fs path mask ≡ true) ↔ EndsIn fs path P
  unfolding file_has_bits
  file_has_bits-EndsIn = read-EndsIn (fs.hex_words path) refl

-- The lowest bit of the event types is set.
abbrev pub HasEvent : Files → Bytes → Type 0
HasEvent fs path = EndsIn fs path (λ bits. bits % 2 ≡ 1)

-- The keys 1 to 31 are set.
abbrev pub HasKeys : Files → Bytes → Type 0
HasKeys fs path = EndsIn fs path (λ bits. AllSet 31 (bits / 2))

pub file_has_bits-HasEvent :
    (fs : Files) (path : Bytes) → (file_has_bits fs path ev_key ≡ true) ↔ HasEvent fs path
file_has_bits-HasEvent fs path =
    file_has_bits-EndsIn fs path ev_key (λ bits. bits % 2 ≡ 1) has_bits-ev_key (λ h. omega arith)

pub file_has_bits-HasKeys :
    (fs : Files) (path : Bytes) → (file_has_bits fs path keyboard_mask ≡ true) ↔ HasKeys fs path
file_has_bits-HasKeys fs path =
    file_has_bits-EndsIn fs path keyboard_mask (λ bits. AllSet 31 (bits / 2)) has_bits-keyboard_mask
      (λ h. let first = h.0 in omega arith)
