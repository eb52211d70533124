-- ===== src/Base/Process.antt =====
-- A C function over a state `S`: it returns a value, or stops its caller too (an `exit`, a
-- successful `execv`, the `return` of a macro) with an `X`.

use mathlib.Core.Path.{◌≡◌, ap}

pub data Flow (X A : Type 0) : Type 0 where
  ret : A → Flow X A
  stop : X → Flow X A

abbrev pub M : Type 0 → Type 0 → Type 0 → Type 0
M S X A = S → Flow X A × S

module _ {S X A : Type 0} where
  abbrev pub pure : A → M S X A
  pure a s = (ret a, s)

  abbrev pub halt : X → M S X A
  halt x s = (stop x, s)

module _ {S X A B : Type 0} where
  abbrev pub continue : (A → M S X B) → Flow X A → S → Flow X B × S
  continue f (ret a) s = f a s
  continue f (stop x) s = (stop x, s)

  infixl 5 ◌>>=◌
  abbrev pub ◌>>=◌ : M S X A → (A → M S X B) → M S X B
  ◌>>=◌ m f s = continue f (m s).0 (m s).1

module _ {S X B : Type 0} where
  infixl 5 ◌>>◌
  abbrev pub ◌>>◌ : M S X (Unit {0}) → M S X B → M S X B
  m >> k = m >>= λ _. k

pub ret-injective : {X A : Type 0} {a b : A} → ◌≡◌ {A = Flow X A} (ret a) (ret b) → a ≡ b
ret-injective {a} h = ap (elim [ ret x ↦ x | stop x ↦ a ]) h
