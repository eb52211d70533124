-- ===== src/Strat/Restrict/Entries.antt =====
-- What `restrict_envvar` makes of a value, entry by entry.
use bedrocklinux_userland.Base.{
  ℕ, zero, suc, ◌+◌, ◌≤◌, ◌<◌, ◌≡◌, refl, sym, ap, ◌∙◌, ◌⊎◌, inl, inr, Bool, true, false, List, [],
  ◌∷◌, ◌++◌, none, some, arith, length, take-all, length-append, append_assoc, if◌then◌else◌,
  Option-cases, Bool-cases,
}
use bedrocklinux_userland.CString.{Bytes, has, cut, is_prefix}
use bedrocklinux_userland.CString.Laws.{cut-eq-some, cut-eq-none}
use bedrocklinux_userland.CString.Entries.{split, join, split-of_has, split-append}
use bedrocklinux_userland.Strat.Restrict.{append_entry, restrict_loop}

-- The entries that do not begin with `p`.
abbrev pub outside : Bytes → List Bytes → List Bytes
outside p [] = []
outside p (e ∷ es) = if is_prefix p e then outside p es else e ∷ outside p es

-- The list from its first entry that is not empty.
abbrev pub from_nonempty : List Bytes → List Bytes
from_nonempty [] = []
from_nonempty ([] ∷ es) = from_nonempty es
from_nonempty ((x ∷ e) ∷ es) = (x ∷ e) ∷ es

abbrev gather : Bytes → List Bytes → Bytes
gather acc [] = acc
gather acc (e ∷ es) = gather (append_entry acc e) es

-- `join` does not see where a separator came from.
join-merge :
    (a e : Bytes) (es : List Bytes) → join b':' ((a ++ (b':' ∷ e)) ∷ es) ≡ join b':' (a ∷ e ∷ es)
unfolding join
join-merge a e [] = refl
join-merge a e (f ∷ es) = append_assoc a (b':' ∷ e) (b':' ∷ join b':' (f ∷ es))

gather-join :
    (x : ℕ) (acc : Bytes) (es : List Bytes) → gather (x ∷ acc) es ≡ join b':' ((x ∷ acc) ∷ es)
unfolding append_entry join
gather-join x acc [] = refl
gather-join x acc (e ∷ es) = gather-join x (acc ++ (b':' ∷ e)) es ∙ join-merge (x ∷ acc) e es

gather-from_nonempty : (es : List Bytes) → gather [] es ≡ join b':' (from_nonempty es)
unfolding append_entry join
gather-from_nonempty [] = refl
gather-from_nonempty ([] ∷ es) = gather-from_nonempty es
gather-from_nonempty ((x ∷ e) ∷ es) = gather-join x e es

-- A prefix with no colon in it lies within the first entry.
pub is_prefix-entry :
    (c : ℕ) (p e s : Bytes) → has c p ≡ false → is_prefix p (e ++ (c ∷ s)) ≡ is_prefix p e
unfolding is_prefix has
is_prefix-entry c [] e s h = refl
is_prefix-entry c (x ∷ p) [] s h = ground arith
is_prefix-entry c (x ∷ p) (y ∷ e) s h = ground (arith, is_prefix-entry c p e s)

-- The buffer holds less than the part of the value that has been read.
abbrev Fits : Bytes → ℕ → Type 0
Fits acc n = (acc ≡ []) ⊎ (length acc < n)

length-append_entry :
    (acc e : Bytes) (n : ℕ) → Fits acc n → length (append_entry acc e) ≤ n + length e
unfolding append_entry
length-append_entry [] e n h = omega arith
length-append_entry (x ∷ acc) e n (inl h) = cc
length-append_entry (x ∷ acc) e n (inr h) = omega (arith, length-append acc (b':' ∷ e))

module _ (cross : Bytes) (f : ℕ) (start acc : Bytes) (at : ℕ) where
  restrict_loop_last :
      cut b':' start ≡ none
      → restrict_loop cross (suc f) start at acc ≡ some (gather acc (outside cross (start ∷ [])))
  unfolding restrict_loop
  restrict_loop_last e = ground arith

  -- One round, without the cut that `new_val[end - val] = '\0'` makes: it cuts nothing off.
  restrict_loop_next :
      (a r : Bytes)
      → has b':' cross ≡ false
      → cut b':' start ≡ some (a, r)
      → Fits acc at
      → restrict_loop cross (suc f) start at acc
        ≡ restrict_loop cross f r
            (at + length a + 1)
            (if is_prefix cross a then acc else append_entry acc a)
  unfolding restrict_loop
  restrict_loop_next a r n e fits =
      let whole = (cut-eq-some b':' start a r e).0 in
      let same = ap (is_prefix cross) whole ∙ is_prefix-entry b':' cross a r n in
      ground (
        arith,
        same,
        take-all (at + length a) (append_entry acc a) (length-append_entry acc a at fits),
      )

Fits-next :
    (b : Bool) (acc a : Bytes) (at : ℕ)
    → Fits acc at
    → Fits (if b then acc else append_entry acc a) (at + length a + 1)
Fits-next true acc a at (inl h) = inl h
Fits-next true acc a at (inr h) = inr (omega arith)
Fits-next false acc a at h = inr (omega (arith, length-append_entry acc a at h))

gather-outside :
    (cross acc a : Bytes) (es : List Bytes)
    → gather (if is_prefix cross a then acc else append_entry acc a) (outside cross es)
      ≡ gather acc (outside cross (a ∷ es))
gather-outside cross acc a es = elim (Bool-cases (is_prefix cross a)) [
  | inl e ↦ rw e
  | inr e ↦ rw e
]

module _ (cross : Bytes) (n : has b':' cross ≡ false) where
  restrict_loop-gather :
      (f : ℕ) (start acc : Bytes) (at : ℕ)
      → length start < f
      → Fits acc at
      → restrict_loop cross f start at acc ≡ some (gather acc (outside cross (split b':' start)))
  restrict_loop-gather zero start acc at lt fits = absurd (omega arith)
  restrict_loop-gather (suc f) start acc at lt fits = elim (Option-cases (cut b':' start)) [
    | inl e ↦
        rw (split-of_has b':' start (cut-eq-none b':' start e))
          (restrict_loop_last cross f start acc at e)
    | inr ((a, r), e) ↦
        let (whole, first) = cut-eq-some b':' start a r e in
        let shorter = ap length whole ∙ length-append a (b':' ∷ r) in
        restrict_loop_next cross f start acc at a r n e fits
        ∙ restrict_loop-gather f r _ (at + length a + 1) (omega arith)
            (Fits-next (is_prefix cross a) acc a at fits)
        ∙ ap some (gather-outside cross acc a (split b':' r))
        ∙ ap (λ s. some (gather acc (outside cross s)))
            (sym (ap (split b':') whole ∙ split-append b':' a r first))
  ]

  -- The new value has the entries of the old one that do not begin with `cross`, in their order,
  -- less the empty ones at its front. The loop ends within the fuel that it is given.
  pub restrict_loop_lem :
      (val : Bytes)
      → restrict_loop cross (suc (length val)) val 0 []
        ≡ some (join b':' (from_nonempty (outside cross (split b':' val))))
  restrict_loop_lem val =
      restrict_loop-gather (suc (length val)) val [] 0 (omega arith) (inl refl)
      ∙ ap some (gather-from_nonempty (outside cross (split b':' val)))
