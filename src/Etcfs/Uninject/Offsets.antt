-- ===== src/Etcfs/Uninject/Offsets.antt =====
-- The offsets with which `uninject` of src/etcfs/etcfs.c works.
use bedrocklinux_userland.Base.{
  ℕ, zero, suc, ◌+◌, ◌-◌, ◌*◌, ◌≤◌, ◌≡◌, inl, inr, refl, sym, ap, ◌∙◌, Bool, List, [], ◌∷◌, ◌++◌,
  Option, none, some, length, take, drop, replicate, ◌==◌, arith, Bool-cases, drop-all,
  append_assoc, append-nil, length-append, length-take, drop-append,
}
use bedrocklinux_userland.CString.{Bytes, is_prefix}
use bedrocklinux_userland.CString.Laws.{is_prefix-drop}
use bedrocklinux_userland.Etcfs.Files.{resize}
use bedrocklinux_userland.Etcfs.Uninject.{later, strstr, search, write_at}

-- Where the string starts.
Later-cases :
    (o : Option (Option ℕ)) (i : ℕ)
    → later o ≡ some (some i)
    → (j : ℕ) × (o ≡ some (some j)) × (i ≡ suc j)
Later-cases none i h = cc
Later-cases (some none) i h = cc
Later-cases (some (some j)) i h = (j, refl, cc)

pub strstr-split :
    (str part : Bytes) (i : ℕ)
    → strstr str part ≡ some (some i)
    → (before : Bytes) × (after : Bytes) × (part ≡ before ++ (str ++ after)) × (i ≡ length before)
unfolding strstr
strstr-split str [] i h = cc
strstr-split str (x ∷ s) i h = elim (Bool-cases (is_prefix str (x ∷ s))) [
  | inl t ↦ let e = rw t at h in ([], drop (length str) (x ∷ s), is_prefix-drop str (x ∷ s) t, cc)
  | inr f ↦ elim (Bool-cases (x == 0)) [
    | inl z ↦ let e = rw (f, z) at h in cc
    | inr z ↦
        let (j, found, size) = Later-cases (strstr str s) i (rw (f, z) at h) in
        let (before, after, whole, at) = strstr-split str s j found in
        (x ∷ before, after, ap (λ t. x ∷ t) whole, size ∙ ap suc at)
  ]
]

take-prefix : (b t : Bytes) (n : ℕ) → length b ≤ n → take (length b) (take n (b ++ t)) ≡ b
take-prefix [] t n h = refl
take-prefix (x ∷ b) t zero h = absurd (omega arith)
take-prefix (x ∷ b) t (suc n) h = ap (λ u. x ∷ u) (take-prefix b t n (omega arith))

-- The bytes behind the string take its place, and the file gets its size.
pub shifted :
    (before str after : Bytes) (n : ℕ)
    → n ≡ length (before ++ (str ++ after)) - length str
    → write_at (length before) after (resize n (before ++ (str ++ after))) ≡ before ++ after
shifted before str after n size =
    let zeros : Bytes = replicate n 0 in
    let fits : n ≡ length before + length after =
      omega (arith, size, length-append before (str ++ after), length-append str after) in
    let kept =
      ap (λ t. take (length before) (take n t)) (append_assoc before (str ++ after) zeros)
      ∙ take-prefix before ((str ++ after) ++ zeros) n (omega (arith, fits)) in
    let gone =
      drop-all (length before + length after) (resize n (before ++ (str ++ after)))
        (omega (arith, fits, length-take n ((before ++ (str ++ after)) ++ zeros))) in
    ap
      (λ t.
        t ++ (after ++ drop (length before + length after) (resize n (before ++ (str ++ after)))))
      kept
    ∙ (ap (λ t. before ++ (after ++ t)) gone ∙ ap (λ t. before ++ t) (append-nil after))

pub search-first :
    (str first : Bytes) (seeks : Bool) (reads : List (Option Bytes × Bool)) (i : ℕ)
    → strstr str first ≡ some (some i)
    → search str 0 ((some first, seeks) ∷ reads) ≡ some (some i)
unfolding search
search-first str first seeks reads i h =
    rw (search, h) (ap (λ n. some (some n)) (at_start i (length str)))
  where
    at_start : (a b : ℕ) → a + 0 * b ≡ a
    at_start a b = omega arith

pub drop-behind :
    (before str after : Bytes)
    → drop (length before + length str) (before ++ (str ++ after)) ≡ after
drop-behind before str after =
    ap (λ n. drop n (before ++ (str ++ after))) (sym (length-append before str))
    ∙ (ap (drop (length (before ++ str))) (sym (append_assoc before str after))
        ∙ drop-append (before ++ str) after)
