-- ===== src/Crossfs/Read.antt =====
-- `strcatoff` of src/crossfs/crossfs.c: output that is built from pieces, from an offset on.
use bedrocklinux_userland.Base.{
  ℕ, zero, suc, ◌+◌, ◌-◌, ◌≤◌, ◌<◌, ◌^◌, ◌⊎◌, ◌≡◌, refl, sym, ap, ◌∙◌, List, [], ◌∷◌, ◌++◌, min,
  length, take, drop, if◌then◌else◌, leb, arith, length-append, length-take, length-drop,
  append_assoc, append-nil, take-all, ap₂, inl, inr, concat,
}
use bedrocklinux_userland.CString.{Bytes}

-- The variables that `strcatoff` changes: `out` is what was written, so `*wrote` is its length.
pub record Output : Type 0 where
  pub out : Bytes
  pub offset : ℕ

-- `max - (*wrote)` as a `size_t`, which wraps around.
unfoldable pub room : ℕ → ℕ → ℕ
room max wrote = if leb wrote max then max - wrote else (max + 2 ^ 64) - wrote

-- `strcatoff(buf, str, str_len, offset, wrote, max)`
unfoldable pub strcatoff : ℕ → Bytes → Output → Output
unfolding room
strcatoff max str o =
    if leb (length str) o.offset then record o { offset = o.offset - length str } else record {
      out =
          o.out ++ take (min (length str - o.offset) (room max (length o.out))) (drop o.offset str);
      offset = 0;
    }

-- A call for each piece, as the callers make them.
unfoldable pub strcatoff_all : ℕ → List Bytes → Output → Output
unfolding strcatoff
strcatoff_all max [] o = o
strcatoff_all max (s ∷ ss) o = strcatoff_all max ss (strcatoff max s o)

≤-lt-cases : (a b : ℕ) → (a ≤ b) ⊎ (b < a)
≤-lt-cases a b = ground arith

zero-sub : (n : ℕ) → 0 ≡ 0 - n
zero-sub n = omega arith

take-nil : (n : ℕ) → take {A = ℕ} n [] ≡ []
take-nil zero = refl
take-nil (suc n) = refl

drop-nil : (n : ℕ) → drop {A = ℕ} n [] ≡ []
drop-nil zero = refl
drop-nil (suc n) = refl

drop-append_le : (n : ℕ) (s t : Bytes) → n ≤ length s → drop n (s ++ t) ≡ drop n s ++ t
drop-append_le zero s t h = refl
drop-append_le (suc n) [] t h = absurd (omega arith)
drop-append_le (suc n) (x ∷ s) t h = drop-append_le n s t (omega arith)

drop-append_ge : (n : ℕ) (s t : Bytes) → length s ≤ n → drop n (s ++ t) ≡ drop (n - length s) t
drop-append_ge n [] t h = ap (λ k. drop k t) (omega arith)
drop-append_ge zero (x ∷ s) t h = absurd (omega arith)
drop-append_ge (suc n) (x ∷ s) t h =
    drop-append_ge n s t (omega arith) ∙ ap (λ k. drop k t) (omega arith)

take-append_split : (k : ℕ) (s t : Bytes) → take k (s ++ t) ≡ take k s ++ take (k - length s) t
take-append_split k [] t =
    ap (λ m. take m t) (omega arith) ∙ ap (λ m. m ++ take (k - 0) t) (sym (take-nil k))
take-append_split zero (x ∷ s) t = ap (λ m. take m t) (zero-sub (suc (length s)))
take-append_split (suc k) (x ∷ s) t =
    ap (◌∷◌ x) (take-append_split k s t ∙ ap (λ m. take k s ++ take m t) (omega arith))

take-min : (k : ℕ) (s : Bytes) → take (min (length s) k) s ≡ take k s
take-min k s = elim (≤-lt-cases k (length s)) [
  | inl h ↦ ap (λ n. take n s) (omega arith)
  | inr h ↦
      ap (λ n. take n s) (omega arith)
      ∙ (take-all (length s) s (omega arith) ∙ sym (take-all k s (omega arith)))
]

room_le : (max wrote : ℕ) → wrote ≤ max → room max wrote ≡ max - wrote
unfolding room
room_le max wrote h = ground arith

skip_lem :
    (max : ℕ) (s : Bytes) (o : Output)
    → length s ≤ o.offset
    → strcatoff max s o ≡ record o { offset = o.offset - length s }
unfolding strcatoff
skip_lem max s o h = ground arith

write_lem :
    (max : ℕ) (s : Bytes) (o : Output)
    → o.offset < length s
    → length o.out ≤ max
    → strcatoff max s o
      ≡ record { out = o.out ++ take (max - length o.out) (drop o.offset s); offset = 0 }
unfolding strcatoff
write_lem max s o h le =
    let fits : take (min (length s - o.offset) (room max (length o.out))) (drop o.offset s)
        ≡ take (max - length o.out) (drop o.offset s) =
      ap (λ n. take n (drop o.offset s))
        (ap₂ min (sym (length-drop o.offset s)) (room_le max (length o.out) le))
      ∙ take-min (max - length o.out) (drop o.offset s) in
    ground (arith, fits)

-- The window on the rest continues the window on the piece.
window_lem :
    (max wrote offset : ℕ) (s rest : Bytes) (n : ℕ)
    → offset < length s
    → wrote ≤ max
    → n ≡ wrote + length (take (max - wrote) (drop offset s))
    → take (max - wrote) (drop offset s) ++ take (max - n) rest
      ≡ take (max - wrote) (drop offset (s ++ rest))
window_lem max wrote offset s rest n h le e =
    ap (λ m. take (max - wrote) (drop offset s) ++ take m rest)
      (omega (arith, length-take (max - wrote) (drop offset s)))
    ∙ sym (take-append_split (max - wrote) (drop offset s) rest)
    ∙ ap (take (max - wrote)) (sym (drop-append_le offset s rest (omega arith)))

-- Calls of `strcatoff` for the pieces write the window of their concatenation that starts at the
-- offset and fits behind what was already written, if that does not exceed `max`.
pub strcatoff_all-take :
    (max : ℕ) (ss : List Bytes) (o : Output)
    → length o.out ≤ max
    → (strcatoff_all max ss o).out ≡ o.out ++ take (max - length o.out) (drop o.offset (concat ss))
unfolding strcatoff_all
strcatoff_all-take max [] o le = sym (
    ap (λ t. o.out ++ t)
      (ap (take (max - length o.out)) (drop-nil o.offset) ∙ take-nil (max - length o.out))
    ∙ append-nil o.out)
strcatoff_all-take max (s ∷ ss) o le = elim (≤-lt-cases (length s) o.offset) [
  | inl h ↦
      ap (λ r. (strcatoff_all max ss r).out) (skip_lem max s o h)
      ∙ strcatoff_all-take max ss (record o { offset = o.offset - length s }) le
      ∙ ap (λ t. o.out ++ take (max - length o.out) t)
          (sym (drop-append_ge o.offset s (concat ss) h))
  | inr h ↦
      let t = take (max - length o.out) (drop o.offset s) in
      ap (λ r. (strcatoff_all max ss r).out) (write_lem max s o h le)
      ∙ strcatoff_all-take max ss (record { out = o.out ++ t; offset = 0 })
          (omega (arith, length-append o.out t, length-take (max - length o.out) (drop o.offset s)))
      ∙ append_assoc o.out t _
      ∙ ap (λ r. o.out ++ r)
          (window_lem max (length o.out) o.offset s (concat ss) (length (o.out ++ t)) h le
            (length-append o.out t))
]
