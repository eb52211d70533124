-- ===== src/Keyboard/Present.antt =====
-- When `main` of src/keyboard_is_present/keyboard_is_present.c reports a keyboard.
use bedrocklinux_userland.Base.{
  ◌==◌, ◌≤◌, ◌≡◌, ◌⊎◌, inl, inr, refl, sym, ap, ◌∙◌, subst, Bool, true, false, List, [], ◌∷◌, ◌++◌,
  some, All, length, length-append, arith, Bool-cases,
}
use bedrocklinux_userland.CString.{Bytes, codes}
use bedrocklinux_userland.Keyboard.Words.{
  HasEvent, HasKeys, file_has_bits-HasEvent, file_has_bits-HasKeys,
}
use bedrocklinux_userland.Keyboard.{
  Files, ev_key, keyboard_mask, input_dir, build_path, check_dir, device_path, Step, go_on, found,
  file_has_bits, check_key, check_ev, check_device_dir, check_capabilities, check_entry,
  check_entries, main,
}

-- The capabilities of a device: in its own directory, or else in its `device`.
pub data Capabilities (fs : Files) (name : Bytes) : Bytes → Type 0 where
  own :
      fs.is_dir (device_path name (codes "capabilities")) ≡ true
      → Capabilities fs name (codes "capabilities")
  of_device :
      fs.is_dir (device_path name (codes "capabilities")) ≡ false
      → fs.is_dir (device_path name (codes "device/capabilities")) ≡ true
      → Capabilities fs name (codes "device/capabilities")

-- An entry that passes for a keyboard.
abbrev pub IsKeyboard : Files → Bytes → Type 0
IsKeyboard fs name =
    (cap : Bytes) × Capabilities fs name cap
    × HasEvent fs (device_path name (cap ++ codes "/ev"))
    × HasKeys fs (device_path name (cap ++ codes "/key"))

abbrev pub IsHidden : Bytes → Type 0
IsHidden name = (rest : Bytes) × (name ≡ b'.' ∷ rest)

-- Some entry that is not hidden passes for a keyboard.
pub data HasKeyboard (fs : Files) : List Bytes → Type 0 where
  here :
      (name : Bytes) (names : List Bytes)
      → (IsHidden name → ⊥)
      → IsKeyboard fs name
      → HasKeyboard fs (name ∷ names)
  later : (name : Bytes) (names : List Bytes) → HasKeyboard fs names → HasKeyboard fs (name ∷ names)

-- The kernel's bound on a name.
abbrev pub IsShort : Bytes → Type 0
IsShort name = length name ≤ 255

build_path-short :
    (name cap : Bytes)
    → IsShort name
    → length cap ≤ 255
    → build_path (device_path name cap) ≡ some (device_path name cap)
unfolding build_path
build_path-short name cap h k = ground (arith, length-append name (codes "/" ++ cap))

-- The two files of the capabilities pass the tests.
abbrev Tested : Files → Bytes → Bytes → Type 0
Tested fs name cap =
    (file_has_bits fs (device_path name (cap ++ codes "/ev")) ev_key ≡ true)
    × (file_has_bits fs (device_path name (cap ++ codes "/key")) keyboard_mask ≡ true)

abbrev Verdict : Step → Type 0 → Type 0
Verdict s P = ((s ≡ found) × P) ⊎ ((s ≡ go_on) × (P → ⊥))

contra : true ≡ false → ⊥
contra h = cc

refuse : {a b : Bool} → a ≡ false → (a ≡ true) × (b ≡ true) → ⊥
refuse e p = contra (sym p.0 ∙ e)

check_ev_lem :
    (fs : Files) (name cap : Bytes)
    → build_path (device_path name (cap ++ codes "/key"))
      ≡ some (device_path name (cap ++ codes "/key"))
    → Verdict
        (check_ev fs name cap (some (device_path name (cap ++ codes "/ev"))))
        (Tested fs name cap)
unfolding check_ev check_key
check_ev_lem fs name cap key =
    elim (Bool-cases (file_has_bits fs (device_path name (cap ++ codes "/ev")) ev_key)) [
      | inr e ↦ inr (ground arith, refuse e)
      | inl e ↦
          elim (Bool-cases
            (file_has_bits fs (device_path name (cap ++ codes "/key")) keyboard_mask)) [
              | inl e1 ↦ inl (ground arith, (e, e1))
              | inr e1 ↦ inr (ground arith, λ p. contra (sym p.1 ∙ e1))
            ]
    ]

check_dir-true :
    (fs : Files) (name cap : Bytes)
    → fs.is_dir (device_path name cap) ≡ true
    → check_dir fs name cap (device_path name cap)
      ≡ check_ev fs name cap (build_path (device_path name (cap ++ codes "/ev")))
unfolding check_dir
check_dir-true fs name cap d = ground arith

check_dir_lem :
    (fs : Files) (name cap : Bytes)
    → IsShort name
    → length cap ≤ 200
    → fs.is_dir (device_path name cap) ≡ true
    → Verdict (check_dir fs name cap (device_path name cap)) (Tested fs name cap)
check_dir_lem fs name cap h k d =
    subst (λ s. Verdict s (Tested fs name cap))
      (sym (
        check_dir-true fs name cap d
        ∙ ap (check_ev fs name cap) (
            build_path-short name (cap ++ codes "/ev") h
              (omega (arith, length-append cap (codes "/ev"))))))
      (check_ev_lem fs name cap (
        build_path-short name (cap ++ codes "/key") h
          (omega (arith, length-append cap (codes "/key")))))

-- `capabilities` where it is a directory, then `device/capabilities`.
Capabilities-own :
    (fs : Files) (name cap : Bytes)
    → fs.is_dir (device_path name (codes "capabilities")) ≡ true
    → Capabilities fs name cap
    → cap ≡ codes "capabilities"
Capabilities-own fs name _ e (own d) = refl
Capabilities-own fs name _ e (of_device d d1) = absurd (contra (sym e ∙ d))

Capabilities-device :
    (fs : Files) (name cap : Bytes)
    → fs.is_dir (device_path name (codes "capabilities")) ≡ false
    → Capabilities fs name cap
    → (cap ≡ codes "device/capabilities")
      × (fs.is_dir (device_path name (codes "device/capabilities")) ≡ true)
Capabilities-device fs name _ e (own d) = absurd (contra (sym d ∙ e))
Capabilities-device fs name _ e (of_device d d1) = (refl, d1)

-- A verdict on the directory that holds the capabilities is one on the entry.
widen :
    (fs : Files) (name cap : Bytes) (s : Step)
    → Capabilities fs name cap
    → ((cap1 : Bytes) → Capabilities fs name cap1 → cap1 ≡ cap)
    → Verdict s (Tested fs name cap)
    → Verdict s (IsKeyboard fs name)
widen fs name cap s c unique (inl (e, (p, q))) =
    inl (e, (cap, c, (file_has_bits-HasEvent fs _).0 p, (file_has_bits-HasKeys fs _).0 q))
widen fs name cap s c unique (inr (e, n)) = inr (
  e,
  λ (cap1, c1, p, q). n (
      subst (Tested fs name) (unique cap1 c1)
        ((file_has_bits-HasEvent fs _).1 p, (file_has_bits-HasKeys fs _).1 q)),
)

check_device_dir_lem :
    (fs : Files) (name : Bytes)
    → IsShort name
    → fs.is_dir (device_path name (codes "capabilities")) ≡ false
    → Verdict
        (check_dir fs name
          (codes "device/capabilities")
          (device_path name (codes "device/capabilities")))
        (IsKeyboard fs name)
unfolding check_dir
check_device_dir_lem fs name h e =
    elim (Bool-cases (fs.is_dir (device_path name (codes "device/capabilities")))) [
      | inl e1 ↦
          widen fs name (codes "device/capabilities") _ (of_device e e1)
            (λ c d. (Capabilities-device fs name c e d).0)
            (check_dir_lem fs name (codes "device/capabilities") h (omega arith) e1)
      | inr e1 ↦
          inr (ground arith, λ k. contra (sym (Capabilities-device fs name k.0 e k.1).1 ∙ e1))
    ]

device_lem :
    (fs : Files) (name : Bytes)
    → IsShort name
    → fs.is_dir (device_path name (codes "capabilities")) ≡ false
    → Verdict
        (check_capabilities fs name (some (device_path name (codes "capabilities"))))
        (IsKeyboard fs name)
unfolding check_capabilities check_device_dir
device_lem fs name h e =
    subst (λ s. Verdict s (IsKeyboard fs name))
      (ground (arith, build_path-short name (codes "device/capabilities") h (omega arith)))
      (check_device_dir_lem fs name h e)

check_capabilities_lem :
    (fs : Files) (name : Bytes)
    → IsShort name
    → Verdict
        (check_capabilities fs name (build_path (device_path name (codes "capabilities"))))
        (IsKeyboard fs name)
unfolding check_capabilities check_device_dir
check_capabilities_lem fs name h =
    subst (λ o. Verdict (check_capabilities fs name o) (IsKeyboard fs name))
      (sym (build_path-short name (codes "capabilities") h (omega arith)))
      (elim (Bool-cases (fs.is_dir (device_path name (codes "capabilities")))) [
        | inl e ↦
            subst (λ s. Verdict s (IsKeyboard fs name)) (ground arith)
              (widen fs name (codes "capabilities") _ (own e) (λ c. Capabilities-own fs name c e)
                (check_dir_lem fs name (codes "capabilities") h (omega arith) e))
        | inr e ↦ device_lem fs name h e
      ])

shown :
    (fs : Files) (name : Bytes) {s : Step}
    → (IsHidden name → ⊥)
    → Verdict s (IsKeyboard fs name)
    → Verdict s ((IsHidden name → ⊥) × IsKeyboard fs name)
shown fs name v (inl (e, p)) = inl (e, (v, p))
shown fs name v (inr (e, n)) = inr (e, λ p. n p.1)

check_entry_lem :
    (fs : Files) (name : Bytes)
    → IsShort name
    → Verdict (check_entry fs name) ((IsHidden name → ⊥) × IsKeyboard fs name)
unfolding check_entry
check_entry_lem fs [] h = shown fs [] (λ (r, e). ground arith) (check_capabilities_lem fs [] h)
check_entry_lem fs (c ∷ name) h = elim (Bool-cases (c == b'.')) [
  | inl e ↦ inr (ground arith, λ p. p.0 (name, ground arith))
  | inr e ↦
      subst (λ s. Verdict s ((IsHidden (c ∷ name) → ⊥) × IsKeyboard fs (c ∷ name))) (ground arith)
        (shown fs (c ∷ name) (λ (r, q). ground arith) (check_capabilities_lem fs (c ∷ name) h))
]

check_entries_lem :
    (fs : Files) (names : List Bytes)
    → All IsShort names
    → ((check_entries fs names ≡ 0) × HasKeyboard fs names)
      ⊎ ((check_entries fs names ≡ 1) × (HasKeyboard fs names → ⊥))
unfolding check_entries
check_entries_lem fs [] h = inr (refl, λ k. elim k [ ])
check_entries_lem fs (name ∷ names) h = elim (check_entry_lem fs name h.0) [
  | inl (e, p) ↦ inl (ground arith, here name names p.0 p.1)
  | inr (e, n) ↦ elim (check_entries_lem fs names h.1) [
    | inl (e1, p) ↦ inl (ground arith, later name names p)
    | inr (e1, n1) ↦
        inr (ground arith, λ k. elim k [ here _ _ v p ↦ n (v, p) | later _ _ q ↦ n1 q ])
  ]
]

-- Where the input directory opens and no name in it exceeds 255 bytes, `main` returns 0 if an
-- entry that is not hidden has capabilities where the last word of `ev` has its lowest bit, that of
-- EV_SYN, and the last word of `key` the bits of the keys 1 to 31; and 1 if none has.
pub main-present :
    (fs : Files) (names : List Bytes)
    → fs.entries input_dir ≡ some names
    → All IsShort names
    → ((main fs ≡ 0) × HasKeyboard fs names) ⊎ ((main fs ≡ 1) × (HasKeyboard fs names → ⊥))
unfolding main
main-present fs names e h =
    subst (λ n. ((n ≡ 0) × HasKeyboard fs names) ⊎ ((n ≡ 1) × (HasKeyboard fs names → ⊥)))
      (ground arith) (check_entries_lem fs names h)
