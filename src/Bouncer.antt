-- ===== src/Bouncer.antt =====
-- src/bouncer/bouncer.c: passes its arguments on to `strat`, for the stratum and the path that are
-- stored on the bouncer's own file.
pub mod Handoff
use bedrocklinux_userland.Base.{
  ℕ, suc, ◌+◌, Bool, true, false, List, [], ◌∷◌, ◌++◌, Option, none, some, length, set, replicate,
  if◌then◌else◌,
}
use bedrocklinux_userland.CString.{Bytes, codes, cstr}

-- A place of the argument vector: not written yet, the NULL at its end, or a string.
pub data Slot : Type 0 where
  unset null : Slot
  text : Bytes → Slot

pub data Message : Type 0 where
  no_stratum no_path : Message
  could_not_execute : ℕ → Message

-- How `main` ends. `unterminated` is an argument vector with no NULL, or with a place unwritten.
pub data Outcome : Type 0 where
  returns : Message → ℕ → Outcome
  becomes : Bytes → List Bytes → Outcome
  unterminated : Outcome

-- The kernel: the attributes of /proc/self/exe, the errno where one cannot be read, and the errno
-- of an `execv` that fails.
pub record Kernel : Type 0 where
  pub xattr : Bytes → Option Bytes
  pub xattr_errno : Bytes → ℕ
  pub execv_fails : Bytes → List Bytes → Option ℕ

abbrev pub strat_path : Bytes
strat_path = codes "/bedrock/bin/strat"

-- `new_argv[i + 4 + restrict_flag] = argv[i]` for each i from 1; `at` is the index written.
unfoldable pub copy_args : ℕ → List Bytes → List Slot → List Slot
copy_args at [] slots = slots
copy_args at (x ∷ xs) slots = copy_args (suc at) xs (set slots at (text x))

-- The first `restrict_flag + 5` places, in the order of the writes.
unfoldable pub head_slots : Bool → Bytes → Bytes → Bytes → List Slot → List Slot
head_slots restrict_flag arg0 stratum path slots =
    let s0 = set slots 0 (text strat_path) in
    let s1 = set s0 1 (text (codes "--arg0")) in
    let s2 = set s1 2 (text arg0) in
    let s3 = if restrict_flag then set s2 3 (text (codes "--restrict")) else s2 in
    set (set s3 (if restrict_flag then 4 else 3) (text stratum)) (if restrict_flag then 5 else 4)
      (text path)

-- `new_argv`, of `argc + 6` places, for `argv = arg0 ∷ args`.
unfoldable pub new_argv : Bool → Bytes → List Bytes → Bytes → Bytes → List Slot
new_argv restrict_flag arg0 args stratum path =
    let argc = suc (length args) in
    let slots = head_slots restrict_flag arg0 stratum path (replicate (argc + 6) unset) in
    let copied = copy_args (if restrict_flag then 6 else 5) args slots in
    set copied (argc + (if restrict_flag then 5 else 4)) null

-- The arguments that `execv` finds.
unfoldable pub up_to_null : List Slot → Option (List Bytes)
up_to_null [] = none
up_to_null (unset ∷ slots) = none
up_to_null (null ∷ slots) = some []
up_to_null (text x ∷ slots) = elim (up_to_null slots) [ none ↦ none | some xs ↦ some (x ∷ xs) ]

abbrev pub attribute : Bytes → Bytes
attribute name = codes "user.bedrock." ++ name

unfoldable pub run_strat : Kernel → Option (List Bytes) → Outcome
run_strat k none = unterminated
run_strat k (some argv) = elim (k.execv_fails strat_path argv) [
  | none ↦ becomes strat_path argv
  | some e ↦ returns (could_not_execute e) 1
]

-- `main`, for a non-empty argument vector.
unfoldable pub main : Kernel → Bytes → List Bytes → Outcome
main k arg0 args = elim (k.xattr (attribute (codes "stratum"))) [
  | none ↦ returns no_stratum (k.xattr_errno (attribute (codes "stratum")))
  | some stratum ↦ elim (k.xattr (attribute (codes "localpath"))) [
    | none ↦ returns no_path (k.xattr_errno (attribute (codes "localpath")))
    | some path ↦
        let restrict_flag : Bool = elim (k.xattr (attribute (codes "restrict"))) [
          | none ↦ false
          | some _ ↦ true
        ] in
        run_strat k (up_to_null (new_argv restrict_flag arg0 args (cstr stratum) (cstr path)))
  ]
]
