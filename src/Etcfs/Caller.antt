-- ===== src/Etcfs/Caller.antt =====
-- `set_caller_permissions` of src/etcfs/etcfs.c: a thread takes on the permissions of the process
-- whose call it serves.
pub mod Adoption
use bedrocklinux_userland.Base.{
  ℕ, Bool, true, false, List, [], Option, none, some, ℤ, pos, neg, length, if◌then◌else◌, ltb, leb,
}
use bedrocklinux_userland.Etcfs.Config.{enomem}

-- The credentials of a thread.
pub record Credentials : Type 0 where
  pub groups : List ℕ
  pub egid : ℕ
  pub euid : ℕ

-- The calling process, and the errno of each system call that fails. `groups_of` is what a first
-- `fuse_getgroups` finds, and `groups_again` a second; `none` is a failure.
pub record Caller : Type 0 where
  pub groups_of : Option (List ℕ)
  pub groups_again : Option (List ℕ)
  pub malloc_works : Bool
  pub gid : ℕ
  pub uid : ℕ
  pub setgroups_fails : List ℕ → Option ℕ
  pub setregid_fails : ℕ → Option ℕ
  pub setreuid_fails : ℕ → Option ℕ

-- How the function ends: it returns, or it writes past `list`, or it sets groups from memory that
-- was not initialised.
pub data Ending : Type 0 where
  returns : ℤ → Ending
  overrun uninitialised : Ending

-- `ARRAY_LEN(list)`
abbrev pub list_len : ℕ
list_len = 64

-- The effective group, then the effective user.
unfoldable pub set_ids : Caller → Credentials → Ending × Credentials
set_ids k s = elim (k.setregid_fails k.gid) [
  | some e ↦ (returns (neg e), s)
  | none ↦ elim (k.setreuid_fails k.uid) [
    | some e ↦ (returns (neg e), record s { egid = k.gid })
    | none ↦ (returns (pos 0), record s { egid = k.gid; euid = k.uid })
  ]
]

-- The groups, then the rest.
unfoldable pub set_groups : Caller → List ℕ → Credentials → Ending × Credentials
unfolding set_ids
set_groups k gs s = elim (k.setgroups_fails gs) [
  | some e ↦ (returns (neg e), s)
  | none ↦ set_ids k (record s { groups = gs })
]

-- More groups than `list` has room for, of which there were `rv`. The second call is given `list`
-- and the size `rv`, and writes what it finds if that is no more than `rv`.
unfoldable pub set_many : Caller → ℕ → Credentials → Ending × Credentials
set_many k rv s =
    if k.malloc_works
    then elim (k.groups_again) [
      | none ↦ (returns (pos rv), s)
      | some gs ↦ if ltb list_len (length gs) then (overrun, s) else (uninitialised, s)
    ]
    else (returns (neg enomem), s)

unfoldable pub set_caller_permissions : Caller → Credentials → Ending × Credentials
unfolding set_groups set_many
set_caller_permissions k s = elim k.groups_of [
  | none ↦ set_groups k [] s
  | some gs ↦ if leb (length gs) list_len then set_groups k gs s else set_many k (length gs) s
]
