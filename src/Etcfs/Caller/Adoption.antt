-- ===== src/Etcfs/Caller/Adoption.antt =====
-- What `set_caller_permissions` of src/etcfs/etcfs.c leaves of a thread's credentials.
use bedrocklinux_userland.Base.{
  ℕ, subst, sym, ◌≤◌, ◌<◌, ◌≡◌, ◌≢◌, ◌⊎◌, inl, inr, List, [], Option, none, some, pos, neg, length,
  arith, Option-cases, Bool-cases,
}
use bedrocklinux_userland.Etcfs.Caller.{
  Credentials, Caller, Ending, returns, set_ids, set_groups, set_many, set_caller_permissions,
}

-- The groups that a thread is to take on: none, where those of the caller cannot be read.
abbrev pub groups_found : Option (List ℕ) → List ℕ
groups_found none = []
groups_found (some gs) = gs

-- All three were set; or a call failed, the result is its errno negated, and the user is as before.
abbrev pub Adopts : Caller → List ℕ → Credentials → Ending × Credentials → Type 0
Adopts k gs s r =
    (r ≡ (returns (pos 0), record { groups = gs; egid = k.gid; euid = k.uid }))
    ⊎ ((e : ℕ) × ((k.setgroups_fails gs ≡ some e)
          ⊎ (k.setregid_fails k.gid ≡ some e)
          ⊎ (k.setreuid_fails k.uid ≡ some e))
        × (r.0 ≡ returns (neg e))
        × (r.1.euid ≡ s.euid))

set_groups-Adopts : (k : Caller) (gs : List ℕ) (s : Credentials) → Adopts k gs s (set_groups k gs s)
unfolding set_groups set_ids
set_groups-Adopts k gs s = elim (Option-cases (k.setgroups_fails gs)) [
  | inr (e, h) ↦ inr (e, inl h, ground arith, ground arith)
  | inl h ↦ elim (Option-cases (k.setregid_fails k.gid)) [
    | inr (e, g) ↦ inr (e, inr (inl g), ground arith, ground arith)
    | inl g ↦ elim (Option-cases (k.setreuid_fails k.uid)) [
      | inr (e, u) ↦ inr (e, inr (inr u), ground arith, ground arith)
      | inl u ↦ inl (ground arith)
    ]
  ]
]

none_found :
    (k : Caller) (s : Credentials)
    → k.groups_of ≡ none
    → set_caller_permissions k s ≡ set_groups k [] s
unfolding set_caller_permissions
none_found k s h = ground arith

few :
    (k : Caller) (gs : List ℕ) (s : Credentials)
    → k.groups_of ≡ some gs
    → length gs ≤ 64
    → set_caller_permissions k s ≡ set_groups k gs s
unfolding set_caller_permissions
few k gs s h le = ground arith

-- For a caller with at most 64 groups, or whose groups cannot be read (it then counts as having
-- none), the thread takes on the caller's groups, group and user and the result is 0; or one of
-- the three calls fails, its errno is returned negated, and the effective user does not change.
pub set_caller_permissions-Adopts :
    (k : Caller) (s : Credentials)
    → length (groups_found k.groups_of) ≤ 64
    → Adopts k (groups_found k.groups_of) s (set_caller_permissions k s)
set_caller_permissions-Adopts k s le = elim (Option-cases k.groups_of) [
  | inl h ↦
      subst (λ g. Adopts k (groups_found g) s (set_caller_permissions k s)) (sym h)
        (subst (Adopts k [] s) (sym (none_found k s h)) (set_groups-Adopts k [] s))
  | inr (gs, h) ↦
      subst (λ g. Adopts k (groups_found g) s (set_caller_permissions k s)) (sym h)
        (subst (Adopts k gs s) (sym (few k gs s h (rw h at le))) (set_groups-Adopts k gs s))
]

-- For a caller with more than 64 groups, the thread's credentials stay as they are, and the
-- function does not return 0.
set_caller_permissions_many :
    (k : Caller) (s : Credentials) (gs : List ℕ)
    → k.groups_of ≡ some gs
    → 64 < length gs
    → ((set_caller_permissions k s).1 ≡ s) × ((set_caller_permissions k s).0 ≢ returns (pos 0))
unfolding set_caller_permissions set_many
set_caller_permissions_many k s gs h lt = elim (Bool-cases k.malloc_works) [
  | inr m ↦ (ground arith, λ e. ground arith)
  | inl m ↦ elim (Option-cases k.groups_again) [
    | inl g ↦ (ground arith, λ e. ground arith)
    | inr (gs2, g) ↦ (ground arith, λ e. ground arith)
  ]
]
