-- ===== src/TtyLock/Success.antt =====
-- When `main` of src/manage_tty_lock/manage_tty_lock.c returns 0.
use bedrocklinux_userland.Base.{
  ℕ, subst, sym, ap, ◌∙◌, ◌≡◌, ◌≢◌, ◌⊎◌, inl, inr, List, [], ◌∷◌, none, some, Bool-cases,
  Option-cases, arith,
}
use bedrocklinux_userland.CString.{Bytes, codes, str_eq}
use bedrocklinux_userland.CString.Laws.{str_eq_iff}
use bedrocklinux_userland.TtyLock.{
  Kernel, Run, set_lock, lock_tty, unlock_tty, dispatch, open_tty, main,
}

-- The terminal that the arguments behind the command name.
pub data Tty (k : Kernel) : List Bytes → ℕ → Type 0 where
  standard_input : Tty k [] 0
  opened :
      (tty : Bytes) (rest : List Bytes) (fd : ℕ) → k.open_file tty ≡ some fd → Tty k (tty ∷ rest) fd

-- The byte that a command fills the `struct termios` with.
pub data Fills : Bytes → ℕ → Type 0 where
  locks : Fills (codes "lock") 255
  unlocks : Fills (codes "unlock") 0

-- A run that prints nothing and sets one lock, as the kernel allows.
abbrev pub SetsLock : Kernel → Bytes → List Bytes → Run → Type 0
SetsLock k arg rest r =
    (fd : ℕ) × (byte : ℕ) × Tty k rest fd
    × Fills arg byte
    × (k.ioctl_errno fd byte ≡ none)
    × (r ≡ record { messages = []; requests = (fd, byte) ∷ []; code = 0 })

set_lock-zero :
    (k : Kernel) (fd byte : ℕ)
    → k.ioctl_errno fd byte ≢ some 0
    → (set_lock k fd byte).code ≡ 0
    → (k.ioctl_errno fd byte ≡ none)
      × (set_lock k fd byte ≡ record { messages = []; requests = (fd, byte) ∷ []; code = 0 })
unfolding set_lock
set_lock-zero k fd byte pos h = elim (Option-cases (k.ioctl_errno fd byte)) [
  | inl e ↦ (e, ground arith)
  | inr (n, e) ↦ absurd (pos (e ∙ ap some (sym (ground arith) ∙ h)))
]

module _ (k : Kernel) (pos : (fd byte : ℕ) → k.ioctl_errno fd byte ≢ some 0) where
  dispatch-zero :
      (arg : Bytes) (rest : List Bytes) (fd : ℕ)
      → Tty k rest fd
      → (dispatch k arg fd).code ≡ 0
      → SetsLock k arg rest (dispatch k arg fd)
  unfolding dispatch lock_tty unlock_tty
  dispatch-zero arg rest fd t h = elim (Bool-cases (str_eq arg (codes "lock"))) [
    | inl e ↦
        let (e2, r) = set_lock-zero k fd 255 (pos fd 255) (ground arith) in
        (
          fd,
          255,
          t,
          subst (λ a. Fills a 255) (sym ((str_eq_iff arg (codes "lock")).0 e)) locks,
          e2,
          ground arith,
        )
    | inr e ↦ elim (Bool-cases (str_eq arg (codes "unlock"))) [
      | inl e1 ↦
          let (e2, r) = set_lock-zero k fd 0 (pos fd 0) (ground arith) in
          (
            fd,
            0,
            t,
            subst (λ a. Fills a 0) (sym ((str_eq_iff arg (codes "unlock")).0 e1)) unlocks,
            e2,
            ground arith,
          )
      | inr e1 ↦ absurd (ground arith)
    ]
  ]

  open_tty-zero :
      (arg : Bytes) (rest : List Bytes)
      → (open_tty k arg rest).code ≡ 0
      → SetsLock k arg rest (open_tty k arg rest)
  unfolding open_tty
  open_tty-zero arg [] h = dispatch-zero arg [] 0 standard_input h
  open_tty-zero arg (tty ∷ rest) h = elim (Option-cases (k.open_file tty)) [
    | inl e ↦ absurd (ground arith)
    | inr (fd, e) ↦
        subst (SetsLock k arg (tty ∷ rest)) (ground arith)
          (dispatch-zero arg (tty ∷ rest) fd (opened tty rest fd e) (ground arith))
  ]

  -- Where no failed `ioctl` has errno 0, a run that returns 0 with a command is a request for
  -- help, or it set exactly the lock that the command names, on the terminal that is given.
  pub main-zero :
      (arg0 arg : Bytes) (rest : List Bytes)
      → (main k (arg0 ∷ arg ∷ rest)).code ≡ 0
      → ((arg ≡ codes "-h") ⊎ (arg ≡ codes "--help"))
        ⊎ SetsLock k arg rest (main k (arg0 ∷ arg ∷ rest))
  unfolding main
  main-zero arg0 arg rest h = elim (Bool-cases (str_eq arg (codes "-h"))) [
    | inl e ↦ inl (inl ((str_eq_iff arg (codes "-h")).0 e))
    | inr e ↦ elim (Bool-cases (str_eq arg (codes "--help"))) [
      | inl e1 ↦ inl (inr ((str_eq_iff arg (codes "--help")).0 e1))
      | inr e1 ↦
          inr (subst (SetsLock k arg rest) (ground arith) (open_tty-zero arg rest (ground arith)))
    ]
  ]
