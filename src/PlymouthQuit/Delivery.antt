-- ===== src/PlymouthQuit/Delivery.antt =====
-- When src/plymouth-quit/plymouth-quit.c delivers its message.
use bedrocklinux_userland.Base.{
  ℕ, ◌≡◌, inl, inr, refl, sym, ap, ◌∙◌, [], ◌∷◌, none, some, Option-cases, arith, pos, negsuc,
}
use native.Mathlib.Decide.{ℕ_discrete}
use bedrocklinux_userland.CString.{Bytes, codes}
use bedrocklinux_userland.PlymouthQuit.{
  Kernel, Run, address, connected, quit_message, main, econnrefused,
}

-- The name of an abstract socket: a NUL, the path, and nothing behind it.
abbrev pub abstract_socket : Bytes → Bytes
abstract_socket path = 0 ∷ path

address-abstract : address ≡ abstract_socket (codes "/org/freedesktop/plymouthd")
unfolding address
address-abstract = refl

-- What came of a run, in terms of the kernel's answers at plymouthd's abstract socket.
pub data Outcome (k : Kernel) (r : Run) : Type 0 where
  no_socket : k.socket ≡ none → r.sent ≡ [] → r.code ≡ negsuc 0 → Outcome k r
  delivered :
      (fd : ℕ)
      → k.socket ≡ some fd
      → k.connect_errno fd (abstract_socket (codes "/org/freedesktop/plymouthd")) ≡ none
      → r.sent ≡ (fd, (b'Q' ∷ 2 ∷ 1 ∷ 0 ∷ [])) ∷ []
      → r.code ≡ pos 0
      → Outcome k r
  not_running :
      (fd : ℕ)
      → k.socket ≡ some fd
      → k.connect_errno fd (abstract_socket (codes "/org/freedesktop/plymouthd"))
        ≡ some econnrefused
      → r.sent ≡ []
      → r.code ≡ pos 0
      → Outcome k r
  not_connected :
      (fd errno : ℕ)
      → k.socket ≡ some fd
      → k.connect_errno fd (abstract_socket (codes "/org/freedesktop/plymouthd")) ≡ some errno
      → (errno ≡ econnrefused → ⊥)
      → r.sent ≡ []
      → r.code ≡ negsuc 0
      → Outcome k r

-- `main` sends the quit message once and returns 0 where the socket at plymouthd's abstract name,
-- without a byte behind the name, accepts; it sends nothing and returns 0 where that refuses the
-- connection; it sends nothing and returns -1 on every other failure.
pub main-Outcome : (k : Kernel) → Outcome k (main k)
unfolding main connected quit_message
main-Outcome k = elim (Option-cases k.socket) [
  | inl e ↦ no_socket e (ground arith) (ground arith)
  | inr (fd, e) ↦ elim (Option-cases (k.connect_errno fd address)) [
    | inl e1 ↦
        delivered fd e (ap (k.connect_errno fd) (sym address-abstract) ∙ e1) (ground arith)
          (ground arith)
    | inr (n, e1) ↦ elim (ℕ_discrete n econnrefused) [
      | yes q ↦
          not_running fd e (ap (k.connect_errno fd) (sym address-abstract) ∙ e1 ∙ ap some q)
            (ground arith) (ground arith)
      | no q ↦
          not_connected fd n e (ap (k.connect_errno fd) (sym address-abstract) ∙ e1) q
            (ground arith) (ground arith)
    ]
  ]
]
