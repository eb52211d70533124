-- ===== src/PlymouthQuit.antt =====
-- src/plymouth-quit/plymouth-quit.c: tells plymouthd to quit, over its abstract socket.
pub mod Delivery
use bedrocklinux_userland.Base.{
  ℕ, suc, ◌+◌, ◌-◌, List, [], ◌∷◌, ◌++◌, Option, none, some, length, take, set, drop, replicate,
  if◌then◌else◌, ◌==◌, ℤ, pos, negsuc,
}
use bedrocklinux_userland.CString.{Bytes, codes}

-- The kernel: the descriptor of a new socket, and the errno of a `connect` that fails, for a
-- descriptor and the bytes of an address behind its family.
pub record Kernel : Type 0 where
  pub socket : Option ℕ
  pub connect_errno : ℕ → Bytes → Option ℕ

-- What was written to a descriptor, and what `main` returns.
pub record Run : Type 0 where
  pub sent : List (ℕ × Bytes)
  pub code : ℤ

abbrev pub econnrefused : ℕ
econnrefused = 111

abbrev pub plymouth_abstract_socket_path : Bytes
plymouth_abstract_socket_path = codes "/org/freedesktop/plymouthd"

-- `strncpy(dest + at, s, n)`, for an `n` past the length of `s`: `s`, then zeros up to `n` bytes.
unfoldable pub copy_string : Bytes → ℕ → Bytes → ℕ → Bytes
copy_string dest at s n = take at dest ++ (s ++ (replicate (n - length s) 0 ++ drop (at + n) dest))

-- `addr.sun_path`: 108 bytes, all 0 at first.
unfoldable pub sun_path : Bytes
unfolding copy_string
sun_path =
    copy_string (set (replicate 108 0) 0 0) 1 plymouth_abstract_socket_path
      (suc (length plymouth_abstract_socket_path))

-- The address that `connect` is given: `sizeof(addr) - 81` of its 110 bytes, two of which are the
-- family.
unfoldable pub address : Bytes
unfolding sun_path
address = take (110 - 81 - 2) sun_path

-- `PLYMOUTH_QUIT_CHAR` and the three bytes behind it.
unfoldable pub quit_message : Bytes
quit_message = b'Q' ∷ 2 ∷ 1 ∷ 0 ∷ []

unfoldable pub connected : ℕ → Option ℕ → Run
unfolding quit_message
connected fd none = record { sent = (fd, quit_message) ∷ []; code = pos 0 }
connected fd (some errno) =
    if errno == econnrefused
    then record { sent = []; code = pos 0 }
    else record { sent = []; code = negsuc 0 }

-- `main`
unfoldable pub main : Kernel → Run
unfolding connected address
main k = elim k.socket [
  | none ↦ record { sent = []; code = negsuc 0 }
  | some fd ↦ connected fd (k.connect_errno fd address)
]
