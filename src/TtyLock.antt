-- ===== src/TtyLock.antt =====
-- src/manage_tty_lock/manage_tty_lock.c: locks or unlocks the settings of a terminal.
pub mod Success
use bedrocklinux_userland.Base.{ℕ, ◌||◌, List, [], ◌∷◌, Option, none, some, if◌then◌else◌}
use bedrocklinux_userland.CString.{Bytes, codes, str_eq}

pub data Message : Type 0 where
  insufficient_arguments help ioctl_error : Message
  unable_to_open unrecognized_argument : Bytes → Message

-- The kernel: the descriptor that `open` gives, and the errno of a TIOCSLCKTRMIOS that fails, for a
-- `struct termios` whose bytes are all the given one.
pub record Kernel : Type 0 where
  pub open_file : Bytes → Option ℕ
  pub ioctl_errno : ℕ → ℕ → Option ℕ

-- How a run ends: what it prints, the locks it set (descriptor and byte), what it returns.
pub record Run : Type 0 where
  pub messages : List Message
  pub requests : List (ℕ × ℕ)
  pub code : ℕ

abbrev pub ebadf : ℕ
ebadf = 9

abbrev pub einval : ℕ
einval = 22

-- The `ioctl` of `lock_tty` and `unlock_tty`. Before it, `errno` is 0.
unfoldable pub set_lock : Kernel → ℕ → ℕ → Run
set_lock k fd byte = elim (k.ioctl_errno fd byte) [
  | none ↦ record { messages = []; requests = (fd, byte) ∷ []; code = 0 }
  | some e ↦ record { messages = ioctl_error ∷ []; requests = []; code = e }
]

unfoldable pub lock_tty : Kernel → ℕ → Run
unfolding set_lock
lock_tty k fd = set_lock k fd 255

unfoldable pub unlock_tty : Kernel → ℕ → Run
unfolding set_lock
unlock_tty k fd = set_lock k fd 0

abbrev pub says : Message → ℕ → Run
says m code = record { messages = m ∷ []; requests = []; code = code }

-- The end of `main`, for the descriptor of the terminal.
unfoldable pub dispatch : Kernel → Bytes → ℕ → Run
unfolding lock_tty unlock_tty
dispatch k arg fd =
    if str_eq arg (codes "lock")
    then lock_tty k fd
    else if str_eq arg (codes "unlock")
    then unlock_tty k fd
    else says (unrecognized_argument arg) einval

-- `fd`: `argv[2]` is opened where there is one, else it is descriptor 0.
unfoldable pub open_tty : Kernel → Bytes → List Bytes → Run
unfolding dispatch
open_tty k arg [] = dispatch k arg 0
open_tty k arg (tty ∷ rest) = elim (k.open_file tty) [
  | none ↦ says (unable_to_open tty) ebadf
  | some fd ↦ dispatch k arg fd
]

-- `main`, for the argument vector.
unfoldable pub main : Kernel → List Bytes → Run
unfolding open_tty
main k [] = says insufficient_arguments einval
main k (arg0 ∷ []) = says insufficient_arguments einval
main k (arg0 ∷ arg ∷ rest) =
    if str_eq arg (codes "-h") || str_eq arg (codes "--help")
    then says help 0
    else open_tty k arg rest
