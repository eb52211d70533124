-- ===== src/Etcfs/Own.antt =====
-- The handlers of src/etcfs/etcfs.c that serve the configuration file themselves, and pass calls on
-- other files on.
pub mod Guarded
use Prim.Native.Nat.{bit_or}
use bedrocklinux_userland.Base.{
  ℕ, ◌+◌, Bool, true, false, List, [], ◌∷◌, Option, none, some, length, if◌then◌else◌, ◌==◌, ℤ, pos,
  neg, is_neg,
}
use bedrocklinux_userland.CString.{Bytes, str_eq}
use bedrocklinux_userland.Etcfs.Commands.{Calls}
use bedrocklinux_userland.Etcfs.Printed.{Reading, copied, out_of_buffer}
use bedrocklinux_userland.Etcfs.Serve.{eacces, read_config, write_config}
use bedrocklinux_userland.Etcfs.Caller.{Credentials}
use bedrocklinux_userland.Etcfs.Config.{local_ref}
use bedrocklinux_userland.Etcfs.Uninject.{Calls as UninjectCalls, uninject}
use bedrocklinux_userland.Etcfs.Handlers.{
  Finish, with_disk, cfg_name, Server, AtCall, openat, fstatat, pread, pwrite, Kernel, Setup,
  refused, faulted, ready, fs_imp_setup, Served, returned, on_opened, o_nonblock, o_nofollow,
}

abbrev pub o_wronly : ℕ
o_wronly = 1

-- What is returned for the configuration file, with what it leaves.
abbrev pub reply : ℤ → Server → Option Served
reply rv s = some (record { rv = rv; made = []; on_fd = []; server = s })

-- The branch for CFG_NAME, or the call.
unfoldable pub serve_own :
    Kernel → (Server → Option Served) → Finish → AtCall → Setup → Option Served
serve_own k own finish call (refused rv s) = reply rv s
serve_own k own finish call faulted = none
serve_own k own finish call (ready ref rpath s) =
    if str_eq rpath cfg_name
    then own s
    else some (record {
      rv = (finish s.creds (k.run ref rpath call s.creds)).0;
      made = (record { ref = ref; rpath = rpath; call = call; creds = s.creds }) ∷ [];
      on_fd = (finish s.creds (k.run ref rpath call s.creds)).1;
      server = s;
    })

-- A request that one of these handlers serves. A write has what its commands need, and `errno` behind
-- them.
pub data Request : Type 0 where
  getattr : Request
  open_flags : ℕ → Request
  read_at : ℕ → ℕ → Request
  write_at : ℕ → Calls → UninjectCalls → Bytes → ℕ → Request

-- The handlers' calls on other files. `fi->fh`, which gets a descriptor, is not modelled.
unfoldable pub call_of : Request → AtCall
call_of getattr = fstatat
call_of (open_flags flags) = openat (bit_or o_nonblock flags)
call_of (read_at size offset) = openat (o_nonblock + o_nofollow)
call_of (write_at errno calls uninject_calls buf offset) =
    openat (o_nonblock + o_wronly + o_nofollow)

-- What they return for them.
unfoldable pub finish : Kernel → Request → Finish
finish k getattr creds r = (returned r, [])
finish k (open_flags flags) creds (fd, errno) = (if is_neg fd then neg errno else pos 0, [])
finish k (read_at size offset) creds r = on_opened k (pread size offset) creds r
finish k (write_at errno calls uninject_calls buf offset) creds r =
    on_opened k (pwrite buf offset) creds r

abbrev pub read_reply : Server → Option Reading → Option Served
read_reply s none = reply (neg eacces) s
read_reply s (some (copied text)) = reply (pos (length text)) s
read_reply s (some out_of_buffer) = none

-- The `uninject` that a command calls, of the file below the stratum's own descriptor; `none` is an
-- access out of bounds.
unfoldable pub undone : UninjectCalls → Option (Bytes × Bytes) → Server → Option Server
unfolding uninject
undone k none s = some s
undone k (some (path, str)) s = elim (uninject k path str (s.disks local_ref)) [
  | none ↦ none
  | some r ↦ some (with_disk local_ref r.disk s)
]

abbrev pub write_reply : ℤ → Option Server → Option Served
write_reply rv none = none
write_reply rv (some s) = reply rv s

-- What they make of the configuration file, for the user who calls.
unfoldable pub own : Kernel → Request → Server → Option Served
unfolding read_config write_config undone
own k getattr s = reply (pos 0) s
own k (open_flags flags) s = reply (if k.caller.uid == 0 then pos 0 else neg eacces) s
own k (read_at size offset) s = read_reply s (read_config k.caller.uid s.cfg size offset)
own k (write_at errno calls uninject_calls buf offset) s =
    let r = write_config errno k.caller.uid calls buf s.cfg in
    write_reply r.rv (undone uninject_calls r.uninjected (record s { cfg = r.cfg }))

-- `m_getattr`, `m_open`, `m_read` and `m_write`.
unfoldable pub handler : Request → Kernel → Option Bytes → Server → Option Served
unfolding serve_own call_of finish own fs_imp_setup
handler req k path s = serve_own k (own k req) (finish k req) (call_of req) (fs_imp_setup k path s)
