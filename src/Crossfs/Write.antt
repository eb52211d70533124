-- ===== src/Crossfs/Write.antt =====
-- `m_write` of src/crossfs/crossfs.c: writes to the configuration file, which are buffered up to a
-- newline.
pub mod Descriptors
pub mod Fragments
use bedrocklinux_userland.Base.{
  ℕ, ◌+◌, ◌-◌, ◌%◌, Bool, true, false, not, ◌&&◌, List, [], ◌∷◌, ◌++◌, Option, none, some, length,
  if◌then◌else◌, ◌==◌, ltb, leb, ℤ, pos, neg, is_neg,
}
use bedrocklinux_userland.CString.{Bytes, codes, is_prefix, has, cstr}
use bedrocklinux_userland.Etcfs.Config.{einval, enametoolong}
use bedrocklinux_userland.Etcfs.Serve.{eacces}
use bedrocklinux_userland.Crossfs.Config.{Cfgs, cfg_clear}
use bedrocklinux_userland.Crossfs.Paths.{same_path, cfg_path}
use bedrocklinux_userland.Crossfs.Commands.{
  Calls, Reply, Scanned, mismatch, overrun, got, then_scan, cfg_add, cfg_rm,
}

abbrev pub erofs : ℕ
erofs = 30

-- `sizeof(nbuf)`
abbrev pub nbuf_size : ℕ
nbuf_size = 8193

-- The configuration and the static variables of `m_write`: the string in `nbuf`, and `nbuf_len`,
-- a `char`, as its 8 bits.
pub record Server : Type 0 where
  pub cfgs : Cfgs
  pub nbuf : Bytes
  pub nbuf_len : ℕ
  pub nbuf_continuation : Bool

-- What a write returns and leaves, and the descriptors that it opened and closed.
pub record Served : Type 0 where
  pub rv : ℤ
  pub server : Server
  pub opened : Option ℕ
  pub closed : List (Option ℕ)

-- What a command does, before it is put back into the server.
pub record Done : Type 0 where
  pub rv : ℤ
  pub cfgs : Cfgs
  pub opened : Option ℕ
  pub closed : List (Option ℕ)

abbrev pub refuse : ℕ → Server → Served
refuse e s = record { rv = neg e; server = s; opened = none; closed = [] }

-- The buffer is emptied, unless the last write left an unfinished command in it.
unfoldable pub begin : Server → Server
begin s =
    if s.nbuf_continuation
    then record s { nbuf_continuation = false }
    else record s { nbuf = []; nbuf_len = 0; nbuf_continuation = false }

-- `sizeof(nbuf) - nbuf_len - 1`, for a `char` that is signed or not.
unfoldable pub limit : Bool → ℕ → ℕ
limit signed len =
    if signed && leb 128 len then (nbuf_size + (256 - len)) - 1 else (nbuf_size - len) - 1

abbrev pub finished : ℕ → Reply → Done
finished size r = record {
  rv = if is_neg r.rv then r.rv else pos size;
  cfgs = r.cfgs;
  opened = r.opened;
  closed = r.closed ∷ [];
}

-- The command in `nbuf`. `size` is that of the last write alone.
unfoldable pub execute : Calls → ℕ → Bytes → Cfgs → Scanned Done
unfolding then_scan
execute k size text c =
    if leb 5 size && is_prefix (codes "clear") text
    then got
        (record { rv = pos size; cfgs = (cfg_clear c).1; opened = none; closed = (cfg_clear c).0 })
    else if leb 3 size && is_prefix (codes "add") text
    then then_scan (cfg_add k text c) (λ r. got (finished size r))
    else if leb 2 size && is_prefix (codes "rm") text
    then then_scan (cfg_rm text c) (λ r. got (finished size r))
    else got (record { rv = neg einval; cfgs = c; opened = none; closed = [] })

abbrev pub put_back : Server → Done → Served
put_back s d = record {
  rv = d.rv;
  server = record s { cfgs = d.cfgs };
  opened = d.opened;
  closed = d.closed;
}

-- From the check of the length on.
unfoldable pub append_command : Bool → Calls → Bytes → Server → Scanned Served
unfolding execute limit then_scan
append_command signed k buf s =
    let u : Server = record s {
      nbuf = s.nbuf ++ cstr buf;
      nbuf_len = (s.nbuf_len + length buf) % 256;
    } in
    if ltb (limit signed s.nbuf_len) (length buf)
    then got (refuse enametoolong s)
    else if leb nbuf_size (length s.nbuf + length (cstr buf))
    then overrun
    else if not (has b'\n' (s.nbuf ++ cstr buf))
    then got (record {
      rv = pos (length buf);
      server = record u { nbuf_continuation = true };
      opened = none;
      closed = [];
    })
    else then_scan (execute k (length buf) (s.nbuf ++ cstr buf) s.cfgs) (λ d. got (put_back u d))

-- `m_write(ipath, buf, size, …)`, for the user that calls; `overrun` is a write past a buffer.
unfoldable pub m_write : Bool → Calls → Bytes → ℕ → Bytes → Server → Scanned Served
unfolding begin append_command
m_write signed k ipath uid buf s =
    if not (same_path ipath cfg_path)
    then got (refuse erofs (begin s))
    else if not (uid == 0)
    then got (refuse eacces (begin s))
    else append_command signed k buf (begin s)
