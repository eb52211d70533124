-- ===== src/Crossfs/Request.antt =====
-- A request to src/crossfs/crossfs.c: `set_local_stratum`, which finds the stratum of the caller, and
-- FS_IMP_SETUP and FS_IMP_RETURN around a handler.
use bedrocklinux_userland.Base.{
  ℕ, List, [], ◌∷◌, ◌++◌, Option, none, some, ℤ, pos, neg, Bool, false, not, length, if◌then◌else◌,
}
use bedrocklinux_userland.CString.{Bytes, codes, cstr}

abbrev pub esrch : ℕ
esrch = 3

abbrev pub virtual_stratum : Bytes
virtual_stratum = codes "bedrock"

-- What the calls yield: whether there is a context, the descriptor of the caller's root, the value of
-- its STRATUM_XATTR (at most `sizeof(local_stratum_name) - 1` bytes), and the descriptor of the
-- virtual stratum.
pub record Caller : Type 0 where
  pub context : Bool
  pub proc_root : Option ℕ
  pub xattr : Option Bytes
  pub virtual_root : Option ℕ

-- `local_stratum`, with `name_len` beside the bytes of the name.
pub record LocalStratum : Type 0 where
  pub name : Bytes
  pub name_len : ℕ
  pub root_fd : ℕ

-- What `set_local_stratum` returns, and the descriptors that it opened and closed.
pub record Setup : Type 0 where
  pub rv : ℤ
  pub local_stratum : Option LocalStratum
  pub opened : List ℕ
  pub closed : List ℕ

-- The label `fallback_virtual`, with the descriptor that was opened and closed before it.
unfoldable pub fallback_virtual : List ℕ → Option ℕ → Setup
fallback_virtual used none = record {
  rv = neg esrch;
  local_stratum = none;
  opened = used;
  closed = used;
}
fallback_virtual used (some fd) = record {
  rv = pos 0;
  local_stratum =
      some (record { name = virtual_stratum; name_len = length virtual_stratum; root_fd = fd });
  opened = used ++ (fd ∷ []);
  closed = used;
}

-- `set_local_stratum()`
unfoldable pub set_local_stratum : Caller → Setup
unfolding fallback_virtual
set_local_stratum c =
    if not c.context then fallback_virtual [] c.virtual_root else elim c.proc_root [
      | none ↦ fallback_virtual [] c.virtual_root
      | some fd ↦ elim c.xattr [
        | none ↦ fallback_virtual (fd ∷ []) c.virtual_root
        | some value ↦ record {
          rv = pos 0;
          local_stratum =
              some (record { name = cstr value; name_len = length value; root_fd = fd });
          opened = fd ∷ [];
          closed = [];
        }
      ]
    ]

-- What a handler does between the macros: what it returns and writes to its buffer, the descriptors
-- that it opened, those that it closed, and whether it returns through FS_IMP_RETURN.
pub record Handled : Type 0 where
  pub rv : ℤ
  pub out : Bytes
  pub opened : List ℕ
  pub closed : List ℕ
  pub released : Bool

-- A request: the descriptors that it opened and closed, and whether `cfg_lock` is still held.
pub record Returned : Type 0 where
  pub rv : ℤ
  pub out : Bytes
  pub opened : List ℕ
  pub closed : List ℕ
  pub locked : Bool

-- FS_IMP_RETURN, or a `return` without it.
unfoldable pub fs_imp_return : Setup → LocalStratum → Handled → Returned
fs_imp_return s l h = record {
  rv = h.rv;
  out = h.out;
  opened = s.opened ++ h.opened;
  closed = if h.released then s.closed ++ (h.closed ++ (l.root_fd ∷ [])) else s.closed ++ h.closed;
  locked = not h.released;
}

-- FS_IMP_SETUP before a handler.
unfoldable pub serve : (LocalStratum → Handled) → Caller → Returned
unfolding set_local_stratum fs_imp_return
serve handler c =
    let s = set_local_stratum c in
    elim s.local_stratum [
      | none ↦ record { rv = s.rv; out = []; opened = s.opened; closed = s.closed; locked = false }
      | some l ↦ fs_imp_return s l (handler l)
    ]
