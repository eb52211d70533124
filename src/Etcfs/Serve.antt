-- ===== src/Etcfs/Serve.antt =====
-- Reads and writes of the configuration file: the branches for `CFG_NAME` of `m_read` and `m_write`
-- of src/etcfs/etcfs.c.
use bedrocklinux_userland.Base.{
  ℕ, ◌≡◌, ◌≢◌, Option, none, some, ℤ, negsuc, neg, is_neg, if◌then◌else◌, ◌==◌, ◌||◌, ==_iff,
  Bool-cases, inl, inr,
}
use bedrocklinux_userland.CString.{Bytes, codes, is_prefix}
use bedrocklinux_userland.Etcfs.Config.{einval, Config}
use bedrocklinux_userland.Etcfs.Commands.{
  Calls, Reply, answer, cfg_add_global, cfg_rm_global, cfg_add_override, cfg_rm_override,
}
use bedrocklinux_userland.Etcfs.Invariant.{IsValid}
use bedrocklinux_userland.Etcfs.Invariant.Commands.{commands-IsValid}
use bedrocklinux_userland.Etcfs.Printed.{Reading, cfg_read}

abbrev pub eacces : ℕ
eacces = 13

-- `FS_IMP_RETURN(rv)`, with the value of `errno`.
unfoldable pub fs_imp_return : ℕ → ℤ → ℤ
fs_imp_return errno rv = if is_neg rv then neg errno else rv

-- `m_read` of the configuration file: `none` is -EACCES.
unfoldable pub read_config : ℕ → Config → ℕ → ℕ → Option Reading
read_config uid c size offset = if uid == 0 then some (cfg_read c size offset) else none

-- The command that a write begins with.
unfoldable pub dispatch : Calls → Bytes → Config → Reply
dispatch k buf c =
    if is_prefix (codes "add_global") buf
    then cfg_add_global k buf c
    else if is_prefix (codes "rm_global") buf
    then cfg_rm_global buf c
    else if is_prefix (codes "add_override") buf
    then cfg_add_override k buf c
    else if is_prefix (codes "rm_override") buf
    then cfg_rm_override buf c
    else answer (neg einval) c

-- `m_write` of the configuration file, for the user that calls. `errno` is what it holds behind the
-- command; the other two refusals set it.
unfoldable pub write_config : ℕ → ℕ → Calls → Bytes → Config → Reply
unfolding dispatch fs_imp_return
write_config errno uid k buf c =
    if uid == 0
    then (let r = dispatch k buf c in
        let known =
          is_prefix (codes "add_global") buf
          || is_prefix (codes "rm_global") buf
          || is_prefix (codes "add_override") buf
          || is_prefix (codes "rm_override") buf in
        record r { rv = if known then fs_imp_return errno r.rv else neg einval })
    else answer (neg eacces) c

dispatch-IsValid :
    (k : Calls) (buf : Bytes) (c : Config) → IsValid c → IsValid (dispatch k buf c).cfg
unfolding dispatch
dispatch-IsValid k buf c v =
    let (ag, rg, ao, ro) = commands-IsValid c v k buf in
    elim (Bool-cases (is_prefix (codes "add_global") buf)) [
      | inl e ↦ rw e ag
      | inr e ↦ elim (Bool-cases (is_prefix (codes "rm_global") buf)) [
        | inl e1 ↦ rw (e, e1) rg
        | inr e1 ↦ elim (Bool-cases (is_prefix (codes "add_override") buf)) [
          | inl e2 ↦ rw (e, e1, e2) ao
          | inr e2 ↦ elim (Bool-cases (is_prefix (codes "rm_override") buf)) [
            | inl e3 ↦ rw (e, e1, e2, e3) ro
            | inr e3 ↦ rw (e, e1, e2, e3) v
          ]
        ]
      ]
    ]

-- A write to the configuration file, whatever its bytes and whatever allocations fail, leaves a
-- valid configuration valid; from a caller that is not root it is refused with -EACCES and changes
-- nothing.
pub write_config-IsValid :
    (errno uid : ℕ) (k : Calls) (buf : Bytes) (c : Config)
    → IsValid c
    → IsValid (write_config errno uid k buf c).cfg
      × (uid ≢ 0
          → ((write_config errno uid k buf c).rv ≡ negsuc 12)
            × ((write_config errno uid k buf c).cfg ≡ c))
unfolding write_config
write_config-IsValid errno uid k buf c v = elim (Bool-cases (uid == 0)) [
  | inl e ↦ (rw e (dispatch-IsValid k buf c v), λ n. absurd (n ((==_iff uid 0).0 e)))
  | inr e ↦ (rw e v, λ n. (rw e, rw e))
]
