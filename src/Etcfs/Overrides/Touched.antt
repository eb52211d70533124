-- ===== src/Etcfs/Overrides/Touched.antt =====
-- What `apply_override` of src/etcfs/etcfs.c changes of the configuration.
use mathlib.Core.Option.{some-injective}
use bedrocklinux_userland.Base.{
  ℕ, ◌+◌, ◌≡◌, ◌⊎◌, inl, inr, refl, sym, ap, Bool, true, false, Option, none, some, set, get_elem?,
  leb, pos, Bool-cases,
}
use bedrocklinux_userland.CString.{Bytes}
use bedrocklinux_userland.Etcfs.Config.{
  OType, symlink, directory, inject, Override, Config, find_index,
}
use bedrocklinux_userland.Etcfs.Files.{Disk}
use bedrocklinux_userland.Etcfs.Inject.{Result, inject as inject_string}
use bedrocklinux_userland.Etcfs.Overrides.{
  Calls, Applied, is_for, nothing_to_do, injected, enforce, apply_tested, apply_at, apply_override,
}

-- The configuration is as it was, but for the time in one override.
abbrev pub Touched : Config → Config → Type 0
Touched cfg cfg' =
    (cfg' ≡ cfg)
    ⊎ ((i : ℕ) × (o : Override) × (now : ℕ) × (get_elem? cfg.overrides i ≡ some o)
        × (cfg'
            ≡ record cfg { overrides = set cfg.overrides i (record o { last_override = now }) }))

module _ (k : Calls) (rpath : Bytes) where
  injected-cfg :
      (cfg : Config) (r : Option Result) (a : Applied)
      → injected k rpath cfg r ≡ some a
      → a.cfg ≡ cfg
  injected-cfg cfg none a h = cc
  injected-cfg cfg (some r) a h = sym (ap (λ (b : Applied). b.cfg) (some-injective _ a h))

  injected_string-cfg :
      (str : Option Bytes) (cfg : Config) (disk : Disk) (a : Applied)
      → elim str [
        | none ↦ none
        | some t ↦ injected k rpath cfg (inject_string k.inject_calls rpath t disk)
      ]
        ≡ some a
      → a.cfg ≡ cfg
  injected_string-cfg none cfg disk a h = cc
  injected_string-cfg (some t) cfg disk a h =
      injected-cfg cfg (inject_string k.inject_calls rpath t disk) a h

  enforce-cfg :
      (t : OType) (o : Override) (cfg : Config) (disk : Disk) (a : Applied)
      → enforce k rpath t o cfg disk ≡ some a
      → a.cfg ≡ cfg
  unfolding enforce
  enforce-cfg symlink o cfg disk a h = sym (ap (λ (b : Applied). b.cfg) (some-injective _ a h))
  enforce-cfg directory o cfg disk a h = sym (ap (λ (b : Applied). b.cfg) (some-injective _ a h))
  enforce-cfg inject o cfg disk a h = injected_string-cfg o.injected cfg disk a h

  apply_tested-Touched :
      (i : ℕ) (o : Override) (cfg : Config) (disk : Disk) (test : Option Bool) (a : Applied)
      → get_elem? cfg.overrides i ≡ some o
      → apply_tested k rpath i o cfg disk test ≡ some a
      → Touched cfg a.cfg
  apply_tested-Touched i o cfg disk none a at h = cc
  apply_tested-Touched i o cfg disk (some true) a at h =
      inl (sym (ap (λ (b : Applied). b.cfg) (some-injective _ a h)))
  apply_tested-Touched i o cfg disk (some false) a at h =
      elim (Bool-cases (leb k.now (o.last_override + 1))) [
        | inl l ↦ inl (sym (ap (λ (b : Applied). b.cfg) (some-injective _ a (rw l at h))))
        | inr l ↦ inr (i, o, k.now, at, enforce-cfg o.otype o _ disk a (rw l at h))
      ]

  apply_at-Touched :
      (i : ℕ) (o : Override) (cfg : Config) (disk : Disk) (a : Applied)
      → get_elem? cfg.overrides i ≡ some o
      → apply_at k rpath i o cfg disk ≡ some a
      → Touched cfg a.cfg
  unfolding apply_at
  apply_at-Touched i o cfg disk a at h =
      apply_tested-Touched i o cfg disk (nothing_to_do k rpath o.otype o (disk rpath)) a at h

  apply_found-Touched :
      (i : ℕ) (e : Option Override) (cfg : Config) (disk : Disk) (a : Applied)
      → get_elem? cfg.overrides i ≡ e
      → elim e [
        | none ↦ some (record { rv = pos 0; cfg = cfg; disk = disk })
        | some o ↦ apply_at k rpath i o cfg disk
      ]
        ≡ some a
      → Touched cfg a.cfg
  apply_found-Touched i none cfg disk a at h =
      inl (sym (ap (λ (b : Applied). b.cfg) (some-injective _ a h)))
  apply_found-Touched i (some o) cfg disk a at h = apply_at-Touched i o cfg disk a at h

  apply_index-Touched :
      (n : Option ℕ) (cfg : Config) (disk : Disk) (a : Applied)
      → elim n [
        | none ↦ some (record { rv = pos 0; cfg = cfg; disk = disk })
        | some i ↦ elim (get_elem? cfg.overrides i) [
          | none ↦ some (record { rv = pos 0; cfg = cfg; disk = disk })
          | some o ↦ apply_at k rpath i o cfg disk
        ]
      ]
        ≡ some a
      → Touched cfg a.cfg
  apply_index-Touched none cfg disk a h =
      inl (sym (ap (λ (b : Applied). b.cfg) (some-injective _ a h)))
  apply_index-Touched (some i) cfg disk a h =
      apply_found-Touched i (get_elem? cfg.overrides i) cfg disk a refl h

  pub apply_override-Touched :
      (path : Bytes) (cfg : Config) (disk : Disk) (a : Applied)
      → apply_override k rpath path cfg disk ≡ some a
      → Touched cfg a.cfg
  unfolding apply_override
  apply_override-Touched path cfg disk a h =
      apply_index-Touched (find_index (is_for path) cfg.overrides) cfg disk a h
