-- ===== src/Etcfs/Invariant/Commands.antt =====
-- Every command preserves the invariant, also where it fails half way.
use bedrocklinux_userland.Base.{
  ℕ, ◌+◌, ◌≤◌, ◌≡◌, ap, ◌⊎◌, inl, inr, Bool, true, false, [], ◌∷◌, ◌++◌, Option, none, some, length,
  arith, if◌then◌else◌, ltb, Option-cases,
}
use bedrocklinux_userland.CString.{Bytes, codes, str_eq, has}
use bedrocklinux_userland.Etcfs.Config.{
  Override, Config, is_global, find_index, OType, symlink, directory, inject,
}
use bedrocklinux_userland.Etcfs.Commands.{
  Calls, Reply, command_text, one_argument, three_arguments, type_of, global_line_length,
  override_line_length, new_override, insert_global, cfg_add_global, remove_global, cfg_rm_global,
  parsed, checked, is_some, drop_global, found_override, inject_override, insert_override,
  replace_inject, add_override, cfg_add_override, drop_override, remove_override, cfg_rm_override,
}
use bedrocklinux_userland.Etcfs.Arrays.{total, find_index-eq-some, find_index-eq-none}
use bedrocklinux_userland.Etcfs.Invariant.{
  IsValid, hits_override, grown_globals-IsValid, grown_overrides-IsValid, added_global-IsValid,
  removed_global-IsValid, added_override-IsValid, removed_override-IsValid,
  replaced_override-IsValid,
}

abbrev room_for : ℕ → ℕ → ℕ
room_for alloc cnt = if ltb alloc (cnt + 1) then cnt + 1 else alloc

room_for_grows : (alloc cnt : ℕ) → (alloc ≤ room_for alloc cnt) × (cnt + 1 ≤ room_for alloc cnt)
room_for_grows alloc cnt = ground arith

module _ (k : Calls) (path : Bytes) (size : ℕ) (c : Config) where
  -- What `insert_global` can leave.
  insert_global-cfg :
      ((insert_global k path size c).cfg ≡ c)
      ⊎ ((insert_global k path size c).cfg
          ≡ record c { global_alloc = room_for c.global_alloc (length c.globals) })
      ⊎ (is_global path c.globals ≡ false)
        × ((insert_global k path size c).cfg ≡ record c {
          globals = c.globals ++ (path ∷ []);
          global_alloc = room_for c.global_alloc (length c.globals);
          st_size = c.st_size + global_line_length path;
        })
  unfolding insert_global
  insert_global-cfg = ground arith

  insert_global-IsValid : IsValid c → IsValid (insert_global k path size c).cfg
  insert_global-IsValid v =
      let n : ℕ = room_for c.global_alloc (length c.globals) in
      let (grows, fits) = room_for_grows c.global_alloc (length c.globals) in
      elim insert_global-cfg [
        | inl e ↦ rw e v
        | inr (inl e) ↦ rw e (grown_globals-IsValid c v n grows)
        | inr (inr (fresh, e)) ↦ rw e (added_global-IsValid c v path n fresh grows fits)
      ]

drop_global-IsValid :
    (size : ℕ) (p : Bytes → Bool) (c : Config)
    → IsValid c
    → IsValid (drop_global size (find_index p c.globals) c).cfg
unfolding drop_global
drop_global-IsValid size p c v = elim (Option-cases (find_index p c.globals)) [
  | inl e ↦ rw (e, drop_global) v
  | inr (i, e) ↦
      let (g, at, _) = find_index-eq-some p c.globals i e in
      rw (e, drop_global) (rw at (removed_global-IsValid c v i g at))
]

module _ (k : Calls) (t : OType) (path content : Bytes) (injected : Option Bytes) (size : ℕ)
    (c : Config) where
  -- What `insert_override` can leave.
  insert_override-cfg :
      ((insert_override k t path content injected size c).cfg ≡ c)
      ⊎ ((insert_override k t path content injected size c).cfg
          ≡ record c { override_alloc = room_for c.override_alloc (length c.overrides) })
      ⊎ (is_some (find_index (λ (p : Override). str_eq p.path path) c.overrides) ≡ false)
        × ((insert_override k t path content injected size c).cfg ≡ record c {
          overrides = c.overrides ++ (new_override t path content injected ∷ []);
          override_alloc = room_for c.override_alloc (length c.overrides);
          st_size = c.st_size + override_line_length (new_override t path content injected);
        })
  unfolding insert_override
  insert_override-cfg = ground arith

  fresh-hits :
      is_some (find_index (λ (p : Override). str_eq p.path path) c.overrides) ≡ false
      → total (hits_override path) c.overrides ≡ 0
  fresh-hits h =
      elim (Option-cases (find_index (λ (p : Override). str_eq p.path path) c.overrides)) [
        | inl e ↦ find_index-eq-none (λ (p : Override). str_eq p.path path) c.overrides e
        | inr (i, e) ↦ cc (ap is_some e, h)
      ]

  insert_override-IsValid :
      IsValid c → IsValid (insert_override k t path content injected size c).cfg
  insert_override-IsValid v =
      let n : ℕ = room_for c.override_alloc (length c.overrides) in
      let (grows, fits) = room_for_grows c.override_alloc (length c.overrides) in
      let o : Override = new_override t path content injected in
      elim insert_override-cfg [
        | inl e ↦ rw e v
        | inr (inl e) ↦ rw e (grown_overrides-IsValid c v n grows)
        | inr (inr (fresh, e)) ↦ rw e (added_override-IsValid c v o n (fresh-hits fresh) grows fits)
      ]

inject_override-IsValid :
    (k : Calls) (path content injected : Bytes) (size : ℕ) (p : Override → Bool) (c : Config)
    → IsValid c
    → IsValid (inject_override k path content injected size (find_index p c.overrides) c).cfg
unfolding inject_override
inject_override-IsValid k path content injected size p c v =
    elim (Option-cases (find_index p c.overrides)) [
      | inl e ↦
          rw (e, inject_override)
            (insert_override-IsValid k inject path content (some injected) size c v)
      | inr (i, e) ↦
          let (o, at, _) = find_index-eq-some p c.overrides i e in
          rw (e, inject_override)
            (rw (at, replace_inject) (replaced_override-IsValid c v i o injected at))
    ]

found_override-IsValid :
    (size : ℕ) (p : Override → Bool) (c : Config)
    → IsValid c
    → IsValid (found_override size (find_index p c.overrides) c).cfg
unfolding found_override
found_override-IsValid size p c v = elim (Option-cases (find_index p c.overrides)) [
  | inl e ↦ rw (e, found_override) v
  | inr (i, e) ↦
      let (o, at, _) = find_index-eq-some p c.overrides i e in
      rw (e, found_override) (rw (at, drop_override) (removed_override-IsValid c v i o at))
]

-- The configuration behind a command is valid.
pub record LeavesValid (r : Reply) : Type 0 where
  pub valid : IsValid r.cfg

leaves : (r : Reply) → IsValid r.cfg → LeavesValid r
leaves r v = record { valid = v }

module _ (c : Config) (v : IsValid c) where
  parsed-LeavesValid {ℓ} :
      {A : Type ℓ} (e : ℕ) (o : Option A) (f : A → Reply)
      → ((a : A) → LeavesValid (f a))
      → LeavesValid (parsed e o c f)
  unfolding parsed
  parsed-LeavesValid e none f h = record { valid = v }
  parsed-LeavesValid e (some a) f h = h a

  checked-LeavesValid :
      (e : ℕ) (b : Bool) (r : Reply) → IsValid r.cfg → LeavesValid (checked e b c r)
  unfolding checked
  checked-LeavesValid e true r h = record { valid = h }
  checked-LeavesValid e false r h = record { valid = v }

  add_override-LeavesValid :
      (k : Calls) (t : OType) (path content : Bytes) (size : ℕ)
      → LeavesValid (add_override k t path content size c)
  unfolding add_override
  add_override-LeavesValid k symlink path content size =
      leaves _ (insert_override-IsValid k symlink path content none size c v)
  add_override-LeavesValid k directory path content size =
      leaves _ (insert_override-IsValid k directory path content none size c v)
  add_override-LeavesValid k inject path content size =
      parsed-LeavesValid _ (k.file_content content) _
        λ injected. leaves _ (inject_override-IsValid k path content injected size _ c v)

  cfg_add_global-LeavesValid : (k : Calls) (buf : Bytes) → LeavesValid (cfg_add_global k buf c)
  unfolding cfg_add_global
  cfg_add_global-LeavesValid k buf = parsed-LeavesValid _ (command_text buf) _ λ text.
      parsed-LeavesValid _ (one_argument (codes "add_global") text) _ λ path.
        checked-LeavesValid _ (has b'/' path) _ (insert_global-IsValid k path (length buf) c v)

  cfg_rm_global-LeavesValid : (buf : Bytes) → LeavesValid (cfg_rm_global buf c)
  unfolding cfg_rm_global remove_global
  cfg_rm_global-LeavesValid buf = parsed-LeavesValid _ (command_text buf) _ λ text.
      parsed-LeavesValid _ (one_argument (codes "rm_global") text) _ λ path.
        checked-LeavesValid _ (has b'/' path) _
          (drop_global-IsValid (length buf) (λ g. str_eq g path) c v)

  cfg_add_override-LeavesValid : (k : Calls) (buf : Bytes) → LeavesValid (cfg_add_override k buf c)
  unfolding cfg_add_override
  cfg_add_override-LeavesValid k buf = parsed-LeavesValid _ (command_text buf) _ λ text.
      parsed-LeavesValid _ (three_arguments (codes "add_override") text) _ λ (otype, path, content).
        parsed-LeavesValid _ (type_of otype) _
          λ t. add_override-LeavesValid k t path content (length buf)

  cfg_rm_override-LeavesValid : (buf : Bytes) → LeavesValid (cfg_rm_override buf c)
  unfolding cfg_rm_override remove_override
  cfg_rm_override-LeavesValid buf = parsed-LeavesValid _ (command_text buf) _ λ text.
      parsed-LeavesValid _ (one_argument (codes "rm_override") text) _ λ path.
        leaves _ (found_override-IsValid (length buf) (λ (o : Override). str_eq o.path path) c v)

  -- Each of the four commands leaves a valid configuration, whatever was written and whatever
  -- allocations fail.
  pub commands-IsValid :
      (k : Calls) (buf : Bytes)
      → IsValid (cfg_add_global k buf c).cfg
        × IsValid (cfg_rm_global buf c).cfg
        × IsValid (cfg_add_override k buf c).cfg
        × IsValid (cfg_rm_override buf c).cfg
  commands-IsValid k buf = (
    (cfg_add_global-LeavesValid k buf).valid,
    (cfg_rm_global-LeavesValid buf).valid,
    (cfg_add_override-LeavesValid k buf).valid,
    (cfg_rm_override-LeavesValid buf).valid,
  )
