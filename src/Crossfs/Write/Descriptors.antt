-- ===== src/Crossfs/Write/Descriptors.antt =====
-- No sequence of writes to the configuration of src/crossfs/crossfs.c closes a descriptor that a
-- back still has.
use bedrocklinux_userland.Base.{
  ℕ, ◌+◌, ◌≤◌, ◌≡◌, ◌⊎◌, inl, inr, refl, sym, ap, length, ◌∙◌, subst, Bool, true, false, not, ◌&&◌,
  List, [], ◌∷◌, ◌++◌, Option, none, some, if◌then◌else◌, ◌==◌, leb, ltb, arith, Bool-cases, ==_iff,
}
use bedrocklinux_userland.CString.{Bytes, codes, is_prefix, has, cstr}
use bedrocklinux_userland.Crossfs.Config.{BackEntry, Cfgs, cfg_clear}
use bedrocklinux_userland.Crossfs.Paths.{same_path, cfg_path}
use bedrocklinux_userland.Crossfs.Commands.{
  Calls, Reply, Line, Scanned, mismatch, overrun, got, then_scan, same_fd, is_local_name, is_none,
  scan_line, cfg_add, cfg_rm,
}
use bedrocklinux_userland.Crossfs.Commands.Effect.{
  Weight, sum, uses, Source, no_fd, shared, fresh, AddEffect, kept, added, add_line-AddEffect,
}
use bedrocklinux_userland.Crossfs.Commands.Removal.{RmEffect, same, removed, rm_line-RmEffect}
use bedrocklinux_userland.Crossfs.Write.{
  limit, nbuf_size, Server, Served, Done, begin, finished, execute, append_command, m_write,
}

-- Which descriptors the process has open.
abbrev pub Table : Type 0
Table = ℕ → Bool

abbrev pub is_one_of : List (Option ℕ) → ℕ → Bool
is_one_of [] fd = false
is_one_of (x ∷ xs) fd = if same_fd x (some fd) then true else is_one_of xs fd

-- The table after a command that opened a descriptor, and then closed some.
abbrev pub table_after : Option ℕ → List (Option ℕ) → Table → Table
table_after opened closed t fd =
    if is_one_of closed fd then false else if same_fd opened (some fd) then true else t fd

-- `open` gives a descriptor that was not open.
abbrev pub OpensUnused : Calls → Table → Type 0
OpensUnused k t = (stratum : Bytes) (fd : ℕ) → k.opens stratum ≡ some fd → t fd ≡ false

-- The descriptor of each back is open, and each back but those of the local alias has one.
abbrev pub lacks : Weight
lacks p b = if not b.local && is_none b.root_fd then 1 else 0

pub record IsSafe (c : Cfgs) (t : Table) : Type 0 where
  pub no_dangling : (fd : ℕ) → 1 ≤ sum (uses (some fd)) c.entries → t fd ≡ true
  pub all_present : sum lacks c.entries ≡ 0

same_fd-true : (o : Option ℕ) (fd : ℕ) → same_fd o (some fd) ≡ true → o ≡ some fd
same_fd-true none fd h = cc
same_fd-true (some x) fd h = ap some ((==_iff x fd).0 h)

same_fd-none : (o : Option ℕ) (fd : ℕ) → o ≡ none → same_fd o (some fd) ≡ false
same_fd-none o fd e = rw e refl

contra : true ≡ false → ⊥
contra h = cc

some_fd : (o : Option ℕ) (fd : ℕ) → o ≡ some fd → same_fd o (some fd) ≡ true
some_fd o fd e = rw e ((==_iff fd fd).1 refl)

stays_open :
    (opened closed : Option ℕ) (t : Table) (fd : ℕ)
    → same_fd closed (some fd) ≡ false
    → (same_fd opened (some fd) ≡ true) ⊎ (t fd ≡ true)
    → table_after opened (closed ∷ []) t fd ≡ true
stays_open opened closed t fd h o = ground arith

module _ (k : Calls) (c : Cfgs) (t : Table) (safe : IsSafe c t) (unused : OpensUnused k t) where
  -- A descriptor that was opened is not one that a back has.
  opened_unused : (s : Bytes) (fd : ℕ) → k.opens s ≡ some fd → t fd ≡ true → ⊥
  opened_unused s fd h o = contra (sym o ∙ unused s fd h)

  kept_open :
      (r : Reply) (fd : ℕ) (s : Bytes)
      → r.closed ≡ r.opened
      → (r.opened ≡ some fd → k.opens s ≡ some fd)
      → t fd ≡ true
      → table_after r.opened (r.closed ∷ []) t fd ≡ true
  kept_open r fd s cl op o = elim (Bool-cases (same_fd r.opened (some fd))) [
    | inl e ↦ absurd (opened_unused s fd (op (same_fd-true r.opened fd e)) o)
    | inr e ↦ stays_open r.opened r.closed t fd (rw cl e) (inr o)
  ]

  -- The new back's descriptor is open.
  Source-open :
      (l : Line) (r : Reply) (o : Option ℕ) (fd : ℕ)
      → Source k l c r o
      → o ≡ some fd
      → (same_fd r.opened (some fd) ≡ true) ⊎ (t fd ≡ true)
  Source-open l r _ fd (no_fd a b) e = cc
  Source-open l r _ fd (shared x u p) e = inr (safe.no_dangling fd (rw (← e) u))
  Source-open l r _ fd (fresh x a p) e = inl (some_fd r.opened fd (p ∙ e))

  Source-present :
      (l : Line) (r : Reply) (b : BackEntry) (o : Option ℕ)
      → o ≡ b.root_fd
      → b.local ≡ is_local_name l.stratum
      → Source k l c r o
      → lacks l.cpath b ≡ 0
  Source-present l r b _ e loc (no_fd a p) = rw (loc, a) refl
  Source-present l r b _ e loc (shared x u p) = rw (← e) (ground arith)
  Source-present l r b _ e loc (fresh x a p) = rw (← e) (ground arith)

  add-IsSafe :
      (l : Line) (r : Reply)
      → AddEffect k l c r
      → IsSafe r.cfgs (table_after r.opened (r.closed ∷ []) t)
  add-IsSafe l r (kept eq cl op why) = record {
    no_dangling = λ fd u.
        kept_open r fd l.stratum cl (op fd) (safe.no_dangling fd (rw (← eq (uses (some fd))) u));
    all_present = eq lacks ∙ safe.all_present;
  }
  add-IsSafe l r (added b rv n p loc eq src cl ab) = record {
    no_dangling = λ fd u.
        stays_open r.opened r.closed t fd (same_fd-none r.closed fd cl)
          (elim (Bool-cases (same_fd b.root_fd (some fd))) [
            | inl e ↦ Source-open l r b.root_fd fd src (same_fd-true b.root_fd fd e)
            | inr e ↦
                let new : uses (some fd) l.cpath b ≡ 0 = rw e refl in
                inr (safe.no_dangling fd (omega (arith, eq (uses (some fd)), new)))
          ]);
    all_present =
        omega (arith, eq lacks, Source-present l r b b.root_fd refl loc src, safe.all_present);
  }

  -- A descriptor that a removal closes was that of the removed back alone.
  closed_unused :
      (l : Line) (r : Reply) (b : BackEntry) (fd : ℕ)
      → ((g : Weight) → sum g r.cfgs.entries + g l.cpath b ≡ sum g c.entries)
      → r.closed ≡ b.root_fd
      → sum (uses b.root_fd) c.entries ≡ 1
      → 1 ≤ sum (uses (some fd)) r.cfgs.entries
      → same_fd r.closed (some fd) ≡ false
  closed_unused l r b fd eq cl one u = elim (Bool-cases (same_fd r.closed (some fd))) [
    | inr e ↦ e
    | inl e ↦
        let at : b.root_fd ≡ some fd = sym cl ∙ same_fd-true r.closed fd e in
        let own : uses (some fd) l.cpath b ≡ 1 = rw (some_fd b.root_fd fd at) refl in
        let sole : sum (uses (some fd)) c.entries ≡ 1 = rw at at one in
        absurd (omega (arith, eq (uses (some fd)), own, sole, u))
  ]

  rm-IsSafe :
      (l : Line) (r : Reply)
      → RmEffect l c r
      → IsSafe r.cfgs (table_after r.opened (r.closed ∷ []) t)
  rm-IsSafe l r (same e cl o bad) = record {
    no_dangling = λ fd u.
        stays_open r.opened r.closed t fd (same_fd-none r.closed fd cl)
          (inr (safe.no_dangling fd (rw (← e) u)));
    all_present = ap (λ (d : Cfgs). sum lacks d.entries) e ∙ safe.all_present;
  }
  rm-IsSafe l r (removed b rv n p eq cl o) = record {
    no_dangling = λ fd u.
        stays_open r.opened r.closed t fd
          (elim cl [
            | inl e ↦ same_fd-none r.closed fd e
            | inr (e, one) ↦ closed_unused l r b fd eq e one u
          ])
          (inr (safe.no_dangling fd (omega (arith, eq (uses (some fd)), u))));
    all_present = omega (arith, eq lacks, safe.all_present);
  }

then_scan-eq-got {ℓ κ} :
    {A : Type ℓ} {B : Type κ} (w : Scanned A) (f : A → Scanned B) (b : B)
    → then_scan w f ≡ got b
    → (a : A) × (w ≡ got a) × (f a ≡ got b)
unfolding then_scan
then_scan-eq-got mismatch f b h = cc
then_scan-eq-got overrun f b h = cc
then_scan-eq-got (got a) f b h = (a, refl, h)

got-injective {ℓ} : {A : Type ℓ} (a b : A) → ◌≡◌ {A = Scanned A} (got a) (got b) → a ≡ b
got-injective a b h = ap (elim [ mismatch ↦ a | overrun ↦ a | got x ↦ x ]) h

no_got {ℓ} : {A : Type ℓ} (a : A) → ◌≡◌ {A = Scanned A} overrun (got a) → ⊥
no_got a h = cc

-- Calls that open nothing.
abbrev closing_only : Calls
closing_only = record {
  malloc_cpath = true;
  realloc_cfgs = true;
  malloc_lpath = true;
  malloc_stratum = true;
  realloc_back = true;
  opens = λ s. none;
}

module _ (c : Cfgs) (t : Table) (safe : IsSafe c t) where
  same-IsSafe : IsSafe c (table_after none (none ∷ []) t)
  same-IsSafe = record { no_dangling = safe.no_dangling; all_present = safe.all_present }

  quiet-IsSafe : IsSafe c (table_after none [] t)
  quiet-IsSafe = record { no_dangling = safe.no_dangling; all_present = safe.all_present }

  cfg_add-IsSafe :
      (k : Calls) (buf : Bytes) (r : Reply)
      → OpensUnused k t
      → cfg_add k buf c ≡ got r
      → IsSafe r.cfgs (table_after r.opened (r.closed ∷ []) t)
  unfolding cfg_add
  cfg_add-IsSafe k buf r unused h = go (scan_line buf) refl
    where
      go :
          (w : Scanned Line)
          → scan_line buf ≡ w
          → IsSafe r.cfgs (table_after r.opened (r.closed ∷ []) t)
      go mismatch e =
          let q = got-injective _ r (rw (e, cfg_add) at h) in
          subst (λ (x : Reply). IsSafe x.cfgs (table_after x.opened (x.closed ∷ []) t)) q
            same-IsSafe
      go overrun e = absurd (no_got r (rw (e, cfg_add) at h))
      go (got l) e =
          let q = got-injective _ r (rw (e, cfg_add) at h) in
          subst (λ (x : Reply). IsSafe x.cfgs (table_after x.opened (x.closed ∷ []) t)) q
            (add-IsSafe k c t safe unused l _ (add_line-AddEffect k l (length buf) c))

  cfg_rm-IsSafe :
      (buf : Bytes) (r : Reply)
      → cfg_rm buf c ≡ got r
      → IsSafe r.cfgs (table_after r.opened (r.closed ∷ []) t)
  unfolding cfg_rm
  cfg_rm-IsSafe buf r h = go (scan_line buf) refl
    where
      go :
          (w : Scanned Line)
          → scan_line buf ≡ w
          → IsSafe r.cfgs (table_after r.opened (r.closed ∷ []) t)
      go mismatch e =
          let q = got-injective _ r (rw (e, cfg_rm) at h) in
          subst (λ (x : Reply). IsSafe x.cfgs (table_after x.opened (x.closed ∷ []) t)) q
            same-IsSafe
      go overrun e = absurd (no_got r (rw (e, cfg_rm) at h))
      go (got l) e =
          let q = got-injective _ r (rw (e, cfg_rm) at h) in
          subst (λ (x : Reply). IsSafe x.cfgs (table_after x.opened (x.closed ∷ []) t)) q
            (rm-IsSafe closing_only c t safe (λ s fd h1. cc) l _
              (rm_line-RmEffect l (length buf) c))

  cleared-IsSafe : IsSafe (cfg_clear c).1 (table_after none (cfg_clear c).0 t)
  unfolding cfg_clear
  cleared-IsSafe = record { no_dangling = λ fd u. absurd (omega arith); all_present = refl }

  -- A command that is executed.
  execute-IsSafe :
      (k : Calls) (size : ℕ) (text : Bytes) (d : Done)
      → OpensUnused k t
      → execute k size text c ≡ got d
      → IsSafe d.cfgs (table_after d.opened d.closed t)
  unfolding execute
  execute-IsSafe k size text d unused h =
      elim (Bool-cases (leb 5 size && is_prefix (codes "clear") text)) [
        | inl a ↦
            subst (λ (x : Done). IsSafe x.cfgs (table_after x.opened x.closed t))
              (got-injective _ d (rw a at h)) cleared-IsSafe
        | inr a ↦ elim (Bool-cases (leb 3 size && is_prefix (codes "add") text)) [
          | inl b ↦
              let (r, e, f) =
                then_scan-eq-got (cfg_add k text c) (λ r. got (finished size r)) d
                  (rw (a, b) at h) in
              subst (λ (x : Done). IsSafe x.cfgs (table_after x.opened x.closed t))
                (got-injective _ d f) (cfg_add-IsSafe k text r unused e)
          | inr b ↦ elim (Bool-cases (leb 2 size && is_prefix (codes "rm") text)) [
            | inl g ↦
                let (r, e, f) =
                  then_scan-eq-got (cfg_rm text c) (λ r. got (finished size r)) d
                    (rw (a, b, g) at h) in
                subst (λ (x : Done). IsSafe x.cfgs (table_after x.opened x.closed t))
                  (got-injective _ d f) (cfg_rm-IsSafe text r e)
            | inr g ↦
                subst (λ (x : Done). IsSafe x.cfgs (table_after x.opened x.closed t))
                  (got-injective _ d (rw (a, b, g) at h)) quiet-IsSafe
          ]
        ]
      ]

abbrev AfterWrite : Table → Served → Type 0
AfterWrite t r = IsSafe r.server.cfgs (table_after r.opened r.closed t)

append_command-IsSafe :
    (signed : Bool) (k : Calls) (buf : Bytes) (s : Server) (t : Table) (r : Served)
    → IsSafe s.cfgs t
    → OpensUnused k t
    → append_command signed k buf s ≡ got r
    → AfterWrite t r
unfolding append_command
append_command-IsSafe signed k buf s t r safe unused h =
    elim (Bool-cases (ltb (limit signed s.nbuf_len) (length buf))) [
      | inl a ↦ subst (AfterWrite t) (got-injective _ r (rw a at h)) (quiet-IsSafe s.cfgs t safe)
      | inr a ↦ elim (Bool-cases (leb nbuf_size (length s.nbuf + length (cstr buf)))) [
        | inl b ↦ absurd (no_got r (rw (a, b) at h))
        | inr b ↦ elim (Bool-cases (has b'\n' (s.nbuf ++ cstr buf))) [
          | inr n ↦
              subst (AfterWrite t) (got-injective _ r (rw (a, b, n) at h))
                (quiet-IsSafe s.cfgs t safe)
          | inl n ↦
              let (d, e, f) =
                then_scan-eq-got (execute k (length buf) (s.nbuf ++ cstr buf) s.cfgs) _ r
                  (rw (a, b, n) at h) in
              subst (AfterWrite t) (got-injective _ r f)
                (execute-IsSafe s.cfgs t safe k (length buf) (s.nbuf ++ cstr buf) d unused e)
        ]
      ]
    ]

begin_cfgs : (s : Server) → (begin s).cfgs ≡ s.cfgs
unfolding begin
begin_cfgs s = ground arith

m_write-IsSafe :
    (signed : Bool) (k : Calls) (ipath : Bytes) (uid : ℕ) (buf : Bytes) (s : Server) (t : Table)
    (r : Served)
    → IsSafe s.cfgs t
    → OpensUnused k t
    → m_write signed k ipath uid buf s ≡ got r
    → AfterWrite t r
unfolding m_write
m_write-IsSafe signed k ipath uid buf s t r safe unused h =
    let begun : IsSafe (begin s).cfgs t = subst (λ c. IsSafe c t) (sym (begin_cfgs s)) safe in
    elim (Bool-cases (same_path ipath cfg_path)) [
      | inr a ↦
          subst (AfterWrite t) (got-injective _ r (rw a at h)) (quiet-IsSafe (begin s).cfgs t begun)
      | inl a ↦ elim (Bool-cases (uid == 0)) [
        | inr b ↦
            subst (AfterWrite t) (got-injective _ r (rw (a, b) at h))
              (quiet-IsSafe (begin s).cfgs t begun)
        | inl b ↦ append_command-IsSafe signed k buf (begin s) t r begun unused (rw (a, b) at h)
      ]
    ]

-- The states that writes can lead to, among calls that open and close other descriptors.
pub data Reach (s0 : Server) (t0 : Table) : Server → Table → Type 0 where
  start : Reach s0 t0 s0 t0
  write :
      (s : Server) (t : Table) (s' : Server) (t' : Table) (signed : Bool) (k : Calls)
      (ipath : Bytes) (uid : ℕ) (buf : Bytes) (r : Served)
      → Reach s0 t0 s t
      → OpensUnused k t
      → m_write signed k ipath uid buf s ≡ got r
      → s' ≡ r.server
      → t' ≡ table_after r.opened r.closed t
      → Reach s0 t0 s' t'
  elsewhere :
      (s : Server) (t : Table) (t' : Table)
      → Reach s0 t0 s t
      → ((fd : ℕ) → 1 ≤ sum (uses (some fd)) s.cfgs.entries → t' fd ≡ t fd)
      → Reach s0 t0 s t'

-- Whatever writes to the configuration that stay inside their buffers follow one another (none runs
-- past `nbuf`, or has a word too long for the array of sscanf), and whichever allocations fail in
-- them, the descriptor of every back stays open, and every back but those of the local alias has one; if
-- each opened descriptor is one that was not open, and other calls leave those of the backs alone.
pub Reach-IsSafe :
    (s0 : Server) (t0 : Table) (s : Server) (t : Table)
    → IsSafe s0.cfgs t0
    → Reach s0 t0 s t
    → IsSafe s.cfgs t
Reach-IsSafe s0 t0 s t safe start = safe
Reach-IsSafe s0 t0 _ _ safe (write s t s' t' signed k ipath uid buf r reach unused w e f) =
    rw (e, f)
      (m_write-IsSafe signed k ipath uid buf s t r (Reach-IsSafe s0 t0 s t safe reach) unused w)
Reach-IsSafe s0 t0 _ _ safe (elsewhere s t t' reach eq) =
    let old = Reach-IsSafe s0 t0 s t safe reach in
    record { no_dangling = λ fd u. eq fd u ∙ old.no_dangling fd u; all_present = old.all_present }
