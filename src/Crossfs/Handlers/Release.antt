-- ===== src/Crossfs/Handlers/Release.antt =====
-- What requests to src/crossfs/crossfs.c hold when they return.
use bedrocklinux_userland.Base.{
  ℕ, ◌+◌, ◌≡◌, ◌⊎◌, refl, sym, ap, ◌∙◌, ◌≤◌, inl, inr, true, false, List, [], ◌∷◌, ◌++◌, Option,
  none, some, neg, length, if◌then◌else◌, ◌==◌, leb, arith, Bool-cases, Option-cases, subst,
}
use bedrocklinux_userland.CString.{Bytes}
use bedrocklinux_userland.Etcfs.Config.{enametoolong}
use bedrocklinux_userland.Etcfs.Arrays.{total, total-append}
use bedrocklinux_userland.Crossfs.Config.{CfgEntry}
use bedrocklinux_userland.Crossfs.Paths.{
  IpathClass, class_back, class_vdir, class_root, class_cfg, class_local, class_enoent,
  classify_ipath,
}
use bedrocklinux_userland.Crossfs.Ini.{strata_dir}
use bedrocklinux_userland.Crossfs.Request.{
  LocalStratum, Caller, Setup, Handled, Returned, fallback_virtual, set_local_stratum,
  fs_imp_return, serve, esrch,
}
use bedrocklinux_userland.Crossfs.Handlers.{readlink_local, readlink_class, m_readlink}

-- How often a descriptor is in a list.
abbrev pub times : ℕ → List ℕ → ℕ
times fd fds = total (λ n. if n == fd then 1 else 0) fds

-- The lock is free, and each descriptor was closed as often as it was opened.
pub record IsClean (r : Returned) : Type 0 where
  pub unlocked : r.locked ≡ false
  pub balanced : (fd : ℕ) → times fd r.closed ≡ times fd r.opened

-- The lock is held, and the root of the caller's stratum stays open.
pub record IsStuck (l : LocalStratum) (r : Returned) : Type 0 where
  pub held : r.locked ≡ true
  pub left_open : (fd : ℕ) → times fd r.closed + times fd (l.root_fd ∷ []) ≡ times fd r.opened

-- How `set_local_stratum` ends.
abbrev SetupEnds : Setup → Type 0
SetupEnds s =
    ((s.local_stratum ≡ none) × (s.rv ≡ neg esrch) × (s.closed ≡ s.opened))
    ⊎ ((l : LocalStratum) × (s.local_stratum ≡ some l) × (s.opened ≡ s.closed ++ (l.root_fd ∷ [])))

fallback_lem : (used : List ℕ) (fd : Option ℕ) → SetupEnds (fallback_virtual used fd)
unfolding fallback_virtual
fallback_lem used none = inl (refl, refl, refl)
fallback_lem used (some fd) = inr (_, refl, refl)

setup_lem : (c : Caller) → SetupEnds (set_local_stratum c)
unfolding set_local_stratum
setup_lem c = elim (Bool-cases c.context) [
  | inr n ↦ rw n (fallback_lem [] c.virtual_root)
  | inl y ↦ elim (Option-cases c.proc_root) [
    | inl n ↦ rw (y, n) (fallback_lem [] c.virtual_root)
    | inr (fd, h) ↦ elim (Option-cases c.xattr) [
      | inl n ↦ rw (y, h, n) (fallback_lem (fd ∷ []) c.virtual_root)
      | inr (v, x) ↦ rw (y, h, x) (inr (_, refl, refl))
    ]
  ]
]

module _ (handler : LocalStratum → Handled) (c : Caller) where
  -- A request either fails before its handler runs, or is the handler's.
  pub serve-cases :
      ((set_local_stratum c).local_stratum ≡ none)
        × ((serve handler c).rv ≡ neg esrch)
        × IsClean (serve handler c)
      ⊎ ((l : LocalStratum) × ((set_local_stratum c).local_stratum ≡ some l)
          × ((set_local_stratum c).opened ≡ (set_local_stratum c).closed ++ (l.root_fd ∷ []))
          × (serve handler c ≡ fs_imp_return (set_local_stratum c) l (handler l)))
  unfolding serve
  serve-cases = elim (setup_lem c) [
    | inl (n, rv, eq) ↦
        rw (n, serve)
          (inl (refl, rv, record { unlocked = refl; balanced = λ fd. ap (times fd) eq }))
    | inr (l, h, eq) ↦ inr (l, h, eq, rw (h, serve) refl)
  ]

module _ (s : Setup) (l : LocalStratum) (h : Handled) (eq : s.opened ≡ s.closed ++ (l.root_fd ∷ []))
    (even : (fd : ℕ) → times fd h.closed ≡ times fd h.opened) where
  pub return-IsClean : h.released ≡ true → IsClean (fs_imp_return s l h)
  unfolding fs_imp_return
  return-IsClean r = record {
    unlocked = rw r refl;
    balanced = λ fd.
        rw (r, eq)
          (let f : ℕ → ℕ = λ n. if n == fd then 1 else 0 in
            omega (
              arith,
              even fd,
              total-append f s.closed (h.closed ++ (l.root_fd ∷ [])),
              total-append f h.closed (l.root_fd ∷ []),
              total-append f (s.closed ++ (l.root_fd ∷ [])) h.opened,
              total-append f s.closed (l.root_fd ∷ []),
            ));
  }

  return-IsStuck : h.released ≡ false → IsStuck l (fs_imp_return s l h)
  unfolding fs_imp_return
  return-IsStuck r = record {
    held = rw r refl;
    left_open = λ fd.
        rw (r, eq)
          (let f : ℕ → ℕ = λ n. if n == fd then 1 else 0 in
            omega (
              arith,
              even fd,
              total-append f s.closed h.closed,
              total-append f (s.closed ++ (l.root_fd ∷ [])) h.opened,
              total-append f s.closed (l.root_fd ∷ []),
            ));
  }

pub return_rv : (s : Setup) (l : LocalStratum) (h : Handled) → (fs_imp_return s l h).rv ≡ h.rv
unfolding fs_imp_return
return_rv s l h = refl

module _ (cfgs : List CfgEntry) (ipath : Bytes) (size : ℕ) where
  readlink_class-released :
      (l : LocalStratum) (k : IpathClass CfgEntry)
      → ((readlink_class size l k).released ≡ true)
        ⊎ ((k ≡ class_local)
            × (size ≤ length strata_dir + l.name_len)
            × (readlink_class size l k ≡ record {
              rv = neg enametoolong;
              out = [];
              opened = [];
              closed = [];
              released = false;
            }))
  unfolding readlink_local
  readlink_class-released l (class_back e) = inl refl
  readlink_class-released l (class_vdir e) = inl refl
  readlink_class-released l class_root = inl refl
  readlink_class-released l class_cfg = inl refl
  readlink_class-released l class_enoent = inl refl
  readlink_class-released l class_local =
      elim (Bool-cases (leb size (length strata_dir + l.name_len))) [
        | inl t ↦ inr (refl, ground arith, rw t refl)
        | inr f ↦ inl (rw f refl)
      ]

  readlink_class-even :
      (l : LocalStratum) (k : IpathClass CfgEntry)
      → (readlink_class size l k).closed ≡ (readlink_class size l k).opened
  unfolding readlink_local
  readlink_class-even l (class_back e) = refl
  readlink_class-even l (class_vdir e) = refl
  readlink_class-even l class_root = refl
  readlink_class-even l class_cfg = refl
  readlink_class-even l class_enoent = refl
  readlink_class-even l class_local =
      elim (Bool-cases (leb size (length strata_dir + l.name_len))) [
        | inl t ↦ rw t refl
        | inr f ↦ rw f refl
      ]

  -- A call of `m_readlink` returns with the lock free and each descriptor closed that it opened, or
  -- it is one for the local alias whose target does not fit into the buffer: that returns
  -- -ENAMETOOLONG with the lock held and the root of the caller's stratum open.
  pub m_readlink-release :
      (c : Caller)
      → IsClean (m_readlink cfgs ipath size c)
        ⊎ ((l : LocalStratum) × ((set_local_stratum c).local_stratum ≡ some l)
            × (classify_ipath (λ e. e.cpath) cfgs ipath ≡ class_local)
            × (size ≤ length strata_dir + l.name_len)
            × ((m_readlink cfgs ipath size c).rv ≡ neg enametoolong)
            × IsStuck l (m_readlink cfgs ipath size c))
  unfolding m_readlink
  m_readlink-release c =
      let handler =
        λ (l : LocalStratum). readlink_class size l (classify_ipath (λ e. e.cpath) cfgs ipath) in
      elim (serve-cases handler c) [
        | inl (_, rv, clean) ↦ inl clean
        | inr (l, h, eq, run) ↦
            let even : (fd : ℕ) → times fd (handler l).closed ≡ times fd (handler l).opened = λ fd.
              ap (times fd) (readlink_class-even l (classify_ipath (λ e. e.cpath) cfgs ipath)) in
            elim (readlink_class-released l (classify_ipath (λ e. e.cpath) cfgs ipath)) [
              | inl r ↦ inl (
                  subst IsClean (sym run)
                    (return-IsClean (set_local_stratum c) l (handler l) eq even r))
              | inr (k, long, how) ↦ inr (
                l,
                h,
                k,
                long,
                ap (λ (r : Returned). r.rv) run
                    ∙ return_rv (set_local_stratum c) l (handler l)
                    ∙ ap (λ (r : Handled). r.rv) how,
                subst (IsStuck l) (sym run) (
                    return-IsStuck (set_local_stratum c) l (handler l) eq even
                      (ap (λ (r : Handled). r.released) how)),
              )
            ]
      ]
