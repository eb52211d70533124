-- ===== src/Crossfs/Handlers/Admission.antt =====
-- Which requests `m_open` of src/crossfs/crossfs.c lets through.
use bedrocklinux_userland.Base.{
  ℕ, zero, suc, ◌%◌, ◌≡◌, ◌≢◌, ◌⊎◌, ◌↔◌, refl, sym, ap, ◌∙◌, inl, inr, Bool, true, false, ◌&&◌,
  List, Option, none, some, pos, neg, ◌==◌, arith, Bool-cases, Option-cases, ==_iff, subst,
}
use mathlib.Core.Option.{some-injective}
use bedrocklinux_userland.CString.{Bytes}
use bedrocklinux_userland.Etcfs.Serve.{eacces}
use bedrocklinux_userland.Crossfs.Config.{
  CfgEntry, Filter, filter_bin, filter_bin_restrict, filter_ini, filter_font, filter_pass,
}
use bedrocklinux_userland.Crossfs.Backs.First.{First, Denied, first_bpath-found, first_bpath-Denied}
use bedrocklinux_userland.Crossfs.Paths.{
  IpathClass, class_back, class_vdir, class_root, class_cfg, class_local, class_enoent,
  classify_ipath,
}
use bedrocklinux_userland.Crossfs.Backs.{
  Attempt, found, failed, Tried, first_bpath, first_bpath-errno,
}
use bedrocklinux_userland.Crossfs.Request.{LocalStratum, Caller, Returned, set_local_stratum}
use bedrocklinux_userland.Crossfs.Handlers.{is_bin, opened_back, open_class, m_open}
use bedrocklinux_userland.Crossfs.Handlers.Release.{
  times, IsClean, serve-cases, return-IsClean, return_rv,
}

contra : true ≡ false → ⊥
contra h = cc

none-some {ℓ} : {A : Type ℓ} {a : A} → ◌≡◌ {A = Option A} none (some a) → ⊥
none-some h = cc

not_zero : (n : ℕ) → neg (suc n) ≢ pos 0
not_zero n h = cc

neg_zero : (n : ℕ) → neg n ≡ pos 0 → n ≡ 0
neg_zero zero h = refl
neg_zero (suc n) h = absurd (not_zero n h)

is_bin_iff : (f : Filter) → (is_bin f ≡ true) ↔ ((f ≡ filter_bin) ⊎ (f ≡ filter_bin_restrict))
is_bin_iff filter_bin = (λ h. inl refl, λ h. refl)
is_bin_iff filter_bin_restrict = (λ h. inr refl, λ h. refl)
is_bin_iff filter_ini = (λ h. cc, λ h. elim h [ inl e ↦ cc | inr e ↦ cc ])
is_bin_iff filter_font = (λ h. cc, λ h. elim h [ inl e ↦ cc | inr e ↦ cc ])
is_bin_iff filter_pass = (λ h. cc, λ h. elim h [ inl e ↦ cc | inr e ↦ cc ])

tests :
    (b : Bool) (m n : ℕ) → b && m == 0 && n == eacces ≡ true → (b ≡ true) × (m ≡ 0) × (n ≡ eacces)
tests b m n h = ground arith

all_tests : (b : Bool) (m n : ℕ) → b ≡ true → m ≡ 0 → n ≡ eacces → b && m == 0 && n == eacces ≡ true
all_tests b m n p q r = ground arith

module _ (call : Option ℕ → Bytes → Attempt ℕ) (errno uid : ℕ) (cfgs : List CfgEntry)
    (ipath : Bytes) (flags : ℕ) where
  open_class-released :
      (l : LocalStratum) (k : IpathClass CfgEntry)
      → (open_class call errno uid ipath flags l k).released ≡ true
  unfolding opened_back
  open_class-released l (class_back e) =
      back_released (first_bpath call l.root_fd e.cpath ipath e.back errno)
    where
      back_released : (r : Tried ℕ) → (opened_back e flags r).released ≡ true
      back_released r = elim (Option-cases r.value) [
        | inl n ↦ elim (Bool-cases (is_bin e.filter && flags % 4 == 0 && r.errno == eacces)) [
          | inl t ↦ rw (n, opened_back, t) refl
          | inr f ↦ rw (n, opened_back, f) refl
        ]
        | inr (fd, h) ↦ rw (h, opened_back) refl
      ]
  open_class-released l (class_vdir e) = refl
  open_class-released l class_root = refl
  open_class-released l class_cfg = elim (Bool-cases (uid == 0)) [
    | inl t ↦ rw t refl
    | inr f ↦ rw f refl
  ]
  open_class-released l class_local = refl
  open_class-released l class_enoent = refl

  open_class-even :
      (l : LocalStratum) (k : IpathClass CfgEntry)
      → (open_class call errno uid ipath flags l k).closed
        ≡ (open_class call errno uid ipath flags l k).opened
  unfolding opened_back
  open_class-even l (class_back e) =
      back_even (first_bpath call l.root_fd e.cpath ipath e.back errno)
    where
      back_even : (r : Tried ℕ) → (opened_back e flags r).closed ≡ (opened_back e flags r).opened
      back_even r = elim (Option-cases r.value) [
        | inl n ↦ elim (Bool-cases (is_bin e.filter && flags % 4 == 0 && r.errno == eacces)) [
          | inl t ↦ rw (n, opened_back, t) refl
          | inr f ↦ rw (n, opened_back, f) refl
        ]
        | inr (fd, h) ↦ rw (h, opened_back) refl
      ]
  open_class-even l (class_vdir e) = refl
  open_class-even l class_root = refl
  open_class-even l class_cfg = elim (Bool-cases (uid == 0)) [
    | inl t ↦ rw t refl
    | inr f ↦ rw f refl
  ]
  open_class-even l class_local = refl
  open_class-even l class_enoent = refl

  -- Which requests are let through: a file of a stratum for reading only, if the first back that
  -- answers opens it, or if it is a program that it denies; a directory; and the configuration, for root.
  abbrev pub Admitted : LocalStratum → IpathClass CfgEntry → Type 0
  Admitted l (class_back e) =
      (flags % 4 ≡ 0)
      × (((fd : ℕ) × First call l.root_fd e.cpath ipath e.back (found fd))
          ⊎ (((e.filter ≡ filter_bin) ⊎ (e.filter ≡ filter_bin_restrict))
              × Denied call l.root_fd e.cpath ipath errno e.back))
  Admitted l (class_vdir e) = Unit
  Admitted l class_root = Unit
  Admitted l class_cfg = uid ≡ 0
  Admitted l class_local = ⊥
  Admitted l class_enoent = ⊥

  opened_back-admits :
      (e : CfgEntry) (r : Tried ℕ)
      → (r.value ≡ none → r.errno ≢ 0)
      → ((opened_back e flags r).rv ≡ pos 0) ↔ (
          (flags % 4 ≡ 0)
          × (((fd : ℕ) × (r.value ≡ some fd))
              ⊎ ((is_bin e.filter ≡ true) × (r.value ≡ none) × (r.errno ≡ eacces))))
  unfolding opened_back
  opened_back-admits e r nz = elim (Option-cases r.value) [
    | inr (fd, h) ↦ elim (Bool-cases (flags % 4 == 0)) [
      | inl t ↦ (λ _. ((==_iff (flags % 4) 0).0 t, inl (fd, h)), λ _. rw (h, opened_back, t) refl)
      | inr f ↦ (
        λ z. absurd (not_zero 29 (rw (h, opened_back, f) at z)),
        λ (q, _). absurd (contra (sym ((==_iff (flags % 4) 0).1 q) ∙ f)),
      )
    ]
    | inl n ↦ elim (Bool-cases (is_bin e.filter && flags % 4 == 0 && r.errno == eacces)) [
      | inl t ↦
          let (b, q, a) = tests (is_bin e.filter) (flags % 4) r.errno t in
          (λ _. (q, inr (b, n, a)), λ _. rw (n, opened_back, t) refl)
      | inr f ↦ (
        λ z. absurd (nz n (neg_zero r.errno (rw (n, opened_back, f) at z))),
        λ (q, why). elim why [
          | inl (fd, h) ↦ absurd (none-some (sym n ∙ h))
          | inr (b, _, a) ↦
              absurd (contra (sym (all_tests (is_bin e.filter) (flags % 4) r.errno b q a) ∙ f))
        ],
      )
    ]
  ]

  module _ (sets : (fd : Option ℕ) (path : Bytes) (e : ℕ) → call fd path ≡ failed e → e ≢ 0)
      (nonzero : errno ≢ 0) where
    open_class-admits :
        (l : LocalStratum) (k : IpathClass CfgEntry)
        → ((open_class call errno uid ipath flags l k).rv ≡ pos 0) ↔ Admitted l k
    open_class-admits l (class_back e) =
        let (to, from) =
          opened_back-admits e (first_bpath call l.root_fd e.cpath ipath e.back errno) (λ n.
            elim (first_bpath-errno call l.root_fd e.cpath ipath sets e.back errno n) [
              | inl z ↦ z
              | inr (same, _) ↦ λ z. nonzero (sym same ∙ z)
            ]) in
        let opens = first_bpath-found call l.root_fd e.cpath ipath e.back errno in
        let denies = first_bpath-Denied call l.root_fd e.cpath ipath e.back errno in
        (
          λ z.
              let (reads, why) = to z in
              (
                reads,
                elim why [
                  | inl (fd, h) ↦ inl (fd, (opens fd).0 h)
                  | inr (bin, n, a) ↦ inr ((is_bin_iff e.filter).0 bin, denies.0 (n, a))
                ],
              ),
          λ (reads, why). from (
            reads,
            elim why [
              | inl (fd, k) ↦ inl (fd, (opens fd).1 k)
              | inr (bin, d) ↦ let (n, a) = denies.1 d in inr ((is_bin_iff e.filter).1 bin, n, a)
            ],
          ),
        )
    open_class-admits l (class_vdir e) = (λ _. tt, λ _. refl)
    open_class-admits l class_root = (λ _. tt, λ _. refl)
    open_class-admits l class_cfg = elim (Bool-cases (uid == 0)) [
      | inl t ↦ (λ _. (==_iff uid 0).0 t, λ _. rw t refl)
      | inr f ↦ (
        λ z. absurd (not_zero 12 (rw f at z)),
        λ q. absurd (contra (sym ((==_iff uid 0).1 q) ∙ f)),
      )
    ]
    open_class-admits l class_local = (λ z. absurd (not_zero 39 z), λ b. absurd b)
    open_class-admits l class_enoent = (λ z. absurd (not_zero 1 z), λ b. absurd b)

    -- Where `errno` is not 0 before, and calls that fail leave another value than 0 there, `m_open`
    -- returns 0 exactly for the requests of a caller whose stratum was found that are let through:
    -- files of strata for reading only, where the first back that does not answer ENOENT opens the
    -- file, or answers EACCES and the filter is a bin filter (or no back has a path and `errno` was
    -- EACCES before); directories; and the configuration for root. Whatever it returns, the lock is
    -- free and each descriptor, that of the file too, closed as often as it was opened.
    pub m_open-Admitted :
        (c : Caller)
        → (((m_open call errno uid ipath flags cfgs c).rv ≡ pos 0) ↔ (
            (l : LocalStratum) × ((set_local_stratum c).local_stratum ≡ some l)
            × Admitted l (classify_ipath (λ e. e.cpath) cfgs ipath)))
          × IsClean (m_open call errno uid ipath flags cfgs c)
    unfolding m_open
    m_open-Admitted c =
        let k = classify_ipath (λ (e : CfgEntry). e.cpath) cfgs ipath in
        let handler = λ (l : LocalStratum). open_class call errno uid ipath flags l k in
        elim (serve-cases handler c) [
          | inl (n, rv, clean) ↦ (
            (λ z. absurd (not_zero 2 (sym rv ∙ z)), λ (l, h, ok). absurd (none-some (sym n ∙ h))),
            clean,
          )
          | inr (l, h, eq, run) ↦
              let same =
                ap (λ (r : Returned). r.rv) run ∙ return_rv (set_local_stratum c) l (handler l) in
              (
                (
                  λ z. (l, h, (open_class-admits l k).0 (sym same ∙ z)),
                  λ (m, h', ok).
                      same
                      ∙ (open_class-admits l k).1
                          (subst (λ o. Admitted o k) (some-injective m l (sym h' ∙ h)) ok),
                ),
                subst IsClean (sym run) (
                    return-IsClean (set_local_stratum c) l (handler l) eq
                      (λ fd. ap (times fd) (open_class-even l k)) (open_class-released l k)),
              )
        ]
