-- ===== src/Strat/Restrict/Env.antt =====
-- The environment behind `restrict_env`.
use mathlib.Core.Path.{fun_ext}
use mathlib.Core.Option
use bedrocklinux_userland.Base.{
  ◌≡◌, ◌≢◌, refl, ap, ◌∙◌, ◌⊎◌, inl, inr, Bool, true, false, List, [], ◌∷◌, ◌||◌, Option, none,
  some, arith, All, if◌then◌else◌, Option-cases, Bool-cases, ret, pure, ◌>>=◌,
}
use bedrocklinux_userland.CString.{Bytes, codes, has, is_prefix, str_eq}
use bedrocklinux_userland.CString.Laws.{str_eq_iff}
use bedrocklinux_userland.CString.Entries.{split, join, split-join, split-All}
use bedrocklinux_userland.Strat.Restrict.{
  restrict_value, set_restricted, cross_dir, restrict_envvar, restrict_env,
}
use bedrocklinux_userland.Strat.Restrict.Entries.{outside, from_nonempty, restrict_loop_lem}
use bedrocklinux_userland.Strat.World.{Os, World, Strat, setenv_failed}

module _ (p : Bytes) where
  All-outside : (es : List Bytes) → All (λ e. is_prefix p e ≡ false) (outside p es)
  All-outside [] = tt
  All-outside (e ∷ es) = elim (Bool-cases (is_prefix p e)) [
    | inl h ↦ rw h (All-outside es)
    | inr h ↦ rw h (h, All-outside es)
  ]

  All-outside_of {ℓ} : (P : Bytes → Type ℓ) (es : List Bytes) → All P es → All P (outside p es)
  All-outside_of P [] h = tt
  All-outside_of P (e ∷ es) (h, hs) = elim (Bool-cases (is_prefix p e)) [
    | inl i ↦ rw i (All-outside_of P es hs)
    | inr i ↦ rw i (h, All-outside_of P es hs)
  ]

All-from_nonempty {ℓ} : (P : Bytes → Type ℓ) (es : List Bytes) → All P es → All P (from_nonempty es)
All-from_nonempty P [] h = tt
All-from_nonempty P ([] ∷ es) (h, hs) = All-from_nonempty P es hs
All-from_nonempty P ((x ∷ e) ∷ es) h = h

-- What a list of entries is cut down to, for the directory `p`.
pub restricted : Bytes → Bytes → Bytes
restricted p val = join b':' (from_nonempty (outside p (split b':' val)))

split-join_or_empty :
    (es : List Bytes)
    → All (λ e. has b':' e ≡ false) es
    → (split b':' (join b':' es) ≡ es) ⊎ (split b':' (join b':' es) ≡ [] ∷ [])
unfolding join split
split-join_or_empty [] h = inr refl
split-join_or_empty (e ∷ es) h = inl (split-join b':' e es h)

is_prefix-nil : (p : Bytes) → p ≢ [] → is_prefix p [] ≡ false
unfolding is_prefix
is_prefix-nil [] ne = absurd (ne refl)
is_prefix-nil (x ∷ p) ne = refl

-- No entry of a restricted value begins with the directory.
pub restricted-All :
    (p val : Bytes) → p ≢ [] → All (λ e. is_prefix p e ≡ false) (split b':' (restricted p val))
unfolding restricted
restricted-All p val ne =
    let es : List Bytes = from_nonempty (outside p (split b':' val)) in
    let clean = All-from_nonempty _ _ (All-outside_of p _ _ (split-All b':' val)) in
    let kept = All-from_nonempty _ _ (All-outside p (split b':' val)) in
    elim (split-join_or_empty es clean) [
      | inl e ↦ rw e kept
      | inr e ↦ rw e (is_prefix-nil p ne, tt)
    ]

abbrev pub Env : Type 0
Env = Bytes → Option Bytes

-- A call that fails, or that succeeds and leaves the environment that `g` makes of the old one.
abbrev pub Changes : Strat Bool → (Env → Env) → Type 0
Changes m g =
    (w : World)
    → ((m w).0 ≡ ret true) ⊎ (((m w).0 ≡ ret false) × ((k : Bytes) → (m w).1.env k ≡ g w.env k))

abbrev pub restrict_var : Bytes → Env → Env
restrict_var name env k = if str_eq k name then Option.map (restricted cross_dir) (env k) else env k

abbrev pub assign : Bytes → Bytes → Env → Env
assign name value env k = if str_eq k name then some value else env k

setenv_failed-Changes :
    (os : Os) (name value : Bytes) → Changes (setenv_failed os name value) (assign name value)
setenv_failed-Changes os name value w = elim (Option-cases (os.setenv_fails w.history name value)) [
  | inl e ↦ inr (rw e refl, λ k. rw e refl)
  | inr (n, e) ↦ inl (rw e refl)
]

module _ (os : Os) (name : Bytes) where
  restrict_value-some :
      (val : Bytes)
      → restrict_value os name (some val) ≡ setenv_failed os name (restricted cross_dir val)
  unfolding restrict_value restricted has
  restrict_value-some val = ap (set_restricted os name) (restrict_loop_lem cross_dir refl val)

  restrict_var-unset : (env : Env) → env name ≡ none → (k : Bytes) → env k ≡ restrict_var name env k
  restrict_var-unset env e k = elim (Bool-cases (str_eq k name)) [
    | inl s ↦ rw (s, (str_eq_iff k name).0 s) (rw e)
    | inr s ↦ rw s
  ]

  restrict_var-set :
      (env : Env) (val : Bytes)
      → env name ≡ some val
      → (k : Bytes) → assign name (restricted cross_dir val) env k ≡ restrict_var name env k
  restrict_var-set env val e k = elim (Bool-cases (str_eq k name)) [
    | inl s ↦ rw (s, (str_eq_iff k name).0 s) (rw e)
    | inr s ↦ rw s
  ]

  -- `restrict_envvar` fails, or cuts its variable down and leaves the others alone.
  pub restrict_envvar-Changes : Changes (restrict_envvar os name) (restrict_var name)
  unfolding restrict_envvar
  restrict_envvar-Changes w = elim (Option-cases (w.env name)) [
    | inl e ↦ rw e (inr (refl, restrict_var-unset w.env e))
    | inr (val, e) ↦
        rw (e, restrict_value-some)
          (elim (setenv_failed-Changes os name (restricted cross_dir val) w) [
            | inl t ↦ inl t
            | inr (t, all) ↦ inr (t, λ k. all k ∙ restrict_var-set w.env val e k)
          ])
  ]

-- All the calls one after the other; `true` if one of them fails.
restrict_all : List (Strat Bool) → Strat Bool
restrict_all [] = pure false
restrict_all (m ∷ ms) = do e ← m; es ← restrict_all ms; pure (e || es)

six_calls :
    (m1 m2 m3 m4 m5 m6 : Strat Bool) (w : World)
    → (do
      e1 ← m1
      e2 ← m2
      e3 ← m3
      e4 ← m4
      e5 ← m5
      e6 ← m6
      pure (e1 || e2 || e3 || e4 || e5 || e6))
        w
      ≡ restrict_all (m1 ∷ m2 ∷ m3 ∷ m4 ∷ m5 ∷ m6 ∷ []) w
unfolding restrict_all
six_calls m1 m2 m3 m4 m5 m6 w = ground arith

data AllChange : List (Strat Bool) → (Env → Env) → Type 0 where
  none_left : AllChange [] (λ env. env)
  one_more :
      {m : Strat Bool} {ms : List (Strat Bool)} {g gs : Env → Env}
      → Changes m g
      → AllChange ms gs
      → AllChange (m ∷ ms) (λ env. gs (g env))

restrict_all_failed :
    (m : Strat Bool) (ms : List (Strat Bool)) (w : World)
    → (m w).0 ≡ ret true
    → (((restrict_all ms (m w).1).0 ≡ ret true) ⊎ ((restrict_all ms (m w).1).0 ≡ ret false))
    → (restrict_all (m ∷ ms) w).0 ≡ ret true
unfolding restrict_all
restrict_all_failed m ms w h d = ground arith

restrict_all_next :
    (m : Strat Bool) (ms : List (Strat Bool)) (w : World) (b : Bool)
    → (m w).0 ≡ ret false
    → (restrict_all ms (m w).1).0 ≡ ret b
    → restrict_all (m ∷ ms) w ≡ restrict_all ms (m w).1
unfolding restrict_all
restrict_all_next m ms w b h d = ground arith

decided :
    (ms : List (Strat Bool)) (g : Env → Env) (w : World)
    → Changes (restrict_all ms) g
    → ((restrict_all ms w).0 ≡ ret true) ⊎ ((restrict_all ms w).0 ≡ ret false)
decided ms g w c = elim (c w) [ inl t ↦ inl t | inr (t, _) ↦ inr t ]

restrict_all-Changes :
    {ms : List (Strat Bool)} {g : Env → Env} → AllChange ms g → Changes (restrict_all ms) g
unfolding restrict_all
restrict_all-Changes none_left w = inr (refl, λ k. refl)
restrict_all-Changes (one_more {m} {ms} {g} {gs} c cs) w = elim (c w) [
  | inl t ↦ inl (restrict_all_failed m ms w t (decided ms gs (m w).1 (restrict_all-Changes cs)))
  | inr (t, all) ↦ elim (restrict_all-Changes cs (m w).1) [
    | inl u ↦ inl (ap (λ r. r.0) (restrict_all_next m ms w true t u) ∙ u)
    | inr (u, rest) ↦ inr (
      ap (λ r. r.0) (restrict_all_next m ms w false t u) ∙ u,
      λ k.
          ap (λ r. r.1.env k) (restrict_all_next m ms w false t u)
          ∙ rest k
          ∙ ap (λ env. gs env k) (fun_ext all),
    )
  ]
]

-- What `restrict_env` is to make of the environment.
abbrev pub restricted_env : Env → Env
restricted_env env = assign (codes "BEDROCK_RESTRICT") (codes "1") (
    assign (codes "SHELL") (codes "/bin/sh") (
      restrict_var (codes "XDG_DATA_DIRS") (
        restrict_var (codes "INFOPATH")
          (restrict_var (codes "MANPATH") (restrict_var (codes "PATH") env)))))

abbrev calls : Os → List (Strat Bool)
calls os =
    restrict_envvar os (codes "PATH")
    ∷ restrict_envvar os (codes "MANPATH")
    ∷ restrict_envvar os (codes "INFOPATH")
    ∷ restrict_envvar os (codes "XDG_DATA_DIRS")
    ∷ setenv_failed os (codes "SHELL") (codes "/bin/sh")
    ∷ setenv_failed os (codes "BEDROCK_RESTRICT") (codes "1")
    ∷ []

restrict_env-calls : (os : Os) (w : World) → restrict_env os w ≡ restrict_all (calls os) w
unfolding restrict_env
restrict_env-calls os = six_calls _ _ _ _ _ _

calls-AllChange : (os : Os) → AllChange (calls os) restricted_env
calls-AllChange os = one_more (restrict_envvar-Changes os (codes "PATH")) (
    one_more (restrict_envvar-Changes os (codes "MANPATH")) (
      one_more (restrict_envvar-Changes os (codes "INFOPATH")) (
        one_more (restrict_envvar-Changes os (codes "XDG_DATA_DIRS")) (
          one_more (setenv_failed-Changes os (codes "SHELL") (codes "/bin/sh")) (
            one_more (setenv_failed-Changes os (codes "BEDROCK_RESTRICT") (codes "1"))
              none_left)))))

-- `restrict_env` ends, and reports a failure, or cuts the four search paths down to the entries
-- outside /bedrock/cross, sets SHELL and BEDROCK_RESTRICT, and leaves every other variable alone.
pub restrict_env_lem : (os : Os) → Changes (restrict_env os) restricted_env
restrict_env_lem os w = rw (restrict_env-calls os w) (restrict_all-Changes (calls-AllChange os) w)
