-- ===== src/Strat/Exec/Path.antt =====
-- Which files `execv_skip` tries to execute.
use mathlib.Core.Path.{fun_ext}
use bedrocklinux_userland.Base.{
  ℕ, zero, suc, ◌+◌, ◌≤◌, ◌<◌, ◌≡◌, refl, sym, ap, ◌∙◌, ◌⊎◌, inl, inr, ◌>>◌, Bool, false, List, [],
  ◌∷◌, ◌++◌, map, Flow, none, some, arith, length, length-append, if◌then◌else◌, Option-cases,
  Bool-cases, ret, stop, pure,
}
use bedrocklinux_userland.CString.{Bytes, codes, has, cut, is_prefix}
use bedrocklinux_userland.CString.Laws.{cut-eq-some, cut-eq-none}
use bedrocklinux_userland.CString.Entries.{split, split-of_has, split-append}
use bedrocklinux_userland.Strat.Restrict.Entries.{outside, is_prefix-entry}
use bedrocklinux_userland.Strat.World.{
  Os, World, Strat, enoent, set_errno, execv_path, becomes, Final, History, execv, log,
}
use bedrocklinux_userland.Strat.Exec.{path_loop, execv_skip, default_path}

-- The files for the entries of $PATH that do not begin with `skip`, in their order.
abbrev pub candidates : Bytes → Bytes → Bytes → List Bytes
candidates file skip path = map (λ e. e ++ (b'/' ∷ file)) (outside skip (split b':' path))

module _ (os : Os) (argv : List Bytes) where
  -- Execute the first file that can be executed.
  unfoldable pub try_all : List Bytes → Strat (Unit {0})
  try_all [] = set_errno enoent
  try_all (p ∷ ps) = execv_path os p argv >> try_all ps

  -- The history with an attempt for each file.
  abbrev pub tried : List Bytes → History → History
  tried [] h = h
  tried (p ∷ ps) h = tried ps (execv p argv ∷ h)

  -- All attempts failed; or those before some file failed, and that file took over.
  abbrev pub Attempts : List Bytes → History → Flow Final (Unit {0}) × World → Type 0
  Attempts ps h r =
      (r.0 ≡ ret tt) × (r.1.errno ≡ enoent) × (r.1.history ≡ tried ps h)
      ⊎ (a : List Bytes) × (p : Bytes) × (b : List Bytes) × (ps ≡ a ++ (p ∷ b))
        × (r.0 ≡ stop (becomes p argv))
        × (r.1.history ≡ execv p argv ∷ tried a h)

  Attempts-cons :
      (p : Bytes) (ps : List Bytes) (h : History) (r : Flow Final (Unit {0}) × World)
      → Attempts ps (execv p argv ∷ h) r
      → Attempts (p ∷ ps) h r
  Attempts-cons p ps h r (inl x) = inl x
  Attempts-cons p ps h r (inr (a, q, b, e, s, t)) = inr (p ∷ a, q, b, ap (◌∷◌ p) e, s, t)

  try_all_next :
      (p : Bytes) (ps : List Bytes) (w : World) (n : ℕ)
      → os.execv_fails w.history p argv ≡ some n
      → try_all (p ∷ ps) w ≡ try_all ps (record w { errno = n; history = execv p argv ∷ w.history })
  unfolding try_all
  try_all_next p ps w n e = ground arith

  try_all_done :
      (p : Bytes) (ps : List Bytes) (w : World)
      → os.execv_fails w.history p argv ≡ none
      → try_all (p ∷ ps) w ≡ (stop (becomes p argv), log (execv p argv) w)
  unfolding try_all
  try_all_done p ps w e = ground arith

  pub try_all-Attempts : (ps : List Bytes) (w : World) → Attempts ps w.history (try_all ps w)
  unfolding try_all
  try_all-Attempts [] w = inl (refl, refl, refl)
  try_all-Attempts (p ∷ ps) w = elim (Option-cases (os.execv_fails w.history p argv)) [
    | inl e ↦ rw (try_all_done p ps w e) (inr ([], p, ps, refl, refl, refl))
    | inr (n, e) ↦
        let w' : World = record w { errno = n; history = execv p argv ∷ w.history } in
        rw (try_all_next p ps w n e)
          (Attempts-cons p ps w.history (try_all ps w') (try_all-Attempts ps w'))
  ]

module _ (os : Os) (file : Bytes) (argv : List Bytes) (skip : Bytes) where
  module _ (f len : ℕ) (start : Bytes) where
    path_loop_last :
        cut b':' start ≡ none
        → length start + 1 + length file + 1 ≤ len
        → path_loop os file argv skip (suc f) len start
          ≡ try_all os argv (map (λ e. e ++ (b'/' ∷ file)) (outside skip (start ∷ [])))
    unfolding path_loop try_all
    path_loop_last e fits = fun_ext λ w. ground arith

    path_loop_next :
        (a r : Bytes)
        → has b':' skip ≡ false
        → cut b':' start ≡ some (a, r)
        → path_loop os file argv skip (suc f) len start ≡ (
            (if is_prefix skip a then pure tt else execv_path os (a ++ (b'/' ∷ file)) argv)
            >> path_loop os file argv skip f len r)
    unfolding path_loop
    path_loop_next a r n e =
        let whole = (cut-eq-some b':' start a r e).0 in
        let same = ap (is_prefix skip) whole ∙ is_prefix-entry b':' skip a r n in
        let body : Bool → Strat (Unit {0}) = λ b.
          (if b then pure tt else execv_path os (a ++ (b'/' ∷ file)) argv)
          >> path_loop os file argv skip f len r in
        rw (e, path_loop) (ap body same)

  path_step :
      (a : Bytes) (es : List Bytes)
      → ((if is_prefix skip a then pure tt else execv_path os (a ++ (b'/' ∷ file)) argv)
          >> try_all os argv (map (λ e. e ++ (b'/' ∷ file)) (outside skip es)))
        ≡ try_all os argv (map (λ e. e ++ (b'/' ∷ file)) (outside skip (a ∷ es)))
  unfolding try_all
  path_step a es = elim (Bool-cases (is_prefix skip a)) [ inl e ↦ rw e | inr e ↦ rw e ]

  path_loop-try_all :
      has b':' skip ≡ false
      → (f len : ℕ) (start : Bytes) → length start < f
      → length start + 1 + length file + 1 ≤ len
      → path_loop os file argv skip f len start ≡ try_all os argv (candidates file skip start)
  path_loop-try_all n zero len start lt fits = absurd (omega arith)
  path_loop-try_all n (suc f) len start lt fits = elim (Option-cases (cut b':' start)) [
    | inl e ↦
        rw (split-of_has b':' start (cut-eq-none b':' start e)) (path_loop_last f len start e fits)
    | inr ((a, r), e) ↦
        let (whole, first) = cut-eq-some b':' start a r e in
        let shorter = ap length whole ∙ length-append a (b':' ∷ r) in
        path_loop_next f len start a r n e
        ∙ rw (path_loop-try_all n f len r (omega arith) (omega arith)) (path_step a (split b':' r))
        ∙ ap (λ s. try_all os argv (map (λ e. e ++ (b'/' ∷ file)) (outside skip s)))
            (sym (ap (split b':') whole ∙ split-append b':' a r first))
  ]

-- The value of $PATH that `execv_skip` uses.
abbrev pub path_of : World → Bytes
path_of w = elim (w.env (codes "PATH")) [ none ↦ default_path | some path ↦ path ]

module _ (os : Os) (x : ℕ) (f : Bytes) (argv : List Bytes) (skip : Bytes) where
  execv_skip-try_all :
      has b':' skip ≡ false
      → (w : World) → has b'/' (x ∷ f) ≡ false
      → execv_skip os (some (x ∷ f)) argv skip w
        ≡ try_all os argv (candidates (x ∷ f) skip (path_of w)) w
  unfolding execv_skip
  execv_skip-try_all n w s = rw s (
      ap (λ m. m w)
        (path_loop-try_all os (x ∷ f) argv skip n (suc (length (path_of w))) _ (path_of w)
          (omega arith) (omega arith)))

  -- For a command without a slash, `execv_skip` tries the entries of $PATH outside `skip`, in
  -- their order and no others: the first file that can be executed takes over; if none can, it
  -- returns with ENOENT.
  pub execv_skip-Attempts :
      has b':' skip ≡ false
      → (w : World) → has b'/' (x ∷ f) ≡ false
      → Attempts os argv
          (candidates (x ∷ f) skip (path_of w))
          w.history
          (execv_skip os (some (x ∷ f)) argv skip w)
  execv_skip-Attempts n w s = rw (execv_skip-try_all n w s) (try_all-Attempts os argv _ w)
