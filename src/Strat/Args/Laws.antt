-- ===== src/Strat/Args/Laws.antt =====
-- Which command lines `parse_args` accepts, and what it makes of them.
use mathlib.Core.Option.{some-injective}
use bedrocklinux_userland.Base.{
  refl, subst, ◌≢◌, ◌∙◌, arith, ◌⊎◌, inl, inr, ◌≡◌, true, List, [], ◌∷◌, some, arith,
}
use bedrocklinux_userland.CString.{Bytes}
use bedrocklinux_userland.Strat.Args.{
  Opt, help, Args, restrict, unrestrict, arg0, other, option_of, scan_args, take_stratum,
}

-- An option as it is written, in either spelling.
pub data Flag : Type 0 where
  restricts : (x : Bytes) → option_of x ≡ restrict → Flag
  unrestricts : (x : Bytes) → option_of x ≡ unrestrict → Flag
  names : (x : Bytes) → option_of x ≡ arg0 → Bytes → Flag

abbrev pub written : List Flag → List Bytes → List Bytes
written [] rest = rest
written (restricts x _ ∷ fs) rest = x ∷ written fs rest
written (unrestricts x _ ∷ fs) rest = x ∷ written fs rest
written (names x _ y ∷ fs) rest = x ∷ y ∷ written fs rest

abbrev pub applied : List Flag → Args → Args
applied [] a = a
applied (restricts _ _ ∷ fs) a = applied fs (record a { flag_restrict = true })
applied (unrestricts _ _ ∷ fs) a = applied fs (record a { flag_unrestrict = true })
applied (names _ _ y ∷ fs) a = applied fs (record a { param_arg0 = some y })

-- Behind a flag that takes no value the loop goes on, if something is left.
scan_args-flag :
    (x : Bytes) (xs : List Bytes) (a : Args)
    → xs ≢ []
    → (option_of x ≡ restrict
        → scan_args (x ∷ xs) a ≡ scan_args xs (record a { flag_restrict = true }))
      × (option_of x ≡ unrestrict
          → scan_args (x ∷ xs) a ≡ scan_args xs (record a { flag_unrestrict = true }))
unfolding scan_args
scan_args-flag x [] a h = absurd (h refl)
scan_args-flag x (y ∷ xs) a h = (λ e. rw (e, scan_args), λ e. rw (e, scan_args))

written-ne-nil : (fs : List Flag) (s : Bytes) (rest : List Bytes) → written fs (s ∷ rest) ≢ []
written-ne-nil [] s rest = cc
written-ne-nil (restricts _ _ ∷ fs) s rest = cc
written-ne-nil (unrestricts _ _ ∷ fs) s rest = cc
written-ne-nil (names _ _ _ ∷ fs) s rest = cc

pub scan_args-written :
    (fs : List Flag) (s : Bytes) (rest : List Bytes) (a : Args)
    → option_of s ≡ other
    → scan_args (written fs (s ∷ rest)) a ≡ take_stratum s rest (applied fs a)
unfolding scan_args
scan_args-written [] s [] a h = rw (h, scan_args)
scan_args-written [] s (x ∷ rest) a h = rw (h, scan_args)
scan_args-written (restricts x e ∷ fs) s rest a h =
    (scan_args-flag x _ a (written-ne-nil fs s rest)).0 e ∙ scan_args-written fs s rest _ h
scan_args-written (unrestricts x e ∷ fs) s rest a h =
    (scan_args-flag x _ a (written-ne-nil fs s rest)).1 e ∙ scan_args-written fs s rest _ h
scan_args-written (names x e y ∷ fs) s rest a h =
    rw (e, scan_args) (scan_args-written fs s rest _ h)

-- How the loop can have come to its result: by the flags that it read, and then by `-h`, by a
-- stratum, or by an `-a` that stands last and is taken for the stratum.
pub data Scans (a : Args) : List Bytes → Args → Type 0 where
  helps :
      (fs : List Flag) (x : Bytes) (rest : List Bytes)
      → option_of x ≡ help
      → Scans a (written fs (x ∷ rest)) (record (applied fs a) { flag_help = true })
  runs :
      (fs : List Flag) (s : Bytes) (rest : List Bytes)
      → option_of s ≡ other
      → Scans a
          (written fs (s ∷ rest))
          (record (applied fs a) { param_stratum = some s; param_arglist = rest })
  ends :
      (fs : List Flag) (s : Bytes)
      → option_of s ≡ arg0
      → Scans a
          (written fs (s ∷ []))
          (record (applied fs a) { param_stratum = some s; param_arglist = [] })

Scans-restrict :
    {a r : Args} {xs : List Bytes} (x : Bytes)
    → option_of x ≡ restrict
    → Scans (record a { flag_restrict = true }) xs r
    → Scans a (x ∷ xs) r
Scans-restrict x e (helps fs y rest h) = helps (restricts x e ∷ fs) y rest h
Scans-restrict x e (runs fs y rest h) = runs (restricts x e ∷ fs) y rest h
Scans-restrict x e (ends fs y h) = ends (restricts x e ∷ fs) y h

Scans-unrestrict :
    {a r : Args} {xs : List Bytes} (x : Bytes)
    → option_of x ≡ unrestrict
    → Scans (record a { flag_unrestrict = true }) xs r
    → Scans a (x ∷ xs) r
Scans-unrestrict x e (helps fs y rest h) = helps (unrestricts x e ∷ fs) y rest h
Scans-unrestrict x e (runs fs y rest h) = runs (unrestricts x e ∷ fs) y rest h
Scans-unrestrict x e (ends fs y h) = ends (unrestricts x e ∷ fs) y h

Scans-arg0 :
    {a r : Args} {xs : List Bytes} (x y : Bytes)
    → option_of x ≡ arg0
    → Scans (record a { param_arg0 = some y }) xs r
    → Scans a (x ∷ y ∷ xs) r
Scans-arg0 x y e (helps fs z rest h) = helps (names x e y ∷ fs) z rest h
Scans-arg0 x y e (runs fs z rest h) = runs (names x e y ∷ fs) z rest h
Scans-arg0 x y e (ends fs z h) = ends (names x e y ∷ fs) z h

Opt-cases : (o : Opt) → (o ≡ help) ⊎ (o ≡ restrict) ⊎ (o ≡ unrestrict) ⊎ (o ≡ arg0) ⊎ (o ≡ other)
Opt-cases o = ground arith

Scans-eq : {a r r' : Args} {xs : List Bytes} → some r' ≡ some r → Scans a xs r' → Scans a xs r
Scans-eq {a} {r} {r'} {xs} e s = subst (λ t. Scans a xs t) (some-injective r' r e) s

-- Where the loop over the arguments ends with a result, the arguments are flags, and then either
-- `-h`, or a stratum and the rest, or a single `-a` that stands for the stratum; and the result is
-- what those flags and that end set.
scan_args-Scans : (xs : List Bytes) (a r : Args) → scan_args xs a ≡ some r → Scans a xs r
unfolding scan_args
scan_args-Scans [] a r h = cc
scan_args-Scans (x ∷ []) a r h = elim (Opt-cases (option_of x)) [
  | inl e ↦ Scans-eq (rw (e, scan_args) at h) (helps [] x [] e)
  | inr (inl e) ↦ cc (rw (e, scan_args) at h)
  | inr (inr (inl e)) ↦ cc (rw (e, scan_args) at h)
  | inr (inr (inr (inl e))) ↦ Scans-eq (rw (e, scan_args) at h) (ends [] x e)
  | inr (inr (inr (inr e))) ↦ Scans-eq (rw (e, scan_args) at h) (runs [] x [] e)
]
scan_args-Scans (x ∷ y ∷ rest) a r h = elim (Opt-cases (option_of x)) [
  | inl e ↦ Scans-eq (rw (e, scan_args) at h) (helps [] x (y ∷ rest) e)
  | inr (inl e) ↦ Scans-restrict x e (scan_args-Scans (y ∷ rest) _ r (rw (e, scan_args) at h))
  | inr (inr (inl e)) ↦
      Scans-unrestrict x e (scan_args-Scans (y ∷ rest) _ r (rw (e, scan_args) at h))
  | inr (inr (inr (inl e))) ↦ Scans-arg0 x y e (scan_args-Scans rest _ r (rw (e, scan_args) at h))
  | inr (inr (inr (inr e))) ↦ Scans-eq (rw (e, scan_args) at h) (runs [] x (y ∷ rest) e)
]
