-- ===== src/Bouncer/Handoff.antt =====
-- The argument vector that the bouncer builds, and what `strat` makes of it.
use native.Mathlib.Nat.{zero-add, suc-add}
use mathlib.Core.Path.{◌≡⟨◌⟩◌, ◌∎}
use bedrocklinux_userland.Base.{
  ℕ, suc, ◌+◌, ◌≡◌, refl, sym, ap, ◌∙◌, if◌then◌else◌, Bool, true, false, List, [], ◌∷◌, ◌++◌, none,
  some, length, set, replicate, map, arith, Option-cases, ◌⊎◌, inl, inr, map-append, set-append,
  append_assoc, length-append,
}
use bedrocklinux_userland.CString.{Bytes, codes, str_eq, cstr}
use bedrocklinux_userland.Bouncer.{
  Kernel, Outcome, becomes, returns, could_not_execute, attribute, run_strat, main, Slot, unset,
  null, text, strat_path, copy_args, head_slots, new_argv, up_to_null,
}
use bedrocklinux_userland.Strat.Args.{Opt, no_args, Args, other, option_of, parse_args}
use bedrocklinux_userland.Strat.Args.Laws.{restricts, names, names, scan_args-written}

-- The slots that are written before the arguments are copied.
abbrev pub front : Bool → Bytes → Bytes → Bytes → List Bytes
front restrict_flag arg0 stratum path =
    strat_path
    ∷ codes "--arg0"
    ∷ arg0
    ∷ (if restrict_flag then codes "--restrict" ∷ stratum ∷ path ∷ [] else stratum ∷ path ∷ [])

copy_args-replicate :
    (xs : List Bytes) (pre : List Slot) (n at : ℕ)
    → at ≡ length pre
    → copy_args at xs (pre ++ replicate (length xs + n) unset)
      ≡ pre ++ (map text xs ++ replicate n unset)
unfolding copy_args
copy_args-replicate [] pre n at e = rw (zero-add n)
copy_args-replicate (x ∷ xs) pre n at e =
    let rest : List Slot = replicate (length xs + n) unset in
    let written : List Slot = pre ++ (text x ∷ []) in
    copy_args (suc at) xs (set (pre ++ replicate (suc (length xs) + n) unset) at (text x))
    ≡⟨ (rw (suc-add (length xs) n, e, set-append pre unset rest (text x))) ⟩
      copy_args (suc (length pre)) xs (pre ++ (text x ∷ rest))
    ≡⟨ ap (copy_args (suc (length pre)) xs) (sym (append_assoc pre (text x ∷ []) rest)) ⟩
      copy_args (suc (length pre)) xs (written ++ rest)
    ≡⟨ copy_args-replicate xs written n (suc (length pre))
        (omega (arith, length-append pre (text x ∷ []))) ⟩
      written ++ (map text xs ++ replicate n unset)
    ≡⟨ append_assoc pre (text x ∷ []) _ ⟩ pre ++ (text x ∷ (map text xs ++ replicate n unset)) ∎

up_to_null-map :
    (xs : List Bytes) (rest : List Slot) → up_to_null (map text xs ++ (null ∷ rest)) ≡ some xs
unfolding up_to_null
up_to_null-map [] rest = refl
up_to_null-map (x ∷ xs) rest = rw (up_to_null-map xs rest)

-- `argc + 6` is six or seven places more than are copied.
size_plain : (n : ℕ) → suc n + 6 ≡ suc (suc (suc (suc (suc (n + 2)))))
size_plain n = omega arith

size_restrict : (n : ℕ) → suc n + 6 ≡ suc (suc (suc (suc (suc (suc (n + 1))))))
size_restrict n = omega arith

length-map : (xs : List Bytes) → length (map text xs) ≡ length xs
length-map [] = refl
length-map (x ∷ xs) = ap suc (length-map xs)

terminated :
    (pre args : List Bytes) (rest : List Slot) (k : ℕ)
    → k ≡ length pre + length args
    → up_to_null (set (map text pre ++ (map text args ++ (unset ∷ rest))) k null)
      ≡ some (pre ++ args)
terminated pre args rest k e =
    let all : List Slot = map text (pre ++ args) in
    let size = length-map (pre ++ args) ∙ length-append pre args in
    rw
      (
        sym (append_assoc (map text pre) (map text args) (unset ∷ rest)),
        sym (map-append text pre args),
        e ∙ sym size,
        set-append all unset rest null,
      )
      (up_to_null-map (pre ++ args) rest)

module _ (arg0 : Bytes) (args : List Bytes) (stratum path : Bytes) where
  abbrev front_plain : List Slot
  front_plain = map text (front false arg0 stratum path)

  abbrev front_restrict : List Slot
  front_restrict = map text (front true arg0 stratum path)

  head_slots-plain :
      head_slots false arg0 stratum path (replicate (suc (length args) + 6) unset)
      ≡ front_plain ++ replicate (length args + 2) unset
  unfolding head_slots
  head_slots-plain = rw (size_plain (length args))

  head_slots-restrict :
      head_slots true arg0 stratum path (replicate (suc (length args) + 6) unset)
      ≡ front_restrict ++ replicate (length args + 1) unset
  unfolding head_slots
  head_slots-restrict = rw (size_restrict (length args))

  -- `execv` finds the NULL behind the last argument, and no place before it was left unwritten.
  new_argv-front :
      (restrict_flag : Bool)
      → up_to_null (new_argv restrict_flag arg0 args stratum path)
        ≡ some (front restrict_flag arg0 stratum path ++ args)
  unfolding new_argv
  new_argv-front false =
      let last : ℕ = suc (length args) + 4 in
      ap (λ s. up_to_null (set (copy_args 5 args s) last null)) head_slots-plain
      ∙ ap (λ s. up_to_null (set s last null)) (copy_args-replicate args front_plain 2 5 refl)
      ∙ terminated (front false arg0 stratum path) args (unset ∷ []) last (omega arith)
  new_argv-front true =
      let last : ℕ = suc (length args) + 5 in
      ap (λ s. up_to_null (set (copy_args 6 args s) last null)) head_slots-restrict
      ∙ ap (λ s. up_to_null (set s last null)) (copy_args-replicate args front_restrict 1 6 refl)
      ∙ terminated (front true arg0 stratum path) args [] last (omega arith)

is_arg0 : option_of (codes "--arg0") ≡ Opt.arg0
unfolding option_of str_eq
is_arg0 = refl

is_restrict : option_of (codes "--restrict") ≡ Opt.restrict
unfolding option_of str_eq
is_restrict = refl

-- What `strat` is asked to do.
abbrev pub request : Bool → Bytes → Bytes → Bytes → List Bytes → Args
request restrict_flag arg0 stratum path args = record {
  flag_help = false;
  flag_restrict = restrict_flag;
  flag_unrestrict = false;
  param_stratum = some stratum;
  param_arg0 = some arg0;
  param_arglist = path ∷ args;
}

parse_args-front :
    (b : Bool) (arg0 stratum path : Bytes) (args : List Bytes)
    → option_of stratum ≡ other
    → parse_args (front b arg0 stratum path ++ args) ≡ some (request b arg0 stratum path args)
unfolding parse_args
parse_args-front false arg0 stratum path args h =
    scan_args-written (names (codes "--arg0") is_arg0 arg0 ∷ []) stratum (path ∷ args) no_args h
parse_args-front true arg0 stratum path args h =
    scan_args-written
      (names (codes "--arg0") is_arg0 arg0 ∷ restricts (codes "--restrict") is_restrict ∷ [])
      stratum (path ∷ args) no_args h

-- Whether the bouncer's file asks for a restriction.
abbrev pub restricts_itself : Kernel → Bool
restricts_itself k = elim (k.xattr (attribute (codes "restrict"))) [ none ↦ false | some _ ↦ true ]

-- `main` executes `strat` with this vector, or returns 1 if that fails.
abbrev pub Executes : Kernel → List Bytes → Outcome → Type 0
Executes k argv o =
    (k.execv_fails strat_path argv ≡ none) × (o ≡ becomes strat_path argv)
    ⊎ (e : ℕ) × (k.execv_fails strat_path argv ≡ some e) × (o ≡ returns (could_not_execute e) 1)

run_strat-Executes : (k : Kernel) (argv : List Bytes) → Executes k argv (run_strat k (some argv))
unfolding run_strat
run_strat-Executes k argv = elim (Option-cases (k.execv_fails strat_path argv)) [
  | inl e ↦ inl (e, rw (e, run_strat))
  | inr (n, e) ↦ inr (n, e, rw (e, run_strat))
]

module _ (k : Kernel) (arg0 : Bytes) (args : List Bytes) (stratum path : Bytes) where
  main-run_strat :
      k.xattr (attribute (codes "stratum")) ≡ some stratum
      → k.xattr (attribute (codes "localpath")) ≡ some path
      → main k arg0 args
        ≡ run_strat k
            (up_to_null (new_argv (restricts_itself k) arg0 args (cstr stratum) (cstr path)))
  unfolding main
  main-run_strat s p = ground arith

-- With both attributes on its file, and a stratum whose name is no option of `strat`, the bouncer
-- executes `strat` with a vector that `strat` parses as a request to run the stored path in the
-- stored stratum, under the bouncer's own argv[0], with its other arguments, and restricted
-- exactly if the file has the attribute for it.
pub main-parse_args :
    (k : Kernel) (arg0 : Bytes) (args : List Bytes) (stratum path : Bytes)
    → k.xattr (attribute (codes "stratum")) ≡ some stratum
    → k.xattr (attribute (codes "localpath")) ≡ some path
    → option_of (cstr stratum) ≡ other
    → (argv : List Bytes) × (parse_args argv
        ≡ some (request (restricts_itself k) arg0 (cstr stratum) (cstr path) args))
      × Executes k argv (main k arg0 args)
main-parse_args k arg0 args stratum path s p h =
    let b : Bool = restricts_itself k in
    (
      front b arg0 (cstr stratum) (cstr path) ++ args,
      parse_args-front b arg0 (cstr stratum) (cstr path) args h,
      rw
          (
            main-run_strat k arg0 args stratum path s p,
            new_argv-front arg0 args (cstr stratum) (cstr path) b,
          )
          (run_strat-Executes k (front b arg0 (cstr stratum) (cstr path) ++ args)),
    )
