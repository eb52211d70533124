-- ===== src/Crossfs/Backs/First.antt =====
-- Which of an entry's backs src/crossfs/crossfs.c opens.
use bedrocklinux_userland.Base.{
  ℕ, List, [], ◌∷◌, Option, none, some, ◌==◌, ◌≡◌, refl, Option-cases, Bool-cases, inl, inr, All,
  ◌⊎◌, ◌↔◌, ◌≢◌, sym, ap, ◌∙◌, ==_iff, subst, arith,
}
use mathlib.Core.Option.{some-injective}
use bedrocklinux_userland.CString.{Bytes}
use bedrocklinux_userland.Strat.World.{enoent}
use bedrocklinux_userland.Etcfs.Serve.{eacces}
use bedrocklinux_userland.Crossfs.Config.{BackEntry}
use bedrocklinux_userland.Crossfs.Backs.{Attempt, found, failed, Tried, call_back, first_bpath}

-- The answer at the first back with a path where the call says something else than ENOENT.
pub data First {A : Type 0} (call : Option ℕ → Bytes → Attempt A) (local_fd : ℕ)
    (cpath ipath : Bytes) : List BackEntry → Attempt A → Type 0 where
  here :
      (b : BackEntry) (bs : List BackEntry) (a : Attempt A)
      → call_back call local_fd cpath ipath b ≡ some a
      → a ≢ failed enoent
      → First call local_fd cpath ipath (b ∷ bs) a
  later :
      (b : BackEntry) (bs : List BackEntry) (a : Attempt A)
      → (call_back call local_fd cpath ipath b ≡ none)
        ⊎ (call_back call local_fd cpath ipath b ≡ some (failed enoent))
      → First call local_fd cpath ipath bs a
      → First call local_fd cpath ipath (b ∷ bs) a

none-some {ℓ} : {A : Type ℓ} {a : A} → ◌≡◌ {A = Option A} none (some a) → ⊥
none-some h = cc

found-failed {ℓ} : {A : Type ℓ} {a : A} {e : ℕ} → found a ≢ failed e
found-failed h = cc

failed-injective : {A : Type 0} (e e' : ℕ) → ◌≡◌ {A = Attempt A} (failed e) (failed e') → e ≡ e'
failed-injective e e' h = ap (elim [ found a ↦ 0 | failed n ↦ n ]) h

found-injective : {A : Type 0} (a b : A) → found a ≡ found b → a ≡ b
found-injective a b h = ap (elim [ found x ↦ x | failed n ↦ a ]) h

module _ {A : Type 0} (call : Option ℕ → Bytes → Attempt A) (local_fd : ℕ)
    (cpath ipath : Bytes) where
  abbrev tried : BackEntry → Option (Attempt A)
  tried b = call_back call local_fd cpath ipath b

  abbrev search : List BackEntry → ℕ → Tried A
  search bs errno = first_bpath call local_fd cpath ipath bs errno

  abbrev Firsts : List BackEntry → Attempt A → Type 0
  Firsts bs a = First call local_fd cpath ipath bs a

  First-cases :
      (b : BackEntry) (bs : List BackEntry) (a : Attempt A)
      → Firsts (b ∷ bs) a
      → ((tried b ≡ some a) × (a ≢ failed enoent))
        ⊎ (((tried b ≡ none) ⊎ (tried b ≡ some (failed enoent))) × Firsts bs a)
  First-cases b bs a (here _ _ _ h n) = inl (h, n)
  First-cases b bs a (later _ _ _ h k) = inr (h, k)

  -- The answer of a back that is tried is the first one.
  First-here :
      (b : BackEntry) (bs : List BackEntry) (a a' : Attempt A)
      → tried b ≡ some a
      → a ≢ failed enoent
      → Firsts (b ∷ bs) a'
      → a' ≡ a
  First-here b bs a a' h n k = elim (First-cases b bs a' k) [
    | inl (h', _) ↦ some-injective a' a (sym h' ∙ h)
    | inr (inl none_there, _) ↦ absurd (none-some (sym none_there ∙ h))
    | inr (inr missing, _) ↦ absurd (n (some-injective a (failed enoent) (sym h ∙ missing)))
  ]

  -- Behind a back that is passed over, it is that of the rest.
  First-later :
      (b : BackEntry) (bs : List BackEntry) (a : Attempt A)
      → (tried b ≡ none) ⊎ (tried b ≡ some (failed enoent))
      → Firsts (b ∷ bs) a
      → Firsts bs a
  First-later b bs a p k = elim (First-cases b bs a k) [
    | inr (_, rest) ↦ rest
    | inl (h, n) ↦ elim p [
      | inl z ↦ absurd (none-some (sym z ∙ h))
      | inr z ↦ absurd (n (some-injective a (failed enoent) (sym h ∙ z)))
    ]
  ]

  abbrev Result : List BackEntry → ℕ → Tried A → Type 0
  Result bs errno r =
      ((a : A) × (r.value ≡ some a) × Firsts bs (found a))
      ⊎ ((e : ℕ) × (r.value ≡ none) × (r.errno ≡ e) × (e ≢ enoent) × Firsts bs (failed e))
      ⊎ ((r.value ≡ none)
          × ((a : Attempt A) → Firsts bs a → ⊥)
          × (((r.errno ≡ errno) × All (λ b. tried b ≡ none) bs)
              ⊎ ((r.errno ≡ enoent) × (All (λ b. tried b ≡ none) bs → ⊥))))

  passed :
      (b : BackEntry) (bs : List BackEntry) (errno errno' : ℕ) (r : Tried A)
      → (tried b ≡ none) × (errno' ≡ errno) ⊎ (tried b ≡ some (failed enoent)) × (errno' ≡ enoent)
      → Result bs errno' r
      → Result (b ∷ bs) errno r
  passed b bs errno errno' r p (inl (a, v, k)) = inl (a, v, later b bs (found a) (skip p) k)
    where
      skip :
          (tried b ≡ none) × (errno' ≡ errno) ⊎ (tried b ≡ some (failed enoent)) × (errno' ≡ enoent)
          → (tried b ≡ none) ⊎ (tried b ≡ some (failed enoent))
      skip (inl (h, _)) = inl h
      skip (inr (h, _)) = inr h
  passed b bs errno errno' r (inl (h, same)) (inr (inl (e, v, q, n, k))) =
      inr (inl (e, v, q, n, later b bs (failed e) (inl h) k))
  passed b bs errno errno' r (inr (h, same)) (inr (inl (e, v, q, n, k))) =
      inr (inl (e, v, q, n, later b bs (failed e) (inr h) k))
  passed b bs errno errno' r (inl (h, same)) (inr (inr (v, nothing, why))) = inr (
      inr (
        v,
        λ a k. nothing a (First-later b bs a (inl h) k),
        elim why [ inl (q, all) ↦ inl (q ∙ same, (h, all)) | inr (q, m) ↦ inr (q, λ all. m all.1) ],
      ))
  passed b bs errno errno' r (inr (h, same)) (inr (inr (v, nothing, why))) = inr (
      inr (
        v,
        λ a k. nothing a (First-later b bs a (inr h) k),
        elim why [
          | inl (q, all) ↦ inr (q ∙ same, λ none_there. none-some (sym none_there.0 ∙ h))
          | inr (q, m) ↦ inr (q, λ none_there. none-some (sym none_there.0 ∙ h))
        ],
      ))

  -- What the search yields.
  first_bpath-First :
      (bs : List BackEntry) (errno : ℕ)
      → Result bs errno (first_bpath call local_fd cpath ipath bs errno)
  unfolding first_bpath
  first_bpath-First [] errno = inr (inr (refl, λ a k. elim k [ ], inl (refl, tt)))
  first_bpath-First (b ∷ bs) errno = elim (Option-cases (tried b)) [
    | inl h ↦
        let eq : search (b ∷ bs) errno ≡ search bs errno = rw (h, first_bpath) refl in
        subst (Result (b ∷ bs) errno) (sym eq)
          (passed b bs errno errno _ (inl (h, refl)) (first_bpath-First bs errno))
    | inr (found a, h) ↦
        let eq : search (b ∷ bs) errno ≡ record { value = some a; errno = errno } =
          rw (h, first_bpath) refl in
        subst (Result (b ∷ bs) errno) (sym eq) (inl (a, refl, here b bs (found a) h found-failed))
    | inr (failed e, h) ↦ elim (Bool-cases (e == enoent)) [
      | inl m ↦
          let same = (==_iff e enoent).0 m in
          let eq : search (b ∷ bs) errno ≡ search bs e = rw (h, first_bpath, m) refl in
          subst (Result (b ∷ bs) errno) (sym eq) (
            passed b bs errno e _ (inr (h ∙ ap (λ n. some (failed n)) same, same))
              (first_bpath-First bs e))
      | inr m ↦
          let other : e ≢ enoent = ground arith in
          let eq : search (b ∷ bs) errno ≡ record { value = none; errno = e } =
            rw (h, first_bpath, m) refl in
          subst (Result (b ∷ bs) errno) (sym eq) (
            inr (
              inl (
                e,
                refl,
                refl,
                other,
                here b bs (failed e) h (λ q. other (failed-injective {A = A} e enoent q)),
              )))
    ]
  ]

  -- The answers are unique.
  First-unique : (bs : List BackEntry) (a a' : Attempt A) → Firsts bs a → Firsts bs a' → a' ≡ a
  First-unique [] a a' k k' = elim k [ ]
  First-unique (b ∷ bs) a a' k k' = elim (First-cases b bs a k) [
    | inl (h, n) ↦ First-here b bs a a' h n k'
    | inr (p, rest) ↦ First-unique bs a a' rest (First-later b bs a' p k')
  ]

  -- The search opens a file exactly where the first answer is one.
  pub first_bpath-found :
      (bs : List BackEntry) (errno : ℕ) (a : A)
      → ((first_bpath call local_fd cpath ipath bs errno).value ≡ some a) ↔ Firsts bs (found a)
  first_bpath-found bs errno a = elim (first_bpath-First bs errno) [
    | inl (x, v, k) ↦ (
      λ h. subst (λ y. Firsts bs (found y)) (some-injective x a (sym v ∙ h)) k,
      λ k'. v ∙ ap some (sym (found-injective a x (First-unique bs (found x) (found a) k k'))),
    )
    | inr (inl (e, v, _, _, k)) ↦ (
      λ h. absurd (none-some (sym v ∙ h)),
      λ k'. absurd (found-failed (First-unique bs (failed e) (found a) k k')),
    )
    | inr (inr (v, nothing, _)) ↦
        (λ h. absurd (none-some (sym v ∙ h)), λ k'. absurd (nothing (found a) k'))
  ]

  -- The first answer is EACCES, or no back has a path and that was in `errno` before.
  abbrev pub Denied : ℕ → List BackEntry → Type 0
  Denied errno bs =
      First call local_fd cpath ipath bs (failed eacces)
      ⊎ ((errno ≡ eacces) × All (λ b. call_back call local_fd cpath ipath b ≡ none) bs)

  no_First : (bs : List BackEntry) (a : Attempt A) → All (λ b. tried b ≡ none) bs → Firsts bs a → ⊥
  no_First [] a h k = elim k [ ]
  no_First (b ∷ bs) a (h, all) k = no_First bs a all (First-later b bs a (inl h) k)

  pub first_bpath-Denied :
      (bs : List BackEntry) (errno : ℕ)
      → (((first_bpath call local_fd cpath ipath bs errno).value ≡ none)
          × ((first_bpath call local_fd cpath ipath bs errno).errno ≡ eacces))
        ↔ Denied errno bs
  first_bpath-Denied bs errno = elim (first_bpath-First bs errno) [
    | inl (x, v, k) ↦ (
      λ (h, _). absurd (none-some (sym h ∙ v)),
      λ d. elim d [
        | inl k' ↦ absurd (found-failed (sym (First-unique bs (found x) (failed eacces) k k')))
        | inr (_, all) ↦ absurd (no_First bs (found x) all k)
      ],
    )
    | inr (inl (e, v, q, _, k)) ↦ (
      λ (_, h). inl (subst (λ n. Firsts bs (failed n)) (sym q ∙ h) k),
      λ d. elim d [
        | inl k' ↦ (
          v,
          q
              ∙ sym (
                  failed-injective {A = A} eacces e
                    (First-unique bs (failed e) (failed eacces) k k')),
        )
        | inr (_, all) ↦ absurd (no_First bs (failed e) all k)
      ],
    )
    | inr (inr (v, nothing, why)) ↦ (
      λ (_, h). elim why [
        | inl (q, all) ↦ inr (sym q ∙ h, all)
        | inr (q, _) ↦ absurd (apart (sym q ∙ h))
      ],
      λ d. elim d [
        | inl k' ↦ absurd (nothing (failed eacces) k')
        | inr (z, all) ↦ elim why [ inl (q, _) ↦ (v, q ∙ z) | inr (_, m) ↦ absurd (m all) ]
      ],
    )
  ]
    where
      apart : enoent ≢ eacces
      apart h = cc
