-- ===== src/Etcfs/Inject/Atomic.antt =====
-- What `inject` of src/etcfs/etcfs.c leaves at the path of the file and elsewhere.
use bedrocklinux_userland.Base.{
  ℕ, zero, suc, ◌≤◌, ◌<◌, ◌≡◌, ◌≢◌, ◌⊎◌, inl, inr, refl, sym, ap, ◌∙◌, subst, true, false, List, [],
  ◌∷◌, ◌++◌, Option, none, some, map, concat, length, take, drop, if◌then◌else◌, ◌==◌, leb, pos,
  neg, arith, Bool-cases, Option-cases, ==_iff, take-all, length-append, append-nil, append_assoc,
}
use bedrocklinux_userland.CString.{Bytes}
use bedrocklinux_userland.Crossfs.Paths.{path_max}
use bedrocklinux_userland.Etcfs.Search.{contains, contains-short, file_search, file_search-contains}
use bedrocklinux_userland.Etcfs.Files.{file, Disk, put, put-same, put-other}
use bedrocklinux_userland.Etcfs.Inject.{
  Calls, Result, fail, suffix, copy_loop, overwrite, bytes_of, tmp_file, clean_up,
  append_and_rename, copy_file, add_content, inject,
}

-- The copy reads the bytes `s` in order, up to a write that fails or their end; no read fails, and a
-- write that does not fail is complete.
abbrev pub Copies : List (Option (Bytes × Option ℕ)) → Bytes → Type 0
Copies [] s = s ≡ []
Copies (none ∷ cs) s = ⊥
Copies (some (part, none) ∷ cs) s = Unit
Copies (some (part, some n) ∷ cs) s =
    (n ≡ length part) × ((rest : Bytes) × (s ≡ part ++ rest) × Copies cs rest)

-- How the kernel treats a regular file with the bytes `s`: its size is their number, reads do not fail
-- and yield them, the first all but one byte of `str` at least where there are as many, and writes
-- that do not fail are complete.
pub record Regular (k : Calls) (rpath str s : Bytes) (disk : Disk) : Type 0 where
  pub there : disk rpath ≡ some (file s)
  pub sized : (n : ℕ) → k.fstat ≡ some n → n ≡ length s
  pub searched :
      length str ≤ length s
      → (first : Bytes) × (parts : List Bytes) × (k.search_reads ≡ map some (first ∷ parts))
        × (concat (first ∷ parts) ≡ s)
        × (length str ≤ suc (length first))
  pub copied : Copies k.copies s
  pub appended : (n : ℕ) → k.append ≡ some n → n ≡ length str
  pub fresh : (k.unlink_works ≡ true) ⊎ (disk (tmp_file k rpath str) ≡ none)

-- The string is in the file, or the file is empty; or nothing has changed there. Whatever comes of
-- it, only the temporary file may have changed elsewhere.
pub record Outcome (tmp rpath str s : Bytes) (disk : Disk) (r : Result) : Type 0 where
  pub others : (p : Bytes) → p ≢ rpath → p ≢ tmp → r.disk p ≡ disk p
  pub ends :
      ((r.rv ≡ pos 0) × (r.disk rpath ≡ some (file s)) × ((s ≡ []) ⊎ (contains str s ≡ true)))
      ⊎ (((r.rv ≡ pos 0) × (r.disk rpath ≡ some (file (s ++ str))) × (contains str s ≡ false))
          ⊎ ((r.rv ≡ neg 1) × (r.disk rpath ≡ some (file s))))

pub copy_loop-Copies :
    (cs : List (Option (Bytes × Option ℕ))) (w s : Bytes)
    → Copies cs s
    → ((written : Bytes) × (copy_loop cs w ≡ (false, written))) ⊎ (copy_loop cs w ≡ (true, w ++ s))
unfolding copy_loop
copy_loop-Copies [] w s h =
    inr (ap (λ t. (true, t)) (sym (append-nil w) ∙ ap (λ t. w ++ t) (sym h)))
copy_loop-Copies (none ∷ cs) w s h = absurd h
copy_loop-Copies (some (part, none) ∷ cs) w s h = inl (w, refl)
copy_loop-Copies (some (part, some n) ∷ cs) w s (size, (rest, whole, h)) =
    elim (copy_loop-Copies cs (w ++ take n part) rest h) [
      | inl f ↦ inl f
      | inr t ↦ inr (
          t
          ∙ ap (λ u. (true, u))
              (append_assoc w (take n part) rest
                ∙ ap (λ u. w ++ u)
                    (ap (λ u. u ++ rest) (take-all n part (omega (arith, size))) ∙ sym whole)))
    ]

pub drop-nil : (n : ℕ) → drop {A = ℕ} n [] ≡ []
drop-nil zero = refl
drop-nil (suc n) = refl

pub longer : (rpath : Bytes) → rpath ≢ rpath ++ suffix
longer rpath h = absurd (omega (arith, ap length h, length-append rpath suffix))

no_bytes : (s : Bytes) → length s ≡ 0 → s ≡ []
no_bytes [] h = refl
no_bytes (x ∷ s) h = absurd (omega arith)

not_le : (a b : ℕ) → leb a b ≡ false → b < a
not_le a b h = ground arith

module _ (k : Calls) (rpath str s : Bytes) (disk : Disk) where
  abbrev tmp : Bytes
  tmp = tmp_file k rpath str

  abbrev Ends : Option Result → Type 0
  Ends o = (r : Result) × (o ≡ some r) × Outcome tmp rpath str s disk r

  fail-Ends : disk rpath ≡ some (file s) → Ends (fail disk)
  fail-Ends at = (_, refl, record { others = λ p a b. refl; ends = inr (inr (refl, at)) })

  skip-Ends :
      disk rpath ≡ some (file s)
      → (s ≡ []) ⊎ (contains str s ≡ true)
      → Ends (some (record { rv = pos 0; disk = disk }))
  skip-Ends at why = (_, refl, record { others = λ p a b. refl; ends = inl (refl, at, why) })

  -- A failure with a temporary file.
  module _ (unlinked : Disk) (same : (p : Bytes) → p ≢ tmp → unlinked p ≡ disk p)
      (at : disk rpath ≡ some (file s)) where
    fail_unlinked-Ends : Ends (fail unlinked)
    fail_unlinked-Ends = (
      _,
      refl,
      record {
        others = λ p a b. same p b;
        ends = inr (inr (refl, same rpath (longer rpath) ∙ at));
      },
    )

    clean_up-Ends : (content : Bytes) → Ends (clean_up k rpath str content unlinked)
    unfolding clean_up
    clean_up-Ends content =
        let v = if k.cleaned then none else some (file content) in
        (
          _,
          refl,
          record {
            others = λ p a b. put-other tmp v unlinked p b ∙ same p b;
            ends = inr (
                inr (
                  refl,
                  put-other tmp v unlinked rpath (longer rpath) ∙ same rpath (longer rpath) ∙ at,
                ));
          },
        )

    append_and_rename-Ends :
        ((n : ℕ) → k.append ≡ some n → n ≡ length str)
        → contains str s ≡ false
        → Ends (append_and_rename k rpath str s [] unlinked)
    unfolding append_and_rename
    append_and_rename-Ends full missing = elim (Option-cases k.append) [
      | inl n ↦ rw n (clean_up-Ends (overwrite s []))
      | inr (n, h) ↦ elim (Bool-cases k.rename_works) [
        | inr f ↦ rw (h, f) (clean_up-Ends (overwrite (s ++ take n str) []))
        | inl t ↦
            let whole : overwrite (s ++ take n str) [] ≡ s ++ str =
              ap (λ d. (s ++ take n str) ++ d) (drop-nil (length (s ++ take n str)))
              ∙ append-nil (s ++ take n str)
              ∙ ap (λ u. s ++ u) (take-all n str (omega (arith, full n h))) in
            let v = some (file (overwrite (s ++ take n str) [])) in
            rw (h, t)
              (
                _,
                refl,
                record {
                  others = λ p a b.
                      put-other tmp none (put rpath v unlinked) p b
                      ∙ (put-other rpath v unlinked p a ∙ same p b);
                  ends = inr (
                      inl (
                        refl,
                        put-other tmp none (put rpath v unlinked) rpath (longer rpath)
                            ∙ (put-same rpath v unlinked ∙ ap (λ u. some (file u)) whole),
                        missing,
                      ));
                },
              )
      ]
    ]

  -- The files after the first `unlinkat`.
  abbrev unlinked_tmp : Disk
  unlinked_tmp = if k.unlink_works then put tmp none disk else disk

  unlinked_same : (p : Bytes) → p ≢ tmp → unlinked_tmp p ≡ disk p
  unlinked_same p n = elim (Bool-cases k.unlink_works) [
    | inl t ↦ rw t (put-other tmp none disk p n)
    | inr f ↦ rw f refl
  ]

  old_empty : (k.unlink_works ≡ true) ⊎ (disk tmp ≡ none) → bytes_of (unlinked_tmp tmp) ≡ []
  old_empty (inl t) = rw t (ap bytes_of (put-same tmp none disk))
  old_empty (inr n) = elim (Bool-cases k.unlink_works) [
    | inl t ↦ rw t (ap bytes_of (put-same tmp none disk))
    | inr f ↦ rw f (ap bytes_of n)
  ]

  add_content-Ends :
      Regular k rpath str s disk → contains str s ≡ false → Ends (add_content k rpath str disk)
  unfolding add_content copy_file
  add_content-Ends reg missing = elim (Bool-cases (leb path_max (length tmp))) [
    | inl t ↦ rw t (fail-Ends reg.there)
    | inr f ↦ elim (Bool-cases k.create_works) [
      | inr c ↦ rw (f, c) (fail_unlinked-Ends unlinked_tmp unlinked_same reg.there)
      | inl c ↦ elim (Bool-cases k.lseek_works) [
        | inr l ↦
            rw (f, c, l)
              (clean_up-Ends unlinked_tmp unlinked_same reg.there (bytes_of (unlinked_tmp tmp)))
        | inl l ↦ elim (copy_loop-Copies k.copies [] s reg.copied) [
          | inl (written, half) ↦
              rw (f, c, l, half)
                (clean_up-Ends unlinked_tmp unlinked_same reg.there
                  (overwrite written (bytes_of (unlinked_tmp tmp))))
          | inr looped ↦
              rw (f, c, l, looped)
                (subst (λ o. Ends (append_and_rename k rpath str s o unlinked_tmp))
                  (sym (old_empty reg.fresh))
                  (append_and_rename-Ends unlinked_tmp unlinked_same reg.there reg.appended
                    missing))
        ]
      ]
    ]
  ]

pub inject-Outcome :
    (k : Calls) (rpath str s : Bytes) (disk : Disk)
    → 1 ≤ length str
    → Regular k rpath str s disk
    → (r : Result) × (inject k rpath str disk ≡ some r)
      × Outcome (tmp_file k rpath str) rpath str s disk r
unfolding inject
inject-Outcome k rpath str s disk ne reg = elim (Bool-cases k.open_works) [
  | inr o ↦ rw o (fail-Ends k rpath str s disk reg.there)
  | inl o ↦ elim (Option-cases k.fstat) [
    | inl n ↦ rw (o, n) (fail-Ends k rpath str s disk reg.there)
    | inr (size, h) ↦
        let size_of = reg.sized size h in
        elim (Bool-cases (size == 0)) [
          | inl z ↦
              rw (o, h, z)
                (skip-Ends k rpath str s disk reg.there
                  (inl (no_bytes s (sym size_of ∙ (==_iff size 0).0 z))))
          | inr z ↦ elim (Bool-cases (leb (length str) size)) [
            | inr l ↦
                rw (o, h, z, l)
                  (add_content-Ends k rpath str s disk reg
                    (contains-short str s (omega (arith, size_of, not_le (length str) size l))))
            | inl l ↦
                let (first, parts, reads, whole, long) = reg.searched (ground (arith, size_of)) in
                let searched : file_search str [] k.search_reads ≡ some (contains str s) =
                  ap (file_search str []) reads
                  ∙ file_search-contains str first parts ne long
                  ∙ ap (λ t. some (contains str t)) whole in
                elim (Bool-cases (contains str s)) [
                  | inl c ↦
                      rw (o, h, z, l, searched, c) (skip-Ends k rpath str s disk reg.there (inr c))
                  | inr c ↦ rw (o, h, z, l, searched, c) (add_content-Ends k rpath str s disk reg c)
                ]
          ]
        ]
  ]
]
