-- ===== src/Etcfs/Rename/Copied.antt =====
-- The copy that `m_rename` of src/etcfs/etcfs.c makes.
use mathlib.Core.Option.{some-injective}
use bedrocklinux_userland.Base.{
  ◌≢◌, subst, ℕ, zero, suc, ◌≡◌, ◌⊎◌, inl, inr, refl, sym, ap, ◌∙◌, false, List, [], ◌∷◌, ◌++◌,
  Option, none, some, length, take, drop, replicate, if◌then◌else◌, leb, pos, neg, arith,
  Bool-cases, Option-cases, take-all, drop-all, append_assoc, append-nil, length-take,
}
use bedrocklinux_userland.CString.{Bytes, codes}
use bedrocklinux_userland.Crossfs.Paths.{path_max}
use bedrocklinux_userland.Etcfs.Config.{RefFd, enametoolong}
use bedrocklinux_userland.Etcfs.Serve.{fs_imp_return}
use bedrocklinux_userland.Etcfs.Files.{resize}
use bedrocklinux_userland.Etcfs.Rename.{
  regular, Item, Files, same_place, place, Copy, read_error, write_error, chunk, Calls, Renamed,
  copy_loop, bytes_of, last_errno, change, failed_with, tmp_name, copy_metadata, made, created,
  rename_copy, copied, copy_regular, copy_link,
}
use bedrocklinux_userland.Etcfs.Rename.Places.{place-same, place-other, same_place-sym}

-- The copy reads the bytes `s` in order, up to an error or their end, and a write that does not fail is
-- complete.
abbrev pub Follows : List Copy → Bytes → Type 0
Follows [] s = s ≡ []
Follows (read_error e ∷ cs) s = e ≢ 0
Follows (write_error e ∷ cs) s = e ≢ 0
Follows (chunk part n ∷ cs) s =
    (n ≡ length part) × ((rest : Bytes) × (s ≡ part ++ rest) × Follows cs rest)

copy_loop-Follows :
    (cs : List Copy) (w s : Bytes)
    → Follows cs s
    → (copy_loop cs w).0 ≡ none
    → (copy_loop cs w).1 ≡ w ++ s
unfolding copy_loop
copy_loop-Follows [] w s f h = sym (append-nil w) ∙ ap (λ t. w ++ t) (sym f)
copy_loop-Follows (read_error e ∷ cs) w s f h = cc
copy_loop-Follows (write_error e ∷ cs) w s f h = cc
copy_loop-Follows (chunk part n ∷ cs) w s (size, (rest, whole, f)) h =
    copy_loop-Follows cs (w ++ take n part) rest f h
    ∙ (append_assoc w (take n part) rest
        ∙ ap (λ t. w ++ t)
            (ap (λ t. t ++ rest) (take-all n part (omega (arith, size))) ∙ sym whole))

length-replicate : (n : ℕ) → length {A = ℕ} (replicate n 0) ≡ n
length-replicate zero = refl
length-replicate (suc n) = ap suc (length-replicate n)

-- The file that has its size takes the bytes.
overwritten : (s old : Bytes) → s ++ drop (length s) (resize (length s) old) ≡ s
overwritten s old =
    ap (λ t. s ++ t)
      (drop-all (length s) (resize (length s) old)
        (omega (arith, length-take (length s) (old ++ replicate (length s) 0))))
    ∙ append-nil s

copy_loop-errno :
    (cs : List Copy) (w s : Bytes) (e : ℕ) → Follows cs s → (copy_loop cs w).0 ≡ some e → e ≢ 0
unfolding copy_loop
copy_loop-errno [] w s e f h = cc
copy_loop-errno (read_error e' ∷ cs) w s e f h = subst (λ n. n ≢ 0) (some-injective e' e h) f
copy_loop-errno (write_error e' ∷ cs) w s e f h = subst (λ n. n ≢ 0) (some-injective e' e h) f
copy_loop-errno (chunk part n ∷ cs) w s e (size, (rest, whole, f)) h =
    copy_loop-errno cs (w ++ take n part) rest e f h

-- The `errno` of a call that fails is not 0.
abbrev pub NonZero : Option ℕ → Type 0
NonZero none = Unit
NonZero (some e) = e ≢ 0

pub record SetsErrno (k : Calls) : Type 0 where
  pub fstatat : NonZero k.fstatat
  pub mknodat : NonZero k.mknodat
  pub readlinkat : NonZero k.readlinkat
  pub symlinkat : NonZero k.symlinkat
  pub mkdirat : NonZero k.mkdirat
  pub open_to : NonZero k.open_to
  pub open_from : NonZero k.open_from
  pub ftruncate : NonZero k.ftruncate
  pub rename_tmp : NonZero k.rename_tmp
  pub fchownat : NonZero k.fchownat
  pub fchmodat : NonZero k.fchmodat
  pub unlinkat : NonZero k.unlinkat
  pub close_again : NonZero k.close_again

pub nonzero : (o : Option ℕ) (e : ℕ) → NonZero o → o ≡ some e → e ≢ 0
nonzero o e n h = subst NonZero h n

last_errno-nonzero : (closed : Option ℕ) (e : ℕ) → NonZero closed → e ≢ 0 → last_errno closed e ≢ 0
last_errno-nonzero none e c n = n
last_errno-nonzero (some closed) e c n = c

too_long_errno : enametoolong ≢ 0
too_long_errno h = cc

module _ (k : Calls) (ref : RefFd) (from : Bytes) (to_ref : RefFd) (to : Bytes) (item : Item)
    (apart : same_place ref from to_ref to ≡ false) (sets : SetsErrno k) where
  -- The file is at the new path, as it was and there alone, and the result is 0; or it is still at the
  -- old path, as it was, and the result is an error.
  abbrev pub Kept : Renamed → Type 0
  Kept r =
      ((r.rv ≡ pos 0) × (r.files to_ref to ≡ some item) × (r.files ref from ≡ none))
      ⊎ ((e : ℕ) × (e ≢ 0) × (r.rv ≡ neg e) × (r.files ref from ≡ some item))

  pub failed-Kept :
      (e : ℕ) (files : Files) → e ≢ 0 → files ref from ≡ some item → Kept (failed_with e files)
  unfolding fs_imp_return
  failed-Kept e files n at = inr (e, n, refl, at)

  copy_metadata-Kept :
      (closed : Option ℕ) (base : Item) (files : Files)
      → NonZero closed
      → files ref from ≡ some item
      → files to_ref to ≡ some base
      → base.content ≡ item.content
      → Kept (copy_metadata k ref from to_ref to closed item files)
  unfolding copy_metadata
  copy_metadata-Kept closed base files cz at copy same =
      let v = change (λ i. record i { owner = item.owner }) (files to_ref to) in
      let owned = place to_ref to v files in
      let at_owned = place-other to_ref to v files ref from apart ∙ at in
      let w = change (λ i. record i { mode = item.mode }) (owned to_ref to) in
      let equal = place to_ref to w owned in
      let at_equal = place-other to_ref to w owned ref from apart ∙ at_owned in
      let whole : w ≡ some item =
        ap (change (λ i. record i { mode = item.mode }))
          (place-same to_ref to v files ∙ ap (change (λ i. record i { owner = item.owner })) copy)
        ∙ ap (λ c. some (record item { content = c })) same in
      elim (Option-cases k.fchownat) [
        | inr (e, h) ↦ rw h (
            failed-Kept (last_errno closed e) files
              (last_errno-nonzero closed e cz (nonzero k.fchownat e sets.fchownat h)) at)
        | inl h ↦ elim (Option-cases k.fchmodat) [
          | inr (e, m) ↦
              rw (h, m)
                (failed-Kept (last_errno closed e) owned
                  (last_errno-nonzero closed e cz (nonzero k.fchmodat e sets.fchmodat m)) at_owned)
          | inl m ↦ elim (Option-cases k.unlinkat) [
            | inr (e, u) ↦
                rw (h, m, u)
                  (failed-Kept (last_errno closed e) equal
                    (last_errno-nonzero closed e cz (nonzero k.unlinkat e sets.unlinkat u))
                    at_equal)
            | inl u ↦
                rw (h, m, u)
                  (inl (
                    refl,
                    place-other ref from none equal to_ref to
                          (same_place-sym ref from to_ref to apart)
                        ∙ (place-same to_ref to w owned ∙ whole),
                    place-same ref from none equal,
                  ))
          ]
        ]
      ]

  pub made-Kept :
      (works : Option ℕ) (files : Files)
      → NonZero works
      → files ref from ≡ some item
      → Kept (made k ref from to_ref to works item files)
  unfolding made
  made-Kept (some e) files n at = failed-Kept e files n at
  made-Kept none files n at =
      let v = some (record item { owner = k.caller }) in
      copy_metadata-Kept none (record item { owner = k.caller }) (place to_ref to v files) tt
        (place-other to_ref to v files ref from apart ∙ at) (place-same to_ref to v files) refl

  pub copy_link-Kept :
      (target : Bytes) (files : Files)
      → files ref from ≡ some item
      → Kept (copy_link k ref from to_ref to target item files)
  unfolding copy_link
  copy_link-Kept target files at = elim (Option-cases k.readlinkat) [
    | inr (e, h) ↦ rw h (failed-Kept e files (nonzero k.readlinkat e sets.readlinkat h) at)
    | inl h ↦ elim (Bool-cases (leb path_max (length target))) [
      | inl t ↦ rw (h, t) (failed-Kept enametoolong files too_long_errno at)
      | inr f ↦ rw (h, f) (made-Kept k.symlinkat files sets.symlinkat at)
    ]
  ]

  module _ (apart_tmp : same_place ref from to_ref (tmp_name k ref from to_ref to) ≡ false) where
    abbrev tmp : Bytes
    tmp = tmp_name k ref from to_ref to

    beside :
        (v : Option Item) (files : Files)
        → files ref from ≡ some item
        → place to_ref tmp v files ref from ≡ some item
    beside v files at = place-other to_ref tmp v files ref from apart_tmp ∙ at

    rename_copy-Kept :
        (s : Bytes) (base : Item) (files : Files)
        → regular s ≡ item.content
        → files ref from ≡ some item
        → Kept (rename_copy k ref from to_ref to s base item files)
    unfolding rename_copy
    rename_copy-Kept s base files same at =
        let v = some (record base { content = regular s }) in
        let copied = place to_ref tmp v files in
        let left = place to_ref tmp none copied in
        elim (Option-cases k.rename_tmp) [
          | inr (e, h) ↦ rw h (
              failed-Kept (last_errno k.close_again e) copied
                (last_errno-nonzero k.close_again e sets.close_again
                  (nonzero k.rename_tmp e sets.rename_tmp h))
                (beside v files at))
          | inl h ↦ rw h (
              copy_metadata-Kept k.close_again (record base { content = regular s })
                (place to_ref to v left) sets.close_again
                (place-other to_ref to v left ref from apart
                  ∙ beside none copied (beside v files at))
                (place-same to_ref to v left) same)
        ]

    copied-Kept :
        (r : Option ℕ × Bytes) (s : Bytes) (old : Bytes) (base : Item) (files : Files)
        → regular s ≡ item.content
        → (r.0 ≡ none → r.1 ≡ s)
        → ((e : ℕ) → r.0 ≡ some e → e ≢ 0)
        → files ref from ≡ some item
        → Kept (copied k ref from to_ref to r (resize (length s) old) base item files)
    unfolding copied
    copied-Kept (some e, written) s old base files same whole errnos at =
        let v = some (record base {
          content = regular (written ++ drop (length written) (resize (length s) old));
        }) in
        failed-Kept e (place to_ref tmp v files) (errnos e refl) (beside v files at)
    copied-Kept (none, written) s old base files same whole errnos at =
        rename_copy-Kept (written ++ drop (length written) (resize (length s) old)) base files
          (ap regular (
              ap (λ w. w ++ drop (length w) (resize (length s) old)) (whole refl)
              ∙ overwritten s old)
            ∙ same)
          at

    pub copy_regular-Kept :
        (s : Bytes) (files : Files)
        → regular s ≡ item.content
        → Follows k.copies s
        → files ref from ≡ some item
        → Kept (copy_regular k ref from to_ref to s item files)
    unfolding copy_regular
    copy_regular-Kept s files same follows at =
        let unlinked = if k.unlinked then place to_ref tmp none files else files in
        let base = created k ref from to_ref to item (unlinked to_ref tmp) in
        let at_unlinked : unlinked ref from ≡ some item = elim (Bool-cases k.unlinked) [
          | inl t ↦ rw t (beside none files at)
          | inr f ↦ rw f at
        ] in
        let at_opened = beside (some base) unlinked at_unlinked in
        elim (Bool-cases (leb path_max (length (codes "./" ++ tmp)))) [
          | inl t ↦ rw t (failed-Kept enametoolong files too_long_errno at)
          | inr f ↦ elim (Option-cases k.open_to) [
            | inr (e, o) ↦
                rw (f, o) (failed-Kept e unlinked (nonzero k.open_to e sets.open_to o) at_unlinked)
            | inl o ↦ elim (Option-cases k.open_from) [
              | inr (e, p) ↦
                  rw (f, o, p)
                    (failed-Kept e (place to_ref tmp (some base) unlinked)
                      (nonzero k.open_from e sets.open_from p) at_opened)
              | inl p ↦ elim (Option-cases k.ftruncate) [
                | inr (e, q) ↦
                    rw (f, o, p, q)
                      (failed-Kept e (place to_ref tmp (some base) unlinked)
                        (nonzero k.ftruncate e sets.ftruncate q) at_opened)
                | inl q ↦
                    rw (f, o, p, q)
                      (copied-Kept (copy_loop k.copies []) s (bytes_of (some base)) base unlinked
                        same (copy_loop-Follows k.copies [] s follows)
                        (λ e. copy_loop-errno k.copies [] s e follows) at_unlinked)
              ]
            ]
          ]
        ]
