-- ===== src/Etcfs/Uninject/Removed.antt =====
-- What `uninject` of src/etcfs/etcfs.c leaves.
use bedrocklinux_userland.Base.{
  ℕ, ◌+◌, ◌-◌, ◌≤◌, ◌<◌, ◌≡◌, ◌≢◌, ◌⊎◌, inl, inr, refl, sym, ap, ◌∙◌, subst, Bool, true, List, [],
  ◌∷◌, ◌++◌, Option, none, some, length, drop, if◌then◌else◌, leb, ltb, pos, neg, arith, Bool-cases,
  Option-cases, append_assoc, append-nil,
}
use bedrocklinux_userland.CString.{Bytes}
use bedrocklinux_userland.Crossfs.Paths.{path_max}
use bedrocklinux_userland.Etcfs.Files.{file, Disk, put, put-same, put-other, resize}
use bedrocklinux_userland.Etcfs.Inject.{Result, fail, overwrite, bytes_of}
use bedrocklinux_userland.Etcfs.Inject.Atomic.{Copies, copy_loop-Copies, drop-nil, longer}
use bedrocklinux_userland.Etcfs.Uninject.{
  Calls, strstr, search, write_at, tmp_file, clean_up, rename_tmp, shift, copied, remove_content,
  uninject,
}
use bedrocklinux_userland.Etcfs.Uninject.Offsets.{strstr-split, shifted, search-first, drop-behind}

-- What `uninject` relies on: the file is there with its size; where it is long enough, the first read
-- of the search gets its start, with the string; no read of the copies fails, and writes that do not
-- fail are complete; and no
-- temporary file is left that `unlinkat` cannot remove.
pub record Regular (k : Calls) (rpath str s : Bytes) (disk : Disk) : Type 0 where
  pub there : disk rpath ≡ some (file s)
  pub sized : (n : ℕ) → k.fstat ≡ some n → n ≡ length s
  pub found :
      length str ≤ length s
      → (first : Bytes) × (rest : Bytes) × (seeks : Bool) × (reads : List (Option Bytes × Bool))
        × (k.searched ≡ (some first, seeks) ∷ reads)
        × (first ++ rest ≡ s)
        × ((i : ℕ) × (strstr str first ≡ some (some i)))
  pub copied_parts : Copies k.copies s
  pub rest_parts :
      (i : ℕ) → search str 0 k.searched ≡ some (some i) → Copies k.rest (drop (i + length str) s)
  pub fresh : (k.unlink_works ≡ true) ⊎ (disk (tmp_file k rpath str) ≡ none)

-- One string is gone and nothing else of the file; or the file is as it was, and either too short for
-- the string or there was an error. Only the temporary file may have changed elsewhere.
pub record Outcome (tmp rpath str s : Bytes) (disk : Disk) (r : Result) : Type 0 where
  pub others : (p : Bytes) → p ≢ rpath → p ≢ tmp → r.disk p ≡ disk p
  pub ends :
      ((before : Bytes) × (after : Bytes) × (s ≡ before ++ (str ++ after))
        × (r.rv ≡ pos 0)
        × (r.disk rpath ≡ some (file (before ++ after))))
      ⊎ (((r.rv ≡ pos 0) × (length s < length str) × (r.disk rpath ≡ some (file s)))
          ⊎ ((r.rv ≡ neg 1) × (r.disk rpath ≡ some (file s))))

module _ (k : Calls) (rpath str s : Bytes) (disk : Disk) (at : disk rpath ≡ some (file s)) where
  abbrev tmp : Bytes
  tmp = tmp_file k rpath str

  abbrev Ends : Option Result → Type 0
  Ends o = (r : Result) × (o ≡ some r) × Outcome tmp rpath str s disk r

  fail-Ends : Ends (fail disk)
  fail-Ends = (_, refl, record { others = λ p a b. refl; ends = inr (inr (refl, at)) })

  -- A failure with a temporary file.
  module _ (unlinked : Disk) (same : (p : Bytes) → p ≢ tmp → unlinked p ≡ disk p) where
    fail_unlinked-Ends : Ends (fail unlinked)
    fail_unlinked-Ends = (
      _,
      refl,
      record {
        others = λ p a b. same p b;
        ends = inr (inr (refl, same rpath (longer rpath) ∙ at));
      },
    )

    clean_up-Ends : (content : Bytes) → Ends (clean_up k rpath str content unlinked)
    unfolding clean_up
    clean_up-Ends content =
        let v = if k.cleaned then none else some (file content) in
        (
          _,
          refl,
          record {
            others = λ p a b. put-other tmp v unlinked p b ∙ same p b;
            ends = inr (
                inr (
                  refl,
                  put-other tmp v unlinked rpath (longer rpath) ∙ (same rpath (longer rpath) ∙ at),
                ));
          },
        )

    -- The string starts behind `before`.
    module _ (before after : Bytes) (whole : s ≡ before ++ (str ++ after)) where
      rename_tmp-Ends :
          (n : ℕ)
          → n ≡ length s - length str
          → Ends (rename_tmp k rpath str (length before) (true, after) (resize n s) unlinked)
      unfolding rename_tmp
      rename_tmp-Ends n size = elim (Bool-cases k.rename_works) [
        | inr f ↦ rw f (clean_up-Ends (write_at (length before) after (resize n s)))
        | inl t ↦
            let v = some (file (write_at (length before) after (resize n s))) in
            let gone =
              ap (λ u. write_at (length before) after (resize n u)) whole
              ∙ shifted before str after n (size ∙ ap (λ u. length u - length str) whole) in
            rw t (
              _,
              refl,
              record {
                others = λ p a b.
                    put-other tmp none (put rpath v unlinked) p b
                    ∙ (put-other rpath v unlinked p a ∙ same p b);
                ends = inl (
                  before,
                  after,
                  whole,
                  refl,
                  put-other tmp none (put rpath v unlinked) rpath (longer rpath)
                      ∙ (put-same rpath v unlinked ∙ ap (λ u. some (file u)) gone),
                );
              },
            )
      ]

      shift-Ends :
          (init_len : ℕ) (content : Bytes)
          → init_len ≡ length s
          → content ≡ s
          → Copies k.rest after
          → Ends (shift k rpath str (length before) init_len content unlinked)
      unfolding shift rename_tmp
      shift-Ends init_len content size full rest = elim (Bool-cases k.ftruncate_works) [
        | inr f ↦ rw f (clean_up-Ends content)
        | inl t ↦ elim (Bool-cases k.lseek_works) [
          | inr f ↦ rw (t, f) (clean_up-Ends (resize (init_len - length str) content))
          | inl u ↦ elim (Bool-cases k.lseek_tmp_works) [
            | inr f ↦ rw (t, u, f) (clean_up-Ends (resize (init_len - length str) content))
            | inl v ↦ elim (copy_loop-Copies k.rest [] after rest) [
              | inl (written, half) ↦
                  rw (t, u, v, half)
                    (clean_up-Ends
                      (write_at (length before) written (resize (init_len - length str) content)))
              | inr looped ↦
                  rw (t, u, v, looped, full)
                    (rename_tmp-Ends (init_len - length str) (ap (λ n. n - length str) size))
            ]
          ]
        ]
      ]

  -- The files after the first `unlinkat`.
  abbrev unlinked_tmp : Disk
  unlinked_tmp = if k.unlink_works then put tmp none disk else disk

  unlinked_same : (p : Bytes) → p ≢ tmp → unlinked_tmp p ≡ disk p
  unlinked_same p n = elim (Bool-cases k.unlink_works) [
    | inl t ↦ rw t (put-other tmp none disk p n)
    | inr f ↦ rw f refl
  ]

  old_empty : (k.unlink_works ≡ true) ⊎ (disk tmp ≡ none) → bytes_of (unlinked_tmp tmp) ≡ []
  old_empty (inl t) = rw t (ap bytes_of (put-same tmp none disk))
  old_empty (inr n) = elim (Bool-cases k.unlink_works) [
    | inl t ↦ rw t (ap bytes_of (put-same tmp none disk))
    | inr f ↦ rw f (ap bytes_of n)
  ]

  remove_content-Ends :
      (before after : Bytes) (init_len : ℕ)
      → s ≡ before ++ (str ++ after)
      → init_len ≡ length s
      → Copies k.copies s
      → Copies k.rest after
      → (k.unlink_works ≡ true) ⊎ (disk tmp ≡ none)
      → Ends (remove_content k rpath str (length before) init_len disk)
  unfolding remove_content copied
  remove_content-Ends before after init_len whole size copies rest fresh =
      elim (Bool-cases (leb path_max (length tmp))) [
        | inl t ↦ rw t fail-Ends
        | inr f ↦ elim (Bool-cases k.create_works) [
          | inr c ↦ rw (f, c) (fail_unlinked-Ends unlinked_tmp unlinked_same)
          | inl c ↦ elim (Bool-cases k.rewind_works) [
            | inr l ↦
                rw (f, c, l)
                  (clean_up-Ends unlinked_tmp unlinked_same (bytes_of (unlinked_tmp tmp)))
            | inl l ↦
                let content : overwrite s (bytes_of (unlinked_tmp tmp)) ≡ s =
                  ap (overwrite s) (old_empty fresh)
                  ∙ (ap (λ d. s ++ d) (drop-nil (length s)) ∙ append-nil s) in
                elim (copy_loop-Copies k.copies [] s copies) [
                  | inl (written, half) ↦
                      rw (f, c, l, half)
                        (clean_up-Ends unlinked_tmp unlinked_same
                          (overwrite written (bytes_of (unlinked_tmp tmp))))
                  | inr looped ↦
                      rw (f, c, l, looped)
                        (shift-Ends unlinked_tmp unlinked_same before after whole init_len
                          (overwrite s (bytes_of (unlinked_tmp tmp))) size content rest)
                ]
          ]
        ]
      ]

-- For a file whose first bytes, those that the first read gets, hold the string where there is room for
-- it, where no read of the copies fails and writes that do not fail are complete: `uninject` stays inside its buffers. It
-- returns 0 and one string is gone, with the bytes before it and behind it joined; or it returns 0 and
-- the file, too short for the string, is as it was; or it returns -1 and the file is as it was,
-- whichever other call fails. No path but those of the file and of the temporary file changes.
pub uninject-Outcome :
    (k : Calls) (rpath str s : Bytes) (disk : Disk)
    → Regular k rpath str s disk
    → (r : Result) × (uninject k rpath str disk ≡ some r)
      × Outcome (tmp_file k rpath str) rpath str s disk r
unfolding uninject
uninject-Outcome k rpath str s disk reg = elim (Bool-cases k.open_works) [
  | inr o ↦ rw o (fail-Ends k rpath str s disk reg.there)
  | inl o ↦ elim (Option-cases k.fstat) [
    | inl n ↦ rw (o, n) (fail-Ends k rpath str s disk reg.there)
    | inr (size, h) ↦
        let size_of = reg.sized size h in
        elim (Bool-cases (ltb size (length str))) [
          | inl t ↦
              rw (o, h, t)
                (
                  _,
                  refl,
                  record {
                    others = λ p a b. refl;
                    ends = inr (inl (refl, ground (arith, size_of), reg.there));
                  },
                )
          | inr f ↦
              let (first, rest, seeks, reads, searched, joined, (i, here)) =
                reg.found (ground (arith, size_of)) in
              let (before, after, split, at) = strstr-split str first i here in
              let found = ap (search str 0) searched ∙ search-first str first seeks reads i here in
              let whole : s ≡ before ++ (str ++ (after ++ rest)) =
                sym joined
                ∙ ap (λ t. t ++ rest) split
                ∙ append_assoc before (str ++ after) rest
                ∙ ap (λ t. before ++ t) (append_assoc str after rest) in
              let tail_whole =
                ap (λ n. drop (n + length str) s) at
                ∙ ap (drop (length before + length str)) whole
                ∙ drop-behind before str (after ++ rest) in
              rw (o, h, f, found, at)
                (remove_content-Ends k rpath str s disk reg.there before (after ++ rest) size whole
                  size_of reg.copied_parts
                  (subst (Copies k.rest) tail_whole (reg.rest_parts i found)) reg.fresh)
        ]
  ]
]
