-- ===== src/Etcfs/Overrides/Enforced.antt =====
-- What `apply_override` of src/etcfs/etcfs.c makes of an override.
use mathlib.Core.Option.{some-injective}
use bedrocklinux_userland.Base.{
  ℕ, ◌+◌, ◌≤◌, ◌<◌, ◌≡◌, ◌≢◌, ◌⊎◌, inl, inr, refl, sym, ap, ap₂, ◌==◌, ==_iff, ◌∙◌, subst, Bool,
  true, false, not, ◌&&◌, [], ◌∷◌, ◌++◌, Option, none, some, length, get_elem?, leb, pos, neg,
  arith, All, Bool-cases, Option-cases, take-all,
}
use bedrocklinux_userland.CString.{Bytes}
use bedrocklinux_userland.Etcfs.Config.{
  OType, symlink, directory, inject, Override, Config, find_index,
}
use bedrocklinux_userland.Etcfs.Files.{Node, file, folder, link, device, Disk, put-same, put-other}
use bedrocklinux_userland.Etcfs.Search.{contains, contains-append}
use bedrocklinux_userland.Etcfs.Inject.{Result, suffix, bytes_of}
use bedrocklinux_userland.Etcfs.Inject.Atomic.{Regular, Outcome, inject-Outcome}
use bedrocklinux_userland.Etcfs.Overrides.{
  Calls, Applied, is_for, is_folder, is_file, is_link_to, nothing_to_do, unlink_both, make_node,
  replaced, injected, enforce, strcmp_array, apply_tested, apply_at, apply_override,
}

-- What is at a path is what an override asks for. One that injects asks nothing of what is no
-- regular file, nor of an empty file.
abbrev pub Enforced : OType → Override → Option Node → Type 0
Enforced symlink o found = found ≡ some (link o.content)
Enforced directory o found = found ≡ some folder
Enforced inject o found =
    (s : Bytes)
    → found ≡ some (file s)
    → (str : Bytes) → o.injected ≡ some str
    → (s ≡ []) ⊎ (contains str s ≡ true)

-- What is relied on for an override: for a link, that the target that is there has no NUL and fits
-- into `buf`, and that the byte behind it in `buf` is NUL; for a string, that it is not empty, that
-- the file can be found, and that it is one that `inject` can read.
abbrev pub Sound : OType → Calls → Bytes → Override → Disk → Type 0
Sound symlink k rpath o disk =
    ((t : Bytes) → disk rpath ≡ some (link t) → All (λ x. 0 < x) t × (length t ≤ 4095))
    × ((g : Bytes) × (k.behind ≡ 0 ∷ g))
Sound directory k rpath o disk = Unit {0}
Sound inject k rpath o disk =
    (k.stat_works ≡ true)
    × ((str : Bytes) × (o.injected ≡ some str)
        × (1 ≤ length str)
        × ((s : Bytes) → disk rpath ≡ some (file s) → Regular k.inject_calls rpath str s disk))

-- A string and its NUL in an array are compared inside the array, and are equal only to the string.
strcmp_array-string :
    (t g content : Bytes)
    → All (λ x. 0 < x) t
    → (b : Bool) × (strcmp_array (t ++ (0 ∷ g)) content ≡ some b) × (b ≡ true → t ≡ content)
unfolding strcmp_array
strcmp_array-string [] g [] h = (true, refl, λ e. refl)
strcmp_array-string [] g (y ∷ content) h = (false, refl, λ e. cc)
strcmp_array-string (x ∷ t) g [] (p, h) = (x == 0, refl, λ e. absurd (ground arith))
strcmp_array-string (x ∷ t) g (y ∷ content) (p, h) =
    let (b, same, right) = strcmp_array-string t g content h in
    let nonzero : (x == 0) ≡ false = ground arith in
    elim (Bool-cases (x == y)) [
      | inl e ↦ (b, rw (nonzero, e) same, λ i. ap₂ (λ u v. u ∷ v) ((==_iff x y).0 e) (right i))
      | inr e ↦ (false, rw (nonzero, e) refl, λ i. cc)
    ]

-- How the call ends for the override.
abbrev pub Ends : OType → Bytes → Bytes → Calls → Override → Disk → Option Applied → Type 0
Ends t rpath tmp k o disk result =
    (r : Applied) × (result ≡ some r)
    × (r.rv ≡ pos 0 → Enforced t o (r.disk rpath) ⊎ (k.now ≤ o.last_override + 1))
    × ((p : Bytes) → p ≢ rpath → p ≢ tmp → r.disk p ≡ disk p)

not_minus : {A : Type 0} → neg 1 ≡ pos 0 → A
not_minus h = absurd (minus_lem h)
  where
    minus_lem : neg 1 ≡ pos 0 → ⊥
    minus_lem h = cc

file-injective : (s t : Bytes) → some (file s) ≡ some (file t) → s ≡ t
file-injective s t h = ap bytes_of h

must_be_file : (a b : Bool) → not (a && b) ≡ false → b ≡ true
must_be_file a b h = ground arith

not_and : (a b : Bool) → a ≡ true → not (a && b) ≡ true → b ≡ false
not_and a b p h = ground arith

and_right : (a b : Bool) → a && b ≡ true → b ≡ true
and_right a b h = ground arith

module _ (k : Calls) (rpath : Bytes) (disk : Disk) where
  make_node-Ends :
      (v : Node) (d : Disk)
      → ((make_node k rpath v d).0 ≡ pos 0 → (make_node k rpath v d).1 rpath ≡ some v)
        × ((p : Bytes) → p ≢ rpath → (make_node k rpath v d).1 p ≡ d p)
  unfolding make_node
  make_node-Ends v d = elim (Option-cases (d rpath)) [
    | inr (x, h) ↦ rw (h, make_node) (λ z. not_minus z, λ p n. refl)
    | inl h ↦ elim (Bool-cases k.make_works) [
      | inl m ↦
          rw (h, make_node, m)
            (λ _. put-same rpath (some v) d, λ p n. put-other rpath (some v) d p n)
      | inr m ↦ rw (h, make_node, m) (λ z. not_minus z, λ p n. refl)
    ]
  ]

  unlink_both-other : (p : Bytes) → p ≢ rpath → unlink_both k rpath disk p ≡ disk p
  unfolding unlink_both
  unlink_both-other p n = elim (Bool-cases k.unlink_removes) [
    | inl t ↦ rw (t, unlink_both) (put-other rpath none disk p n)
    | inr f ↦ rw (f, unlink_both) refl
  ]

  -- The test of a link stays inside its buffer, and says that the link is right.
  link_there :
      (content : Bytes) (found : Option Node) (g : Bytes)
      → ((t : Bytes) → found ≡ some (link t) → All (λ x. 0 < x) t × (length t ≤ 4095))
      → k.behind ≡ 0 ∷ g
      → (b : Bool) × (is_link_to k.behind content found ≡ some b)
        × (b ≡ true → found ≡ some (link content))
  link_there content (some (link t)) g fine nul =
      let (clean, fits) = fine t refl in
      let (b, same, right) = strcmp_array-string t g content clean in
      (
        b,
        ap₂ (λ u v. strcmp_array (u ++ v) content) (take-all 4095 t fits) nul ∙ same,
        λ e. ap (λ u. some (link u)) (right e),
      )
  link_there content none g fine nul = (false, refl, λ h. cc)
  link_there content (some (file s)) g fine nul = (false, refl, λ h. cc)
  link_there content (some folder) g fine nul = (false, refl, λ h. cc)
  link_there content (some device) g fine nul = (false, refl, λ h. cc)

  folder_there : (found : Option Node) → is_folder found ≡ true → found ≡ some folder
  folder_there (some folder) h = refl
  folder_there none h = cc
  folder_there (some (file s)) h = cc
  folder_there (some (link t)) h = cc
  folder_there (some device) h = cc

  no_file : (found : Option Node) (s : Bytes) → is_file found ≡ false → found ≢ some (file s)
  no_file found s h e = contra (sym (ap is_file e) ∙ h)
    where
      contra : true ≡ false → ⊥
      contra h = cc

  file_there : (found : Option Node) → is_file found ≡ true → (s : Bytes) × (found ≡ some (file s))
  file_there (some (file s)) h = (s, refl)
  file_there none h = cc
  file_there (some folder) h = cc
  file_there (some (link t)) h = cc
  file_there (some device) h = cc

  made-Ends :
      (t : OType) (o : Override) (cfg : Config) (tmp : Bytes) (v : Node)
      → Enforced t o (some v)
      → Ends t rpath tmp k o disk
          (replaced k rpath cfg (make_node k rpath v (unlink_both k rpath disk)))
  made-Ends t o cfg tmp v good =
      let made = make_node-Ends v (unlink_both k rpath disk) in
      (
        _,
        refl,
        λ z. inl (subst (Enforced t o) (sym (made.0 z)) good),
        λ p n m. made.1 p n ∙ unlink_both-other p n,
      )

  injected-Ends :
      (o : Override) (cfg : Config) (str s : Bytes) (r : Result)
      → o.injected ≡ some str
      → Outcome (rpath ++ suffix) rpath str s disk r
      → Ends inject rpath (rpath ++ suffix) k o disk (injected k rpath cfg (some r))
  injected-Ends o cfg str s r i out = (
    _,
    refl,
    λ z. inl (λ u at str' i'.
        subst (λ w. (u ≡ []) ⊎ (contains w u ≡ true)) (some-injective str str' (sym i ∙ i'))
          (has_string u z at)),
    out.others,
  )
    where
      has_string :
          (u : Bytes)
          → r.rv ≡ pos 0
          → r.disk rpath ≡ some (file u)
          → (u ≡ []) ⊎ (contains str u ≡ true)
      has_string u z at = elim out.ends [
        | inl (_, same, why) ↦
            subst (λ w. (w ≡ []) ⊎ (contains str w ≡ true)) (file-injective s u (sym same ∙ at)) why
        | inr (inl (_, same, _)) ↦ inr (
            subst (λ w. contains str w ≡ true) (file-injective (s ++ str) u (sym same ∙ at))
              (contains-append str s))
        | inr (inr (bad, _)) ↦ not_minus (sym bad ∙ z)
      ]

  -- The end of a case.
  enforce-Ends :
      (t : OType) (o : Override) (cfg : Config)
      → Sound t k rpath o disk
      → nothing_to_do k rpath t o (disk rpath) ≡ some false
      → Ends t rpath (rpath ++ suffix) k o disk (enforce k rpath t o cfg disk)
  unfolding enforce nothing_to_do
  enforce-Ends symlink o cfg sound n =
      made-Ends symlink o cfg (rpath ++ suffix) (link o.content) refl
  enforce-Ends directory o cfg sound n = made-Ends directory o cfg (rpath ++ suffix) folder refl
  enforce-Ends inject o cfg (works, (str, i, ne, reg)) n =
      let (s, at) =
        file_there (disk rpath)
          (must_be_file (k.stat_works) (is_file (disk rpath)) (some-injective _ false n)) in
      let (r, ran, out) = inject-Outcome k.inject_calls rpath str s disk ne (reg s at) in
      let ends : enforce k rpath inject o cfg disk ≡ injected k rpath cfg (some r) =
        rw (i, enforce, ran) refl in
      subst (Ends inject rpath (rpath ++ suffix) k o disk) (sym ends)
        (injected-Ends o cfg str s r i out)

  unchanged-Ends :
      (t : OType) (o : Override) (cfg : Config)
      → Enforced t o (disk rpath) ⊎ (k.now ≤ o.last_override + 1)
      → Ends t rpath
          (rpath ++ suffix)
          k
          o
          disk
          (some (record { rv = pos 0; cfg = cfg; disk = disk }))
  unchanged-Ends t o cfg why = (_, refl, λ z. why, λ p n m. refl)

  nothing_to_do-Enforced :
      (t : OType) (o : Override)
      → Sound t k rpath o disk
      → (b : Bool) × (nothing_to_do k rpath t o (disk rpath) ≡ some b)
        × (b ≡ true → Enforced t o (disk rpath))
  unfolding nothing_to_do
  nothing_to_do-Enforced symlink o (fine, (g, nul)) = elim (Bool-cases k.stat_works) [
    | inl works ↦ rw works (link_there o.content (disk rpath) g fine nul)
    | inr fails ↦ (false, rw fails refl, λ h. cc)
  ]
  nothing_to_do-Enforced directory o sound =
      (_, refl, λ h. folder_there (disk rpath) (and_right k.stat_works _ h))
  nothing_to_do-Enforced inject o (works, _) = (
    _,
    refl,
    λ h s at str i.
        absurd (no_file (disk rpath) s (not_and k.stat_works (is_file (disk rpath)) works h) at),
  )

  apply_tested-Ends :
      (i : ℕ) (o : Override) (cfg : Config) (b : Bool)
      → Sound o.otype k rpath o disk
      → nothing_to_do k rpath o.otype o (disk rpath) ≡ some b
      → (b ≡ true → Enforced o.otype o (disk rpath))
      → Ends o.otype rpath (rpath ++ suffix) k o disk (apply_tested k rpath i o cfg disk (some b))
  apply_tested-Ends i o cfg true sound h good = unchanged-Ends o.otype o cfg (inl (good refl))
  apply_tested-Ends i o cfg false sound h good =
      elim (Bool-cases (leb k.now (o.last_override + 1))) [
        | inl l ↦ rw l (unchanged-Ends o.otype o cfg (inr (ground arith)))
        | inr l ↦ rw l (enforce-Ends o.otype o _ sound h)
      ]

-- For the override that the search of the path finds: `apply_override` stays inside its buffers; if
-- it returns 0, then what is at the path is what the override asks for, or the override was applied
-- within the last second; and no path but that one and that of a temporary file changes. For a link it
-- is assumed that the target that is there has no NUL and fits, and that the byte of the uninitialised
-- `buf` behind it is NUL. For a string to inject it is assumed that the string is not empty, that the
-- file at the path can be examined, that the reads of `inject` get all but one of the string's bytes at
-- first and do not fail, and that its writes that do not fail are complete.
pub apply_override-Enforced :
    (k : Calls) (path rpath : Bytes) (cfg : Config) (disk : Disk) (i : ℕ) (o : Override)
    → find_index (is_for path) cfg.overrides ≡ some i
    → get_elem? cfg.overrides i ≡ some o
    → Sound o.otype k rpath o disk
    → Ends o.otype rpath (rpath ++ suffix) k o disk (apply_override k rpath path cfg disk)
unfolding apply_override apply_at
apply_override-Enforced k path rpath cfg disk i o found at sound =
    let (b, test, good) = nothing_to_do-Enforced k rpath disk o.otype o sound in
    rw (found, apply_override, at, test) (apply_tested-Ends k rpath disk i o cfg b sound test good)
