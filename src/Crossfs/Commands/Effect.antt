-- ===== src/Crossfs/Commands/Effect.antt =====
-- What `cfg_add` does to any sum over the backs of the configuration.
use bedrocklinux_userland.Base.{
  ℕ, zero, suc, ◌+◌, ◌≤◌, ◌≡◌, ◌≢◌, ◌⊎◌, inl, inr, refl, sym, ap, ◌∙◌, subst, true, false, not,
  ◌&&◌, ◌||◌, List, [], ◌∷◌, ◌++◌, Option, none, some, length, get_elem?, set, if◌then◌else◌, ltb,
  arith, Option-cases, Bool-cases, ℤ, pos, negsuc, neg, ==_iff,
}
use bedrocklinux_userland.CString.{Bytes, codes, str_eq}
use bedrocklinux_userland.CString.Laws.{str_eq_iff}
use bedrocklinux_userland.Etcfs.Config.{find_index, enomem, einval}
use bedrocklinux_userland.Etcfs.Arrays.{total, total-append, total-set, find_index-eq-some}
use bedrocklinux_userland.Crossfs.Config.{Filter, BackEntry, CfgEntry, Cfgs}
use bedrocklinux_userland.Crossfs.Commands.{
  Calls, Reply, answer, Line, is_sane, filter_of, is_local_name, is_for, is_back, fd_in_backs,
  fd_in_entries, new_fd, either_fd, is_none, make_back, add_back, add_entry, extend_entry, add_line,
  same_fd, count_fd, count_fd_backs,
}

no_some : {fd : ℕ} → ◌≡◌ {A = Option ℕ} none (some fd) → ⊥
no_some h = cc

contra : true ≡ false → ⊥
contra h = cc

-- A weight of a back, which may depend on the path of its entry.
abbrev pub Weight : Type 0
Weight = Bytes → BackEntry → ℕ

abbrev pub entry_weight : Weight → CfgEntry → ℕ
entry_weight g e = total (g e.cpath) e.back

abbrev pub sum : Weight → List CfgEntry → ℕ
sum g es = total (entry_weight g) es

-- 1 for the backs with a descriptor.
abbrev pub uses : Option ℕ → Weight
uses fd p b = if same_fd b.root_fd fd then 1 else 0

pub fd_in_backs-uses :
    (s : Bytes) (acc : Option ℕ) (bs : List BackEntry) (p : Bytes) (fd : ℕ)
    → fd_in_backs s acc bs ≡ some fd
    → (acc ≡ some fd) ⊎ (1 ≤ total (uses (some fd) p) bs)
unfolding fd_in_backs
fd_in_backs-uses s acc [] p fd h = inl h
fd_in_backs-uses s acc (b ∷ bs) p fd h = elim (Bool-cases (str_eq b.name s)) [
  | inl e ↦
      let same : b.root_fd ≡ some fd = ground arith in
      inr (rw same (rw ((==_iff fd fd).1 refl) (omega arith)))
  | inr e ↦ elim (fd_in_backs-uses s acc bs p fd (ground arith)) [
    | inl a ↦ inl a
    | inr u ↦ inr (omega (arith, u))
  ]
]

-- A descriptor that the search finds is one that a back has.
pub fd_in_entries-uses :
    (s : Bytes) (acc : Option ℕ) (es : List CfgEntry) (fd : ℕ)
    → fd_in_entries s acc es ≡ some fd
    → (acc ≡ some fd) ⊎ (1 ≤ sum (uses (some fd)) es)
unfolding fd_in_entries
fd_in_entries-uses s acc [] fd h = inl h
fd_in_entries-uses s acc (e ∷ es) fd h =
    elim (fd_in_entries-uses s (fd_in_backs s acc e.back) es fd h) [
      | inl a ↦ elim (fd_in_backs-uses s acc e.back e.cpath fd a) [
        | inl a1 ↦ inl a1
        | inr u ↦ inr (omega (arith, u))
      ]
      | inr u ↦ inr (omega (arith, u))
    ]

pub count_fd-sum : (fd : Option ℕ) (es : List CfgEntry) → count_fd fd es ≡ sum (uses fd) es
unfolding count_fd
count_fd-sum fd [] = refl
count_fd-sum fd (e ∷ es) = omega (arith, count_fd_backs-total fd e.cpath e.back, count_fd-sum fd es)
  where
    count_fd_backs-total :
        (fd : Option ℕ) (p : Bytes) (bs : List BackEntry)
        → count_fd_backs fd bs ≡ total (uses fd p) bs
    count_fd_backs-total fd p [] = refl
    count_fd_backs-total fd p (b ∷ bs) = omega (arith, count_fd_backs-total fd p bs)

-- 1 for a back that the line names.
abbrev pub alike : Line → Weight
alike l p b = if str_eq p l.cpath && is_back l.stratum l.lpath b then 1 else 0

opens_of :
    (k : Calls) (s : Bytes) (o : Option ℕ) (fd : ℕ) → new_fd k s o ≡ some fd → k.opens s ≡ some fd
unfolding new_fd
opens_of k s (some x) fd h = absurd (no_some h)
opens_of k s none fd h = elim (Bool-cases (is_local_name s)) [
  | inl e ↦ absurd (no_some (rw e at h))
  | inr e ↦ rw e at h
]

pub not_zero : (n : ℕ) → ◌≢◌ {A = ℤ} (negsuc n) (pos 0)
not_zero n h = cc

total-ge {ℓ} :
    {A : Type ℓ} (f : A → ℕ) (xs : List A) (i : ℕ) (x : A)
    → get_elem? xs i ≡ some x
    → f x ≤ total f xs
total-ge f [] i x h = cc
total-ge f (y ∷ xs) zero x h = ground arith
total-ge f (y ∷ xs) (suc i) x h = omega (arith, total-ge f xs i x h)

-- Where the descriptor of a new back is from: it has none and is local, an older back has it, or
-- it was opened.
pub data Source (k : Calls) (l : Line) (c : Cfgs) (r : Reply) : Option ℕ → Type 0 where
  no_fd : is_local_name l.stratum ≡ true → r.opened ≡ none → Source k l c r none
  shared :
      (fd : ℕ) → 1 ≤ sum (uses (some fd)) c.entries → r.opened ≡ none → Source k l c r (some fd)
  fresh : (fd : ℕ) → k.opens l.stratum ≡ some fd → r.opened ≡ some fd → Source k l c r (some fd)

-- Why a back is not there yet: the entry of its path has none that is the same, or no entry has
-- its path.
pub data Absent (l : Line) (c : Cfgs) : Type 0 where
  in_entry :
      (i : ℕ) (e : CfgEntry)
      → get_elem? c.entries i ≡ some e
      → e.cpath ≡ l.cpath
      → find_index (is_back l.stratum l.lpath) e.back ≡ none
      → Absent l c
  no_entry : find_index (is_for l.cpath) c.entries ≡ none → Absent l c

-- The effect of adding a line: no back is added, and what was opened is closed; or one is.
pub data AddEffect (k : Calls) (l : Line) (c : Cfgs) (r : Reply) : Type 0 where
  kept :
      ((g : Weight) → sum g r.cfgs.entries ≡ sum g c.entries)
      → r.closed ≡ r.opened
      → ((fd : ℕ) → r.opened ≡ some fd → k.opens l.stratum ≡ some fd)
      → (r.rv ≢ pos 0) ⊎ (1 ≤ sum (alike l) c.entries)
      → AddEffect k l c r
  added :
      (b : BackEntry)
      → r.rv ≡ pos 0
      → b.name ≡ l.stratum
      → b.lpath ≡ l.lpath
      → b.local ≡ is_local_name l.stratum
      → ((g : Weight) → sum g r.cfgs.entries ≡ sum g c.entries + g l.cpath b)
      → Source k l c r b.root_fd
      → r.closed ≡ none
      → Absent l c
      → AddEffect k l c r

-- The entry at an index gets one more back.
sum-add_back :
    (g : Weight) (es : List CfgEntry) (i : ℕ) (e : CfgEntry) (b : BackEntry) (n : ℕ)
    → get_elem? es i ≡ some e
    → sum g (set es i (record e { back = e.back ++ (b ∷ []); back_alloc = n }))
      ≡ sum g es + g e.cpath b
sum-add_back g es i e b n h = omega (
  arith,
  total-set (entry_weight g) es i e (record e { back = e.back ++ (b ∷ []); back_alloc = n }) h,
  total-append (g e.cpath) e.back (b ∷ []),
)

abbrev new_back : Line → Option ℕ → BackEntry
new_back l root_fd = record {
  lpath = l.lpath;
  name = l.stratum;
  root_fd = root_fd;
  local = is_local_name l.stratum;
}

module _ (k : Calls) (l : Line) (size : ℕ) (i : ℕ) (e : CfgEntry) (c : Cfgs)
    (at : get_elem? c.entries i ≡ some e) (same : e.cpath ≡ l.cpath) where
  -- The ways in which `make_back` ends.
  pub make_back-cases :
      (reused : Option ℕ)
      → ((make_back k l size i e reused c).cfgs ≡ c)
          × ((make_back k l size i e reused c).closed ≡ (make_back k l size i e reused c).opened)
          × ((fd : ℕ)
              → (make_back k l size i e reused c).opened ≡ some fd
              → new_fd k l.stratum reused ≡ some fd)
          × ((make_back k l size i e reused c).rv ≢ pos 0)
        ⊎ ((make_back k l size i e reused c).rv ≡ pos 0)
          × ((make_back k l size i e reused c).closed ≡ none)
          × ((make_back k l size i e reused c).opened ≡ new_fd k l.stratum reused)
          × (not (is_local_name l.stratum) && is_none (either_fd reused (new_fd k l.stratum reused))
              ≡ false)
          × (n : ℕ) × ((make_back k l size i e reused c).cfgs.entries
              ≡ set c.entries i (record e {
                back = e.back ++ (new_back l (either_fd reused (new_fd k l.stratum reused)) ∷ []);
                back_alloc = n;
              }))
  unfolding make_back
  make_back-cases reused = elim (Bool-cases (not k.malloc_lpath || not k.malloc_stratum)) [
    | inl a ↦ inl (rw a (refl, refl, (λ fd h. absurd (no_some h)), not_zero 11))
    | inr a ↦
        elim (Bool-cases (
          not (is_local_name l.stratum)
          && is_none (either_fd reused (new_fd k l.stratum reused)))) [
            | inl b ↦ inl (rw (a, b) (refl, refl, (λ fd h. absurd (no_some h)), not_zero 11))
            | inr b ↦
                elim (Bool-cases (ltb e.back_alloc (length e.back + 1) && not k.realloc_back)) [
                  | inl d ↦ inl (rw (a, b, d) (refl, refl, (λ fd h. h), not_zero 11))
                  | inr d ↦ inr (rw (a, b, d) (refl, refl, refl, refl, _, refl))
                ]
          ]
  ]

  -- Where the descriptor of the new back is from.
  source_lem :
      (r : Reply) (reused : Option ℕ)
      → ((fd : ℕ) → reused ≡ some fd → 1 ≤ sum (uses (some fd)) c.entries)
      → r.opened ≡ new_fd k l.stratum reused
      → not (is_local_name l.stratum) && is_none (either_fd reused (new_fd k l.stratum reused))
        ≡ false
      → Source k l c r (either_fd reused (new_fd k l.stratum reused))
  unfolding new_fd
  source_lem r (some fd) found o n = shared fd (found fd refl) o
  source_lem r none found o n = elim (Bool-cases (is_local_name l.stratum)) [
    | inl loc ↦ rw loc (no_fd loc (rw loc at o))
    | inr loc ↦ elim (Option-cases (k.opens l.stratum)) [
      | inl none_left ↦ absurd (contra (rw (loc, none_left) at n))
      | inr (fd, op) ↦
          subst (Source k l c r) (sym (rw (loc, op) refl)) (fresh fd op (rw (loc, op) at o))
    ]
  ]

  make_back-AddEffect :
      Absent l c
      → (reused : Option ℕ) → ((fd : ℕ) → reused ≡ some fd → 1 ≤ sum (uses (some fd)) c.entries)
      → AddEffect k l c (make_back k l size i e reused c)
  make_back-AddEffect ab reused found = elim (make_back-cases reused) [
    | inl (e1, cl, op, bad) ↦
        kept (λ g. ap (λ (d : Cfgs). sum g d.entries) e1) cl
          (λ fd h. opens_of k l.stratum reused fd (op fd h)) (inl bad)
    | inr (rv, cl, op, n, m, es) ↦
        added (new_back l (either_fd reused (new_fd k l.stratum reused))) rv refl refl refl
          (λ g.
            ap (sum g) es
            ∙ sum-add_back g c.entries i e
                (new_back l (either_fd reused (new_fd k l.stratum reused))) m at
            ∙ ap
                (λ p.
                  sum g c.entries + g p (new_back l (either_fd reused (new_fd k l.stratum reused))))
                same)
          (source_lem _ reused found op n) cl ab
  ]

  -- A back that the search finds is one that the line names.
  found_alike :
      (j : ℕ) → find_index (is_back l.stratum l.lpath) e.back ≡ some j → 1 ≤ sum (alike l) c.entries
  found_alike j h =
      let (b, atb, ok) = find_index-eq-some (is_back l.stratum l.lpath) e.back j h in
      let here : alike l e.cpath b ≡ 1 = rw ((str_eq_iff e.cpath l.cpath).1 same, ok) refl in
      omega (
        arith,
        here,
        total-ge (alike l e.cpath) e.back j b atb,
        total-ge (entry_weight (alike l)) c.entries i e at,
      )

  add_back-AddEffect :
      (find_index (is_back l.stratum l.lpath) e.back ≡ none → Absent l c)
      → AddEffect k l c (add_back k l size i e c)
  unfolding add_back
  add_back-AddEffect ab = elim (Option-cases (find_index (is_back l.stratum l.lpath) e.back)) [
    | inl n ↦
        rw (n, add_back)
          (make_back-AddEffect (ab n) (fd_in_entries l.stratum none c.entries) (λ fd h.
            elim (fd_in_entries-uses l.stratum none c.entries fd h) [
              | inl a ↦ absurd (no_some a)
              | inr u ↦ u
            ]))
    | inr (j, h) ↦
        rw (h, add_back)
          (kept (λ g. refl) refl (λ fd h1. absurd (no_some h1)) (inr (found_alike j h)))
  ]

-- A configuration with the same sums, of which the same is missing.
AddEffect-move :
    (k : Calls) (l : Line) (c d : Cfgs) (r : Reply)
    → ((g : Weight) → sum g d.entries ≡ sum g c.entries)
    → Absent l c
    → AddEffect k l d r
    → AddEffect k l c r
AddEffect-move k l c d r eq ab (kept h cl op (inl bad)) = kept (λ g. h g ∙ eq g) cl op (inl bad)
AddEffect-move k l c d r eq ab (kept h cl op (inr u)) =
    kept (λ g. h g ∙ eq g) cl op (inr (rw (sym (eq (alike l))) u))
AddEffect-move k l c d r eq ab (added b rv n p loc h src cl _) =
    added b rv n p loc (λ g. h g ∙ ap (λ t. t + g l.cpath b) (eq g)) (Source-move src) cl ab
  where
    Source-move : {o : Option ℕ} → Source k l d r o → Source k l c r o
    Source-move (no_fd a b1) = no_fd a b1
    Source-move (shared fd u o) = shared fd (rw (sym (eq (uses (some fd)))) u) o
    Source-move (fresh fd a b1) = fresh fd a b1

pub get_elem?-end {ℓ} :
    {A : Type ℓ} (xs : List A) (x : A) → get_elem? (xs ++ (x ∷ [])) (length xs) ≡ some x
get_elem?-end [] x = refl
get_elem?-end (y ∷ xs) x = get_elem?-end xs x

-- A command that is refused.
unchanged : (k : Calls) (l : Line) (c : Cfgs) (n : ℕ) → 1 ≤ n → AddEffect k l c (answer (neg n) c)
unchanged k l c zero pos_n = absurd (omega arith)
unchanged k l c (suc n) pos_n =
    kept (λ g. refl) refl (λ fd h. absurd (no_some h)) (inl (not_zero n))

abbrev new_entry : Filter → Line → CfgEntry
new_entry f l = record { filter = f; cpath = l.cpath; back = []; back_alloc = 0 }

sum-new_entry :
    (g : Weight) (es : List CfgEntry) (f : Filter) (l : Line)
    → sum g (es ++ (new_entry f l ∷ [])) ≡ sum g es
sum-new_entry g es f l = omega (arith, total-append (entry_weight g) es (new_entry f l ∷ []))

add_entry-AddEffect :
    (k : Calls) (l : Line) (size : ℕ) (f : Filter) (c : Cfgs)
    → find_index (is_for l.cpath) c.entries ≡ none
    → AddEffect k l c (add_entry k l size f c)
unfolding add_entry
add_entry-AddEffect k l size f c n = elim (Bool-cases (not k.malloc_cpath)) [
  | inl a ↦ rw a (unchanged k l c enomem (omega arith))
  | inr a ↦ elim (Bool-cases (ltb c.cfg_alloc (length c.entries + 1) && not k.realloc_cfgs)) [
    | inl b ↦ rw (a, b) (unchanged k l c enomem (omega arith))
    | inr b ↦
        let e = new_entry f l in
        let m =
          if ltb c.cfg_alloc (length c.entries + 1) then length c.entries + 1 else c.cfg_alloc in
        let d : Cfgs = record c { entries = c.entries ++ (e ∷ []); cfg_alloc = m } in
        rw (a, b)
          (AddEffect-move k l c d _ (λ g. sum-new_entry g c.entries f l) (no_entry n)
            (add_back-AddEffect k l size (length c.entries) e d (get_elem?-end c.entries e) refl
              (λ h. in_entry (length c.entries) e (get_elem?-end c.entries e) refl h)))
  ]
]

-- A line that is added keeps every sum over the backs, or adds one back's weight to each.
pub add_line-AddEffect :
    (k : Calls) (l : Line) (size : ℕ) (c : Cfgs) → AddEffect k l c (add_line k l size c)
unfolding add_line extend_entry
add_line-AddEffect k l size c = elim (Bool-cases (is_sane (codes "add") l)) [
  | inr s ↦ rw s (unchanged k l c einval (omega arith))
  | inl s ↦ elim (Option-cases (filter_of l.filter)) [
    | inl f ↦ rw (s, f) (unchanged k l c einval (omega arith))
    | inr (f, e) ↦ elim (Option-cases (find_index (is_for l.cpath) c.entries)) [
      | inl n ↦ rw (s, e, n) (add_entry-AddEffect k l size f c n)
      | inr (i, h) ↦
          let (en, at, ok) = find_index-eq-some (is_for l.cpath) c.entries i h in
          let same = (str_eq_iff en.cpath l.cpath).0 ok in
          rw (s, e, h, at)
            (add_back-AddEffect k l size i en c at same (λ m. in_entry i en at same m))
    ]
  ]
]
