-- ===== src/Crossfs/Commands/PathOnce.antt =====
-- `cfg_add` and `cfg_rm` of src/crossfs/crossfs.c keep each path to one entry.
use bedrocklinux_userland.Base.{
  ℕ, suc, ◌+◌, ◌-◌, ◌≤◌, ◌≡◌, inl, inr, refl, ap, ◌∙◌, not, ◌&&◌, List, [], ◌∷◌, ◌++◌, none, some,
  length, get_elem?, set, if◌then◌else◌, ◌==◌, arith, Option-cases, Bool-cases, length-set, ltb,
}
use bedrocklinux_userland.CString.{Bytes, codes, str_eq}
use bedrocklinux_userland.CString.Laws.{str_eq_iff}
use bedrocklinux_userland.Etcfs.Config.{find_index, swap_remove}
use bedrocklinux_userland.Etcfs.Arrays.{
  total, total-append, total-set, total-swap_remove, get_elem?-lt, find_index-eq-some,
  find_index-eq-none,
}
use bedrocklinux_userland.Crossfs.Config.{Filter, BackEntry, CfgEntry, Cfgs}
use bedrocklinux_userland.Crossfs.Commands.{
  Calls, Line, is_back, is_for, is_sane, filter_of, add_back, add_entry, extend_entry,
  fd_in_entries, without_back, drop_back, remove_back, add_line, rm_line,
}
use bedrocklinux_userland.Crossfs.Commands.Effect.{get_elem?-end, make_back-cases}
use bedrocklinux_userland.Crossfs.Commands.Removal.{get_elem?-set}

-- How many entries have a path.
abbrev pub paths : Bytes → List CfgEntry → ℕ
paths p es = total (λ e. if str_eq e.cpath p then 1 else 0) es

-- A change of the entry at an index that keeps its path.
paths-set :
    (p : Bytes) (es : List CfgEntry) (i : ℕ) (e e' : CfgEntry)
    → get_elem? es i ≡ some e
    → e'.cpath ≡ e.cpath
    → paths p (set es i e') ≡ paths p es
paths-set p es i e e' at q =
    let total_lem = total-set (λ (x : CfgEntry). if str_eq x.cpath p then 1 else 0) es i e e' at in
    let same_hit : ◌≡◌ {A = ℕ} (if str_eq e'.cpath p then 1 else 0)
        (if str_eq e.cpath p then 1 else 0) =
      rw q refl in
    omega (arith, total_lem, same_hit)

module _ (k : Calls) (l : Line) (size : ℕ) where
  paths-add_back :
      (i : ℕ) (e : CfgEntry) (c : Cfgs) (p : Bytes)
      → get_elem? c.entries i ≡ some e
      → e.cpath ≡ l.cpath
      → paths p (add_back k l size i e c).cfgs.entries ≡ paths p c.entries
  unfolding add_back
  paths-add_back i e c p at q =
      elim (Option-cases (find_index (is_back l.stratum l.lpath) e.back)) [
        | inr (j, h) ↦ rw (h, add_back) refl
        | inl h ↦
            rw (h, add_back)
              (elim (make_back-cases k l size i e c at q (fd_in_entries l.stratum none c.entries)) [
                | inl (u, _, _, _) ↦ ap (λ (d : Cfgs). paths p d.entries) u
                | inr (_, _, _, _, n, es) ↦ ap (paths p) es ∙ paths-set p c.entries i e _ at refl
              ])
      ]

  add_entry_path_once :
      (f : Filter) (c : Cfgs)
      → ((p : Bytes) → paths p c.entries ≤ 1)
      → find_index (is_for l.cpath) c.entries ≡ none
      → (p : Bytes) → paths p (add_entry k l size f c).cfgs.entries ≤ 1
  unfolding add_entry
  add_entry_path_once f c v n p = elim (Bool-cases (not k.malloc_cpath)) [
    | inl a ↦ rw a (v p)
    | inr a ↦ elim (Bool-cases (ltb c.cfg_alloc (length c.entries + 1) && not k.realloc_cfgs)) [
      | inl b ↦ rw (a, b) (v p)
      | inr b ↦
          let e : CfgEntry = record { filter = f; cpath = l.cpath; back = []; back_alloc = 0 } in
          let m =
            if ltb c.cfg_alloc (length c.entries + 1) then length c.entries + 1 else c.cfg_alloc in
          let d : Cfgs = record c { entries = c.entries ++ (e ∷ []); cfg_alloc = m } in
          let longer =
            total-append (λ (x : CfgEntry). if str_eq x.cpath p then 1 else 0) c.entries (e ∷ []) in
          rw (a, b)
            (rw (paths-add_back (length c.entries) e d p (get_elem?-end c.entries e) refl)
              (elim (Bool-cases (str_eq l.cpath p)) [
                | inl t ↦
                    let new : paths p c.entries ≡ 0 =
                      rw (← (str_eq_iff l.cpath p).0 t)
                        (find_index-eq-none (is_for l.cpath) c.entries n) in
                    grind (arith, longer, new)
                | inr t ↦ grind (arith, longer, v p)
              ]))
    ]
  ]

  pub add_line_path_once :
      (c : Cfgs)
      → ((p : Bytes) → paths p c.entries ≤ 1)
      → (p : Bytes) → paths p (add_line k l size c).cfgs.entries ≤ 1
  unfolding add_line extend_entry
  add_line_path_once c v p = elim (Bool-cases (is_sane (codes "add") l)) [
    | inr s ↦ rw s (v p)
    | inl s ↦ elim (Option-cases (filter_of l.filter)) [
      | inl f ↦ rw (s, f) (v p)
      | inr (f, e) ↦ elim (Option-cases (find_index (is_for l.cpath) c.entries)) [
        | inl n ↦ rw (s, e, n) (add_entry_path_once f c v n p)
        | inr (i, h) ↦
            let (en, at, ok) = find_index-eq-some (is_for l.cpath) c.entries i h in
            rw (s, e, h, at)
              (rw (paths-add_back i en c p at ((str_eq_iff en.cpath l.cpath).0 ok)) (v p))
      ]
    ]
  ]

module _ (l : Line) (size i : ℕ) (e : CfgEntry) (c : Cfgs)
    (at : get_elem? c.entries i ≡ some e) where
  paths-drop_back :
      (j : ℕ) (b : BackEntry) (p : Bytes)
      → paths p (drop_back size i e j b c).cfgs.entries ≤ paths p c.entries
  unfolding drop_back
  paths-drop_back j b p =
      let es = set c.entries i (without_back j e) in
      let kept_paths = paths-set p c.entries i e (without_back j e) at refl in
      let n : length es ≡ suc (length es - 1) =
        omega (arith, get_elem?-lt c.entries i e at, length-set c.entries i (without_back j e)) in
      elim (Bool-cases (length (swap_remove j e.back) == 0)) [
        | inl z ↦ rw z (
            omega (
              arith,
              kept_paths,
              total-swap_remove es (length es - 1) i n
                  (λ (x : CfgEntry). if str_eq x.cpath p then 1 else 0) (without_back j e)
                  (get_elem?-set c.entries i e (without_back j e) at),
            ))
        | inr z ↦ rw z (omega (arith, kept_paths))
      ]

  paths-remove_back :
      (p : Bytes) → paths p (remove_back l size i e c).cfgs.entries ≤ paths p c.entries
  unfolding remove_back
  paths-remove_back p = elim (Option-cases (find_index (is_back l.stratum l.lpath) e.back)) [
    | inl n ↦ rw (n, remove_back) (omega arith)
    | inr (j, h) ↦
        let (b, at1, ok) = find_index-eq-some (is_back l.stratum l.lpath) e.back j h in
        rw (h, at1, remove_back) (paths-drop_back j b p)
  ]

pub rm_line_path_once :
    (l : Line) (size : ℕ) (c : Cfgs)
    → ((p : Bytes) → paths p c.entries ≤ 1)
    → (p : Bytes) → paths p (rm_line l size c).cfgs.entries ≤ 1
unfolding rm_line
rm_line_path_once l size c v p = elim (Bool-cases (is_sane (codes "rm") l)) [
  | inr s ↦ rw s (v p)
  | inl s ↦ elim (Option-cases (find_index (is_for l.cpath) c.entries)) [
    | inl n ↦ rw (s, n) (v p)
    | inr (i, h) ↦
        let (en, at, ok) = find_index-eq-some (is_for l.cpath) c.entries i h in
        rw (s, h, at) (omega (arith, paths-remove_back l size i en c at p, v p))
  ]
]
