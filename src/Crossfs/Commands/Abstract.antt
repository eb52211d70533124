-- ===== src/Crossfs/Commands/Abstract.antt =====
-- `cfg_add` and `cfg_rm` of src/crossfs/crossfs.c as operations on a set of (path, stratum, local
-- path), whatever their order in the arrays.
use mathlib.Core.Option.{some-injective}
use bedrocklinux_userland.Base.{
  ℕ, zero, suc, ◌≤◌, ◌≡◌, ◌⊎◌, ◌↔◌, inl, inr, refl, sym, ap, ◌∙◌, true, false, ◌&&◌, List, [], ◌∷◌,
  some, get_elem?, if◌then◌else◌, arith, Bool-cases, pos,
}
use bedrocklinux_userland.CString.{Bytes, str_eq}
use bedrocklinux_userland.CString.Laws.{str_eq_iff}
use bedrocklinux_userland.Etcfs.Arrays.{total, find_index-eq-none}
use bedrocklinux_userland.Crossfs.Config.{BackEntry, CfgEntry, Cfgs}
use bedrocklinux_userland.Crossfs.Commands.{Calls, Reply, Line, is_back, is_for, add_line, rm_line}
use bedrocklinux_userland.Crossfs.Commands.Effect.{
  sum, entry_weight, alike, Absent, in_entry, no_entry, AddEffect, kept, added, add_line-AddEffect,
}
use bedrocklinux_userland.Crossfs.Commands.Removal.{RmEffect, same, removed, rm_line-RmEffect}
use bedrocklinux_userland.Crossfs.Commands.PathOnce.{paths, add_line_path_once, rm_line_path_once}

-- No path has two entries, and no entry two backs that are the same.
pub record IsProper (c : Cfgs) : Type 0 where
  pub path_once : (p : Bytes) → paths p c.entries ≤ 1
  pub back_once : (l : Line) → sum (alike l) c.entries ≤ 1

-- The configuration has the back that a line names.
abbrev pub Holds : Cfgs → Line → Type 0
Holds c l = 1 ≤ sum (alike l) c.entries

-- Two lines name one back.
abbrev pub Names : Line → Line → Type 0
Names l m = (l.cpath ≡ m.cpath) × (l.stratum ≡ m.stratum) × (l.lpath ≡ m.lpath)

-- Two lines that name one back have one weight.
Holds-Names : (l m : Line) (c : Cfgs) → Names m l → Holds c l → Holds c m
Holds-Names l m c (a, s, d) h = rw (a, s, d) h

contra : true ≡ false → ⊥
contra h = cc

-- The weight of a line's back is 1 exactly where another line names it too.
alike-cases :
    (l m : Line) (b : BackEntry)
    → b.name ≡ l.stratum
    → b.lpath ≡ l.lpath
    → (Names m l × (alike m l.cpath b ≡ 1)) ⊎ ((Names m l → ⊥) × (alike m l.cpath b ≡ 0))
alike-cases l m b n p = elim (Bool-cases (str_eq l.cpath m.cpath && is_back m.stratum m.lpath b)) [
  | inl t ↦ inl (
    (
      sym ((str_eq_iff l.cpath m.cpath).0 (ground arith)),
      sym ((str_eq_iff b.name m.stratum).0 (ground arith)) ∙ n,
      sym ((str_eq_iff b.lpath m.lpath).0 (ground arith)) ∙ p,
    ),
    rw t refl,
  )
  | inr f ↦
      inr (λ (a, s, d). contra (sym (all_same (sym a) (n ∙ sym s) (p ∙ sym d)) ∙ f), rw f refl)
]
  where
    all_same :
        l.cpath ≡ m.cpath
        → b.name ≡ m.stratum
        → b.lpath ≡ m.lpath
        → (str_eq l.cpath m.cpath && is_back m.stratum m.lpath b) ≡ true
    all_same a s d =
        rw
          (
            (str_eq_iff l.cpath m.cpath).1 a,
            (str_eq_iff b.name m.stratum).1 s,
            (str_eq_iff b.lpath m.lpath).1 d,
          )
          refl

-- The backs of an entry with another path do not count.
weight-other :
    (l : Line) (p : Bytes) (bs : List BackEntry)
    → str_eq p l.cpath ≡ false
    → total (alike l p) bs ≡ 0
weight-other l p [] h = refl
weight-other l p (b ∷ bs) h =
    let here : alike l p b ≡ 0 = rw h refl in omega (arith, here, weight-other l p bs h)

weight-own :
    (l : Line) (p : Bytes) (bs : List BackEntry)
    → p ≡ l.cpath
    → total (alike l p) bs ≡ total (λ b. if is_back l.stratum l.lpath b then 1 else 0) bs
weight-own l p [] h = refl
weight-own l p (b ∷ bs) h =
    let here : alike l p b ≡ (if is_back l.stratum l.lpath b then 1 else 0) =
      rw ((str_eq_iff p l.cpath).1 h) refl in
    omega (arith, here, weight-own l p bs h)

-- Where no entry has the path, no back counts.
sum-other : (l : Line) (es : List CfgEntry) → paths l.cpath es ≡ 0 → sum (alike l) es ≡ 0
sum-other l [] h = refl
sum-other l (e ∷ es) h = elim (Bool-cases (str_eq e.cpath l.cpath)) [
  | inl t ↦ absurd (ground arith)
  | inr f ↦ omega (arith, weight-other l e.cpath e.back f, sum-other l es (ground arith))
]

paths-pos :
    (p : Bytes) (es : List CfgEntry) (i : ℕ) (e : CfgEntry)
    → get_elem? es i ≡ some e
    → e.cpath ≡ p
    → 1 ≤ paths p es
paths-pos p [] i e h q = cc
paths-pos p (x ∷ es) zero e h q =
    let own : str_eq x.cpath p ≡ true =
      (str_eq_iff x.cpath p).1 (ap (λ (y : CfgEntry). y.cpath) (some-injective x e h) ∙ q) in
    ground arith
paths-pos p (x ∷ es) (suc i) e h q = omega (arith, paths-pos p es i e h q)

-- Where one entry has the path, only its backs count.
sum-own :
    (l : Line) (es : List CfgEntry) (i : ℕ) (e : CfgEntry)
    → get_elem? es i ≡ some e
    → e.cpath ≡ l.cpath
    → paths l.cpath es ≤ 1
    → total (alike l e.cpath) e.back ≡ 0
    → sum (alike l) es ≡ 0
sum-own l [] i e h q u z = cc
sum-own l (x ∷ es) zero e h q u z =
    let at = some-injective x e h in
    let own : str_eq x.cpath l.cpath ≡ true =
      (str_eq_iff x.cpath l.cpath).1 (ap (λ (y : CfgEntry). y.cpath) at ∙ q) in
    let first : entry_weight (alike l) x ≡ 0 = ap (entry_weight (alike l)) at ∙ z in
    omega (arith, first, sum-other l es (ground arith))
sum-own l (x ∷ es) (suc i) e h q u z = elim (Bool-cases (str_eq x.cpath l.cpath)) [
  | inl t ↦ let there = paths-pos l.cpath es i e h q in absurd (ground arith)
  | inr f ↦ omega (arith, weight-other l x.cpath x.back f, sum-own l es i e h q (ground arith) z)
]

-- A back that is absent is not in the configuration.
absent_lem :
    (l : Line) (c : Cfgs)
    → ((p : Bytes) → paths p c.entries ≤ 1)
    → Absent l c
    → sum (alike l) c.entries ≡ 0
absent_lem l c v (no_entry n) =
    sum-other l c.entries (find_index-eq-none (is_for l.cpath) c.entries n)
absent_lem l c v (in_entry i e at path n) =
    sum-own l c.entries i e at path (v l.cpath)
      (weight-own l e.cpath e.back path ∙ find_index-eq-none (is_back l.stratum l.lpath) e.back n)

-- What a line that is added with success does to the set.
add-Holds :
    (k : Calls) (l : Line) (c : Cfgs) (r : Reply)
    → IsProper c
    → AddEffect k l c r
    → r.rv ≡ pos 0
    → (m : Line) → Holds r.cfgs m ↔ (Holds c m ⊎ Names m l)
add-Holds k l c r v (kept eq cl op (inl bad)) rv m = absurd (bad rv)
add-Holds k l c r v (kept eq cl op (inr u)) rv m = (
  λ h. inl (rw (← eq (alike m)) h),
  λ h. elim h [ inl o ↦ rw (eq (alike m)) o | inr n ↦ rw (eq (alike m)) (Holds-Names l m c n u) ],
)
add-Holds k l c r v (added b ok n p loc eq src cl ab) rv m = elim (alike-cases l m b n p) [
  | inl (names, w) ↦ (λ h. inr names, λ h. omega (arith, eq (alike m), w))
  | inr (other, w) ↦ (
    λ h. inl (omega (arith, eq (alike m), w)),
    λ h. elim h [ inl o ↦ omega (arith, eq (alike m), w, o) | inr names ↦ absurd (other names) ],
  )
]

-- Adding a line keeps each back from being there twice.
add_back_once :
    (k : Calls) (l : Line) (c : Cfgs) (r : Reply)
    → IsProper c
    → AddEffect k l c r
    → (m : Line) → sum (alike m) r.cfgs.entries ≤ 1
add_back_once k l c r v (kept eq cl op why) m = omega (arith, eq (alike m), v.back_once m)
add_back_once k l c r v (added b ok n p loc eq src cl ab) m = elim (alike-cases l m b n p) [
  | inl (names, w) ↦
      let (a, s, d) = names in
      let none_yet : sum (alike m) c.entries ≡ 0 = rw (a, s, d) (absent_lem l c v.path_once ab) in
      omega (arith, eq (alike m), w, none_yet)
  | inr (other, w) ↦ omega (arith, eq (alike m), w, v.back_once m)
]

-- What a line that is removed with success does to the set.
rm-Holds :
    (l : Line) (c : Cfgs) (r : Reply)
    → IsProper c
    → RmEffect l c r
    → r.rv ≡ pos 0
    → (m : Line) → Holds r.cfgs m ↔ (Holds c m × (Names m l → ⊥))
rm-Holds l c r v (same e cl o bad) rv m = absurd (bad rv)
rm-Holds l c r v (removed b ok n p eq cl o) rv m = elim (alike-cases l m b n p) [
  | inl (names, w) ↦ (
    λ h. absurd (omega (arith, eq (alike m), w, v.back_once m, h)),
    λ (h, other). absurd (other names),
  )
  | inr (other, w) ↦ (
    λ h. (omega (arith, eq (alike m), w, h), other),
    λ (h, other'). omega (arith, eq (alike m), w, h),
  )
]

rm_back_once :
    (l : Line) (c : Cfgs) (r : Reply)
    → IsProper c
    → RmEffect l c r
    → (m : Line) → sum (alike m) r.cfgs.entries ≤ 1
rm_back_once l c r v (same e cl o bad) m = rw e (v.back_once m)
rm_back_once l c r v (removed b ok n p eq cl o) m = omega (arith, eq (alike m), v.back_once m)

-- Adding a line, as an operation on the set of backs, which an order of the arrays does not affect:
-- in a configuration in which no path has two entries and no entry one back twice, an `add` that
-- returns 0 leaves a configuration of that kind that has the backs it had and the one of the line,
-- and no other.
pub add_line-refines :
    (k : Calls) (l : Line) (size : ℕ) (c : Cfgs)
    → IsProper c
    → (add_line k l size c).rv ≡ pos 0
    → IsProper (add_line k l size c).cfgs
      × ((m : Line) → Holds (add_line k l size c).cfgs m ↔ (Holds c m ⊎ Names m l))
add_line-refines k l size c v rv = (
  record {
    path_once = add_line_path_once k l size c v.path_once;
    back_once = add_back_once k l c _ v (add_line-AddEffect k l size c);
  },
  add-Holds k l c _ v (add_line-AddEffect k l size c) rv,
)

-- Removing a line, as an operation on that set: in such a configuration an `rm` that returns 0
-- leaves a configuration of that kind that has the backs it had but the one of the line.
pub rm_line-refines :
    (l : Line) (size : ℕ) (c : Cfgs)
    → IsProper c
    → (rm_line l size c).rv ≡ pos 0
    → IsProper (rm_line l size c).cfgs
      × ((m : Line) → Holds (rm_line l size c).cfgs m ↔ (Holds c m × (Names m l → ⊥)))
rm_line-refines l size c v rv = (
  record {
    path_once = rm_line_path_once l size c v.path_once;
    back_once = rm_back_once l c _ v (rm_line-RmEffect l size c);
  },
  rm-Holds l c _ v (rm_line-RmEffect l size c) rv,
)
