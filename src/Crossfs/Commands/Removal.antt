-- ===== src/Crossfs/Commands/Removal.antt =====
-- What `cfg_rm` does to any sum over the backs of the configuration.
use bedrocklinux_userland.Base.{
  ℕ, zero, suc, ◌+◌, ◌-◌, ◌≡◌, ◌≢◌, ◌⊎◌, inl, inr, refl, sym, ◌∙◌, Bool, true, not, ◌&&◌, List, [],
  ◌∷◌, none, some, length, get_elem?, set, ◌==◌, arith, length-set, Option-cases, Bool-cases, pos,
  ==_iff,
}
use bedrocklinux_userland.CString.{codes, str_eq}
use bedrocklinux_userland.CString.Laws.{str_eq_iff}
use bedrocklinux_userland.Etcfs.Config.{find_index, swap_remove}
use bedrocklinux_userland.Etcfs.Arrays.{
  total, total-set, total-swap_remove, get_elem?-lt, find_index-eq-some,
}
use bedrocklinux_userland.Crossfs.Config.{BackEntry, CfgEntry, Cfgs}
use bedrocklinux_userland.Crossfs.Commands.{
  Reply, Line, is_sane, is_for, is_back, without_back, drop_back, remove_back, rm_line, count_fd,
}
use bedrocklinux_userland.Crossfs.Commands.Effect.{
  Weight, entry_weight, sum, uses, not_zero, count_fd-sum,
}

and_left : (a b : Bool) → a && b ≡ true → a ≡ true
and_left a b h = ground arith

and_right : (a b : Bool) → a && b ≡ true → b ≡ true
and_right a b h = ground arith

total-nil {ℓ} : {A : Type ℓ} (f : A → ℕ) (xs : List A) → length xs ≡ 0 → total f xs ≡ 0
total-nil f [] h = refl
total-nil f (x ∷ xs) h = absurd (omega arith)

pub get_elem?-set {ℓ} :
    {A : Type ℓ} (xs : List A) (i : ℕ) (x v : A)
    → get_elem? xs i ≡ some x
    → get_elem? (set xs i v) i ≡ some v
get_elem?-set [] i x v h = cc
get_elem?-set (y ∷ xs) zero x v h = refl
get_elem?-set (y ∷ xs) (suc i) x v h = get_elem?-set xs i x v h

-- The effect of removing a line: nothing changes, or a back goes, and its descriptor is closed
-- where no other back has it.
pub data RmEffect (l : Line) (c : Cfgs) (r : Reply) : Type 0 where
  same : r.cfgs ≡ c → r.closed ≡ none → r.opened ≡ none → r.rv ≢ pos 0 → RmEffect l c r
  removed :
      (b : BackEntry)
      → r.rv ≡ pos 0
      → b.name ≡ l.stratum
      → b.lpath ≡ l.lpath
      → ((g : Weight) → sum g r.cfgs.entries + g l.cpath b ≡ sum g c.entries)
      → (r.closed ≡ none) ⊎ ((r.closed ≡ b.root_fd) × (sum (uses b.root_fd) c.entries ≡ 1))
      → r.opened ≡ none
      → RmEffect l c r

module _ (l : Line) (size i : ℕ) (e : CfgEntry) (c : Cfgs) (at : get_elem? c.entries i ≡ some e)
    (path : e.cpath ≡ l.cpath) where
  -- Without one of its backs, the entry weighs less by the weight of that back.
  sum-without_back :
      (g : Weight) (j : ℕ) (b : BackEntry)
      → get_elem? e.back j ≡ some b
      → sum g (set c.entries i (without_back j e)) + g l.cpath b ≡ sum g c.entries
  sum-without_back g j b h =
      let n : length e.back ≡ suc (length e.back - 1) = omega (arith, get_elem?-lt e.back j b h) in
      rw (← path) (
        omega (
          arith,
          total-set (entry_weight g) c.entries i e (without_back j e) at,
          total-swap_remove e.back (length e.back - 1) j n (g e.cpath) b h,
        ))

  -- An entry that is left without backs weighs nothing, and can go.
  sum-without_entry :
      (g : Weight) (j : ℕ)
      → length (swap_remove j e.back) ≡ 0
      → sum g (swap_remove i (set c.entries i (without_back j e)))
        ≡ sum g (set c.entries i (without_back j e))
  sum-without_entry g j h =
      let es = set c.entries i (without_back j e) in
      let n : length es ≡ suc (length es - 1) =
        omega (arith, get_elem?-lt c.entries i e at, length-set c.entries i (without_back j e)) in
      omega (
        arith,
        total-swap_remove es (length es - 1) i n (entry_weight g) (without_back j e)
            (get_elem?-set c.entries i e (without_back j e) at),
        total-nil (g e.cpath) (swap_remove j e.back) h,
      )

  -- The entries that `drop_back` leaves.
  sum-dropped :
      (g : Weight) (size' j : ℕ) (b : BackEntry)
      → get_elem? e.back j ≡ some b
      → sum g (drop_back size' i e j b c).cfgs.entries + g l.cpath b ≡ sum g c.entries
  unfolding drop_back
  sum-dropped g size' j b h = elim (Bool-cases (length (swap_remove j e.back) == 0)) [
    | inl z ↦ rw z (
        omega (
          arith,
          sum-without_back g j b h,
          sum-without_entry g j ((==_iff (length (swap_remove j e.back)) 0).0 z),
        ))
    | inr z ↦ rw z (sum-without_back g j b h)
  ]

  closed-dropped :
      (size' j : ℕ) (b : BackEntry)
      → ((drop_back size' i e j b c).closed ≡ none)
        ⊎ (((drop_back size' i e j b c).closed ≡ b.root_fd) × (sum (uses b.root_fd) c.entries ≡ 1))
  unfolding drop_back
  closed-dropped size' j b = elim (Bool-cases (not b.local && count_fd b.root_fd c.entries == 1)) [
    | inr z ↦ inl (rw z refl)
    | inl z ↦ inr (
      rw z refl,
      sym (count_fd-sum b.root_fd c.entries)
          ∙ (==_iff (count_fd b.root_fd c.entries) 1).0 (and_right (not b.local) _ z),
    )
  ]

  dropped_rv : (j : ℕ) (b : BackEntry) → (drop_back size i e j b c).rv ≡ pos 0
  unfolding drop_back
  dropped_rv j b = refl

  dropped_opened : (j : ℕ) (b : BackEntry) → (drop_back size i e j b c).opened ≡ none
  unfolding drop_back
  dropped_opened j b = refl

  drop_back-RmEffect :
      (j : ℕ) (b : BackEntry)
      → get_elem? e.back j ≡ some b
      → is_back l.stratum l.lpath b ≡ true
      → RmEffect l c (drop_back size i e j b c)
  drop_back-RmEffect j b h ok =
      removed b (dropped_rv j b) ((str_eq_iff b.name l.stratum).0 (and_left _ _ ok))
        ((str_eq_iff b.lpath l.lpath).0 (and_right (str_eq b.name l.stratum) _ ok))
        (λ g. sum-dropped g size j b h) (closed-dropped size j b) (dropped_opened j b)

  remove_back-RmEffect : RmEffect l c (remove_back l size i e c)
  unfolding remove_back
  remove_back-RmEffect = elim (Option-cases (find_index (is_back l.stratum l.lpath) e.back)) [
    | inl n ↦ rw (n, remove_back) (same refl refl refl (not_zero 21))
    | inr (j, h) ↦
        let (b, at1, ok) = find_index-eq-some (is_back l.stratum l.lpath) e.back j h in
        rw (h, at1, remove_back) (drop_back-RmEffect j b at1 ok)
  ]

-- A line that is removed keeps the configuration, or takes one back's weight from every sum.
pub rm_line-RmEffect : (l : Line) (size : ℕ) (c : Cfgs) → RmEffect l c (rm_line l size c)
unfolding rm_line
rm_line-RmEffect l size c = elim (Bool-cases (is_sane (codes "rm") l)) [
  | inr s ↦ rw s (same refl refl refl (not_zero 21))
  | inl s ↦ elim (Option-cases (find_index (is_for l.cpath) c.entries)) [
    | inl n ↦ rw (s, n) (same refl refl refl (not_zero 21))
    | inr (i, h) ↦
        let (en, at, ok) = find_index-eq-some (is_for l.cpath) c.entries i h in
        rw (s, h, at) (remove_back-RmEffect l size i en c at ((str_eq_iff en.cpath l.cpath).0 ok))
  ]
]
