-- ===== src/Strat/Chroot/Climb.antt =====
-- `break_out_of_chroot` reaches the root of the tree.
use native.Mathlib.Decide.{ℕ_discrete}
use bedrocklinux_userland.Base.{
  ℕ, zero, suc, ◌-◌, ◌≤◌, ◌≡◌, ◌≢◌, ap, ◌∙◌, ◌>>=◌, Bool, true, false, ◌∷◌, none, some, arith,
  continue, ret,
}
use bedrocklinux_userland.CString.{Bytes, codes}
use bedrocklinux_userland.Strat.World.{
  Strat, chroot_failed, Os, World, History, Stat, chdir, chroot, lstat, failed, note_errno,
}
use bedrocklinux_userland.Strat.Chroot.{same_file, climb, break_out_of_chroot}

-- What the kernel says of `.` and `..`, from a working directory outside the process's root:
-- `depth` is how far it is below the root of the tree. Only at that root are the two the same.
pub record IsTree (os : Os) (depth : History → ℕ) : Type 0 where
  pub depth-up : (h : History) → depth (chdir (codes "..") ∷ h) ≡ depth h - 1
  pub depth-lstat : (p : Bytes) (h : History) → depth (lstat p ∷ h) ≡ depth h
  pub here : History → Stat
  pub parent : History → Stat
  pub lstat-here : (h : History) → os.lstat_of h (codes ".") ≡ some (here h)
  pub lstat-parent : (h : History) → os.lstat_of h (codes "..") ≡ some (parent h)
  pub same_at_root :
      (h : History) → depth h ≡ 0 → same_file (here h) (parent (lstat (codes ".") ∷ h)) ≡ true
  pub apart_below :
      (h : History) → depth h ≢ 0 → same_file (here h) (parent (lstat (codes ".") ∷ h)) ≡ false

abbrev round : History → History
round h = lstat (codes "..") ∷ lstat (codes ".") ∷ chdir (codes "..") ∷ h

module _ (os : Os) (depth : History → ℕ) (t : IsTree os depth) where
  abbrev above : History → History
  above h = chdir (codes "..") ∷ h

  abbrev stepped : World → World
  stepped w = record w {
    errno = note_errno (os.chdir_fails w.history (codes "..")) w.errno;
    history = round w.history;
  }

  climb_next :
      (f : ℕ) (c p : Stat) (w : World)
      → depth (above w.history) ≢ 0
      → climb os (suc f) c p w
        ≡ climb os f
            (t.here (above w.history))
            (t.parent (lstat (codes ".") ∷ above w.history))
            (stepped w)
  unfolding climb
  climb_next f c p w h = ground (
    arith,
    t.lstat-here (above w.history),
    t.lstat-parent (lstat (codes ".") ∷ above w.history),
    t.apart_below (above w.history) h,
  )

  climb_done :
      (f : ℕ) (c p : Stat) (w : World)
      → depth (above w.history) ≡ 0
      → climb os (suc f) c p w ≡ (ret tt, stepped w)
  unfolding climb
  climb_done f c p w h = ground (
    arith,
    t.lstat-here (above w.history),
    t.lstat-parent (lstat (codes ".") ∷ above w.history),
    t.same_at_root (above w.history) h,
  )

  depth-round : (h : History) → depth (round h) ≡ depth h - 1
  depth-round h =
      t.depth-lstat (codes "..") (lstat (codes ".") ∷ above h)
      ∙ t.depth-lstat (codes ".") (above h)
      ∙ t.depth-up h

  -- The loop ends at the root of the tree, if its fuel exceeds the depth.
  climb-root :
      (f : ℕ) (c p : Stat) (w : World)
      → depth w.history ≤ f
      → (w' : World) × (climb os (suc f) c p w ≡ (ret tt, w')) × (depth w'.history ≡ 0)
  climb-root zero c p w le =
      let up = t.depth-up w.history in
      (stepped w, climb_done zero c p w (omega arith), omega (arith, depth-round w.history))
  climb-root (suc f) c p w le = elim (ℕ_discrete (depth (above w.history)) 0) [
    | yes z ↦ (
      stepped w,
      climb_done (suc f) c p w z,
      omega (arith, depth-round w.history, t.depth-up w.history),
    )
    | no n ↦
        let c' : Stat = t.here (above w.history) in
        let p' : Stat = t.parent (lstat (codes ".") ∷ above w.history) in
        let (w', e, z) = climb-root f c' p' (stepped w) (omega (arith, depth-round w.history)) in
        (w', climb_next (suc f) c p w n ∙ e, z)
  ]

  abbrev outside_root : Bytes → World → World
  outside_root dir w = record w {
    errno =
        note_errno (os.chroot_fails (chdir (codes "/") ∷ w.history) dir)
          (note_errno (os.chdir_fails w.history (codes "/")) w.errno);
    history = chroot dir ∷ chdir (codes "/") ∷ w.history;
  }

  abbrev then_chroot : Unit {0} → Strat Bool
  then_chroot _ = chroot_failed os (codes ".")

  break_out_left :
      (f : ℕ) (dir : Bytes) (w : World)
      → os.chroot_fails (chdir (codes "/") ∷ w.history) dir ≡ none
      → break_out_of_chroot os f dir w
        ≡ (climb os f os.junk os.junk_too >>= then_chroot) (outside_root dir w)
  unfolding break_out_of_chroot
  break_out_left f dir w ok = rw ok

  -- Once the process has left its root, `break_out_of_chroot` climbs until it stands at the root
  -- of the tree, within a fuel above the depth, and there makes its one more call,
  -- `chroot(".")`, whose result it returns.
  pub break_out_of_chroot-root :
      (f : ℕ) (dir : Bytes) (w : World)
      → os.chroot_fails (chdir (codes "/") ∷ w.history) dir ≡ none
      → depth (chroot dir ∷ chdir (codes "/") ∷ w.history) ≤ f
      → (h : History) × (depth h ≡ 0)
        × ((break_out_of_chroot os (suc f) dir w).0 ≡ ret (failed (os.chroot_fails h (codes "."))))
        × ((break_out_of_chroot os (suc f) dir w).1.history ≡ chroot (codes ".") ∷ h)
  break_out_of_chroot-root f dir w ok le =
      let (w', e, z) = climb-root f os.junk os.junk_too (outside_root dir w) le in
      (
        w'.history,
        z,
        ap (λ r. r.0) (break_out_left (suc f) dir w ok)
            ∙ ap (λ r. (continue then_chroot r.0 r.1).0) e,
        ap (λ r. r.1.history) (break_out_left (suc f) dir w ok)
            ∙ ap (λ r. (continue then_chroot r.0 r.1).1.history) e,
      )
