-- ===== src/Crossfs/Roots/Reuse.antt =====
-- Where the calls of src/crossfs/crossfs.c at a stratum's root are made.
use bedrocklinux_userland.Base.{
  ℕ, Bool, true, false, some, ◌==◌, ◌≡◌, ◌≢◌, refl, sym, ap, ◌∙◌, Bool-cases, inl, inr, ==_iff,
}
use bedrocklinux_userland.Crossfs.Roots.{
  Process, enter_root, fchroot, open_fd, close_fd, local_request,
}

same_true : (a b : ℕ) → a ≡ b → (a == b) ≡ true
same_true a b h = (==_iff a b).1 h

same_false : (a b : ℕ) → a ≢ b → (a == b) ≡ false
same_false a b h = elim (Bool-cases (a == b)) [ inl t ↦ absurd (h ((==_iff a b).0 t)) | inr f ↦ f ]

contra : true ≡ false → ⊥
contra h = cc

not_same : (a b : ℕ) → (a == b) ≡ false → a ≢ b
not_same a b f e = contra (sym (same_true a b e) ∙ f)

opened : (fd d : ℕ) (p : Process) → (open_fd fd d p).table fd ≡ some d
unfolding open_fd
opened fd d p = rw (same_true fd fd refl) refl

kept_current :
    (fd d : ℕ) (p : Process) → p.current_root_fd ≢ fd → (open_fd fd d p).current_root_fd ≢ fd
unfolding open_fd
kept_current fd d p n = n

abbrev after_first : ℕ → ℕ → ℕ → Process → Process
after_first fd d1 d2 p =
    open_fd fd d2 (close_fd fd (record (open_fd fd d1 p) { root = d1; current_root_fd = fd }))

current_lem : (fd d1 d2 : ℕ) (p : Process) → (after_first fd d1 d2 p).current_root_fd ≡ fd
unfolding open_fd close_fd
current_lem fd d1 d2 p = refl

root_lem : (fd d1 d2 : ℕ) (p : Process) → (after_first fd d1 d2 p).root ≡ d1
unfolding open_fd close_fd
root_lem fd d1 d2 p = refl

module _ {ℓ} {A : Type ℓ} (may_chroot : ℕ → Bool) (run : ℕ → A) (fail_rv : A) where
  enter-same : (fd : ℕ) (p : Process) → p.current_root_fd ≡ fd → enter_root may_chroot fd p ≡ some p
  unfolding enter_root
  enter-same fd p h = rw (same_true p.current_root_fd fd h) refl

  enter-other :
      (fd d : ℕ) (p : Process)
      → p.current_root_fd ≢ fd
      → p.table fd ≡ some d
      → may_chroot d ≡ true
      → enter_root may_chroot fd p ≡ some (record p { root = d; current_root_fd = fd })
  unfolding enter_root
  enter-other fd d p n h ok = rw (same_false p.current_root_fd fd n, h, ok) refl

  fchroot-enter :
      (fd : ℕ) (p q : Process)
      → enter_root may_chroot fd p ≡ some q
      → fchroot may_chroot run fail_rv fd p ≡ (run q.root, q)
  unfolding fchroot
  fchroot-enter fd p q h = rw (h, fchroot) refl

  local_request-enter :
      (fd d : ℕ) (p q : Process)
      → enter_root may_chroot fd (open_fd fd d p) ≡ some q
      → local_request may_chroot run fail_rv fd d p ≡ (run q.root, close_fd fd q)
  unfolding local_request
  local_request-enter fd d p q h =
      ap (λ (r : A × Process). (r.0, close_fd fd r.1)) (fchroot-enter fd (open_fd fd d p) q h)

  -- Without openat2: where two requests in a row get the same descriptor, which is not
  -- `current_root_fd` before, and chroot to the stratum of the first succeeds, the call of the
  -- second is made in the stratum of the first, whichever is its own.
  pub local_request-stale :
      (fd d1 d2 : ℕ) (p : Process)
      → p.current_root_fd ≢ fd
      → may_chroot d1 ≡ true
      → (local_request may_chroot run fail_rv fd d2
          (local_request may_chroot run fail_rv fd d1 p).1).0
        ≡ run d1
  local_request-stale fd d1 d2 p n ok =
      let q : Process = record (open_fd fd d1 p) { root = d1; current_root_fd = fd } in
      let first =
        local_request-enter fd d1 p q
          (enter-other fd d1 (open_fd fd d1 p) (kept_current fd d1 p n) (opened fd d1 p) ok) in
      let second =
        local_request-enter fd d2 (close_fd fd q) (open_fd fd d2 (close_fd fd q))
          (enter-same fd (open_fd fd d2 (close_fd fd q)) (current_lem fd d1 d2 p)) in
      ap (λ (r : A × Process). (local_request may_chroot run fail_rv fd d2 r.1).0) first
      ∙ (ap (λ (r : A × Process). r.0) second ∙ ap run (root_lem fd d1 d2 p))
