-- ===== src/Etcfs/Own/Guarded.antt =====
-- Who reads and writes the configuration of src/etcfs/etcfs.c by way of its file.
use mathlib.Core.Option.{some-injective}
use bedrocklinux_userland.Base.{
  ℕ, ◌≤◌, ◌≡◌, ◌≢◌, inl, inr, refl, sym, ap, ap₂, ◌∙◌, subst, Bool, true, false, [], ◌∷◌, Option,
  none, some, length, ◌==◌, neg, is_neg, Bool-cases, ℤ, ==_iff,
}
use bedrocklinux_userland.CString.{Bytes, str_eq}
use bedrocklinux_userland.CString.Laws.{str_eq_iff, str_eq_refl}
use bedrocklinux_userland.Etcfs.Config.{get_ref_fd}
use bedrocklinux_userland.Etcfs.Printed.{Reading, copied, out_of_buffer}
use bedrocklinux_userland.Etcfs.Invariant.{IsValid}
use bedrocklinux_userland.Etcfs.Serve.{eacces, read_config, write_config, write_config-IsValid}
use bedrocklinux_userland.Etcfs.Caller.Adoption.{groups_found}
use bedrocklinux_userland.Etcfs.Handlers.{
  cfg_name, Server, Kernel, Setup, refused, faulted, ready, rpath_of, fs_imp_setup, Served,
}
use bedrocklinux_userland.Etcfs.Handlers.Passed.{adopted, SetupEnds, SetsErrno, setup-Ends}
use bedrocklinux_userland.Etcfs.Config.{local_ref, Config}
use bedrocklinux_userland.Etcfs.Inject.{Result}
use bedrocklinux_userland.Etcfs.Handlers.{with_disk}
use bedrocklinux_userland.Etcfs.Uninject.{Calls as UninjectCalls, uninject}
use bedrocklinux_userland.Etcfs.Handlers.{pread, pwrite}
use bedrocklinux_userland.Etcfs.Overrides.Touched.{Touched}
use bedrocklinux_userland.Etcfs.Handlers.Finished.{
  EndingBy, as_is, zero_rv, then_do, Finished, finish_by, finish_by-Finished,
}
use bedrocklinux_userland.Etcfs.Own.{
  undone, write_reply, Request, getattr, open_flags, read_at, write_at, read_reply, serve_own,
  call_of, finish, own, handler,
}

-- The requests that only root may make of the configuration file.
abbrev pub is_guarded : Request → Bool
is_guarded getattr = false
is_guarded _ = true

-- How it is finished on another file.
abbrev pub how_of : Request → EndingBy
how_of getattr = as_is
how_of (open_flags flags) = zero_rv
how_of (read_at size offset) = then_do (pread size offset)
how_of (write_at errno calls uninject_calls buf offset) = then_do (pwrite buf offset)

-- What a request on the configuration file leaves: a write the configuration that its command makes,
-- any other request all as it was.
abbrev pub After : Kernel → Request → Server → Server → Type 0
After k getattr s t = t ≡ s
After k (open_flags flags) s t = t ≡ s
After k (read_at size offset) s t = t ≡ s
After k (write_at errno calls uninject_calls buf offset) s t =
    t.cfg ≡ (write_config errno k.caller.uid calls buf s.cfg).cfg

finish-finish_by : (k : Kernel) (req : Request) → finish k req ≡ finish_by k (how_of req)
unfolding finish
finish-finish_by k getattr = refl
finish-finish_by k (open_flags flags) = refl
finish-finish_by k (read_at size offset) = refl
finish-finish_by k (write_at errno calls uninject_calls buf offset) = refl

-- A request was refused before any call was made for it; or one call with a path was made, as the
-- caller, at the descriptor and the path of the request, which is not the configuration's, and the
-- request was finished; in both, of the configuration only the time in one override changed. Or the
-- configuration file was served, in the state that FS_IMP_SETUP left, with the configuration of before
-- but for such a time: no call was made, a caller who is not root got -EACCES and changed nothing, a
-- valid configuration is valid still, and only a write changed anything, the configuration as its
-- command does.
pub data Serves (k : Kernel) (path : Bytes) (s : Server) (req : Request) (v : Served) : Type 0 where
  quiet :
      v.made ≡ []
      → v.on_fd ≡ []
      → is_neg v.rv ≡ true
      → Touched s.cfg v.server.cfg
      → Serves k path s req v
  passed :
      v.made
        ≡ (record {
          ref = get_ref_fd s.cfg path;
          rpath = rpath_of path;
          call = call_of req;
          creds = adopted k.caller;
        })
          ∷ []
      → rpath_of path ≢ cfg_name
      → Finished k
          (adopted k.caller)
          (how_of req)
          (k.run (get_ref_fd s.cfg path) (rpath_of path) (call_of req) (adopted k.caller))
          (v.rv, v.on_fd)
      → Touched s.cfg v.server.cfg
      → Serves k path s req v
  served :
      (s' : Server)
      → fs_imp_setup k (some path) s ≡ ready (get_ref_fd s.cfg path) (rpath_of path) s'
      → Touched s.cfg s'.cfg
      → s'.creds ≡ adopted k.caller
      → rpath_of path ≡ cfg_name
      → v.made ≡ []
      → v.on_fd ≡ []
      → (k.caller.uid ≢ 0 → is_guarded req ≡ true → (v.rv ≡ neg eacces) × (v.server ≡ s'))
      → (IsValid s'.cfg → IsValid v.server.cfg)
      → After k req s' v.server
      → Serves k path s req v

undone_file-cfg :
    (o : Option Result) (s s' : Server)
    → elim o [ none ↦ none | some r ↦ some (with_disk local_ref r.disk s) ] ≡ some s'
    → s'.cfg ≡ s.cfg
undone_file-cfg none s s' h = cc
undone_file-cfg (some r) s s' h = sym (ap (λ (t : Server). t.cfg) (some-injective _ s' h))

undone-cfg :
    (k : UninjectCalls) (u : Option (Bytes × Bytes)) (s s' : Server)
    → undone k u s ≡ some s'
    → s'.cfg ≡ s.cfg
unfolding undone
undone-cfg k none s s' h = sym (ap (λ (t : Server). t.cfg) (some-injective _ s' h))
undone-cfg k (some (path, str)) s s' h =
    undone_file-cfg (uninject k path str (s.disks local_ref)) s s' h

write_reply-cfg :
    (o : Option Server) (c : Config) (rv : ℤ) (v : Served)
    → ((s : Server) → o ≡ some s → s.cfg ≡ c)
    → write_reply rv o ≡ some v
    → (v.made ≡ []) × (v.on_fd ≡ []) × (v.server.cfg ≡ c)
write_reply-cfg none c rv v same h = cc
write_reply-cfg (some s) c rv v same h =
    let e = some-injective _ v h in
    (
      sym (ap (λ (w : Served). w.made) e),
      sym (ap (λ (w : Served). w.on_fd) e),
      sym (ap (λ (w : Served). w.server.cfg) e) ∙ same s refl,
    )

module _ (k : Kernel) (s : Server) where
  not_root : k.caller.uid ≢ 0 → (k.caller.uid == 0) ≡ false
  not_root n = elim (Bool-cases (k.caller.uid == 0)) [
    | inl t ↦ absurd (n ((==_iff k.caller.uid 0).0 t))
    | inr f ↦ f
  ]

  abbrev Own : Request → Served → Type 0
  Own req v =
      (v.made ≡ [])
      × (v.on_fd ≡ [])
      × (k.caller.uid ≢ 0 → is_guarded req ≡ true → (v.rv ≡ neg eacces) × (v.server ≡ s))
      × (IsValid s.cfg → IsValid v.server.cfg)
      × After k req s v.server

  read_reply-Own :
      (size offset : ℕ) (r : Option Reading) (v : Served)
      → (k.caller.uid ≢ 0 → r ≡ none)
      → read_reply s r ≡ some v
      → Own (read_at size offset) v
  read_reply-Own size offset none v denied h =
      subst (Own (read_at size offset)) (some-injective _ v h)
        (refl, refl, λ n g. (refl, refl), λ w. w, refl)
  read_reply-Own size offset (some (copied text)) v denied h =
      subst (Own (read_at size offset)) (some-injective _ v h)
        (refl, refl, λ n g. absurd (not_none (denied n)), λ w. w, refl)
    where
      not_none : some (copied text) ≡ none → ⊥
      not_none e = cc
  read_reply-Own size offset (some out_of_buffer) v denied h = cc

  own-Own : (req : Request) (v : Served) → own k req s ≡ some v → Own req v
  unfolding own read_config write_config undone
  own-Own getattr v h =
      subst (Own getattr) (some-injective _ v h) (refl, refl, λ n g. cc, λ w. w, refl)
  own-Own (open_flags flags) v h =
      subst (Own (open_flags flags)) (some-injective _ v h)
        (refl, refl, λ n g. (rw (not_root n) refl, refl), λ w. w, refl)
  own-Own (read_at size offset) v h =
      read_reply-Own size offset (read_config k.caller.uid s.cfg size offset) v
        (λ n. rw (not_root n) refl) h
  own-Own (write_at errno calls uninject_calls buf offset) v h =
      let r = write_config errno k.caller.uid calls buf s.cfg in
      let (none_made, none_on_fd, same_cfg) =
        write_reply-cfg (undone uninject_calls r.uninjected (record s { cfg = r.cfg })) r.cfg r.rv v
          (undone-cfg uninject_calls r.uninjected (record s { cfg = r.cfg })) h in
      (
        none_made,
        none_on_fd,
        λ n g.
            let refused_write = some-injective _ v (rw (not_root n) at h) in
            (
              sym (ap (λ (w : Served). w.rv) refused_write),
              sym (ap (λ (w : Served). w.server) refused_write),
            ),
        λ w.
            subst IsValid (sym same_cfg)
              (write_config-IsValid errno k.caller.uid calls buf s.cfg w).0,
        same_cfg,
      )

serve_own-Serves :
    (k : Kernel) (path : Bytes) (s : Server) (req : Request) (v : Served) (w : Setup)
    → fs_imp_setup k (some path) s ≡ w
    → SetupEnds k path s w
    → serve_own k (own k req) (finish k req) (call_of req) w ≡ some v
    → Serves k path s req v
unfolding serve_own
serve_own-Serves k path s req v (refused rv s') setup (negative, touched) h =
    subst (Serves k path s req) (some-injective _ v h) (quiet refl refl negative touched)
serve_own-Serves k path s req v faulted setup ends h = cc
serve_own-Serves k path s req v (ready ref rpath s') setup (r, p, c, touched) h =
    elim (Bool-cases (str_eq rpath cfg_name)) [
      | inl t ↦
          let (none_made, none_on_fd, denied, valid, after) = own-Own k s' req v (rw t at h) in
          served s' (setup ∙ ap₂ (λ x y. ready x y s') r p) touched c
            (sym p ∙ (str_eq_iff rpath cfg_name).0 t) none_made none_on_fd denied valid after
      | inr f ↦ subst (Serves k path s req) (some-injective _ v (rw f at h)) (
          passed (rw (r, p, c) refl)
            (λ e. contra (sym (ap (λ q. str_eq q cfg_name) (p ∙ e) ∙ str_eq_refl cfg_name) ∙ f))
            (rw (sym r, sym p, sym c, finish-finish_by k req)
              (finish_by-Finished k (how_of req) s'.creds (k.run ref rpath (call_of req) s'.creds)))
            touched)
    ]
  where
    contra : true ≡ false → ⊥
    contra e = cc

-- For a caller of at most 64 groups, or whose groups cannot be read, and where failing calls set
-- `errno`: behind FS_IMP_SETUP, m_getattr, m_open, m_read and m_write fail without a call; or make the
-- one call with a path that was asked for, as the caller, at the descriptor that is right for the
-- path, which is not the configuration's, and finish with its `errno` or with the read or write on the
-- opened descriptor; or serve the configuration in the state that FS_IMP_SETUP leaves, where a caller
-- who is not root gets -EACCES from all but m_getattr and changes nothing, and only a write changes
-- anything, the configuration as its command does, which leaves a valid one valid. FS_IMP_SETUP itself changes only the time in one override of the configuration.
-- The calls of `apply_override` and of commands are not among those calls.
pub handler-Serves :
    (req : Request) (k : Kernel) (path : Bytes) (s : Server) (v : Served)
    → length (groups_found k.caller.groups_of) ≤ 64
    → SetsErrno k.caller
    → handler req k (some path) s ≡ some v
    → Serves k path s req v
unfolding handler
handler-Serves req k path s v few errnos h =
    serve_own-Serves k path s req v (fs_imp_setup k (some path) s) refl
      (setup-Ends k path s few errnos) h
