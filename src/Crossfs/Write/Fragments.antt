-- ===== src/Crossfs/Write/Fragments.antt =====
-- Commands that arrive in more than one write.
use mathlib.Core.Path.{fun_ext}
use native.Mathlib.Nat.{zero-add}
use bedrocklinux_userland.Base.{
  All-append, le→ltb, ap₂, ℕ, ◌+◌, ◌-◌, ◌%◌, ◌≤◌, ◌<◌, ◌≡◌, refl, sym, ap, ◌∙◌, Bool, true, false,
  not, List, [], ◌∷◌, ◌++◌, Option, none, length, if◌then◌else◌, ltb, leb, arith, pos, Bool-cases,
  inl, inr, All, length-append,
}
use bedrocklinux_userland.CString.{Bytes, codes, is_prefix, str_eq, has, cstr}
use bedrocklinux_userland.Crossfs.Config.{Cfgs}
use bedrocklinux_userland.Crossfs.Paths.{same_path, cfg_path}
use bedrocklinux_userland.Crossfs.Commands.{
  cfg_add, cfg_rm, mismatch, Reply, Calls, Scanned, overrun, got, then_scan,
}
use bedrocklinux_userland.Crossfs.Write.{
  finished, Server, Served, Done, begin, limit, execute, put_back, append_command, m_write,
  nbuf_size,
}

cstr-whole : (s : Bytes) → All (λ x. 0 < x) s → cstr s ≡ s
unfolding cstr
cstr-whole [] h = refl
cstr-whole (x ∷ s) h = ground (arith, cstr-whole s h.1)

-- What a first write leaves, where it has no newline.
abbrev pub pending : Bytes → Server → Server
pending buf s = record s { nbuf = buf; nbuf_len = length buf % 256; nbuf_continuation = true }

-- What an accepted write does: it waits for a newline, or executes the command.
abbrev accept : Calls → Bytes → Server → Scanned Served
accept k buf s =
    let u : Server = record s {
      nbuf = s.nbuf ++ buf;
      nbuf_len = (s.nbuf_len + length buf) % 256;
    } in
    if not (has b'\n' (s.nbuf ++ buf))
    then got (record {
      rv = pos (length buf);
      server = record u { nbuf_continuation = true };
      opened = none;
      closed = [];
    })
    else then_scan (execute k (length buf) (s.nbuf ++ buf) s.cfgs) (λ d. got (put_back u d))

-- What the rest of the program sees of a write, apart from the count that it returns.
abbrev pub visible : Scanned Served → Scanned (Server × Option ℕ × List (Option ℕ))
visible w = then_scan w (λ r. got (r.server, r.opened, r.closed))

abbrev seen : Scanned Done → Scanned (Cfgs × Option ℕ × List (Option ℕ))
seen w = then_scan w (λ d. got (d.cfgs, d.opened, d.closed))

at_least : (a b : ℕ) → a ≤ b → leb a b ≡ true
at_least a b h = ground arith

-- The server that a result is put back into, as a function of the configuration.
abbrev retold :
    (Cfgs → Server)
    → Scanned (Cfgs × Option ℕ × List (Option ℕ))
    → Scanned (Server × Option ℕ × List (Option ℕ))
retold f w = then_scan w (λ (c, o, x). got (f c, o, x))

visible-seen :
    (u : Server) (w : Scanned Done)
    → visible (then_scan w (λ d. got (put_back u d))) ≡ retold (λ c. record u { cfgs = c }) (seen w)
unfolding then_scan
visible-seen u mismatch = refl
visible-seen u overrun = refl
visible-seen u (got d) = refl

seen-finished :
    (m n : ℕ) (w : Scanned Reply)
    → seen (then_scan w (λ r. got (finished m r))) ≡ seen (then_scan w (λ r. got (finished n r)))
unfolding then_scan
seen-finished m n mismatch = refl
seen-finished m n overrun = refl
seen-finished m n (got r) = refl

visible-put_back :
    (u v : Server) (w x : Scanned Done)
    → ((c : Cfgs) → ◌≡◌ {A = Server} (record u { cfgs = c }) (record v { cfgs = c }))
    → seen w ≡ seen x
    → visible (then_scan w (λ d. got (put_back u d)))
      ≡ visible (then_scan x (λ d. got (put_back v d)))
unfolding then_scan
visible-put_back u v w x e h = visible-seen u w ∙ ap₂ retold (fun_ext e) h ∙ sym (visible-seen v x)

-- The size of the last write matters for the count alone, if it is not smaller than a keyword.
execute-size :
    (k : Calls) (m n : ℕ) (text : Bytes) (c : Cfgs)
    → 5 ≤ m
    → 5 ≤ n
    → seen (execute k m text c) ≡ seen (execute k n text c)
unfolding execute then_scan
execute-size k m n text c hm hn =
    rw
      (
        at_least 5 m hm,
        at_least 5 n hn,
        at_least 3 m (omega arith),
        at_least 3 n (omega arith),
        at_least 2 m (omega arith),
        at_least 2 n (omega arith),
      )
      (elim (Bool-cases (is_prefix (codes "clear") text)) [
        | inl a ↦ rw a refl
        | inr a ↦ elim (Bool-cases (is_prefix (codes "add") text)) [
          | inl b ↦ rw (a, b) (seen-finished m n (cfg_add k text c))
          | inr b ↦ elim (Bool-cases (is_prefix (codes "rm") text)) [
            | inl d ↦ rw (a, b, d) (seen-finished m n (cfg_rm text c))
            | inr d ↦ rw (a, b, d) refl
          ]
        ]
      ])

self_path : same_path cfg_path cfg_path ≡ true
unfolding same_path str_eq
self_path = refl

abbrev emptied : Server → Server
emptied s = record s { nbuf = []; nbuf_len = 0; nbuf_continuation = false }

begin-pending :
    (first : Bytes) (s : Server)
    → begin (pending first s)
      ≡ record s { nbuf = first; nbuf_len = length first % 256; nbuf_continuation = false }
unfolding begin
begin-pending first s = refl

begin-fresh : (s : Server) → s.nbuf_continuation ≡ false → begin s ≡ emptied s
unfolding begin
begin-fresh s e = rw e refl

abbrev filled : Bytes → ℕ → Server → Server
filled text n s = record s { nbuf = text; nbuf_len = n; nbuf_continuation = false }

-- A command that is accepted in two parts, or in one.
accept_parts :
    (k : Calls) (first second : Bytes) (s : Server)
    → 5 ≤ length second
    → visible (
        accept k second
          (record s { nbuf = first; nbuf_len = length first % 256; nbuf_continuation = false }))
      ≡ visible (accept k (first ++ second) (emptied s))
unfolding then_scan
accept_parts k first second s big =
    let same_len : (length first % 256 + length second) % 256
        ≡ (0 + length (first ++ second)) % 256 =
      omega (arith, length-append first second) in
    elim (Bool-cases (has b'\n' (first ++ second))) [
      | inr e ↦ rw (e, same_len) refl
      | inl e ↦ rw e (
          visible-put_back (filled (first ++ second) ((length first % 256 + length second) % 256) s)
            (filled (first ++ second) ((0 + length (first ++ second)) % 256) s) _ _
            (λ c. rw same_len refl)
            (execute-size k (length second) (length (first ++ second)) (first ++ second) s.cfgs big
              (omega (arith, length-append first second))))
    ]

limit_low : (signed : Bool) (n : ℕ) → n ≤ 127 → limit signed n ≡ (nbuf_size - n) - 1
unfolding limit
limit_low signed n h = ground arith

module _ (signed : Bool) (k : Calls) where
  root_write :
      (buf : Bytes) (s : Server)
      → m_write signed k cfg_path 0 buf s ≡ append_command signed k buf (begin s)
  unfolding m_write
  root_write buf s = rw self_path

  fitting_append :
      (buf : Bytes) (s : Server)
      → All (λ x. 0 < x) buf
      → length buf ≤ limit signed s.nbuf_len
      → length s.nbuf + length buf < nbuf_size
      → append_command signed k buf s ≡ accept k buf s
  unfolding append_command
  fitting_append buf s nn le fits =
      let small : leb nbuf_size (length s.nbuf + length buf) ≡ false = ground arith in
      rw (cstr-whole buf nn, le→ltb (length buf) (limit signed s.nbuf_len) le, small) refl

  -- Where `char` is signed and an unfinished command of 128 to 255 bytes waits, a write by root of at
  -- most 8192 bytes, none of them NUL, that reaches the end of the buffer together with it, is let
  -- through by the check and runs past the buffer.
  pub m_write-overrun :
      (first second : Bytes) (s : Server)
      → signed ≡ true
      → All (λ x. 0 < x) second
      → 128 ≤ length first
      → length first < 256
      → nbuf_size ≤ length first + length second
      → length second ≤ 8192
      → m_write signed k cfg_path 0 second (pending first s) ≡ overrun
  unfolding append_command begin limit
  m_write-overrun first second s sg ns lo hi big fits =
      let len : length first % 256 ≡ length first = omega arith in
      let admitted : ltb ((nbuf_size + (256 - length first)) - 1) (length second) ≡ false =
        ground arith in
      let full : leb nbuf_size (length first + length second) ≡ true = ground arith in
      root_write second (pending first s)
      ∙ rw (sg, len, at_least 128 (length first) lo, cstr-whole second ns, admitted, full) refl

  -- A command in two writes of bytes without NUL, of which the first has at most 127 bytes and no
  -- newline, the second at least 5, and both together fit the buffer, does what it does in one:
  -- the server and the descriptors opened and closed are the same.
  pub m_write_fragments :
      (first second : Bytes) (s : Server)
      → All (λ x. 0 < x) first
      → All (λ x. 0 < x) second
      → s.nbuf_continuation ≡ false
      → has b'\n' first ≡ false
      → length first ≤ 127
      → 5 ≤ length second
      → length first + length second ≤ 8000
      → (m_write signed k cfg_path 0 first s
          ≡ got (record {
            rv = pos (length first);
            server = pending first s;
            opened = none;
            closed = [];
          }))
        × (visible (m_write signed k cfg_path 0 second (pending first s))
            ≡ visible (m_write signed k cfg_path 0 (first ++ second) s))
  m_write_fragments first second s nf ns fresh nl small big fits =
      let len : length first % 256 ≡ length first = omega arith in
      let t : Server = record s {
        nbuf = first;
        nbuf_len = length first % 256;
        nbuf_continuation = false;
      } in
      let whole_fits : length (first ++ second) ≤ 8000 =
        omega (arith, length-append first second) in
      (
        root_write first s
            ∙ ap (append_command signed k first) (begin-fresh s fresh)
            ∙ fitting_append first (emptied s) nf
                (rw (limit_low signed 0 (omega arith)) (omega arith)) (omega arith)
            ∙ rw (nl, zero-add (length first)) refl,
        ap visible (
              root_write second (pending first s)
              ∙ ap (append_command signed k second) (begin-pending first s)
              ∙ fitting_append second t ns
                  (rw (len, limit_low signed (length first) small) (omega arith)) (omega arith))
            ∙ accept_parts k first second s big
            ∙ sym (
                ap visible (
                  root_write (first ++ second) s
                  ∙ ap (append_command signed k (first ++ second)) (begin-fresh s fresh)
                  ∙ fitting_append (first ++ second) (emptied s)
                      (All-append (λ x. 0 < x) first second nf ns)
                      (rw (limit_low signed 0 (omega arith)) (omega arith)) (omega arith))),
      )
