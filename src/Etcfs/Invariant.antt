-- ===== src/Etcfs/Invariant.antt =====
-- The invariant of the configuration: no path stands twice, the arrays have room, and `st_size` is
-- the length of what `cfg_read` prints. Every command preserves it.
pub mod Commands
use bedrocklinux_userland.Base.{
  ℕ, suc, ◌+◌, ◌-◌, ◌≤◌, ◌≡◌, refl, sym, inl, inr, true, false, List, [], ◌∷◌, ◌++◌, some, set,
  length-set, length, length-append, get_elem?, arith, if◌then◌else◌, Bool-cases,
}
use bedrocklinux_userland.CString.{Bytes, str_eq}
use bedrocklinux_userland.CString.Laws.{str_eq_iff}
use bedrocklinux_userland.Etcfs.Config.{Override, Config, is_global, swap_remove}
use bedrocklinux_userland.Etcfs.Commands.{global_line_length, override_line_length}
use bedrocklinux_userland.Etcfs.Arrays.{
  total, total-append, total-swap_remove, length-swap_remove, total-set, get_elem?-lt,
}

-- 1 for the path `y`, and 0 for another.
abbrev pub hits : Bytes → Bytes → ℕ
hits y g = if str_eq g y then 1 else 0

abbrev pub hits_override : Bytes → Override → ℕ
hits_override y o = hits y o.path

pub record IsValid (c : Config) : Type 0 where
  pub globals_unique : (y : Bytes) → total (hits y) c.globals ≤ 1
  pub overrides_unique : (y : Bytes) → total (hits_override y) c.overrides ≤ 1
  pub global_room : length c.globals ≤ c.global_alloc
  pub override_room : length c.overrides ≤ c.override_alloc
  pub size_exact :
      c.st_size ≡ total global_line_length c.globals + total override_line_length c.overrides

pub is_global-hits :
    (path : Bytes) (gs : List Bytes) → is_global path gs ≡ false → total (hits path) gs ≡ 0
unfolding is_global
is_global-hits path [] h = refl
is_global-hits path (g ∷ gs) h = ground (arith, is_global-hits path gs)

pub hits-is_global :
    (path : Bytes) (gs : List Bytes) → is_global path gs ≡ true → 1 ≤ total (hits path) gs
unfolding is_global
hits-is_global path [] h = cc
hits-is_global path (g ∷ gs) h = ground (arith, hits-is_global path gs)

-- Two paths cannot both be hit by one.
hits-ne : (x y : Bytes) → str_eq x y ≡ false → hits y x ≡ 0
hits-ne x y h = rw h

-- A new key, at the end of the array.
one_more_unique :
    {A : Type 0} (key : A → Bytes) (xs : List A) (x : A)
    → ((y : Bytes) → total (λ a. hits y (key a)) xs ≤ 1)
    → total (λ a. hits (key x) (key a)) xs ≡ 0
    → (y : Bytes) → total (λ a. hits y (key a)) (xs ++ (x ∷ [])) ≤ 1
one_more_unique key xs x u fresh y =
    rw (total-append (λ a. hits y (key a)) xs (x ∷ [])) (elim (Bool-cases (str_eq (key x) y)) [
      | inl e ↦ rw (e, sym ((str_eq_iff (key x) y).0 e)) (omega (arith, fresh))
      | inr e ↦ rw e (omega (arith, u y))
    ])

-- The length of a list with an element at `i`.
size_of :
    {A : Type 0} (xs : List A) (i : ℕ) (x : A)
    → get_elem? xs i ≡ some x
    → length xs ≡ suc (length xs - 1)
size_of xs i x h = omega (arith, get_elem?-lt xs i x h)

module _ (c : Config) (v : IsValid c) where
  pub grown_globals-IsValid : (n : ℕ) → c.global_alloc ≤ n → IsValid (record c { global_alloc = n })
  grown_globals-IsValid n le = record {
    globals_unique = v.globals_unique;
    overrides_unique = v.overrides_unique;
    global_room = omega (arith, v.global_room);
    override_room = v.override_room;
    size_exact = v.size_exact;
  }

  pub grown_overrides-IsValid :
      (n : ℕ) → c.override_alloc ≤ n → IsValid (record c { override_alloc = n })
  grown_overrides-IsValid n le = record {
    globals_unique = v.globals_unique;
    overrides_unique = v.overrides_unique;
    global_room = v.global_room;
    override_room = omega (arith, v.override_room);
    size_exact = v.size_exact;
  }

  pub added_global-IsValid :
      (path : Bytes) (n : ℕ)
      → is_global path c.globals ≡ false
      → c.global_alloc ≤ n
      → length c.globals + 1 ≤ n
      → IsValid (record c {
        globals = c.globals ++ (path ∷ []);
        global_alloc = n;
        st_size = c.st_size + global_line_length path;
      })
  added_global-IsValid path n fresh le room = record {
    globals_unique =
        one_more_unique (λ g. g) c.globals path v.globals_unique
          (is_global-hits path c.globals fresh);
    overrides_unique = v.overrides_unique;
    global_room = omega (arith, length-append c.globals (path ∷ []));
    override_room = v.override_room;
    size_exact = omega (arith, v.size_exact, total-append global_line_length c.globals (path ∷ []));
  }

  pub removed_global-IsValid :
      (i : ℕ) (g : Bytes)
      → get_elem? c.globals i ≡ some g
      → IsValid (record c {
        globals = swap_remove i c.globals;
        st_size = c.st_size - global_line_length g;
      })
  removed_global-IsValid i g at =
      let n : ℕ = length c.globals - 1 in
      let size : length c.globals ≡ suc n = size_of c.globals i g at in
      let gone = λ (f : Bytes → ℕ). total-swap_remove c.globals n i size f g at in
      record {
        globals_unique = λ y. omega (arith, v.globals_unique y, gone (hits y));
        overrides_unique = v.overrides_unique;
        global_room = omega (arith, v.global_room, length-swap_remove c.globals n i size);
        override_room = v.override_room;
        size_exact = omega (arith, v.size_exact, gone global_line_length);
      }

  pub added_override-IsValid :
      (o : Override) (n : ℕ)
      → total (hits_override o.path) c.overrides ≡ 0
      → c.override_alloc ≤ n
      → length c.overrides + 1 ≤ n
      → IsValid (record c {
        overrides = c.overrides ++ (o ∷ []);
        override_alloc = n;
        st_size = c.st_size + override_line_length o;
      })
  added_override-IsValid o n fresh le room = record {
    globals_unique = v.globals_unique;
    overrides_unique = one_more_unique (λ p. p.path) c.overrides o v.overrides_unique fresh;
    global_room = v.global_room;
    override_room = omega (arith, length-append c.overrides (o ∷ []));
    size_exact =
        omega (arith, v.size_exact, total-append override_line_length c.overrides (o ∷ []));
  }

  pub removed_override-IsValid :
      (i : ℕ) (o : Override)
      → get_elem? c.overrides i ≡ some o
      → IsValid (record c {
        overrides = swap_remove i c.overrides;
        st_size = c.st_size - override_line_length o;
      })
  removed_override-IsValid i o at =
      let n : ℕ = length c.overrides - 1 in
      let size : length c.overrides ≡ suc n = size_of c.overrides i o at in
      let gone = λ (f : Override → ℕ). total-swap_remove c.overrides n i size f o at in
      record {
        globals_unique = v.globals_unique;
        overrides_unique = λ y. omega (arith, v.overrides_unique y, gone (hits_override y));
        global_room = v.global_room;
        override_room = omega (arith, v.override_room, length-swap_remove c.overrides n i size);
        size_exact = omega (arith, v.size_exact, gone override_line_length);
      }

  -- An override that keeps its path, type and content, in the place of the old one.
  pub replaced_override-IsValid :
      (i : ℕ) (o : Override) (new : Bytes)
      → get_elem? c.overrides i ≡ some o
      → IsValid (record c { overrides = set c.overrides i (record o { injected = some new }) })
  replaced_override-IsValid i o new at =
      let o' : Override = record o { injected = some new } in
      let same = λ (f : Override → ℕ). total-set f c.overrides i o o' at in
      record {
        globals_unique = v.globals_unique;
        overrides_unique = λ y. omega (arith, v.overrides_unique y, same (hits_override y));
        global_room = v.global_room;
        override_room = omega (arith, v.override_room, length-set c.overrides i o');
        size_exact = omega (arith, v.size_exact, same override_line_length);
      }
