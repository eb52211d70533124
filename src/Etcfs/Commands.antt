-- ===== src/Etcfs/Commands.antt =====
-- The commands that are written to the configuration file: `cfg_add_global`, `cfg_rm_global`,
-- `cfg_add_override` and `cfg_rm_override` of src/etcfs/etcfs.c.
use bedrocklinux_userland.Base.{
  ℕ, ◌+◌, ◌-◌, Bool, true, false, not, ◌||◌, ◌&&◌, [], ◌∷◌, ◌++◌, Option, none, some, ℤ, pos, neg,
  length, drop, set, get_elem?, if◌then◌else◌, ◌==◌, ltb,
}
use bedrocklinux_userland.CString.{Bytes, codes, str_eq, has, cstr}
use bedrocklinux_userland.Etcfs.Config.{
  enomem, einval, enametoolong, pipe_buf, OType, symlink, directory, inject, o_type_str, Override,
  Config, is_global, find_index, swap_remove,
}
use bedrocklinux_userland.CString.Scan.{scan_pair}

-- What the calls of a command yield: whether `realloc` and the `malloc`s succeed, and the content
-- of the file that an inject override names (`none`: it cannot be read in full).
pub record Calls : Type 0 where
  pub realloc_works : Bool
  pub malloc_works : Bool
  pub second_malloc_works : Bool
  pub file_content : Bytes → Option Bytes

-- A command's return value, the configuration after it, and the path and content of the
-- `uninject` that it called.
pub record Reply : Type 0 where
  pub rv : ℤ
  pub cfg : Config
  pub uninjected : Option (Bytes × Bytes)

abbrev pub answer : ℤ → Config → Reply
answer rv c = record { rv = rv; cfg = c; uninjected = none }

abbrev pub reject : ℕ → Config → Reply
reject e c = answer (neg e) c

-- Go on with what was read, or reject the command.
unfoldable pub parsed {ℓ} : {A : Type ℓ} → ℕ → Option A → Config → (A → Reply) → Reply
parsed e none c f = reject e c
parsed e (some a) c f = f a

unfoldable pub checked : ℕ → Bool → Config → Reply → Reply
checked e true c r = r
checked e false c r = reject e c

-- The bytes that a command is tokenised from; `none` is too long.
abbrev pub command_text : Bytes → Option Bytes
command_text buf = if ltb (pipe_buf - 1) (length buf) then none else some (cstr buf)

-- `sscanf(nbuf, "%s%c%s%c", …) == 4`, and the checks on the command, the space and the newline.
unfoldable pub one_argument : Bytes → Bytes → Option Bytes
unfolding scan_pair
one_argument cmd text = elim (scan_pair text) [
  | none ↦ none
  | some (word, space, rest) ↦ elim (scan_pair rest) [
    | none ↦ none
    | some (arg, newline, _) ↦
        if not (str_eq word cmd) || not (space == b' ') || not (newline == b'\n')
        then none
        else some arg
  ]
]

abbrev pub global_line_length : Bytes → ℕ
global_line_length g = 7 + length g + 1

-- `cfg_add_global` once the path is known.
unfoldable pub insert_global : Calls → Bytes → ℕ → Config → Reply
unfolding is_global
insert_global k path size c =
    if is_global path c.globals
    then answer (pos 0) c
    else if ltb c.global_alloc (length c.globals + 1) && not k.realloc_works
    then reject enomem c
    else let alloc =
        if ltb c.global_alloc (length c.globals + 1)
        then length c.globals + 1
        else c.global_alloc in
      if not k.malloc_works
      then reject enomem (record c { global_alloc = alloc })
      else answer (pos size) (record c {
        globals = c.globals ++ (path ∷ []);
        global_alloc = alloc;
        st_size = c.st_size + global_line_length path;
      })

unfoldable pub cfg_add_global : Calls → Bytes → Config → Reply
unfolding one_argument insert_global
cfg_add_global k buf c = parsed enametoolong (command_text buf) c λ text.
    parsed einval (one_argument (codes "add_global") text) c
      λ path. checked einval (has b'/' path) c (insert_global k path (length buf) c)

-- `cfg_rm_global` at the index that it found, if it found one.
unfoldable pub drop_global : ℕ → Option ℕ → Config → Reply
unfolding swap_remove
drop_global size none c = answer (pos size) c
drop_global size (some i) c = answer (pos size) (record c {
  globals = swap_remove i c.globals;
  st_size = c.st_size - (elim (get_elem? c.globals i) [ none ↦ 0 | some g ↦ global_line_length g ]);
})

-- `cfg_rm_global` once the path is known.
unfoldable pub remove_global : Bytes → ℕ → Config → Reply
unfolding find_index drop_global
remove_global path size c = drop_global size (find_index (λ g. str_eq g path) c.globals) c

unfoldable pub cfg_rm_global : Bytes → Config → Reply
unfolding one_argument remove_global
cfg_rm_global buf c = parsed enametoolong (command_text buf) c λ text.
    parsed einval (one_argument (codes "rm_global") text) c
      λ path. checked einval (has b'/' path) c (remove_global path (length buf) c)

-- `sscanf(nbuf, "%s%c%s%c%s%c%s%c", …) == 8`, and the checks on what separates the words and on
-- the path: the type, the path and the content.
unfoldable pub three_arguments : Bytes → Bytes → Option (Bytes × Bytes × Bytes)
unfolding scan_pair
three_arguments cmd text = elim (scan_pair text) [
  | none ↦ none
  | some (word, space1, rest) ↦ elim (scan_pair rest) [
    | none ↦ none
    | some (otype, space2, rest) ↦ elim (scan_pair rest) [
      | none ↦ none
      | some (path, space3, rest) ↦ elim (scan_pair rest) [
        | none ↦ none
        | some (content, newline, _) ↦
            if not (str_eq word cmd)
              || not (space1 == b' ')
              || not (space2 == b' ')
              || not (space3 == b' ')
              || not (newline == b'\n')
              || not (has b'/' path)
            then none
            else some (otype, path, content)
      ]
    ]
  ]
]

-- The loop over `o_type_str`.
unfoldable pub type_of : Bytes → Option OType
type_of s =
    if str_eq s (o_type_str symlink)
    then some symlink
    else if str_eq s (o_type_str directory)
    then some directory
    else if str_eq s (o_type_str inject)
    then some inject
    else none

abbrev pub is_inject : OType → Bool
is_inject inject = true
is_inject _ = false

abbrev pub override_line_length : Override → ℕ
override_line_length o =
    9 + length (o_type_str o.otype) + 1 + length o.path + 1 + length o.content + 1

abbrev pub new_override : OType → Bytes → Bytes → Option Bytes → Override
new_override t path content injected = record {
  path = path;
  otype = t;
  content = content;
  injected = injected;
  last_override = 0;
}

abbrev pub is_some {ℓ} : {A : Type ℓ} → Option A → Bool
is_some none = false
is_some (some a) = true

-- `cfg_add_override` from the check for a duplicate on; `injected` is the content to inject.
unfoldable pub insert_override : Calls → OType → Bytes → Bytes → Option Bytes → ℕ → Config → Reply
unfolding find_index
insert_override k t path content injected size c =
    let full = ltb c.override_alloc (length c.overrides + 1) in
    let alloc = if full then length c.overrides + 1 else c.override_alloc in
    let o = new_override t path content injected in
    if is_some (find_index (λ (p : Override). str_eq p.path path) c.overrides)
    then answer (pos 0) c
    else if full && not k.realloc_works
    then reject einval c
    else if not (k.malloc_works && k.second_malloc_works)
    then reject einval (record c { override_alloc = alloc })
    else answer (pos size) (record c {
      overrides = c.overrides ++ (o ∷ []);
      override_alloc = alloc;
      st_size = c.st_size + override_line_length o;
    })

-- The content of `path` in an inject override is replaced.
unfoldable pub replace_inject : ℕ → Option Override → Bytes → Config → Reply
replace_inject i none content c = reject einval c
replace_inject i (some o) content c = record {
  rv = pos 0;
  cfg = record c { overrides = set c.overrides i (record o { injected = some content }) };
  uninjected = elim o.injected [ none ↦ none | some old ↦ some (drop 1 o.path, old) ];
}

-- `cfg_add_override` for an inject override, from the search for one with its path on.
unfoldable pub inject_override : Calls → Bytes → Bytes → Bytes → ℕ → Option ℕ → Config → Reply
unfolding insert_override replace_inject
inject_override k path content injected size none c =
    insert_override k inject path content (some injected) size c
inject_override k path content injected size (some i) c =
    replace_inject i (get_elem? c.overrides i) injected c

-- `cfg_add_override` once its arguments are known.
unfoldable pub add_override : Calls → OType → Bytes → Bytes → ℕ → Config → Reply
unfolding insert_override inject_override find_index
add_override k symlink path content size c = insert_override k symlink path content none size c
add_override k directory path content size c = insert_override k directory path content none size c
add_override k inject path content size c = parsed einval (k.file_content content) c λ injected.
    inject_override k path content injected size
      (find_index (λ (o : Override). str_eq o.path path && is_inject o.otype) c.overrides) c

unfoldable pub cfg_add_override : Calls → Bytes → Config → Reply
unfolding three_arguments type_of add_override
cfg_add_override k buf c = parsed enametoolong (command_text buf) c λ text.
    parsed einval (three_arguments (codes "add_override") text) c λ (otype, path, content).
      parsed einval (type_of otype) c λ t. add_override k t path content (length buf) c

-- `cfg_rm_override` at the index that it found.
unfoldable pub drop_override : ℕ → ℕ → Option Override → Config → Reply
unfolding swap_remove
drop_override size i none c = answer (pos size) c
drop_override size i (some o) c = record {
  rv = pos size;
  cfg = record c {
    overrides = swap_remove i c.overrides;
    st_size = c.st_size - override_line_length o;
  };
  uninjected =
      if is_inject o.otype
      then (elim o.injected [ none ↦ none | some old ↦ some (drop 1 o.path, old) ])
      else none;
}

unfoldable pub found_override : ℕ → Option ℕ → Config → Reply
unfolding drop_override
found_override size none c = answer (pos size) c
found_override size (some i) c = drop_override size i (get_elem? c.overrides i) c

unfoldable pub remove_override : Bytes → ℕ → Config → Reply
unfolding find_index found_override
remove_override path size c =
    found_override size (find_index (λ (o : Override). str_eq o.path path) c.overrides) c

unfoldable pub cfg_rm_override : Bytes → Config → Reply
unfolding one_argument remove_override
cfg_rm_override buf c = parsed enametoolong (command_text buf) c λ text.
    parsed einval (one_argument (codes "rm_override") text) c
      λ path. remove_override path (length buf) c
