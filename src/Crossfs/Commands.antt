-- ===== src/Crossfs/Commands.antt =====
-- The commands that are written to the configuration file of src/crossfs/crossfs.c: `cfg_add` and
-- `cfg_rm`.
pub mod Effect
pub mod Removal
pub mod PathOnce
pub mod Abstract
use bedrocklinux_userland.Base.{
  ℕ, ◌+◌, ◌-◌, ◌%◌, ◌^◌, Bool, true, false, not, ◌&&◌, ◌||◌, List, [], ◌∷◌, ◌++◌, Option, none,
  some, length, get_elem?, set, if◌then◌else◌, ◌==◌, ltb, leb, ℤ, pos, neg,
}
use bedrocklinux_userland.CString.{Bytes, codes, str_eq, has}
use bedrocklinux_userland.CString.Scan.{scan_pair}
use bedrocklinux_userland.Etcfs.Config.{find_index, swap_remove, enomem, einval, pipe_buf}
use bedrocklinux_userland.Crossfs.Config.{
  Filter, filter_bin, filter_bin_restrict, filter_ini, filter_font, filter_pass, filter_str,
  BackEntry, CfgEntry, Cfgs,
}

-- What the calls of a command yield: whether the `malloc`s and `realloc`s succeed, and the
-- descriptor of a stratum's root that is opened.
pub record Calls : Type 0 where
  pub malloc_cpath : Bool
  pub realloc_cfgs : Bool
  pub malloc_lpath : Bool
  pub malloc_stratum : Bool
  pub realloc_back : Bool
  pub opens : Bytes → Option ℕ

-- The result of a command: what it returns, the configuration behind it, and the descriptors that
-- it opened and closed.
pub record Reply : Type 0 where
  pub rv : ℤ
  pub cfgs : Cfgs
  pub opened : Option ℕ
  pub closed : Option ℕ

abbrev pub answer : ℤ → Cfgs → Reply
answer rv c = record { rv = rv; cfgs = c; opened = none; closed = none }

-- The fields that `sscanf` fills, and whether the characters between them are the right ones.
pub record Line : Type 0 where
  pub cmd : Bytes
  pub filter : Bytes
  pub cpath : Bytes
  pub stratum : Bytes
  pub lpath : Bytes
  pub separated : Bool

-- How a part of `sscanf` goes: no match, a word that outruns its buffer of PIPE_BUF bytes, or a
-- match.
pub data Scanned {ℓ} (A : Type ℓ) : Type ℓ where
  mismatch overrun : Scanned A
  got : A → Scanned A

unfoldable pub then_scan {ℓ κ} : {A : Type ℓ} {B : Type κ} → Scanned A → (A → Scanned B) → Scanned B
then_scan mismatch f = mismatch
then_scan overrun f = overrun
then_scan (got a) f = f a

-- `%s%c`, into a buffer and a character.
unfoldable pub scan_field : Bytes → Scanned (Bytes × ℕ × Bytes)
unfolding scan_pair
scan_field s = elim (scan_pair s) [
  | none ↦ mismatch
  | some (word, c, rest) ↦ if leb pipe_buf (length word) then overrun else got (word, c, rest)
]

-- The bytes up to the next colon, and the rest.
unfoldable pub span_colon : Bytes → Bytes × Bytes
span_colon [] = ([], [])
span_colon (x ∷ s) =
    let (word, rest) = span_colon s in if x == b':' then ([], x ∷ s) else (x ∷ word, rest)

abbrev pub past_colon : Bytes × Bytes → Scanned (Bytes × Bytes)
past_colon ([], rest) = mismatch
past_colon (x ∷ word, []) = if leb pipe_buf (length (x ∷ word)) then overrun else mismatch
past_colon (x ∷ word, y ∷ rest) =
    if leb pipe_buf (length (x ∷ word)) then overrun else got (x ∷ word, rest)

-- `%[^:]:`
unfoldable pub scan_colon : Bytes → Scanned (Bytes × Bytes)
unfolding span_colon
scan_colon s = past_colon (span_colon s)

-- `sscanf(buf, "%s%c%s%c%s%c%[^:]:%s%c", …)`
unfoldable pub scan_line : Bytes → Scanned Line
unfolding then_scan scan_field scan_colon
scan_line buf = then_scan (scan_field buf) λ (cmd, space1, r1).
    then_scan (scan_field r1) λ (filter, space2, r2).
      then_scan (scan_field r2) λ (cpath, space3, r3). then_scan (scan_colon r3) λ (stratum, r4).
        then_scan (scan_field r4) λ (lpath, newline, r5). got (record {
          cmd = cmd;
          filter = filter;
          cpath = cpath;
          stratum = stratum;
          lpath = lpath;
          separated = space1 == b' ' && space2 == b' ' && space3 == b' ' && newline == b'\n';
        })

abbrev pub is_absolute : Bytes → Bool
is_absolute [] = false
is_absolute (x ∷ s) = x == b'/'

-- The sanity check.
unfoldable pub is_sane : Bytes → Line → Bool
is_sane cmd l =
    str_eq l.cmd cmd
    && is_absolute l.cpath
    && is_absolute l.lpath
    && l.separated
    && not (has b'/' l.stratum)

-- The loop over `filter_str`.
unfoldable pub filter_of : Bytes → Option Filter
filter_of s =
    if str_eq s (filter_str filter_bin)
    then some filter_bin
    else if str_eq s (filter_str filter_bin_restrict)
    then some filter_bin_restrict
    else if str_eq s (filter_str filter_ini)
    then some filter_ini
    else if str_eq s (filter_str filter_font)
    then some filter_font
    else if str_eq s (filter_str filter_pass)
    then some filter_pass
    else none

abbrev pub is_local_name : Bytes → Bool
is_local_name s = str_eq s (codes "local")

abbrev pub is_for : Bytes → CfgEntry → Bool
is_for cpath e = str_eq e.cpath cpath

abbrev pub is_back : Bytes → Bytes → BackEntry → Bool
is_back stratum lpath b = str_eq b.name stratum && str_eq b.lpath lpath

-- The inner loop of the search for a stratum's descriptor, which breaks at the first back of the
-- stratum.
unfoldable pub fd_in_backs : Bytes → Option ℕ → List BackEntry → Option ℕ
fd_in_backs stratum fd [] = fd
fd_in_backs stratum fd (b ∷ bs) =
    if str_eq b.name stratum then b.root_fd else fd_in_backs stratum fd bs

-- The outer loop, which goes on.
unfoldable pub fd_in_entries : Bytes → Option ℕ → List CfgEntry → Option ℕ
unfolding fd_in_backs
fd_in_entries stratum fd [] = fd
fd_in_entries stratum fd (e ∷ es) = fd_in_entries stratum (fd_in_backs stratum fd e.back) es

-- The descriptor that is opened, where no back has one and the stratum is not the local alias.
unfoldable pub new_fd : Calls → Bytes → Option ℕ → Option ℕ
new_fd k stratum (some fd) = none
new_fd k stratum none = if is_local_name stratum then none else k.opens stratum

abbrev pub either_fd : Option ℕ → Option ℕ → Option ℕ
either_fd (some fd) other = some fd
either_fd none other = other

abbrev pub is_none : Option ℕ → Bool
is_none none = true
is_none (some fd) = false

-- `st_size += n` and `st_size -= n`, in 64 bits.
abbrev pub size_add : ℕ → ℕ → ℕ
size_add s n = (s + n) % 2 ^ 64

abbrev pub size_sub : ℕ → ℕ → ℕ
size_sub s n = ((s + 2 ^ 64) - n % 2 ^ 64) % 2 ^ 64

module _ (k : Calls) (l : Line) (size : ℕ) where
  -- A new back for the entry `e`, which is `cfgs[i]`; `reused` is the descriptor that was found.
  unfoldable pub make_back : ℕ → CfgEntry → Option ℕ → Cfgs → Reply
  unfolding new_fd
  make_back i e reused c =
      let opened = new_fd k l.stratum reused in
      let root_fd = either_fd reused opened in
      if not k.malloc_lpath || not k.malloc_stratum
      then answer (neg enomem) c
      else if not (is_local_name l.stratum) && is_none root_fd
      then answer (neg enomem) c
      else if ltb e.back_alloc (length e.back + 1) && not k.realloc_back
      then record { rv = neg enomem; cfgs = c; opened = opened; closed = opened }
      else record {
        rv = pos 0;
        cfgs = record c {
          entries = set c.entries i (record e {
            back =
                e.back
                ++ (record {
                  lpath = l.lpath;
                  name = l.stratum;
                  root_fd = root_fd;
                  local = is_local_name l.stratum;
                }
                    ∷ []);
            back_alloc =
                if ltb e.back_alloc (length e.back + 1) then length e.back + 1 else e.back_alloc;
          });
          st_size = size_add c.st_size (size - 3 - 1);
        };
        opened = opened;
        closed = none;
      }

  -- From the search for the back on: one that is there already is not added again.
  unfoldable pub add_back : ℕ → CfgEntry → Cfgs → Reply
  unfolding find_index make_back fd_in_entries
  add_back i e c = elim (find_index (is_back l.stratum l.lpath) e.back) [
    | some _ ↦ answer (pos 0) c
    | none ↦ make_back i e (fd_in_entries l.stratum none c.entries) c
  ]

  -- A new entry, and its back.
  unfoldable pub add_entry : Filter → Cfgs → Reply
  unfolding add_back
  add_entry f c =
      let e : CfgEntry = record { filter = f; cpath = l.cpath; back = []; back_alloc = 0 } in
      if not k.malloc_cpath
      then answer (neg enomem) c
      else if ltb c.cfg_alloc (length c.entries + 1) && not k.realloc_cfgs
      then answer (neg enomem) c
      else add_back (length c.entries) e (record c {
        entries = c.entries ++ (e ∷ []);
        cfg_alloc =
            if ltb c.cfg_alloc (length c.entries + 1) then length c.entries + 1 else c.cfg_alloc;
      })

  -- The entry at the index at which the search for the path broke.
  unfoldable pub extend_entry : ℕ → Option CfgEntry → Cfgs → Reply
  unfolding add_back
  extend_entry i none c = answer (pos 0) c
  extend_entry i (some e) c = add_back i e c

  unfoldable pub add_line : Cfgs → Reply
  unfolding is_sane filter_of find_index add_entry extend_entry
  add_line c =
      if not (is_sane (codes "add") l) then answer (neg einval) c else elim (filter_of l.filter) [
        | none ↦ answer (neg einval) c
        | some f ↦ elim (find_index (is_for l.cpath) c.entries) [
          | none ↦ add_entry f c
          | some i ↦ extend_entry i (get_elem? c.entries i) c
        ]
      ]

-- `cfg_add(buf)`
unfoldable pub cfg_add : Calls → Bytes → Cfgs → Scanned Reply
unfolding scan_line add_line
cfg_add k buf c = elim (scan_line buf) [
  | mismatch ↦ got (answer (neg einval) c)
  | overrun ↦ overrun
  | got l ↦ got (add_line k l (length buf) c)
]

-- `a == b`, for descriptors of which -1 is `none`.
abbrev pub same_fd : Option ℕ → Option ℕ → Bool
same_fd none none = true
same_fd none (some n) = false
same_fd (some m) none = false
same_fd (some m) (some n) = m == n

unfoldable pub count_fd_backs : Option ℕ → List BackEntry → ℕ
count_fd_backs fd [] = 0
count_fd_backs fd (b ∷ bs) = (if same_fd b.root_fd fd then 1 else 0) + count_fd_backs fd bs

-- `root_fd_cnt`
unfoldable pub count_fd : Option ℕ → List CfgEntry → ℕ
unfolding count_fd_backs
count_fd fd [] = 0
count_fd fd (e ∷ es) = count_fd_backs fd e.back + count_fd fd es

abbrev pub without_back : ℕ → CfgEntry → CfgEntry
without_back j e = record e { back = swap_remove j e.back }

-- The end of `cfg_rm`, for the back `b` at index `j` of the entry `e` at index `i`.
unfoldable pub drop_back : ℕ → ℕ → CfgEntry → ℕ → BackEntry → Cfgs → Reply
drop_back size i e j b c =
    let entries = set c.entries i (without_back j e) in
    record {
      rv = pos 0;
      cfgs = record c {
        entries = if length (swap_remove j e.back) == 0 then swap_remove i entries else entries;
        st_size = size_sub c.st_size (size - 2 - 1);
      };
      opened = none;
      closed = if not b.local && count_fd b.root_fd c.entries == 1 then b.root_fd else none;
    }

unfoldable pub remove_back : Line → ℕ → ℕ → CfgEntry → Cfgs → Reply
unfolding find_index drop_back
remove_back l size i e c = elim (find_index (is_back l.stratum l.lpath) e.back) [
  | none ↦ answer (neg einval) c
  | some j ↦ elim (get_elem? e.back j) [
    | none ↦ answer (pos 0) c
    | some b ↦ drop_back size i e j b c
  ]
]

unfoldable pub rm_line : Line → ℕ → Cfgs → Reply
unfolding is_sane find_index remove_back
rm_line l size c =
    if not (is_sane (codes "rm") l)
    then answer (neg einval) c
    else elim (find_index (is_for l.cpath) c.entries) [
      | none ↦ answer (neg einval) c
      | some i ↦ elim (get_elem? c.entries i) [
        | none ↦ answer (pos 0) c
        | some e ↦ remove_back l size i e c
      ]
    ]

-- `cfg_rm(buf)`
unfoldable pub cfg_rm : Bytes → Cfgs → Scanned Reply
unfolding scan_line rm_line
cfg_rm buf c = elim (scan_line buf) [
  | mismatch ↦ got (answer (neg einval) c)
  | overrun ↦ overrun
  | got l ↦ got (rm_line l (length buf) c)
]
