-- ===== src/Tests/Crossfs.antt =====
-- Requests to src/crossfs/crossfs.c and writes to its configuration.
use bedrocklinux_userland.Base.{
  concat, ℕ, zero, suc, ◌+◌, ◌≤◌, ◌<◌, ◌≡◌, ◌≢◌, ◌⊎◌, ◌↔◌, inl, inr, refl, Bool, true, false, not,
  ◌&&◌, List, [], ◌∷◌, Option, none, some, pos, neg, length, take, drop, if◌then◌else◌, ◌==◌, arith,
  All, Bool-cases, replicate,
}
use bedrocklinux_userland.CString.{Bytes, codes, str_eq, cstr, has, is_prefix}
use bedrocklinux_userland.Etcfs.Config.{enametoolong}
use bedrocklinux_userland.Crossfs.Config.{BackEntry, CfgEntry, Cfgs, filter_pass}
use bedrocklinux_userland.Crossfs.Paths.{
  cfg_path, same_path, local_alias_path, classify_ipath, class_local, first_entry,
}
use bedrocklinux_userland.Crossfs.Commands.{Calls, Line, overrun, got, cfg_add, add_line, rm_line}
use bedrocklinux_userland.Crossfs.Commands.Abstract.{
  IsProper, Holds, Names, add_line-refines, rm_line-refines,
}
use bedrocklinux_userland.Crossfs.Write.{Server, Served, m_write}
use bedrocklinux_userland.Crossfs.Write.Fragments.{
  pending, visible, m_write-overrun, m_write_fragments,
}
use bedrocklinux_userland.Crossfs.Write.Descriptors.{
  Table, table_after, OpensUnused, IsSafe, Reach, start, write, Reach-IsSafe,
}
use bedrocklinux_userland.Crossfs.Ini.{strata_dir, read_ini, ini_size, same_start, is_expanded}
use bedrocklinux_userland.Crossfs.Ini.Text.{text, read_ini-window}
use bedrocklinux_userland.Crossfs.Ini.Size.{ini_size-text}
use bedrocklinux_userland.Crossfs.Roots.{Process, local_request}
use bedrocklinux_userland.Crossfs.Roots.Reuse.{local_request-stale}
use bedrocklinux_userland.Crossfs.Backs.{Attempt, found, failed}
use bedrocklinux_userland.Crossfs.Listing.{NameTable, is_listed, virt_filldir, filldir_all_bpath}
use bedrocklinux_userland.Crossfs.Listing.Children.{virt_filldir-overrun}
use bedrocklinux_userland.Crossfs.Listing.Backs.{InBacks, filldir_all_bpath-lists}
use bedrocklinux_userland.Crossfs.Request.{Caller, LocalStratum, set_local_stratum}
use bedrocklinux_userland.Crossfs.Handlers.{m_readlink, m_open}
use bedrocklinux_userland.Crossfs.Handlers.Release.{IsClean, IsStuck, m_readlink-release}
use bedrocklinux_userland.Crossfs.Handlers.Admission.{Admitted, m_open-Admitted}

abbrev calls : Calls
calls = record {
  malloc_cpath = true;
  realloc_cfgs = true;
  malloc_lpath = true;
  malloc_stratum = true;
  realloc_back = true;
  opens = λ s. some 5;
}

abbrev back : BackEntry
back = record { lpath = codes "/y"; name = codes "void"; root_fd = some 5; local = false }

abbrev entry : CfgEntry
entry = record { filter = filter_pass; cpath = codes "/x"; back = back ∷ []; back_alloc = 1 }

abbrev empty : Cfgs
empty = record { entries = []; cfg_alloc = 0; st_size = 0 }

abbrev cfgs : Cfgs
cfgs = record { entries = entry ∷ []; cfg_alloc = 1; st_size = 16 }

abbrev server : Server
server = record { cfgs = empty; nbuf = []; nbuf_len = 0; nbuf_continuation = false }

abbrev command : Bytes
command = codes "add pass /x void:/y\n"

abbrev served : Served
served = record {
  rv = pos 20;
  server = record { cfgs = cfgs; nbuf = command; nbuf_len = 20; nbuf_continuation = false };
  opened = some 5;
  closed = none ∷ [];
}

abbrev no_fds : Table
no_fds fd = false

empty-IsSafe : IsSafe empty no_fds
empty-IsSafe = record { no_dangling = λ fd u. absurd (omega arith); all_present = refl }

calls_unused : OpensUnused calls no_fds
calls_unused s fd h = refl

written : Reach server no_fds served.server (table_after served.opened served.closed no_fds)
unfolding m_write same_path str_eq cstr has is_prefix cfg_add
written =
    write server no_fds _ _ true calls cfg_path 0 command served start calls_unused refl refl refl

Reach-IsSafe_example : IsSafe cfgs (table_after (some 5) (none ∷ []) no_fds)
Reach-IsSafe_example =
    Reach-IsSafe server no_fds served.server (table_after served.opened served.closed no_fds)
      empty-IsSafe written

abbrev add_second : Line
add_second = record {
  cmd = codes "add";
  filter = codes "pass";
  cpath = codes "/x";
  stratum = codes "arch";
  lpath = codes "/y";
  separated = true;
}

abbrev rm_only : Line
rm_only = record {
  cmd = codes "rm";
  filter = codes "pass";
  cpath = codes "/x";
  stratum = codes "void";
  lpath = codes "/y";
  separated = true;
}

at_most_one : (b : Bool) → ◌+◌ (if b then 1 else 0) 0 ≤ 1
at_most_one true = omega arith
at_most_one false = omega arith

cfgs-IsProper : IsProper cfgs
cfgs-IsProper = record {
  path_once = λ p. at_most_one (str_eq (codes "/x") p);
  back_once = λ l. grind arith;
}

add_line-refines_example :
    IsProper (add_line calls add_second 21 cfgs).cfgs
    × ((m : Line)
        → Holds (add_line calls add_second 21 cfgs).cfgs m ↔ (Holds cfgs m ⊎ Names m add_second))
unfolding add_line str_eq has
add_line-refines_example = add_line-refines calls add_second 21 cfgs cfgs-IsProper refl

rm_line-refines_example :
    IsProper (rm_line rm_only 19 cfgs).cfgs
    × ((m : Line) → Holds (rm_line rm_only 19 cfgs).cfgs m ↔ (Holds cfgs m × (Names m rm_only → ⊥)))
unfolding rm_line str_eq has
rm_line-refines_example = rm_line-refines rm_only 19 cfgs cfgs-IsProper refl

abbrev are_positive : Bytes → Bool
are_positive [] = true
are_positive (x ∷ s) = not (x == 0) && are_positive s

are_positive-All : (s : Bytes) → are_positive s ≡ true → All (λ x. 0 < x) s
are_positive-All [] h = tt
are_positive-All (x ∷ s) h = (ground arith, are_positive-All s (ground arith))

abbrev head_part : Bytes
head_part = codes "add pass /x "

abbrev tail_part : Bytes
tail_part = codes "void:/y\n"

m_write_fragments_example :
    (m_write true calls cfg_path 0 head_part server
      ≡ got (record { rv = pos 12; server = pending head_part server; opened = none; closed = [] }))
    × (visible (m_write true calls cfg_path 0 tail_part (pending head_part server))
        ≡ visible (m_write true calls cfg_path 0 command server))
unfolding has
m_write_fragments_example =
    m_write_fragments true calls head_part tail_part server (are_positive-All head_part refl)
      (are_positive-All tail_part refl) refl refl (omega arith) (omega arith) (omega arith)

length-letters : (n : ℕ) → length (replicate {A = ℕ} n 97) ≡ n
length-letters zero = refl
length-letters (suc n) = omega (arith, length-letters n)

letters-All : (n : ℕ) → All (λ x. 0 < x) (replicate {A = ℕ} n 97)
letters-All zero = tt
letters-All (suc n) = (omega arith, letters-All n)

m_write-overrun_example :
    m_write true calls cfg_path 0 (replicate 8100 97) (pending (replicate 200 97) server) ≡ overrun
m_write-overrun_example =
    m_write-overrun true calls (replicate 200 97) (replicate 8100 97) server refl (letters-All 8100)
      (omega (arith, length-letters 200)) (omega (arith, length-letters 200))
      (omega (arith, length-letters 200, length-letters 8100)) (omega (arith, length-letters 8100))

abbrev ini_file : List Bytes
ini_file = codes "Exec=/bin/vi\n" ∷ codes "Icon=/vi.png\n" ∷ codes "Name=vi\n" ∷ []

read_ini-window_example :
    read_ini (codes "void") ini_file 40 10 ≡ take 40 (drop 10 (text (codes "void") ini_file))
read_ini-window_example = read_ini-window (codes "void") ini_file 40 10

ini_size-text_example :
    ini_size (codes "void") ini_file (length (concat ini_file))
    ≡ length (text (codes "void") ini_file)
unfolding text first_entry same_start str_eq is_expanded
ini_size-text_example = ini_size-text (codes "void") ini_file (omega arith)

abbrev process : Process
process = record {
  root = 1;
  current_root_fd = 3;
  table = λ n. if n == 3 then some 1 else if n == 4 then some 2 else none;
}

local_request-stale_example :
    (local_request
      (λ d. true)
      (λ d. some d)
      none
      7
      6
      (local_request (λ d. true) (λ d. some d) none 7 5 process).1).0
    ≡ some 5
local_request-stale_example =
    local_request-stale (λ d. true) (λ d. some d) none 7 5 6 process (omega arith) refl

abbrev two_backs : List BackEntry
two_backs = (record back { name = codes "arch"; root_fd = some 6 }) ∷ back ∷ []

abbrev call : Option ℕ → Bytes → Attempt ℕ
call fd path = elim fd [ none ↦ failed 9 | some n ↦ if n == 5 then found 11 else failed 2 ]

abbrev caller : Caller
caller = record {
  context = true;
  proc_root = some 8;
  xattr = some (codes "void");
  virtual_root = none;
}

m_readlink-release_example :
    IsClean (m_readlink cfgs.entries local_alias_path 20 caller)
    ⊎ ((l : LocalStratum) × ((set_local_stratum caller).local_stratum ≡ some l)
        × (classify_ipath (λ e. e.cpath) cfgs.entries local_alias_path ≡ class_local)
        × (20 ≤ length strata_dir + l.name_len)
        × ((m_readlink cfgs.entries local_alias_path 20 caller).rv ≡ neg enametoolong)
        × IsStuck l (m_readlink cfgs.entries local_alias_path 20 caller))
m_readlink-release_example = m_readlink-release cfgs.entries local_alias_path 20 caller

call_sets : (fd : Option ℕ) (path : Bytes) (e : ℕ) → call fd path ≡ failed e → e ≢ 0
call_sets none path e h z = cc
call_sets (some n) path e h z = elim (Bool-cases (n == 5)) [
  | inl t ↦ ground arith
  | inr f ↦ ground arith
]

m_open-Admitted_example :
    (((m_open call 1 0 (codes "/x/z") 0 cfgs.entries caller).rv ≡ pos 0) ↔ (
      (l : LocalStratum) × ((set_local_stratum caller).local_stratum ≡ some l)
      × Admitted call 1 0 cfgs.entries
          (codes "/x/z")
          0
          l
          (classify_ipath (λ e. e.cpath) cfgs.entries (codes "/x/z"))))
    × IsClean (m_open call 1 0 (codes "/x/z") 0 cfgs.entries caller)
m_open-Admitted_example =
    m_open-Admitted call 1 0 cfgs.entries (codes "/x/z") 0 call_sets (omega arith) caller

abbrev no_names : NameTable
no_names = record { files = []; out_of_memory = false }

abbrev dot : NameTable
dot = record { files = codes "." ∷ []; out_of_memory = false }

abbrev dot_and_name : NameTable
dot_and_name = record { files = codes "." ∷ codes "x" ∷ []; out_of_memory = false }

abbrev pinned : CfgEntry
pinned = record entry { cpath = codes "/pin/bin/sv" }

virt_filldir-overrun_example :
    virt_filldir (λ fd p. true) 8 (λ s. true) (codes "/pin") (pinned ∷ cfgs.entries) no_names
    ≡ overrun
unfolding has
virt_filldir-overrun_example =
    virt_filldir-overrun (λ fd p. true) 8 (λ s. true) (codes "/pin") (codes "bin") (codes "sv")
      pinned cfgs.entries no_names refl refl (omega arith) (omega arith)

abbrev directory : Option ℕ → Bytes → Option (List (Bytes × Bool))
directory fd path = some ((codes "vi", true) ∷ (codes "gone", false) ∷ [])

filldir_all_bpath-lists_example :
    (is_listed
        (codes "vi")
        (filldir_all_bpath
          (λ fd p. false)
          directory
          (λ s. true)
          8
          (codes "/x")
          (codes "/x")
          two_backs
          dot).files
      ≡ true)
    ↔ ((is_listed (codes "vi") dot.files ≡ true)
        ⊎ InBacks (λ fd p. false) directory 8 (codes "/x") (codes "/x") two_backs (codes "vi"))
unfolding is_listed str_eq
filldir_all_bpath-lists_example =
    filldir_all_bpath-lists (λ fd p. false) directory 8 (codes "/x") (codes "/x") two_backs dot
      (codes ".") refl (codes "vi")
