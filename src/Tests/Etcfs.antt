-- ===== src/Tests/Etcfs.antt =====
-- Files and requests of src/etcfs/etcfs.c.
use bedrocklinux_userland.Base.{
  sym, ℕ, ◌+◌, drop, ap, ◌≡◌, inl, refl, true, [], ◌∷◌, none, some, map, concat, length, arith,
}
use bedrocklinux_userland.CString.{Bytes, codes, is_prefix}
use bedrocklinux_userland.Etcfs.Config.{global_ref, local_ref}
use bedrocklinux_userland.Etcfs.Files.{file, Disk}
use bedrocklinux_userland.Etcfs.Search.{contains, file_search, file_search-contains}
use bedrocklinux_userland.Etcfs.Inject.{Calls as InjectCalls, Result, tmp_file}
use bedrocklinux_userland.Etcfs.Inject.Atomic.{Regular, Outcome}
use bedrocklinux_userland.Etcfs.Uninject.{Calls as UninjectCalls, uninject, strstr, search}
use bedrocklinux_userland.Etcfs.Uninject.Removed.{
  Regular as RegularFile, Outcome as Left, uninject-Outcome,
}
use bedrocklinux_userland.Etcfs.Rename.{
  Calls as RenameCalls, Item, Files, regular, unmoved, chunk, exdev, m_rename,
}
use bedrocklinux_userland.Etcfs.Rename.Copied.{Kept}
use bedrocklinux_userland.Etcfs.Rename.Kept.{Sound, m_rename-Kept}

-- The string crosses the reads.
file_search-contains_example :
    file_search (codes "bc") [] (map some (codes "ab" ∷ codes "cd" ∷ []))
    ≡ some (contains (codes "bc") (concat (codes "ab" ∷ codes "cd" ∷ [])))
file_search-contains_example =
    file_search-contains (codes "bc") (codes "ab") (codes "cd" ∷ []) (omega arith) (omega arith)

-- `/etc/x` holds "ab".
abbrev one_file : Disk
one_file p = some (file (codes "ab"))

abbrev inject_calls : InjectCalls
inject_calls = record {
  open_works = true;
  fstat = some 2;
  search_reads = some (codes "ab") ∷ [];
  unlink_works = true;
  create_works = true;
  lseek_works = true;
  copies = some (codes "ab", some 2) ∷ [];
  append = some 2;
  rename_works = true;
  cleaned = true;
}

-- A file with a string in the middle.
abbrev three_parts : Disk
three_parts p = some (file (codes "abcd"))

abbrev uninject_calls : UninjectCalls
uninject_calls = record {
  open_works = true;
  fstat = some 4;
  searched = (some (codes "abcd"), true) ∷ [];
  unlink_works = true;
  create_works = true;
  rewind_works = true;
  copies = some (codes "abcd", some 4) ∷ [];
  ftruncate_works = true;
  lseek_works = true;
  lseek_tmp_works = true;
  rest = some (codes "d", some 1) ∷ [];
  rename_works = true;
  cleaned = true;
}

some_four : (n : ℕ) → some 4 ≡ some n → n ≡ 4
some_four n h = cc

found_bc : strstr (codes "bc") (codes "abcd") ≡ some (some 1)
unfolding strstr is_prefix
found_bc = refl

behind_bc :
    (i : ℕ)
    → search (codes "bc") 0 uninject_calls.searched ≡ some (some i)
    → codes "d" ≡ drop (i + length (codes "bc")) (codes "abcd")
unfolding search strstr is_prefix
behind_bc i h = ap (λ n. drop (n + 2) (codes "abcd")) (index h)
  where
    index : some (some 1) ≡ some (some i) → 1 ≡ i
    index e = cc

three_parts-Regular : RegularFile uninject_calls (codes "x") (codes "bc") (codes "abcd") three_parts
three_parts-Regular = record {
  there = refl;
  sized = λ n h. some_four n h;
  found = λ h. (codes "abcd", [], true, [], refl, refl, (1, found_bc));
  copied_parts = (refl, (codes "", refl, refl));
  rest_parts = λ i h. (refl, (codes "", sym (behind_bc i h), refl));
  fresh = inl refl;
}

uninject-Outcome_example :
    (r : Result) × (uninject uninject_calls (codes "x") (codes "bc") three_parts ≡ some r)
    × Left
        (tmp_file inject_calls (codes "x") (codes "bc"))
        (codes "x")
        (codes "bc")
        (codes "abcd")
        three_parts
        r
uninject-Outcome_example =
    uninject-Outcome uninject_calls (codes "x") (codes "bc") (codes "abcd") three_parts
      three_parts-Regular

-- A regular file that is moved to another mount point.
abbrev data_file : Item
data_file = record { content = regular (codes "data"); owner = (1000, 100); mode = 33188 }

abbrev files : Files
files global_ref p = none
files local_ref p = some data_file

abbrev rename_calls : RenameCalls
rename_calls = record {
  rename_files = unmoved exdev;
  fstatat = none;
  mknodat = none;
  readlinkat = none;
  symlinkat = none;
  mkdirat = none;
  tid = codes "42";
  unlinked = true;
  open_to = none;
  open_from = none;
  ftruncate = none;
  copies = chunk (codes "da") 2 ∷ chunk (codes "ta") 2 ∷ [];
  rename_tmp = none;
  fchownat = none;
  fchmodat = none;
  unlinkat = none;
  close_again = some 9;
  caller = (0, 0);
}

data_bytes : (s : Bytes) → regular (codes "data") ≡ regular s → s ≡ codes "data"
data_bytes s h = cc

files-Sound : Sound rename_calls local_ref (codes "a") global_ref (codes "b") data_file files
files-Sound = record {
  apart = refl;
  apart_tmp = refl;
  there = refl;
  moves = λ after h. cc;
  sets = record {
    fstatat = tt;
    mknodat = tt;
    readlinkat = tt;
    symlinkat = tt;
    mkdirat = tt;
    open_to = tt;
    open_from = tt;
    ftruncate = tt;
    rename_tmp = tt;
    fchownat = tt;
    fchmodat = tt;
    unlinkat = tt;
    close_again = λ h. cc;
  };
  not_moved = λ e h z. cc;
  follows = λ s h. (refl, (codes "ta", data_bytes s h, (refl, (codes "", refl, refl))));
}

m_rename-Kept_example :
    Kept rename_calls local_ref
      (codes "a")
      global_ref
      (codes "b")
      data_file
      refl
      files-Sound.sets
      (m_rename rename_calls local_ref (codes "a") global_ref (codes "b") 0 files)
m_rename-Kept_example =
    m_rename-Kept rename_calls local_ref (codes "a") global_ref (codes "b") data_file files 0
      files-Sound
