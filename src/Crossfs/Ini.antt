-- ===== src/Crossfs/Ini.antt =====
-- The ini filter of src/crossfs/crossfs.c: FILTER_INI in `read_back`, which writes the file with
-- some values changed, and in `getattr_back`, which counts its size.
pub mod Text
pub mod Size
use bedrocklinux_userland.Base.{
  concat, ℕ, zero, suc, ◌+◌, ◌-◌, ◌≤◌, ◌<◌, ◌^◌, ◌%◌, ◌≡◌, ◌≢◌, refl, sym, ap, ◌∙◌, Bool, true,
  false, not, ◌&&◌, List, [], ◌∷◌, ◌++◌, Option, none, some, length, take, drop, if◌then◌else◌, leb,
  arith, ◌==◌, ==_iff, length-append, length-take, length-drop, min, append_assoc, append-nil,
  Bool-cases, Option-cases, inl, inr, ◌⊎◌, subst,
}
use bedrocklinux_userland.CString.{Bytes, codes, str_eq}
use bedrocklinux_userland.CString.Laws.{str_eq_iff}
use bedrocklinux_userland.Crossfs.Commands.{size_add}
use bedrocklinux_userland.Crossfs.Paths.{char_at}
use bedrocklinux_userland.Crossfs.Read.{Output, strcatoff_all, strcatoff_all-take}

abbrev pub strat_path : Bytes
strat_path = codes "/bedrock/bin/strat"

abbrev pub strata_dir : Bytes
strata_dir = codes "/bedrock/strata/"

-- `ini_inject_strat_str`, with `ini_inject_strat_len`
abbrev pub ini_inject_strat : List (Bytes × ℕ)
ini_inject_strat =
    (codes "Exec=", 5)
    ∷ (codes "ExecReload=", 11)
    ∷ (codes "ExecStart=", 10)
    ∷ (codes "ExecStartPost=", 14)
    ∷ (codes "ExecStartPre=", 13)
    ∷ (codes "ExecStop=", 9)
    ∷ (codes "ExecStopPost=", 13)
    ∷ []

-- `ini_expand_path_str`, with `ini_expand_path_len`
abbrev pub ini_expand_path : List (Bytes × ℕ)
ini_expand_path = (codes "Icon=", 5) ∷ (codes "Path=", 5) ∷ (codes "TryExec=", 8) ∷ []

-- `strncmp(a, b, n) == 0`
unfoldable pub same_start : ℕ → Bytes → Bytes → Bool
same_start n a b = str_eq (take n a) (take n b)

-- The test of the second loop.
unfoldable pub is_expanded : Bytes → Bytes × ℕ → Bool
unfolding same_start char_at
is_expanded line (key, len) = same_start len line key && char_at line len == b'/'

-- `name` is that of the stratum, `size` that of the buffer.
module _ (name : Bytes) (size : ℕ) (line : Bytes) where
  -- The loop over `ini_inject_strat_str`, which breaks at the first that fits; whether one did is `found`.
  unfoldable pub inject_strat : List (Bytes × ℕ) → Output → Bool × Output
  unfolding same_start strcatoff_all
  inject_strat [] o = (false, o)
  inject_strat ((key, len) ∷ keys) o =
      if same_start len line key
      then (
        true,
        strcatoff_all size
            (take len key ∷ strat_path ∷ codes " " ∷ name ∷ codes " " ∷ drop len line ∷ []) o,
      )
      else inject_strat keys o

  -- The loop over `ini_expand_path_str`, which has no break.
  unfoldable pub expand_path : List (Bytes × ℕ) → Bool × Output → Bool × Output
  unfolding is_expanded strcatoff_all
  expand_path [] r = r
  expand_path ((key, len) ∷ keys) (found, o) =
      if is_expanded line (key, len)
      then expand_path keys
          (true, strcatoff_all size (take len key ∷ strata_dir ∷ name ∷ drop len line ∷ []) o)
      else expand_path keys (found, o)

  abbrev pub unless_found : Bool × Output → Output
  unless_found (true, o) = o
  unless_found (false, o) = strcatoff_all size (line ∷ []) o

  -- What the loop over the lines does with a line.
  unfoldable pub read_line : Output → Output
  unfolding inject_strat expand_path
  read_line o = unless_found (expand_path ini_expand_path (inject_strat ini_inject_strat o))

-- The loop over the lines, `lines` being what the calls of `fgets` read.
unfoldable pub read_lines : Bytes → ℕ → List Bytes → Output → Output
unfolding read_line
read_lines name size [] o = o
read_lines name size (line ∷ lines) o =
    let next = read_line name size line o in
    let rest = read_lines name size lines next in if leb size (length next.out) then next else rest

-- The bytes that a read of `size` bytes at `offset` writes.
unfoldable pub read_ini : Bytes → List Bytes → ℕ → ℕ → Bytes
unfolding read_lines
read_ini name lines size offset =
    (read_lines name size lines (record { out = []; offset = offset })).out

-- The two loops of `getattr_back` over the keys.
unfoldable pub count_inject : Bytes → Bytes → List (Bytes × ℕ) → ℕ → ℕ
unfolding same_start
count_inject name line [] st_size = st_size
count_inject name line ((key, len) ∷ keys) st_size =
    if same_start len line key
    then size_add (size_add (size_add (size_add st_size (length strat_path)) 1) (length name)) 1
    else count_inject name line keys st_size

unfoldable pub count_expand : Bytes → Bytes → List (Bytes × ℕ) → ℕ → ℕ
unfolding is_expanded
count_expand name line [] st_size = st_size
count_expand name line ((key, len) ∷ keys) st_size =
    if is_expanded line (key, len)
    then count_expand name line keys (size_add (size_add st_size (length strata_dir)) (length name))
    else count_expand name line keys st_size

-- The size after the loop over the lines.
unfoldable pub ini_size : Bytes → List Bytes → ℕ → ℕ
unfolding count_inject count_expand
ini_size name [] st_size = st_size
ini_size name (line ∷ lines) st_size =
    ini_size name lines
      (count_expand name line ini_expand_path (count_inject name line ini_inject_strat st_size))
