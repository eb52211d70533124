-- ===== src/Keyboard.antt =====
-- src/keyboard_is_present/keyboard_is_present.c: searches /sys/class/input for a keyboard.
pub mod Words
pub mod Present
use bedrocklinux_userland.Base.{
  ℕ, zero, suc, ◌+◌, ◌*◌, ◌/◌, ◌%◌, ◌^◌, Bool, false, not, List, [], ◌∷◌, ◌++◌, Option, none, some,
  length, if◌then◌else◌, ◌==◌, leb,
}
use bedrocklinux_userland.CString.{Bytes, codes}

-- The file system: the names in a directory, whether a path is a directory, and the numbers that
-- `fscanf(f, "%x", ...)` reads from a file in turn. `none` is a failed `opendir` or `fopen`.
pub record Files : Type 0 where
  pub entries : Bytes → Option (List Bytes)
  pub is_dir : Bytes → Bool
  pub hex_words : Bytes → Option (List ℕ)

abbrev pub path_max : ℕ
path_max = 4096

abbrev pub ev_key : ℕ
ev_key = 1

abbrev pub keyboard_mask : ℕ
keyboard_mask = 4294967294

abbrev pub input_dir : Bytes
input_dir = codes "/sys/class/input"

-- `a & b`, on the lowest `w` bits.
unfoldable pub bit_and : ℕ → ℕ → ℕ → ℕ
bit_and zero a b = 0
bit_and (suc w) a b = (a % 2) * (b % 2) + 2 * bit_and w (a / 2) (b / 2)

-- `(bits & mask) == mask`, for `unsigned int`s.
unfoldable pub has_bits : ℕ → ℕ → Bool
has_bits bits mask = bit_and 32 bits mask == mask

-- `bits`, after a read of every number: the last, or the value before.
unfoldable pub last_word : ℕ → List ℕ → ℕ
last_word bits [] = bits
last_word bits (x ∷ xs) = last_word (x % 2 ^ 32) xs

-- `snprintf` into `path`: `none` where the buffer is too small.
unfoldable pub build_path : Bytes → Option Bytes
build_path s = if leb path_max (length s) then none else some s

abbrev pub device_path : Bytes → Bytes → Bytes
device_path name cap = input_dir ++ (codes "/" ++ (name ++ (codes "/" ++ cap)))

-- What a pass through the loop does next.
pub data Step : Type 0 where
  go_on found failed : Step

-- A file of a device is read and its last word tested.
unfoldable pub file_has_bits : Files → Bytes → ℕ → Bool
unfolding has_bits last_word
file_has_bits fs path mask = elim (fs.hex_words path) [
  | none ↦ false
  | some words ↦ has_bits (last_word 0 words) mask
]

unfoldable pub check_key : Files → Option Bytes → Step
unfolding file_has_bits
check_key fs none = failed
check_key fs (some path) = if file_has_bits fs path keyboard_mask then found else go_on

unfoldable pub check_ev : Files → Bytes → Bytes → Option Bytes → Step
unfolding file_has_bits check_key build_path
check_ev fs name cap none = failed
check_ev fs name cap (some path) =
    if not (file_has_bits fs path ev_key)
    then go_on
    else check_key fs (build_path (device_path name (cap ++ codes "/key")))

-- The directory of the capabilities is known: test it, then its two files.
unfoldable pub check_dir : Files → Bytes → Bytes → Bytes → Step
unfolding check_ev build_path
check_dir fs name cap path =
    if not (fs.is_dir path)
    then go_on
    else check_ev fs name cap (build_path (device_path name (cap ++ codes "/ev")))

unfoldable pub check_device_dir : Files → Bytes → Option Bytes → Step
unfolding check_dir
check_device_dir fs name none = failed
check_device_dir fs name (some path) = check_dir fs name (codes "device/capabilities") path

unfoldable pub check_capabilities : Files → Bytes → Option Bytes → Step
unfolding check_device_dir check_dir build_path
check_capabilities fs name none = failed
check_capabilities fs name (some path) =
    if not (fs.is_dir path)
    then check_device_dir fs name (build_path (device_path name (codes "device/capabilities")))
    else check_dir fs name (codes "capabilities") path

-- The body of the loop, for the name of an entry.
unfoldable pub check_entry : Files → Bytes → Step
unfolding check_capabilities build_path
check_entry fs [] = check_capabilities fs [] (build_path (device_path [] (codes "capabilities")))
check_entry fs (c ∷ name) =
    if c == b'.'
    then go_on
    else check_capabilities fs (c ∷ name)
        (build_path (device_path (c ∷ name) (codes "capabilities")))

unfoldable pub check_entries : Files → List Bytes → ℕ
unfolding check_entry
check_entries fs [] = 1
check_entries fs (name ∷ names) =
    let rest = check_entries fs names in
    elim (check_entry fs name) [ go_on ↦ rest | found ↦ 0 | failed ↦ 2 ]

-- `main`
unfoldable pub main : Files → ℕ
unfolding check_entries
main fs = elim (fs.entries input_dir) [ none ↦ 2 | some names ↦ check_entries fs names ]
