-- ===== src/Etcfs/Printed.antt =====
-- `cfg_read` of src/etcfs/etcfs.c: the text of the configuration, built in a buffer of the size
-- that the commands keep account of.
use bedrocklinux_userland.Base.{
  ℕ, ◌≤◌, ◌<◌, ◌≡◌, ◌||◌, ◌&&◌, not, List, [], ◌∷◌, ◌++◌, length, take, drop, length-append, arith,
  if◌then◌else◌, ltb, ◌==◌,
}
use bedrocklinux_userland.CString.{Bytes, codes}
use bedrocklinux_userland.Etcfs.Config.{o_type_str, Override, Config}
use bedrocklinux_userland.Etcfs.Commands.{global_line_length, override_line_length}
use bedrocklinux_userland.Etcfs.Arrays.{total}
use bedrocklinux_userland.Etcfs.Invariant.{IsValid}

unfoldable pub global_lines : List Bytes → Bytes
global_lines [] = []
global_lines (g ∷ gs) = codes "global " ++ (g ++ (codes "\n" ++ global_lines gs))

unfoldable pub override_lines : List Override → Bytes
override_lines [] = []
override_lines (o ∷ os) =
    codes "override "
    ++ (o_type_str o.otype
        ++ (codes " "
            ++ (o.path ++ (codes " " ++ (o.content ++ (codes "\n" ++ override_lines os))))))

-- What the calls of `strcat` append to `str`.
unfoldable pub config_text : Config → Bytes
unfolding global_lines override_lines
config_text c = global_lines c.globals ++ override_lines c.overrides

-- How a read goes: the bytes it copies, or an access to bytes of `str` that are not there or not
-- set. `malloc` is taken not to fail.
pub data Reading : Type 0 where
  copied : Bytes → Reading
  out_of_buffer : Reading

-- `cfg_read(buf, size, offset)`: `str` has `st_size + 1` bytes, of which `memset` sets `st_size`.
-- The last is set by `strcat`, where the text has that length and is not empty.
unfoldable pub cfg_read : Config → ℕ → ℕ → Reading
unfolding config_text
cfg_read c size offset =
    let text = config_text c in
    if ltb c.st_size (length text)
    then out_of_buffer
    else if ltb offset c.st_size || (offset == length text && not (length text == 0))
    then copied (take size (drop offset text))
    else out_of_buffer

length-global_lines : (gs : List Bytes) → length (global_lines gs) ≡ total global_line_length gs
unfolding global_lines
length-global_lines [] = omega arith
length-global_lines (g ∷ gs) =
    omega (arith, length-global_lines gs, length-append g (codes "\n" ++ global_lines gs))

length-override_lines :
    (os : List Override) → length (override_lines os) ≡ total override_line_length os
unfolding override_lines
length-override_lines [] = omega arith
length-override_lines (o ∷ os) =
    let tail = codes "\n" ++ override_lines os in
    omega (
      arith,
      length-override_lines os,
      length-append o.content tail,
      length-append o.path (codes " " ++ (o.content ++ tail)),
      length-append (o_type_str o.otype)
          (codes " " ++ (o.path ++ (codes " " ++ (o.content ++ tail)))),
    )

-- The account of the commands is the length of the text.
pub length-config_text : (c : Config) → IsValid c → length (config_text c) ≡ c.st_size
unfolding config_text
length-config_text c v = omega (
  arith,
  length-append (global_lines c.globals) (override_lines c.overrides),
  length-global_lines c.globals,
  length-override_lines c.overrides,
  v.size_exact,
)

-- Where the configuration is valid and not empty, a read at an offset up to `st_size` stays inside
-- the buffer, and copies the bytes of the text from the offset on, up to the size asked for.
pub cfg_read-IsValid :
    (c : Config) (size offset : ℕ)
    → IsValid c
    → 0 < c.st_size
    → offset ≤ c.st_size
    → cfg_read c size offset ≡ copied (take size (drop offset (config_text c)))
unfolding cfg_read
cfg_read-IsValid c size offset v pos le = ground (arith, length-config_text c v)
