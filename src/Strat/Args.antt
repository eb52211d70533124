-- ===== src/Strat/Args.antt =====
-- `parse_args` of src/strat/strat.c.
pub mod Laws
use bedrocklinux_userland.Base.{
  Bool, true, false, ◌||◌, List, [], ◌∷◌, Option, none, some, if◌then◌else◌,
}
use bedrocklinux_userland.CString.{Bytes, codes, str_eq}

-- The variables that `parse_args` fills. `arglist` holds the arguments up to the NULL.
pub record Args : Type 0 where
  pub flag_help : Bool
  pub flag_restrict : Bool
  pub flag_unrestrict : Bool
  pub param_stratum : Option Bytes
  pub param_arg0 : Option Bytes
  pub param_arglist : List Bytes

pub data Opt : Type 0 where
  help restrict unrestrict arg0 other : Opt

abbrev is_either : Bytes → Bytes → Bytes → Bool
is_either short long arg = str_eq arg short || str_eq arg long

-- Which option the loop takes `argv[0]` for.
unfoldable pub option_of : Bytes → Opt
option_of arg =
    if is_either (codes "-h") (codes "--help") arg
    then help
    else if is_either (codes "-r") (codes "--restrict") arg
    then restrict
    else if is_either (codes "-u") (codes "--unrestrict") arg
    then unrestrict
    else if is_either (codes "-a") (codes "--arg0") arg
    then arg0
    else other

-- What stands behind the loop: the next argument is the stratum.
abbrev pub take_stratum : Bytes → List Bytes → Args → Option Args
take_stratum s rest a = some (record a { param_stratum = some s; param_arglist = rest })

-- The loop over the arguments behind argv[0]. `none` is the `exit(1)` for a missing stratum; `-a`
-- as the last argument is no option.
unfoldable pub scan_args : List Bytes → Args → Option Args
scan_args [] a = none
scan_args (x ∷ []) a = elim (option_of x) [
  | help ↦ some (record a { flag_help = true })
  | restrict ↦ none
  | unrestrict ↦ none
  | arg0 ↦ take_stratum x [] a
  | other ↦ take_stratum x [] a
]
scan_args (x ∷ y ∷ rest) a = elim (option_of x) [
  | help ↦ some (record a { flag_help = true })
  | restrict ↦ scan_args (y ∷ rest) (record a { flag_restrict = true })
  | unrestrict ↦ scan_args (y ∷ rest) (record a { flag_unrestrict = true })
  | arg0 ↦ scan_args rest (record a { param_arg0 = some y })
  | other ↦ take_stratum x (y ∷ rest) a
]

abbrev pub no_args : Args
no_args = record {
  flag_help = false;
  flag_restrict = false;
  flag_unrestrict = false;
  param_stratum = none;
  param_arg0 = none;
  param_arglist = [];
}

abbrev behind_first : List Bytes → List Bytes
behind_first [] = []
behind_first (x ∷ xs) = xs

-- `argv` holds the argc arguments, the program's name first.
unfoldable pub parse_args : List Bytes → Option Args
unfolding scan_args option_of
parse_args argv = scan_args (behind_first argv) no_args
