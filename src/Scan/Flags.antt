-- ===== src/Scan/Flags.antt =====
-- The flags of `scan` in cmd/rewsr-maxfields/main.go, as the package `flag` reads them.
use rewsr_maxfields.Base.{
  Bool, true, false, not, ◌||◌, Option, none, some, List, [], ◌∷◌, Str, str, ◌==◌, nat_eq, str_eq,
  is_empty, contains, if◌then◌else◌,
}
use rewsr_maxfields.Text.Cut.{cut}

pub record ScanFlags : Type 0 where
  pub as_json : Bool
  pub verbose : Bool

-- Both flags are false by default.
abbrev pub unset : ScanFlags
unset = record { as_json = false; verbose = false }

-- With `flag.ExitOnError` the process ends where help is wanted or a flag is bad.
pub data Parsed : Type 0 where
  flags : ScanFlags → Parsed
  wants_help : Parsed
  bad_flag : Parsed

-- An argument that ends the flags, one that is no flag although it looks like one, or a name with what
-- stands behind it.
pub data Word : Type 0 where
  stop : Word
  malformed : Word
  named : Str → Word

unfoldable pub name_word : Str → Word
name_word [] = malformed
name_word (c ∷ s) = if c == b'-' || c == b'=' then malformed else named (c ∷ s)

unfoldable pub flag_word : Str → Word
flag_word [] = stop
flag_word (a ∷ []) = stop
flag_word (a ∷ c ∷ s) =
    if not (a == b'-')
    then stop
    else if c == b'-'
    then (if is_empty s then stop else name_word s)
    else name_word (c ∷ s)

-- `strconv.ParseBool`
unfoldable pub parse_bool : Str → Option Bool
parse_bool s =
    if contains s (str "1" ∷ str "t" ∷ str "T" ∷ str "TRUE" ∷ str "true" ∷ str "True" ∷ [])
    then some true
    else if contains s (str "0" ∷ str "f" ∷ str "F" ∷ str "FALSE" ∷ str "false" ∷ str "False" ∷ [])
    then some false
    else none

-- The value of a flag that is given: without `=` it is true.
unfoldable pub flag_value : Str × Bool → Option Bool
flag_value (text, given) = if given then parse_bool text else some true

unfoldable pub set_flag : ScanFlags → Str → Option Bool → Parsed
set_flag fl name value =
    if name == str "json"
    then elim value [ none ↦ bad_flag | some b ↦ flags (record fl { as_json = b }) ]
    else if name == str "verbose"
    then elim value [ none ↦ bad_flag | some b ↦ flags (record fl { verbose = b }) ]
    else if name == str "help" || name == str "h"
    then wants_help
    else bad_flag

-- The name ends before the first `=`.
unfoldable pub take_flag : ScanFlags → Str → Parsed
take_flag fl s = let parts = cut b'=' s in set_flag fl parts.0 (flag_value (parts.1, parts.2))

unfoldable pub parse_flags : ScanFlags → List Str → Parsed
unfolding flag_word take_flag
parse_flags fl [] = flags fl
parse_flags fl (a ∷ args) = elim (flag_word a) [
  | stop ↦ flags fl
  | malformed ↦ bad_flag
  | named s ↦ elim (take_flag fl s) [
    | wants_help ↦ wants_help
    | bad_flag ↦ bad_flag
    | flags next ↦ parse_flags next args
  ]
]
