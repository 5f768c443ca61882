-- ===== src/Collectors/Offload.antt =====
-- collectors/linux_ethtool_deep.go: the reading of what `ethtool` prints with -i, -g, -l and -T.
use rewsr_maxfields.Base.{
  Bool, true, false, not, ◌&&◌, ◌||◌, List, [], ◌∷◌, ◌++◌, Str, str, ◌==◌, str_eq, is_empty,
  if◌then◌else◌,
}
use rewsr_maxfields.Base.Dict.{Dict, insert}
use rewsr_maxfields.Base.Int.{ℤ, negsuc, is_pos}
use rewsr_maxfields.Text.Case.{to_lower}
use rewsr_maxfields.Text.Cut.{cut, has_prefix, has_suffix}
use rewsr_maxfields.Text.Space.{trim_space}
use rewsr_maxfields.Text.Split.{split}
use rewsr_maxfields.Collectors.Host.{atoi_or_zero}

abbrev pub is_driver_key : Str → Bool
is_driver_key key =
    key == str "driver"
    || key == str "version"
    || key == str "firmware-version"
    || key == str "bus-info"

unfoldable pub driver_line : Str → Dict Str Str → Dict Str Str
driver_line line info =
    let (key, value, found) = cut b':' line in
    if found && (is_driver_key (trim_space key) && not (is_empty (trim_space value)))
    then insert (trim_space key) (trim_space value) info
    else info

unfoldable pub driver_lines : List Str → Dict Str Str → Dict Str Str
driver_lines [] info = info
driver_lines (line ∷ lines) info = driver_lines lines (driver_line line info)

unfoldable pub parse_ethtool_driver_info : Str → Dict Str Str
parse_ethtool_driver_info out = driver_lines (split b'\n' out) []

-- The two maps, and whether the target is the current one.
pub record MaxCurrent : Type 0 where
  pub max : Dict Str ℤ
  pub current : Dict Str ℤ
  pub in_current : Bool

unfoldable pub put_setting : Str → Str → MaxCurrent → MaxCurrent
put_setting key value s =
    let name = to_lower (trim_space key) in
    if s.in_current
    then record s { current = insert name (atoi_or_zero value) s.current }
    else record s { max = insert name (atoi_or_zero value) s.max }

-- A trimmed line.
unfoldable pub setting_line : Str → MaxCurrent → MaxCurrent
setting_line line s =
    let (key, rest, found) = cut b':' line in
    let value = trim_space rest in
    if is_empty line
    then s
    else if has_prefix line (str "Pre-set maximums")
    then record s { in_current = false }
    else if has_prefix line (str "Current hardware settings")
    then record s { in_current = true }
    else if has_suffix line (str ":")
    then s
    else if not found
    then s
    else if value == str "n/a" || is_empty value
    then s
    else put_setting key value s

unfoldable pub setting_lines : List Str → MaxCurrent → MaxCurrent
setting_lines [] s = s
setting_lines (line ∷ lines) s = setting_lines lines (setting_line (trim_space line) s)

abbrev pub no_settings : MaxCurrent
no_settings = record { max = []; current = []; in_current = false }

unfoldable pub parse_ethtool_max_current : Str → MaxCurrent
parse_ethtool_max_current out = setting_lines (split b'\n' out) no_settings

-- The variables of the loop over the lines of `ethtool -T`.
pub record Timestamping : Type 0 where
  pub caps : List Str
  pub phc_index : ℤ
  pub in_caps : Bool

-- The index of the clock, which stays as it is for "none" and for what is no number.
unfoldable pub clock_index : Str → ℤ → ℤ
clock_index value old =
    if value == str "none"
    then old
    else if is_pos (atoi_or_zero value) || value == str "0"
    then atoi_or_zero value
    else old

-- A trimmed line.
unfoldable pub timestamping_line : Str → Timestamping → Timestamping
timestamping_line line s =
    if is_empty line
    then s
    else if has_prefix line (str "Capabilities:")
    then record s { in_caps = true }
    else if has_prefix line (str "PTP Hardware Clock:")
    then record s {
      phc_index = clock_index (trim_space (cut b':' line).1) s.phc_index;
      in_caps = false;
    }
    else if has_suffix line (str ":")
    then record s { in_caps = false }
    else if s.in_caps
    then record s { caps = s.caps ++ line ∷ [] }
    else s

unfoldable pub timestamping_lines : List Str → Timestamping → Timestamping
timestamping_lines [] s = s
timestamping_lines (line ∷ lines) s =
    timestamping_lines lines (timestamping_line (trim_space line) s)

abbrev pub no_timestamping : Timestamping
no_timestamping = record { caps = []; phc_index = negsuc 0; in_caps = false }

unfoldable pub parse_ethtool_timestamping : Str → Timestamping
parse_ethtool_timestamping out = timestamping_lines (split b'\n' out) no_timestamping
