-- ===== src/Collectors/Devinfo.antt =====
-- collectors/linux_rdma.go: `parseIbvDevinfo`, the reading of what `ibv_devinfo` prints.
pub mod Entries
pub mod Blocks
use rewsr_maxfields.Base.{
  Bool, true, false, Option, none, some, List, [], ◌∷◌, ◌++◌, Str, str, ◌==◌, nat_eq, str_eq,
  if◌then◌else◌,
}
use rewsr_maxfields.Text.Case.{to_upper}
use rewsr_maxfields.Text.Cut.{cut, trim_prefix}
use rewsr_maxfields.Text.Decimal.{atoi_value}
use rewsr_maxfields.Text.Space.{trim_space}
use rewsr_maxfields.Text.Split.{split}
use rewsr_maxfields.Collectors.Sections.{RdmaDevice}

-- The variables of the loop; `cur` is the port block that is open.
pub record Devinfo : Type 0 where
  pub devices : List RdmaDevice
  pub hca : Str
  pub transport : Str
  pub fw_ver : Str
  pub cur : Option RdmaDevice

-- "InfiniBand (0)" becomes "InfiniBand".
unfoldable pub trim_parenthetical : Str → Str
trim_parenthetical v = let (head, _, found) = cut b'(' v in if found then trim_space head else v

unfoldable pub normalize_ibv_port_state : Str → Str
normalize_ibv_port_state s = to_upper (trim_prefix s (str "PORT_"))

-- The open block is appended to the devices, and closed.
unfoldable pub flush : Devinfo → Devinfo
flush d = elim d.cur [
  | none ↦ d
  | some port ↦ record d { devices = d.devices ++ port ∷ []; cur = none }
]

abbrev pub set_cur : (RdmaDevice → RdmaDevice) → Option RdmaDevice → Option RdmaDevice
set_cur f none = none
set_cur f (some port) = some (f port)

unfoldable pub open_port : Str → Devinfo → RdmaDevice
open_port value d = record {
  device = d.hca;
  port = atoi_value value;
  state = [];
  physical_state = [];
  netdev = [];
  link_layer = [];
  transport = d.transport;
  firmware_ver = d.fw_ver;
}

unfoldable pub devinfo_entry : Str → Str → Devinfo → Devinfo
devinfo_entry key value d =
    if key == str "hca_id"
    then record (flush d) { hca = value; transport = []; fw_ver = [] }
    else if key == str "transport"
    then record d { transport = trim_parenthetical value }
    else if key == str "fw_ver"
    then record d { fw_ver = value }
    else if key == str "port"
    then record (flush d) { cur = some (open_port value d) }
    else if key == str "state"
    then record d {
      cur =
          set_cur
            (λ port. record port { state = normalize_ibv_port_state (trim_parenthetical value) })
            d.cur;
    }
    else if key == str "link_layer"
    then record d { cur = set_cur (λ port. record port { link_layer = value }) d.cur }
    else d

unfoldable pub devinfo_line : Str → Devinfo → Devinfo
devinfo_line line d =
    let (key, value, found) = cut b':' line in
    if found then devinfo_entry (trim_space key) (trim_space value) d else d

unfoldable pub devinfo_lines : List Str → Devinfo → Devinfo
devinfo_lines [] d = d
devinfo_lines (line ∷ lines) d = devinfo_lines lines (devinfo_line line d)

abbrev pub no_devinfo : Devinfo
no_devinfo = record { devices = []; hca = []; transport = []; fw_ver = []; cur = none }

unfoldable pub parse_ibv_devinfo : Str → List RdmaDevice
parse_ibv_devinfo out = (flush (devinfo_lines (split b'\n' out) no_devinfo)).devices
