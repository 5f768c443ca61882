-- ===== src/Collectors/Rdma.antt =====
-- collectors/linux_rdma.go: the RDMA ports of a host. The decoding of the JSON that `rdma` prints is a
-- parameter.
pub mod Listing
pub mod Ports
mod Tests
use rewsr_maxfields.Base.{
  Bool, true, false, ◌&&◌, ◌||◌, Option, none, some, List, [], ◌∷◌, ◌++◌, map, Str, str, ◌==◌,
  str_eq, is_empty, if◌then◌else◌,
}
use rewsr_maxfields.Base.Int.{ℤ}
use rewsr_maxfields.Text.Case.{equal_fold}
use rewsr_maxfields.Text.Decimal.{itoa}
use rewsr_maxfields.Text.Space.{trim_space}
use rewsr_maxfields.Facts.Types.{ServerFacts}
use rewsr_maxfields.Facts.Build.{Result, ok, err}
use rewsr_maxfields.Collectors.Host.{Host, Tools, observed, add_cap, require_command}
use rewsr_maxfields.Collectors.Sections.{RdmaDevice, Section, rdma}
use rewsr_maxfields.Collectors.Devinfo.{parse_ibv_devinfo}

-- `rdmaLinkEntry`
pub record RdmaLinkEntry : Type 0 where
  pub if_index : ℤ
  pub if_name : Str
  pub port : ℤ
  pub state : Str
  pub physical_state : Str
  pub netdev : Str

unfoldable pub device_of_entry : RdmaLinkEntry → RdmaDevice
device_of_entry e = record {
  device = e.if_name;
  port = e.port;
  state = e.state;
  physical_state = e.physical_state;
  netdev = e.netdev;
  link_layer = [];
  transport = [];
  firmware_ver = [];
}

abbrev pub infiniband_path : Str → Str → Str
infiniband_path device rest = str "sys/class/infiniband/" ++ (device ++ (str "/" ++ rest))

-- A field that is set stays; one that is not is read, where the file is readable.
unfoldable pub fill : Host → Str → Str → Str
fill h value path =
    if is_empty value
    then elim (h.read_file path) [ none ↦ value | some text ↦ trim_space text ]
    else value

unfoldable pub enrich_from_sysfs : Host → RdmaDevice → RdmaDevice
enrich_from_sysfs h d = record d {
  link_layer =
      fill h d.link_layer
        (infiniband_path d.device (str "ports/" ++ (itoa d.port ++ str "/link_layer")));
  firmware_ver = fill h d.firmware_ver (infiniband_path d.device (str "fw_ver"));
}

-- The three flags of the loop over the devices.
pub record SeenLinks : Type 0 where
  pub saw_ib : Bool
  pub saw_roce : Bool
  pub saw_active : Bool

unfoldable pub see_link : RdmaDevice → SeenLinks → SeenLinks
see_link d s = record {
  saw_ib = if d.link_layer == str "InfiniBand" then true else s.saw_ib;
  saw_roce = if d.link_layer == str "Ethernet" then true else s.saw_roce;
  saw_active = if equal_fold d.state (str "ACTIVE") then true else s.saw_active;
}

unfoldable pub see_links : List RdmaDevice → SeenLinks → SeenLinks
see_links [] s = s
see_links (d ∷ ds) s = see_links ds (see_link d s)

abbrev pub no_links : SeenLinks
no_links = record { saw_ib = false; saw_roce = false; saw_active = false }

unfoldable pub rdma_capabilities : List RdmaDevice → List Str
rdma_capabilities ds =
    let s = see_links ds no_links in
    add_cap (str "rdma_active") s.saw_active
      (add_cap (str "roce") s.saw_roce (add_cap (str "infiniband") s.saw_ib (str "rdma" ∷ [])))

-- Facts without a device carry nothing.
unfoldable pub report_rdma :
    Host → Str → Result (List RdmaDevice) → Option (ServerFacts Section) × Option Str
report_rdma h server_id (err e) = (some (observed (str "linux_rdma") h server_id), some e)
report_rdma h server_id (ok found) =
    let f = observed (str "linux_rdma") h server_id in
    let devices = map (enrich_from_sysfs h) found in
    (
      some (
          if is_empty devices then f else record f {
            raw = some ((str "rdma", rdma devices) ∷ []);
            network_modes = str "rdma" ∷ [];
            capabilities = rdma_capabilities devices;
          }),
      none,
    )

module _ (decode : Str → Result (List RdmaLinkEntry)) where
  unfoldable pub parse_rdma_link_json : Str → Result (List RdmaDevice)
  parse_rdma_link_json out = elim (decode out) [
    | err e ↦ err e
    | ok entries ↦ ok (map device_of_entry entries)
  ]

  -- `rdma` where it is installed, `ibv_devinfo` where only that is, and otherwise the errors of both.
  unfoldable pub gather : Tools → Result (List RdmaDevice)
  gather t = elim (require_command t (str "rdma")) [
    | none ↦ elim (t.run (str "rdma") (str "link" ∷ str "show" ∷ str "-j" ∷ [])) [
      | err e ↦ err e
      | ok out ↦ parse_rdma_link_json out
    ]
    | some no_rdma ↦ elim (require_command t (str "ibv_devinfo")) [
      | none ↦ elim (t.run (str "ibv_devinfo") []) [
        | err e ↦ err e
        | ok out ↦ ok (parse_ibv_devinfo out)
      ]
      | some no_devinfo ↦ err (no_rdma ++ (str "; " ++ no_devinfo))
    ]
  ]

  unfoldable pub list_devices : Option Tools → Result (List RdmaDevice)
  list_devices none = err (str "rdma collector: no CommandRunner configured")
  list_devices (some t) = elim (gather t) [
    | err e ↦ err (str "rdma collector: " ++ e)
    | ok devices ↦ ok devices
  ]

  unfoldable pub collect_rdma :
      Option Tools → Host → Str → Option (ServerFacts Section) × Option Str
  collect_rdma t h server_id = report_rdma h server_id (list_devices t)
