-- ===== src/Collectors/Nic.antt =====
-- collectors/linux_nic.go: the NICs from what `ip`, `ethtool` and sysfs say. The decoding of the JSON that
-- `ip` prints is a parameter, and so is what `os.Readlink` answers for a path.
use rewsr_maxfields.Base.{
  Bool, not, ◌||◌, Option, none, some, List, [], ◌∷◌, ◌++◌, Str, str, ◌==◌, nat_eq, str_eq,
  is_empty, if◌then◌else◌,
}
use rewsr_maxfields.Base.Int.{ℤ, pos, is_pos, quot_ℤ}
use rewsr_maxfields.Text.Cut.{cut, cut_last, has_prefix, trim_right_at}
use rewsr_maxfields.Text.Decimal.{atoi}
use rewsr_maxfields.Text.Space.{trim_space}
use rewsr_maxfields.Text.Split.{split}
use rewsr_maxfields.Facts.Types.{ServerFacts, NicFacts}
use rewsr_maxfields.Facts.Build.{Result, ok, err}
use rewsr_maxfields.Collectors.Host.{Host, Tools, require_command, is_some}
use rewsr_maxfields.Collectors.NicOffload.{IpLinkEntry, is_ether}

-- Without what starts at the first bracket.
unfoldable pub strip_fixed : Str → Str
strip_fixed state =
    let (before, _, found) = cut b'[' state in if found then trim_space before else state

-- A trimmed line: the feature that is on, if it names one.
unfoldable pub feature_line : Str → List Str
feature_line line =
    let (name, rest, found) = cut b':' line in
    if is_empty line || has_prefix line (str "Features for")
    then []
    else if not found
    then []
    else if strip_fixed (trim_space rest) == str "on"
    then trim_space name ∷ []
    else []

unfoldable pub feature_lines : List Str → List Str
feature_lines [] = []
feature_lines (line ∷ lines) = feature_line (trim_space line) ++ feature_lines lines

-- The features, nothing where the command fails. A line of the scanner ends at a newline; the blank lines
-- that a split has and the scanner has not are skipped.
unfoldable pub read_ethtool_features : Tools → Str → Option (List Str)
read_ethtool_features t iface = elim (t.run (str "ethtool") (str "-k" ∷ iface ∷ [])) [
  | err e ↦ none
  | ok out ↦ some (feature_lines (split b'\n' out))
]

abbrev pub net_path : Str → Str → Str
net_path iface rest = str "sys/class/net/" ++ (iface ++ (str "/" ++ rest))

unfoldable pub read_speed_gbps : Host → Str → ℤ
read_speed_gbps h iface = elim (h.read_file (net_path iface (str "speed"))) [
  | none ↦ pos 0
  | some text ↦ elim (atoi (trim_space text)) [
    | none ↦ pos 0
    | some mbps ↦ if is_pos mbps then quot_ℤ mbps 1000 else pos 0
  ]
]

-- `filepath.Base`
unfoldable pub base_name : Str → Str
base_name path =
    let s = trim_right_at b'/' path in
    if is_empty path
    then str "."
    else if is_empty s
    then str "/"
    else elim (cut_last b'/' s) [ none ↦ s | some (_, last) ↦ last ]

unfoldable pub has_sriov : Host → Str → Bool
has_sriov h iface = h.stat (net_path iface (str "device/virtfn0"))

module _ (read_link : Str → Option Str) where
  unfoldable pub read_driver : Str → Str
  read_driver iface = elim (read_link (net_path iface (str "device/driver"))) [
    | none ↦ []
    | some target ↦ base_name target
  ]

  -- The features that ethtool reports, if it is installed, and "sriov".
  unfoldable pub nic_features : Tools → Bool → Host → Str → List Str
  nic_features t have_ethtool h iface =
      let reported =
        if have_ethtool
        then elim (read_ethtool_features t iface) [ none ↦ [] | some fs ↦ fs ]
        else [] in
      if has_sriov h iface then reported ++ str "sriov" ∷ [] else reported

  unfoldable pub nic_facts : Tools → Bool → Host → IpLinkEntry → NicFacts
  nic_facts t have_ethtool h link = record {
    name = link.if_name;
    mac = link.address;
    speed_gbps = read_speed_gbps h link.if_name;
    driver = read_driver link.if_name;
    features = nic_features t have_ethtool h link.if_name;
  }

  unfoldable pub nics_of : Tools → Bool → Host → List IpLinkEntry → List NicFacts
  nics_of t have_ethtool h [] = []
  nics_of t have_ethtool h (link ∷ links) =
      let rest = nics_of t have_ethtool h links in
      if not (is_ether link) then rest else nic_facts t have_ethtool h link ∷ rest

  unfoldable pub collect_nics :
      {V : Type 0}
      → (Str → Result (List IpLinkEntry))
      → Tools
      → Host
      → ServerFacts V
      → ServerFacts V × Option Str
  collect_nics decode t h f = elim (require_command t (str "ip")) [
    | some e ↦ (f, some e)
    | none ↦ elim (t.run (str "ip") (str "-j" ∷ str "link" ∷ [])) [
      | err e ↦ (f, some e)
      | ok out ↦ elim (decode out) [
        | err e ↦ (f, some e)
        | ok links ↦ (
          record f { nics = nics_of t (not (is_some (require_command t (str "ethtool")))) h links },
          none,
        )
      ]
    ]
  ]
