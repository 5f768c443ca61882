-- ===== src/Collectors/NicOffload.antt =====
-- collectors/linux_ethtool_deep.go: the driver, the rings, the channels and the clocks of the NICs. The
-- decoding of the JSON that `ip` prints is a parameter.
pub mod Clocks
mod Tests
use rewsr_maxfields.Base.{
  Bool, true, false, not, ◌&&◌, ◌||◌, Option, none, some, List, [], ◌∷◌, ◌++◌, Str, str, ◌==◌,
  str_eq, is_empty, if◌then◌else◌,
}
use rewsr_maxfields.Base.Dict.{Dict, insert}
use rewsr_maxfields.Base.Int.{ℤ, pos, negsuc}
use rewsr_maxfields.Facts.Types.{ServerFacts}
use rewsr_maxfields.Facts.Build.{Result, ok, err}
use rewsr_maxfields.Collectors.Host.{Host, Tools, observed, require_command}
use rewsr_maxfields.Collectors.Sections.{NicOffloadFacts, Section, nic_offload}
use rewsr_maxfields.Collectors.Offload.{
  parse_ethtool_driver_info, parse_ethtool_max_current, parse_ethtool_timestamping, no_settings,
  no_timestamping, MaxCurrent, Timestamping,
}

-- `ipLinkEntry`
pub record IpLinkEntry : Type 0 where
  pub if_name : Str
  pub address : Str
  pub link_type : Str

abbrev pub is_ether : IpLinkEntry → Bool
is_ether link = link.link_type == str "ether"

-- What one call of ethtool leaves: the parsed output, or the section as it was.
abbrev pub ethtool : {A : Type 0} → Tools → Str → Str → (Str → A) → A → A
ethtool t flag name parse old = elim (t.run (str "ethtool") (flag ∷ name ∷ [])) [
  | err e ↦ old
  | ok out ↦ parse out
]

unfoldable pub offload_facts : Tools → Str → NicOffloadFacts
offload_facts t name =
    let rings = ethtool t (str "-g") name parse_ethtool_max_current no_settings in
    let channels = ethtool t (str "-l") name parse_ethtool_max_current no_settings in
    let stamps = ethtool t (str "-T") name parse_ethtool_timestamping no_timestamping in
    record {
      driver = ethtool t (str "-i") name parse_ethtool_driver_info [];
      rings_max = rings.max;
      rings_current = rings.current;
      channels_max = channels.max;
      channels_current = channels.current;
      timestamp_caps = stamps.caps;
      phc_index = stamps.phc_index;
    }

abbrev pub has_clock : NicOffloadFacts → Bool
has_clock entry = elim entry.phc_index [ pos n ↦ true | negsuc n ↦ false ]

-- The loop over the links: the facts by name, and whether a clock was seen.
unfoldable pub offload_links :
    Tools → List IpLinkEntry → Dict Str NicOffloadFacts → Bool → Dict Str NicOffloadFacts × Bool
offload_links t [] per_nic saw_phc = (per_nic, saw_phc)
offload_links t (link ∷ links) per_nic saw_phc =
    let entry = offload_facts t link.if_name in
    let skipped = offload_links t links per_nic saw_phc in
    let taken =
      offload_links t links (insert link.if_name entry per_nic)
        (if has_clock entry then true else saw_phc) in
    if not (is_ether link) then skipped else taken

-- Facts without a NIC carry nothing.
unfoldable pub report_offload :
    Tools → Host → Str → List IpLinkEntry → Option (ServerFacts Section) × Option Str
report_offload t h server_id links =
    let f = observed (str "linux_nic_offload") h server_id in
    let (per_nic, saw_phc) = offload_links t links [] false in
    (
      some (
          if is_empty per_nic then f else record f {
            raw = some ((str "nic_offload", nic_offload per_nic) ∷ []);
            capabilities = if saw_phc then str "ptp_hardware_clock" ∷ [] else [];
          }),
      none,
    )

unfoldable pub answer_offload :
    Result (List IpLinkEntry) → Tools → Host → Str → Option (ServerFacts Section) × Option Str
answer_offload (err e) t h server_id = (
  some (observed (str "linux_nic_offload") h server_id),
  some (str "nic offload collector: " ++ e),
)
answer_offload (ok links) t h server_id = report_offload t h server_id links

module _ (decode : Str → Result (List IpLinkEntry)) where
  -- The links, or the error behind the name of the collector.
  unfoldable pub offload_list : Tools → Result (List IpLinkEntry)
  offload_list t = elim (require_command t (str "ip")) [
    | some e ↦ err e
    | none ↦ elim (require_command t (str "ethtool")) [
      | some e ↦ err e
      | none ↦ elim (t.run (str "ip") (str "-j" ∷ str "link" ∷ [])) [
        | err e ↦ err e
        | ok out ↦ elim (decode out) [
          | err e ↦ err (str "parsing ip link: " ++ e)
          | ok links ↦ ok links
        ]
      ]
    ]
  ]

  unfoldable pub collect_offload :
      Option Tools → Host → Str → Option (ServerFacts Section) × Option Str
  collect_offload none h server_id = (
    some (observed (str "linux_nic_offload") h server_id),
    some (str "nic offload collector: no CommandRunner configured"),
  )
  collect_offload (some t) h server_id = answer_offload (offload_list t) t h server_id
