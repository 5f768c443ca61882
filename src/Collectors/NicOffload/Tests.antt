-- ===== src/Collectors/NicOffload/Tests.antt =====
-- The outputs of collectors/linux_ethtool_deep_test.go.
use rewsr_maxfields.Base.{
  ◌≡◌, refl, true, false, none, some, List, [], ◌∷◌, Str, str, str_eq, nat_eq,
}
use rewsr_maxfields.Base.Dict
use rewsr_maxfields.Base.Int.{pos}
use rewsr_maxfields.Text.Case.{to_lower}
use rewsr_maxfields.Text.Cut.{cut, has_prefix, has_suffix}
use rewsr_maxfields.Text.Decimal.{atoi, unsigned, scan, positive}
use rewsr_maxfields.Text.Space.{trim_space}
use rewsr_maxfields.Text.Split.{split}
use rewsr_maxfields.Facts.Types.{ServerFacts}
use rewsr_maxfields.Facts.Build.{Result, ok}
use rewsr_maxfields.Collectors.Fixtures.{fixture}
use rewsr_maxfields.Collectors.Host.{Host, Tools, atoi_or_zero}
use rewsr_maxfields.Collectors.Sections.{Section}
use rewsr_maxfields.Collectors.Offload.{
  driver_line, driver_lines, parse_ethtool_driver_info, put_setting, setting_line, setting_lines,
  parse_ethtool_max_current, clock_index, timestamping_line, timestamping_lines,
  parse_ethtool_timestamping,
}
use rewsr_maxfields.Collectors.NicOffload.{IpLinkEntry, offload_list, collect_offload}
use rewsr_maxfields.Collectors.NicOffload.Clocks.{OffloadReported, collect_offload_lem}

driver :
    parse_ethtool_driver_info (str "driver: mlx5_core\nexpansion: no\nbus-info: 0000:41:00.0\n")
    ≡ (str "driver", str "mlx5_core") ∷ (str "bus-info", str "0000:41:00.0") ∷ []
unfolding parse_ethtool_driver_info driver_lines driver_line cut split trim_space Dict.insert nat_eq
    str str_eq
driver = refl

rings :
    parse_ethtool_max_current (
      str
        "Ring parameters for e:\nPre-set maximums:\nRX:\t8192\nTX:\tn/a\nCurrent hardware settings:\nRX:\t1024\n")
    ≡ record {
      max = (str "rx", pos 8192) ∷ [];
      current = (str "rx", pos 1024) ∷ [];
      in_current = true;
    }
unfolding parse_ethtool_max_current setting_lines setting_line put_setting to_lower has_prefix
    has_suffix atoi_or_zero atoi unsigned scan positive cut split trim_space Dict.insert nat_eq str
    str_eq
rings = refl

stamps :
    parse_ethtool_timestamping (
      str
        "Time stamping:\nCapabilities:\n\thardware-transmit\nPTP Hardware Clock: 0\nModes:\n\toff\n")
    ≡ record { caps = str "hardware-transmit" ∷ []; phc_index = pos 0; in_caps = false }
unfolding parse_ethtool_timestamping timestamping_lines timestamping_line clock_index has_prefix
    has_suffix atoi_or_zero atoi unsigned scan positive cut split trim_space nat_eq str str_eq
stamps = refl

abbrev tools : Tools
tools = record { look_path = λ name. none; run = λ name args. ok (str "PTP Hardware Clock: 0\n") }

abbrev decode : Str → Result (List IpLinkEntry)
decode out = ok (
    record { if_name = str "lo"; address = []; link_type = str "loopback" }
    ∷ record { if_name = str "e0"; address = str "aa:bb"; link_type = str "ether" }
    ∷ [])

abbrev box : Host
box = fixture [] []

collect_offload_example :
    (f : ServerFacts Section) × ((collect_offload decode (some tools) box (str "srv-1")).0 ≡ some f)
    × OffloadReported decode tools box
        (offload_list decode tools)
        (collect_offload decode (some tools) box (str "srv-1"))
        f
collect_offload_example = collect_offload_lem decode tools box (str "srv-1")
