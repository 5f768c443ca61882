-- ===== src/Collectors/Rdma/Tests.antt =====
-- An adapter with one port that follows collectors/linux_rdma_test.go.
use rewsr_maxfields.Base.{◌≡◌, refl, some, List, [], ◌∷◌, arith, Str, str, str_eq, nat_eq, All}
use rewsr_maxfields.Base.Int.{pos, negsuc}
use rewsr_maxfields.Text.Case.{to_upper}
use rewsr_maxfields.Text.Cut.{cut, trim_prefix}
use rewsr_maxfields.Text.Decimal.{atoi_value, value_or_zero, scan_value}
use rewsr_maxfields.Text.Space.{trim_space, is_space}
use rewsr_maxfields.Text.Split.{split}
use rewsr_maxfields.Facts.Types.{ServerFacts}
use rewsr_maxfields.Facts.Build.{Result, err}
use rewsr_maxfields.Collectors.Fixtures.{fixture, toolbox}
use rewsr_maxfields.Collectors.Host.{Host, Tools}
use rewsr_maxfields.Collectors.Sections.{RdmaDevice, Section}
use rewsr_maxfields.Collectors.Devinfo.{
  normalize_ibv_port_state, trim_parenthetical, flush, open_port, devinfo_entry, devinfo_line,
  devinfo_lines, parse_ibv_devinfo,
}
use rewsr_maxfields.Collectors.Devinfo.Entries.{Line, entry, text, IsLine, known_pairs, print_lines}
use rewsr_maxfields.Collectors.Devinfo.Blocks.{
  Hca, hca_pairs, hca_devices, PlainHcas, parse_ibv_devinfo-print_lines,
}
use rewsr_maxfields.Collectors.Rdma.{RdmaLinkEntry, collect_rdma}
use rewsr_maxfields.Collectors.Rdma.Listing.{Lists}
use rewsr_maxfields.Collectors.Rdma.Ports.{RdmaReported, collect_rdma_lem}

abbrev hca : Hca
hca = record {
  id = str "mlx5_0";
  transport = str "InfiniBand";
  transport_code = str "0";
  fw_ver = str "20.39";
  ports =
      record {
        number = str "1";
        state = str "PORT_ACTIVE";
        state_code = str "4";
        link_layer = str "Ethernet";
      }
      ∷ [];
}

-- A value out of range is the largest `int`, and a word is 0.
port_values :
    (atoi_value (str "99999999999999999999") ≡ pos 9223372036854775807)
    × (atoi_value (str "-2") ≡ negsuc 1)
    × (atoi_value (str "x") ≡ pos 0)
unfolding atoi_value value_or_zero scan_value nat_eq str
port_values = (refl, refl, refl)

-- Lines before the first port and behind an unknown key are passed over.
two_adapters :
    parse_ibv_devinfo
      (str "state: x\nhca_id:\ta\n port: 1\n state: PORT_DOWN (1)\nhca_id: b\nport:2\n")
    ≡ record {
      device = str "a";
      port = pos 1;
      state = str "DOWN";
      physical_state = [];
      netdev = [];
      link_layer = [];
      transport = [];
      firmware_ver = [];
    }
      ∷ record {
        device = str "b";
        port = pos 2;
        state = [];
        physical_state = [];
        netdev = [];
        link_layer = [];
        transport = [];
        firmware_ver = [];
      }
      ∷ []
unfolding parse_ibv_devinfo devinfo_lines devinfo_line devinfo_entry flush open_port
    normalize_ibv_port_state trim_parenthetical to_upper trim_prefix atoi_value value_or_zero
    scan_value cut split trim_space nat_eq str str_eq
two_adapters = refl

-- The lines of the stanza, with keys that are passed over and an empty line behind it.
abbrev lines : List Line
lines =
    entry (record { indent = 0; key = str "hca_id"; gap = 1; value = str "mlx5_0" })
    ∷ entry (record { indent = 1; key = str "transport"; gap = 3; value = str "InfiniBand (0)" })
    ∷ entry (record { indent = 1; key = str "fw_ver"; gap = 4; value = str "20.39" })
    ∷ entry
        (record { indent = 1; key = str "node_guid"; gap = 3; value = str "b859:9f03:00ca:e2f8" })
    ∷ entry (record { indent = 1; key = str "phys_port_cnt"; gap = 3; value = str "1" })
    ∷ entry (record { indent = 2; key = str "port"; gap = 1; value = str "1" })
    ∷ entry (record { indent = 3; key = str "state"; gap = 3; value = str "PORT_ACTIVE (4)" })
    ∷ entry (record { indent = 3; key = str "max_mtu"; gap = 2; value = str "4096 (5)" })
    ∷ entry (record { indent = 3; key = str "link_layer"; gap = 2; value = str "Ethernet" })
    ∷ text []
    ∷ []

lines-IsLine : All IsLine lines
unfolding str nat_eq trim_space is_space
lines-IsLine = (
  record {
    key_lacks = ground arith;
    key_trimmed = refl;
    value_trimmed = refl;
    one_line = ground arith;
  },
  (
    record {
      key_lacks = ground arith;
      key_trimmed = refl;
      value_trimmed = refl;
      one_line = ground arith;
    },
    (
      record {
        key_lacks = ground arith;
        key_trimmed = refl;
        value_trimmed = refl;
        one_line = ground arith;
      },
      (
        record {
          key_lacks = ground arith;
          key_trimmed = refl;
          value_trimmed = refl;
          one_line = ground arith;
        },
        (
          record {
            key_lacks = ground arith;
            key_trimmed = refl;
            value_trimmed = refl;
            one_line = ground arith;
          },
          (
            record {
              key_lacks = ground arith;
              key_trimmed = refl;
              value_trimmed = refl;
              one_line = ground arith;
            },
            (
              record {
                key_lacks = ground arith;
                key_trimmed = refl;
                value_trimmed = refl;
                one_line = ground arith;
              },
              (
                record {
                  key_lacks = ground arith;
                  key_trimmed = refl;
                  value_trimmed = refl;
                  one_line = ground arith;
                },
                (
                  record {
                    key_lacks = ground arith;
                    key_trimmed = refl;
                    value_trimmed = refl;
                    one_line = ground arith;
                  },
                  ((tt, tt), tt),
                ),
              ),
            ),
          ),
        ),
      ),
    ),
  ),
)

lines_known : known_pairs lines ≡ hca_pairs (hca ∷ [])
unfolding str str_eq
lines_known = refl

hca-PlainHcas : PlainHcas (hca ∷ [])
unfolding str nat_eq trim_space is_space
hca-PlainHcas = ground arith

parse_ibv_devinfo-print_lines_example :
    parse_ibv_devinfo (print_lines lines) ≡ hca_devices (hca ∷ [])
parse_ibv_devinfo-print_lines_example =
    parse_ibv_devinfo-print_lines lines (hca ∷ []) lines-IsLine lines_known hca-PlainHcas

abbrev decode : Str → Result (List RdmaLinkEntry)
decode out = err (str "not JSON")

abbrev box : Host
box = fixture [] []

abbrev tools : Tools
tools = toolbox ((str "ibv_devinfo", print_lines lines) ∷ [])

collect_rdma_example :
    (r : Result (List RdmaDevice)) × Lists decode tools r
    × ((f : ServerFacts Section) × ((collect_rdma decode (some tools) box (str "srv-1")).0 ≡ some f)
        × RdmaReported decode tools box r (collect_rdma decode (some tools) box (str "srv-1")) f)
collect_rdma_example = collect_rdma_lem decode tools box (str "srv-1")
