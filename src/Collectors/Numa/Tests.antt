-- ===== src/Collectors/Numa/Tests.antt =====
-- Two nodes as numactl prints them, as in collectors/linux_numa_test.go, and the theorems at that data.
use rewsr_maxfields.Base.{
  inl, inr, ℕ, ◌≡◌, refl, Bool, false, ◌||◌, none, some, [], ◌∷◌, ◌++◌, Str, str, ◌==◌, str_eq,
  nat_eq, if◌then◌else◌,
}
use rewsr_maxfields.Base.Int.{pos, int_eq, add_int, wrap, ◌+ℤ◌, ◌-ℤ◌}
use rewsr_maxfields.Text.Cut.{cut, has_prefix, trim_suffix}
use rewsr_maxfields.Text.Decimal.{atoi, unsigned, scan, positive}
use rewsr_maxfields.Text.Split.{split}
use rewsr_maxfields.Text.Space.{trim_space, fields}
use rewsr_maxfields.Collectors.Host.{Host, atoi_or_zero, numbers}
use rewsr_maxfields.Collectors.Numactl.{
  apply, has_slot, write_slot, kill, update_node, apply_effect, line_effect, distance_effect,
  node_effect, field_setting, parse_lines, parse_numactl_hardware,
}
use rewsr_maxfields.Collectors.Numactl.Grouped.{IsGrouped, parse_numactl_hardware-grouped}
use rewsr_maxfields.Collectors.NodeDirs.{count_cpu_list, count_parts, count_part}

abbrev printed : Str
printed =
    str
      "node 0 cpus: 0 1\nnode 0 size: 64 MB\nnode 1 cpus: 2\nnode 1 size: 32 MB\nnode distances:\nnode 0 1\n 0: 10 32\n"

-- A slice whose capacity doubles.
abbrev doubles : ℕ → Bool
doubles n = n == 0 || n == 1 || n == 2 || n == 4 || n == 8

two_nodes : parse_numactl_hardware doubles printed ≡ record {
  nodes =
      record { id = pos 0; cpus = pos 2; size_mb = pos 64; free_mb = pos 0 }
      ∷ record { id = pos 1; cpus = pos 1; size_mb = pos 32; free_mb = pos 0 }
      ∷ [];
  distances = (pos 10 ∷ pos 32 ∷ []) ∷ [];
}
unfolding parse_numactl_hardware parse_lines apply_effect line_effect distance_effect node_effect
    field_setting update_node write_slot kill has_slot apply atoi_or_zero numbers cut has_prefix
    trim_suffix atoi unsigned scan positive split trim_space fields int_eq nat_eq str str_eq
two_nodes = refl

-- A later line of an earlier node is lost once the slice has moved.
lost_write :
    parse_numactl_hardware doubles (str "node 0 cpus: 0\nnode 1 cpus: 1\nnode 0 size: 64 MB")
    ≡ record {
      nodes =
          record { id = pos 0; cpus = pos 1; size_mb = pos 0; free_mb = pos 0 }
          ∷ record { id = pos 1; cpus = pos 1; size_mb = pos 0; free_mb = pos 0 }
          ∷ [];
      distances = [];
    }
unfolding parse_numactl_hardware parse_lines apply_effect line_effect distance_effect node_effect
    field_setting update_node write_slot kill has_slot apply atoi_or_zero numbers cut has_prefix
    trim_suffix atoi unsigned scan positive split trim_space fields int_eq nat_eq str str_eq
lost_write = refl

counted : count_cpu_list (str "0-3,8,10-11") ≡ pos 7
unfolding count_cpu_list count_parts count_part cut split atoi unsigned scan positive trim_space
    add_int wrap ◌+ℤ◌ ◌-ℤ◌ nat_eq str
counted = refl

abbrev box : Host
box = record {
  root = str "/";
  joined = λ path. str "/" ++ path;
  now = 7;
  read_file = λ path. none;
  read_dir = λ path. none;
  stat = λ path. false;
  runs = λ command args. if command == str "numactl" then some printed else none;
}

grouped : IsGrouped false [] (split b'\n' printed)
unfolding line_effect distance_effect node_effect field_setting atoi_or_zero numbers cut has_prefix
    trim_suffix atoi unsigned scan positive split trim_space fields int_eq nat_eq str str_eq
grouped = (inr refl, (inl refl, (inr refl, (inl refl, (tt, (tt, (tt, (tt, tt))))))))

parse_numactl_hardware-grouped_example :
    parse_numactl_hardware doubles printed ≡ parse_numactl_hardware (λ _. false) printed
parse_numactl_hardware-grouped_example = parse_numactl_hardware-grouped doubles printed grouped
