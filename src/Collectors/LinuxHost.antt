-- ===== src/Collectors/LinuxHost.antt =====
-- collectors/linux_host.go: the CPU, the disks and the NICs of a host, with the errors of the three joined.
pub mod Parts
mod Tests
use rewsr_maxfields.Base.{
  Option, none, some, List, [], ◌∷◌, ◌++◌, Str, str, is_empty, if◌then◌else◌,
}
use rewsr_maxfields.Text.Split.{join}
use rewsr_maxfields.Facts.Types.{ServerFacts, zero_facts}
use rewsr_maxfields.Facts.Build.{Result, note_error}
use rewsr_maxfields.Collectors.Host.{Host, Tools, observed}
use rewsr_maxfields.Collectors.Sections.{Section}
use rewsr_maxfields.Collectors.Cpu.{collect_cpu}
use rewsr_maxfields.Collectors.Disk.{LsblkJson, collect_disks}
use rewsr_maxfields.Collectors.NicOffload.{IpLinkEntry}
use rewsr_maxfields.Collectors.Nic.{collect_nics}

-- What the collector has beside its runner: three decoders, and the links of the file system.
pub record HostInputs : Type 0 where
  pub lscpu : Str → Result (List (Str × Str))
  pub lsblk : LsblkJson
  pub ip_link : Str → Result (List IpLinkEntry)
  pub read_link : Str → Option Str

abbrev pub joined_error : List Str → Option Str
joined_error errs =
    if is_empty errs then none else some (str "linux host collector: " ++ join (str "; ") errs)

unfoldable pub collect_linux_host :
    HostInputs → Option Tools → Host → Str → Option (ServerFacts Section) × Option Str
collect_linux_host inputs none h server_id = (
  some (record zero_facts { server_id = server_id; source = str "linux_host" }),
  some (str "linux host collector: no CommandRunner configured"),
)
collect_linux_host inputs (some t) h server_id =
    let (with_cpu, cpu_error) =
      collect_cpu inputs.lscpu t (observed (str "linux_host") h server_id) in
    let (with_disks, disk_error) = collect_disks inputs.lsblk t with_cpu in
    let (with_nics, nic_error) = collect_nics inputs.read_link inputs.ip_link t h with_disks in
    (
      some with_nics,
      joined_error (note_error nic_error (note_error disk_error (note_error cpu_error []))),
    )
