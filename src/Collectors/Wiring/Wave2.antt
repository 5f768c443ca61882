-- ===== src/Collectors/Wiring/Wave2.antt =====
-- What the collectors of collectors/wave2.go say of the three states: only IPMI and LLDP have one.
use rewsr_maxfields.Base.{◌≡◌, true, Option, none, some, List, [], ◌∷◌, arith, Str, str}
use rewsr_maxfields.Base.Float.{Float64}
use rewsr_maxfields.Facts.Build.{Result, ok, err}
use rewsr_maxfields.Collectors.Host.{Host, Tools, observed, require_command}
use rewsr_maxfields.Collectors.Sections.{LldpNeighbor}
use rewsr_maxfields.Collectors.Ipmi.{read_power, unless_missing, report_ipmi, collect_ipmi}
use rewsr_maxfields.Collectors.Lldp.{
  Members, one_chassis, switch_domain, list_neighbors, report_lldp, collect_lldp,
}
use rewsr_maxfields.Collectors.Wiring.{Machine, wave2_collectors}
use rewsr_maxfields.Collectors.Wiring.Silent.{
  States, states_of, IsSilent-tee, IsSilent-iommu, IsSilent-hugepages, IsSilent-kernel,
  IsSilent-smbios, IsSilent-gpu, IsSilent-pci, IsSilent-rdma, IsSilent-numa, IsSilent-offload,
  IsSilent-net_topology, IsSilent-nvme,
}
use rewsr_maxfields.Collectors.Wiring.States.{Answers}

-- The power state that `ipmitool` prints, if it is installed.
abbrev pub ipmi_power : Tools → Str
ipmi_power t = elim (require_command t (str "ipmitool")) [ none ↦ read_power t | some e ↦ [] ]

abbrev pub lldp_domain : Result (List LldpNeighbor) → Str
lldp_domain (err e) = []
lldp_domain (ok ns) = switch_domain ns

module _ (h : Host) (id : Str) where
  ipmi_states :
      (parse_float : Str → Option Float64) (t : Tools)
      → states_of (collect_ipmi parse_float (some t) h id).0 ≡ some (ipmi_power t, [], [])
  unfolding collect_ipmi unless_missing report_ipmi observed
  ipmi_states parse_float t = ground arith

  lldp_states :
      (decode : Str → Result Members) (t : Option Tools)
      → states_of (collect_lldp decode t h id).0
        ≡ some ([], [], lldp_domain (list_neighbors decode t))
  unfolding collect_lldp report_lldp observed switch_domain one_chassis
  lldp_states decode t = ground arith

abbrev pub nothing : States
nothing = ([], [], [])

module _ (m : Machine) where
  abbrev pub wave2_states : List States
  wave2_states =
      nothing
      ∷ nothing
      ∷ nothing
      ∷ nothing
      ∷ nothing
      ∷ nothing
      ∷ nothing
      ∷ nothing
      ∷ ([], [], lldp_domain (list_neighbors m.lldp (some m.tools)))
      ∷ nothing
      ∷ nothing
      ∷ nothing
      ∷ (ipmi_power m.tools, [], [])
      ∷ nothing
      ∷ []

  pub wave2-Answers : (id : Str) → Answers id (wave2_collectors m) wave2_states
  unfolding wave2_collectors
  wave2-Answers id = (
    IsSilent-pci m.host id m.parse_float (some m.tools),
    (
      IsSilent-rdma m.host id m.rdma_links (some m.tools),
      (
        IsSilent-numa m.host id m.moves,
        (
          IsSilent-hugepages m.host id,
          (
            IsSilent-iommu m.host id,
            (
              IsSilent-tee m.host id,
              (
                IsSilent-offload m.host id m.inputs.ip_link m.tools,
                (
                  IsSilent-net_topology m.host id m.ip_details (some m.tools),
                  (
                    lldp_states m.host id m.lldp (some m.tools),
                    (
                      IsSilent-kernel m.host id,
                      (
                        IsSilent-smbios m.host id m.stat_error,
                        (
                          IsSilent-nvme m.host id m.nvme_list (some m.tools),
                          (
                            ipmi_states m.host id m.parse_float m.tools,
                            (IsSilent-gpu m.host id true m.tools, tt),
                          ),
                        ),
                      ),
                    ),
                  ),
                ),
              ),
            ),
          ),
        ),
      ),
    ),
  )
