-- ===== src/Collectors/Wiring/Fixture.antt =====
-- A machine on which only the BMC of `ipmitool` answers, and says that the power is off.
use rewsr_maxfields.Base.{true, none, [], ◌∷◌, str, str_eq}
use rewsr_maxfields.Facts.Build.{ok, err}
use rewsr_maxfields.Collectors.Fixtures.{fixture, toolbox}
use rewsr_maxfields.Collectors.Lldp.{mnil}
use rewsr_maxfields.Collectors.Wiring.{Machine}

abbrev pub machine : Machine
machine = record {
  host = fixture [] [];
  tools = toolbox ((str "ipmitool", str "Chassis Power is off\n") ∷ []);
  inputs = record {
    lscpu = λ out. ok [];
    lsblk = record { values = λ out. ok []; number_error = λ s. s; decode_bool = λ s. err s };
    ip_link = λ out. ok [];
    read_link = λ path. none;
  };
  parse_float = λ s. none;
  moves = λ n. true;
  stat_error = λ path. str "no such file";
  rdma_links = λ out. ok [];
  ip_details = λ out. ok [];
  lldp = λ out. ok mnil;
  nvme_list = λ out. ok [];
}
