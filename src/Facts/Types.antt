-- ===== src/Facts/Types.antt =====
-- facts/types.go and facts/collector.go. `V` is the type of the values that collectors put into
-- `Raw`. A nil slice and an empty one are the same list; a nil map is `none`.
use rewsr_maxfields.Base.{ℕ, Bool, Option, none, List, [], Str, leb}
use rewsr_maxfields.Base.Dict.{Dict}
use rewsr_maxfields.Base.Int.{ℤ, pos}

-- Nanoseconds since Go's zero time, which is 0.
abbrev pub Time : Type 0
Time = ℕ

abbrev pub is_zero_time : Time → Bool
is_zero_time t = leb t 0

pub record CpuFacts : Type 0 where
  pub vendor : Str
  pub model : Str
  pub sockets : ℤ
  pub cores : ℤ
  pub threads : ℤ

pub record DiskFacts : Type 0 where
  pub name : Str
  pub type : Str
  pub size_gb : ℤ
  pub rotational : Bool

pub record NicFacts : Type 0 where
  pub name : Str
  pub mac : Str
  pub speed_gbps : ℤ
  pub driver : Str
  pub features : List Str

pub record ServerFacts (V : Type 0) : Type 0 where
  pub server_id : Str
  pub observed_at : Time
  pub source : Str
  pub power_state : Str
  pub provisioning : Str
  pub health : Str
  pub cpu : CpuFacts
  pub memory_gb : ℤ
  pub disks : List DiskFacts
  pub nics : List NicFacts
  pub capabilities : List Str
  pub network_modes : List Str
  pub failure_domain : Str
  pub raw : Option (Dict Str V)

-- `Collect`: facts or nil, and an error or nil. Both may be there, for partial facts.
abbrev pub Collector : Type 0 → Type 0
Collector V = Str → Option (ServerFacts V) × Option Str

abbrev pub zero_cpu : CpuFacts
zero_cpu = record { vendor = []; model = []; sockets = pos 0; cores = pos 0; threads = pos 0 }

-- `&ServerFacts{}`, each field at its zero value.
abbrev pub zero_facts : {V : Type 0} → ServerFacts V
zero_facts = record {
  server_id = [];
  observed_at = 0;
  source = [];
  power_state = [];
  provisioning = [];
  health = [];
  cpu = zero_cpu;
  memory_gb = pos 0;
  disks = [];
  nics = [];
  capabilities = [];
  network_modes = [];
  failure_domain = [];
  raw = none;
}
