-- ===== src/Api/Tests.antt =====
-- Views of a small server, and the theorems at its data.
use rewsr_maxfields.Base.{
  ◌≡◌, refl, true, false, none, some, [], ◌∷◌, arith, Str, str, ◌==◌, str_eq, if◌then◌else◌,
}
use rewsr_maxfields.Base.Int.{pos, IsInt}
use rewsr_maxfields.Text.Case.{equal_fold}
use rewsr_maxfields.Text.Decimal.{itoa, emit}
use rewsr_maxfields.Facts.Types.{ServerFacts, zero_facts, zero_cpu}
use rewsr_maxfields.Facts.Build.{Result, ok, err}
use rewsr_maxfields.Store.{save_facts, get_latest_facts, pick_last}
use rewsr_maxfields.Store.Tests.{
  stored, encoded, decoded, table, named, older_rows, pick_last-IsNewestPick,
}
use rewsr_maxfields.Api.{
  public_view, hardware_view, derive_machine_type, primary_disk_type, best_disk, rank, disk_suffix,
  derive_state,
}
use rewsr_maxfields.Api.Privacy.{read_by_public, public_view-read_by_public}
use rewsr_maxfields.Api.Handlers.{
  Answered, handle_get_server, handle_get_server_hardware, write_json, public, hardware,
  handle_get_server_lem, handle_get_server-save_facts,
}

abbrev node : ServerFacts Str
node = record zero_facts {
  server_id = str "srv-1";
  provisioning = str "active";
  health = str "Degraded";
  cpu = record zero_cpu { cores = pos 32 };
  memory_gb = pos 256;
  disks =
      record { name = str "sda"; type = str "hdd"; size_gb = pos 4000; rotational = true }
      ∷ record { name = str "nvme0n1"; type = str "nvme"; size_gb = pos 960; rotational = false }
      ∷ [];
  nics =
      record {
        name = str "eth0";
        mac = str "aa:bb";
        speed_gbps = pos 100;
        driver = str "mlx5";
        features = [];
      }
      ∷ [];
  capabilities = str "rdma" ∷ str "power_control" ∷ [];
  network_modes = str "public_ipv4" ∷ str "vlan" ∷ [];
}

node_type : derive_machine_type node ≡ str "32c-256gb-nvme"
unfolding derive_machine_type itoa emit primary_disk_type best_disk rank disk_suffix str str_eq
node_type = refl

node_state : derive_state node ≡ str "degraded"
unfolding derive_state equal_fold str
node_state = refl

public_view-read_by_public_example :
    (public_view (some node) ≡ public_view (some (read_by_public node)))
    × ((public_view (some node)).region ≡ node.failure_domain)
public_view-read_by_public_example = public_view-read_by_public node

small : IsInt (pos 32) × IsInt (pos 256)
small = ground arith

abbrev look : Str → Result (ServerFacts Str)
look id = if id == str "srv-1" then ok node else err (str "none")

handle_get_server_example :
    Answered look
      (str "srv-1")
      (handle_get_server look (str "srv-1"))
      (λ f. public (public_view (some f)))
    × Answered look
        (str "srv-1")
        (handle_get_server_hardware look (str "srv-1"))
        (λ f. hardware (hardware_view (some f)))
    × ((handle_get_server look (str "srv-1")).status
        ≡ (handle_get_server_hardware look (str "srv-1")).status)
handle_get_server_example = handle_get_server_lem look (str "srv-1")

handle_get_server-save_facts_example :
    let get =
      get_latest_facts decoded pick_last none (save_facts encoded 9 none (some stored) table).1 in
    (handle_get_server get (str "srv-1") ≡ write_json 200 (public (public_view (some stored))))
    × (handle_get_server_hardware get (str "srv-1")
        ≡ write_json 200 (hardware (hardware_view (some stored))))
handle_get_server-save_facts_example =
    handle_get_server-save_facts encoded decoded pick_last pick_last-IsNewestPick 9 stored
      (str "srv-1") table named refl refl older_rows
