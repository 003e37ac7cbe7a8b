-- ===== src/ControlPlane/Tests/Hosts.antt =====
-- A host that registers twice, from the empty database.
use computation_market_poc.Prelude.{◌≡◌, refl, map, none, some, ok}
use computation_market_poc.Prelude.Int.{pos}
use computation_market_poc.Prelude.Table.{fetch}
use computation_market_poc.Core.Api.{RegisterRequest, RegisterResponse}
use computation_market_poc.Core.Model.{DiskType}
use computation_market_poc.ControlPlane.Db.{empty_db, insert_machine}
use computation_market_poc.ControlPlane.Routes.Agent.{register, new_machine}
use computation_market_poc.ControlPlane.Registration.{register-again, standing}

abbrev rig : RegisterRequest
rig = record {
  host_id = "rig";
  gpu_name = "RTX 4090";
  gpu_count = pos 2;
  vram_mb = pos 24576;
  cpu_name = "EPYC";
  cpu_cores = pos 32;
  ram_mb = pos 128000;
  disk_gb = pos 1000;
  disk_type = DiskType.nvme;
  public_ip = "203.0.113.7";
  port_start = pos 40000;
  port_end = pos 40010;
  inet_down_mbps = none;
  inet_up_mbps = none;
  country = some "TW";
  dlperf = pos 5;
  rate_sats_per_min = pos 10;
  hw_fingerprint = "f";
}

-- The same host at another address and another rate.
abbrev moved : RegisterRequest
moved = record rig { public_ip = "203.0.113.9"; rate_sats_per_min = pos 12 }

abbrev told : RegisterResponse
told = record { machine_id = 1; agent_token = "agt_1" }

rig-registers : (register "agt_1" rig (pos 100) empty_db).0 ≡ ok told
unfolding register insert_machine fetch new_machine
rig-registers = refl

register-again_example :
    ((register "agt_2" moved (pos 200) (register "agt_1" rig (pos 100) empty_db).1).0 ≡ ok told)
    × (map standing
          (register "agt_2" moved (pos 200) (register "agt_1" rig (pos 100) empty_db).1).1.machines
        ≡ map standing (register "agt_1" rig (pos 100) empty_db).1.machines)
register-again_example =
    register-again "agt_1" "agt_2" rig moved (pos 100) (pos 200) empty_db told rig-registers refl
