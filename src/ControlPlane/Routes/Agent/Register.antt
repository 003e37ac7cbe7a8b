-- ===== src/ControlPlane/Routes/Agent/Register.antt =====
-- `register` and `rate` of routes/agent.rs.
use computation_market_poc.Prelude.{
  suc, String, true, Option, none, some, Result, ok, err, map_err, if◌then◌else◌,
}
use computation_market_poc.Prelude.Int.{ℤ, pos, ltb_ℤ}
use computation_market_poc.Prelude.Key.{◌==◌, nat_eq, string_eq}
use computation_market_poc.Prelude.Table.{fetch, update}
use computation_market_poc.Core.Api.{RegisterRequest, RegisterResponse, RateRequest}
use computation_market_poc.ControlPlane.Error.{ApiError, from_sqlx, bad_request_error}
use computation_market_poc.ControlPlane.Db.{Db, MachineRow, insert_machine}
use computation_market_poc.ControlPlane.Routes.Auth.{Reply, authenticate}

-- UPDATE machines SET … : the columns that a registration refreshes.
unfoldable pub refresh_machine : RegisterRequest → ℤ → MachineRow → MachineRow
refresh_machine req now m = record m {
  gpu_name = req.gpu_name;
  gpu_count = req.gpu_count;
  vram_mb = req.vram_mb;
  cpu_name = req.cpu_name;
  cpu_cores = req.cpu_cores;
  ram_mb = req.ram_mb;
  disk_gb = req.disk_gb;
  disk_type = req.disk_type;
  public_ip = req.public_ip;
  port_start = req.port_start;
  port_end = req.port_end;
  inet_down_mbps = req.inet_down_mbps;
  inet_up_mbps = req.inet_up_mbps;
  country = req.country;
  dlperf = req.dlperf;
  rate_sats_per_min = req.rate_sats_per_min;
  hw_fingerprint = req.hw_fingerprint;
  online = true;
  last_heartbeat = now;
}

-- INSERT INTO machines … : the row with the next number.
unfoldable pub new_machine : String → RegisterRequest → ℤ → Db → MachineRow
new_machine token req now db = record {
  id = suc db.machine_seq;
  agent_token = token;
  host_id = req.host_id;
  gpu_name = req.gpu_name;
  gpu_count = req.gpu_count;
  vram_mb = req.vram_mb;
  cpu_name = req.cpu_name;
  cpu_cores = req.cpu_cores;
  ram_mb = req.ram_mb;
  disk_gb = req.disk_gb;
  disk_type = req.disk_type;
  public_ip = req.public_ip;
  port_start = req.port_start;
  port_end = req.port_end;
  inet_down_mbps = req.inet_down_mbps;
  inet_up_mbps = req.inet_up_mbps;
  country = req.country;
  dlperf = req.dlperf;
  rate_sats_per_min = req.rate_sats_per_min;
  payout_balance = pos 0;
  online = true;
  last_heartbeat = now;
  hw_fingerprint = req.hw_fingerprint;
  created_at = now;
}

abbrev pub registered : String → MachineRow → Db → Result ApiError Db → Reply RegisterResponse
registered token m db (ok db') = (ok (record { machine_id = m.id; agent_token = token }), db')
registered token m db (err e) = (err e, db)

-- `token` is what `new_agent_token` yields, if it is called.
unfoldable pub register : String → RegisterRequest → ℤ → Db → Reply RegisterResponse
register token req now db = elim (fetch (λ m. m.host_id == req.host_id) db.machines) [
  | some m ↦ (
    ok (record { machine_id = m.id; agent_token = m.agent_token }),
    record db { machines = update (λ n. n.id == m.id) (refresh_machine req now) db.machines },
  )
  | none ↦
      let m = new_machine token req now db in
      registered token m db (map_err from_sqlx (insert_machine m db))
]

abbrev pub set_rate : ℤ → MachineRow → MachineRow
set_rate r m = record m { rate_sats_per_min = r }

abbrev pub rate_update : RateRequest → Db → MachineRow → Reply (Unit {0})
rate_update req db m =
    if ltb_ℤ req.rate_sats_per_min (pos 1)
    then (err (bad_request_error "rate_sats_per_min must be >= 1"), db)
    else (
      ok tt,
      record db {
        machines = update (λ n. n.id == m.id) (set_rate req.rate_sats_per_min) db.machines;
      },
    )

unfoldable pub rate : Option String → RateRequest → Db → Reply (Unit {0})
rate authorization req db = elim (authenticate authorization db) [
  | err e ↦ (err e, db)
  | ok m ↦ rate_update req db m
]
