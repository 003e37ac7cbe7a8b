-- ===== src/HostAgent/Agent.antt =====
-- `main` of crates/host-agent/src/main.rs: what the agent keeps between its runs, how it registers,
-- and its loop. The text of the state file, the system's facts and the answers of the control plane
-- are parameters. Starts and stops of the loop's tasks are what the trace of the loop shows.
pub mod Restarts
pub mod Loop
use Prim.Native.Nat.{◌+◌, ◌/◌, ◌*◌}
use Prim.Native.String
use computation_market_poc.Prelude.{
  ℕ, zero, suc, ltb, leb, String, Bool, true, false, List, [], ◌∷◌, ◌++◌, map, Option, none, some,
  get_or, Result, ok, err, map_err, ◌≡◌, if◌then◌else◌,
}
use mathlib.Core.Option
use computation_market_poc.Prelude.Int.{ℤ, pos, ltb_ℤ}
use computation_market_poc.Prelude.Word.{as_i32, wrap}
use computation_market_poc.Prelude.Text.{trim, is_empty, format}
use computation_market_poc.Core.Api.{RegisterRequest, RegisterResponse, Command, F64}
use computation_market_poc.Core.Model.{DiskType}
use computation_market_poc.HostAgent.Benchmark.{
  Inventory, gpu_name, gpu_count, vram_mb, length, first,
}

pub record Args : Type 0 where
  pub public_ip : String
  pub rate_sats_per_min : ℤ
  pub port_start : ℤ
  pub port_end : ℤ
  pub country : Option String
  pub inet_down_mbps : Option F64
  pub inet_up_mbps : Option F64

pub record AgentState : Type 0 where
  pub host_id : String
  pub machine_id : Option ℕ
  pub agent_token : Option String

-- `serde_json` for the state file.
pub record StateText : Type 0 where
  pub to_string_pretty : AgentState → String
  pub from_str : String → Result String AgentState
  pub from_str-to_string : (s : AgentState) → from_str (to_string_pretty s) ≡ ok s

-- The state, and the file's content afterwards; `file` is none if the path does not exist, and
-- `uuid` is what `Uuid::new_v4` yields.
unfoldable pub load_or_init_state :
    StateText → String → Option String → Result String AgentState × Option String
load_or_init_state json uuid (some raw) =
    (map_err (λ e. format ("parsing state file: " ∷ e ∷ [])) (json.from_str raw), some raw)
load_or_init_state json uuid none =
    let state : AgentState = record { host_id = uuid; machine_id = none; agent_token = none } in
    (ok state, some (json.to_string_pretty state))

pub data DiskKind : Type 0 where
  ssd hdd other_kind : DiskKind

-- What `sysinfo` tells: the brand of each CPU, bytes of memory, bytes and kind of each disk.
pub record Sysinfo : Type 0 where
  pub cpus : List String
  pub total_memory : ℕ
  pub disks : List (ℕ × DiskKind)

pub record HostSpecs : Type 0 where
  pub cpu_name : String
  pub cpu_cores : ℤ
  pub ram_mb : ℤ
  pub disk_gb : ℤ
  pub disk_type : DiskType

-- `max_by_key`: the last of the greatest, after the best so far.
unfoldable pub max_by_space : Option (ℕ × DiskKind) → List (ℕ × DiskKind) → Option (ℕ × DiskKind)
max_by_space best [] = best
max_by_space none (d ∷ disks) = max_by_space (some d) disks
max_by_space (some b) (d ∷ disks) = max_by_space (some (if leb b.0 d.0 then d else b)) disks

abbrev disk_type_of : DiskKind → DiskType
disk_type_of DiskKind.ssd = DiskType.ssd
disk_type_of DiskKind.hdd = DiskType.hdd
disk_type_of DiskKind.other_kind = DiskType.unknown

abbrev named : Option String → Option String
named none = none
named (some s) = if is_empty (trim s) then none else some (trim s)

unfoldable pub collect_host_specs : Sysinfo → HostSpecs
collect_host_specs sys =
    let disk = max_by_space none sys.disks in
    record {
      cpu_name = get_or (named (first sys.cpus)) "unknown";
      cpu_cores = as_i32 (pos (length sys.cpus));
      ram_mb = wrap (pos (sys.total_memory / (1024 * 1024)));
      disk_gb = get_or (Option.map (λ d. wrap (pos (d.0 / 1000000000))) disk) (pos 0);
      disk_type = get_or (Option.map (λ d. disk_type_of d.1) disk) DiskType.unknown;
    }

unfoldable pub register_request : AgentState → Inventory → HostSpecs → Args → RegisterRequest
register_request state inventory specs args = record {
  host_id = state.host_id;
  gpu_name = gpu_name inventory;
  gpu_count = gpu_count inventory;
  vram_mb = vram_mb inventory;
  cpu_name = specs.cpu_name;
  cpu_cores = specs.cpu_cores;
  ram_mb = specs.ram_mb;
  disk_gb = specs.disk_gb;
  disk_type = specs.disk_type;
  public_ip = args.public_ip;
  port_start = args.port_start;
  port_end = args.port_end;
  inet_down_mbps = args.inet_down_mbps;
  inet_up_mbps = args.inet_up_mbps;
  country = args.country;
  dlperf = inventory.dlperf;
  rate_sats_per_min = args.rate_sats_per_min;
  hw_fingerprint = inventory.hw_fingerprint;
}

abbrev pub issued : AgentState → RegisterResponse → AgentState
issued state r = record state { machine_id = some r.machine_id; agent_token = some r.agent_token }

-- The start up to the second save: the state, and the file's content. `server` is what the control
-- plane answers to a registration.
module _ (json : StateText) (args : Args) (specs : HostSpecs) where
  abbrev pub saved :
      AgentState
      → Option String
      → Result String RegisterResponse
      → Result String AgentState × Option String
  saved state file (err e) = (err (format ("registering with control plane: " ∷ e ∷ [])), file)
  saved state file (ok r) = (ok (issued state r), some (json.to_string_pretty (issued state r)))

  abbrev pub probed_start :
      Result String AgentState × Option String
      → Result String Inventory
      → (RegisterRequest → Result String RegisterResponse)
      → Result String AgentState × Option String
  probed_start (err e, file) inventory server = (err e, file)
  probed_start (ok state, file) (err e) server =
      (err (format ("probing GPU inventory: " ∷ e ∷ [])), file)
  probed_start (ok state, file) (ok inventory) server =
      saved state file (server (register_request state inventory specs args))

  unfoldable pub start_up :
      String
      → Option String
      → Result String Inventory
      → (RegisterRequest → Result String RegisterResponse)
      → Result String AgentState × Option String
  start_up uuid file inventory server =
      if ltb_ℤ args.rate_sats_per_min (pos 1)
      then (err "rate_sats_per_min must be >= 1 (SPEC §2)", file)
      else probed_start (load_or_init_state json uuid file) inventory server

-- What wakes the loop, and the answer to its heartbeat.
pub data Event : Type 0 where
  tick : Result String (List Command) → Event
  ctrl_c : Result String (List Command) → Event

-- What the loop does, seen from outside.
pub data Act : Type 0 where
  heartbeat : Bool → Act
  dispatched : Command → Act

abbrev pub answered : Result String (List Command) → List Act
answered (ok commands) = map Act.dispatched commands
answered (err _) = []

-- The loop: no event after the shutdown is looked at.
unfoldable pub agent_loop : List Event → List Act
agent_loop [] = []
agent_loop (Event.tick r ∷ events) = Act.heartbeat true ∷ (answered r ++ agent_loop events)
agent_loop (Event.ctrl_c r ∷ events) = Act.heartbeat false ∷ []
