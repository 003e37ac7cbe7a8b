-- ===== src/HostAgent/Tests/Agent.antt =====
-- An agent that starts twice, and one that is shut down while a command waits for it.
use Prim.Native.Nat.{◌+◌, ◌*◌, ◌/◌, ◌%◌}
use computation_market_poc.Prelude.{
  ℕ, zero, suc, ◌≡◌, refl, String, List, [], ◌∷◌, map, Option, none, some, Result, ok, err, arith,
  nat_beq, if◌then◌else◌,
}
use computation_market_poc.Prelude.Int.{pos}
use computation_market_poc.Prelude.Key.{nat_eq}
use computation_market_poc.Prelude.Text.{strip_prefix, trim, trim_start, trim_end}
use computation_market_poc.Prelude.Word.{as_i32, wrap}
use computation_market_poc.Prelude.Table.{fetch, select}
use computation_market_poc.Core.Api.{Command}
use computation_market_poc.Core.Model.{DiskType}
use computation_market_poc.ControlPlane.Error.{ApiError}
use computation_market_poc.ControlPlane.Db.{empty_db, insert_machine}
use computation_market_poc.ControlPlane.Routes.Auth.{authenticate}
use computation_market_poc.ControlPlane.Routes.Agent.{register, new_machine, heartbeat, pending}
use computation_market_poc.ControlPlane.Delivery.Heartbeats.{Carries}
use computation_market_poc.ControlPlane.Registration.{standing}
use computation_market_poc.ControlPlane.Tests.WireText.{wire_text}
use computation_market_poc.ControlPlane.Tests.Market.{host, market}
use computation_market_poc.HostAgent.Benchmark.{Inventory}
use computation_market_poc.HostAgent.Agent.{
  Args, AgentState, StateText, HostSpecs, DiskKind, collect_host_specs, max_by_space, Event,
  agent_loop, load_or_init_state, start_up, register_request,
}
use computation_market_poc.HostAgent.Agent.Restarts.{started, plane_after, restart-keeps}
use computation_market_poc.HostAgent.Agent.Loop.{commands_of, off, body_of, shutdown-drops}

-- The state as the text of a command: one number for the machine and the flag of a token.
abbrev number : Option ℕ → ℕ
number none = 0
number (some n) = suc n

abbrev number_back : ℕ → Option ℕ
number_back zero = none
number_back (suc n) = some n

abbrev as_command : String → Option ℕ → Option String → Command
as_command host machine none = Command.start_rental (2 * number machine) host ""
as_command host machine (some token) = Command.start_rental (2 * number machine + 1) host token

abbrev of_command : Command → Result String AgentState
of_command (Command.stop_rental _) = err "no state"
of_command (Command.start_rental n host token) = ok (record {
  host_id = host;
  machine_id = number_back (n / 2);
  agent_token = if nat_beq (n % 2) 1 then some token else none;
})

abbrev read_state : Option Command → Result String AgentState
read_state none = err "no state"
read_state (some c) = of_command c

number_lem : (m : Option ℕ) → number_back (number m) ≡ m
number_lem none = refl
number_lem (some n) = refl

as_command_lem :
    (host : String) (m : Option ℕ) (t : Option String)
    → of_command (as_command host m t)
      ≡ ok (record { host_id = host; machine_id = m; agent_token = t })
as_command_lem host m none =
    let half : 2 * number m / 2 ≡ number m = omega arith in
    let even : 2 * number m % 2 ≡ 0 = omega arith in rw (half, even, number_lem m) refl
as_command_lem host m (some token) =
    let half : (2 * number m + 1) / 2 ≡ number m = omega arith in
    let odd : (2 * number m + 1) % 2 ≡ 1 = omega arith in rw (half, odd, number_lem m) refl

written_back :
    (s : AgentState)
    → read_state
        (wire_text.from_str (wire_text.to_string (as_command s.host_id s.machine_id s.agent_token)))
      ≡ ok s
written_back s =
    rw (wire_text.round_trip (as_command s.host_id s.machine_id s.agent_token))
      (as_command_lem s.host_id s.machine_id s.agent_token)

abbrev state_text : StateText
state_text = record {
  to_string_pretty = λ s. wire_text.to_string (as_command s.host_id s.machine_id s.agent_token);
  from_str = λ raw. read_state (wire_text.from_str raw);
  from_str-to_string = written_back;
}

abbrev given : Args
given = record {
  public_ip = "203.0.113.7";
  rate_sats_per_min = pos 10;
  port_start = pos 40000;
  port_end = pos 40010;
  country = some "TW";
  inet_down_mbps = none;
  inet_up_mbps = none;
}

abbrev dearer : Args
dearer = record given { rate_sats_per_min = pos 12 }

abbrev box : HostSpecs
box = record {
  cpu_name = "EPYC";
  cpu_cores = pos 32;
  ram_mb = pos 128000;
  disk_gb = pos 1000;
  disk_type = DiskType.ssd;
}

-- The greatest of the disks, and the last of two as great.
box_is_collected :
    collect_host_specs (record {
      cpus = "  " ∷ [];
      total_memory = 4194304;
      disks =
          (5000000000, DiskKind.hdd) ∷ (9000000000, DiskKind.hdd) ∷ (9000000000, DiskKind.ssd) ∷ [];
    })
    ≡ record {
      cpu_name = "unknown";
      cpu_cores = pos 1;
      ram_mb = pos 4;
      disk_gb = pos 9;
      disk_type = DiskType.ssd;
    }
unfolding collect_host_specs max_by_space as_i32 wrap trim trim_start trim_end
box_is_collected = refl

abbrev cards : Inventory
cards = record { gpus = []; dlperf = pos 84; hw_fingerprint = "f" }

abbrev shown : ApiError → String
shown _ = "refused"

abbrev first_state : AgentState
first_state = record { host_id = "uuid-1"; machine_id = some 1; agent_token = some "agt_1" }

first_start :
    started state_text shown given box cards "uuid-1" none "agt_1" (pos 100) empty_db
    ≡ (ok first_state, some (state_text.to_string_pretty first_state))
unfolding start_up load_or_init_state register insert_machine new_machine fetch register_request
first_start = refl

restart-keeps_example :
    let loaded = (load_or_init_state state_text "uuid-1" none).0 in
    let db' = plane_after state_text shown given box cards loaded "agt_1" (pos 100) empty_db in
    (started state_text shown dearer box cards "uuid-2"
        (some (state_text.to_string_pretty first_state))
        "agt_2"
        (pos 200)
        db'
      ≡ (ok first_state, some (state_text.to_string_pretty first_state)))
    × (map standing
          (plane_after state_text shown dearer box cards
            (ok first_state)
            "agt_2"
            (pos 200)
            db').machines
        ≡ map standing db'.machines)
restart-keeps_example =
    restart-keeps state_text shown given dearer box box cards cards "uuid-1" "uuid-2" none "agt_1"
      "agt_2" (pos 100) (pos 200) empty_db first_state
      (some (state_text.to_string_pretty first_state)) first_start refl

known : authenticate (some "Bearer agt_1") market ≡ ok host
unfolding authenticate fetch strip_prefix
known = refl

shutdown-drops_example :
    let (answer, db') = heartbeat wire_text (some "Bearer agt_1") off (pos 1700) market in
    (commands : List Command) × (body_of shown answer ≡ ok commands)
    × Carries wire_text (select (pending 1) market.commands) commands
    × (select (pending 1) db'.commands ≡ [])
    × (commands_of (agent_loop (Event.ctrl_c (body_of shown answer) ∷ [])) ≡ [])
shutdown-drops_example =
    shutdown-drops wire_text shown (some "Bearer agt_1") (pos 1700) host market [] known
      ((Command.stop_rental 2, refl), tt) (refl, tt)
