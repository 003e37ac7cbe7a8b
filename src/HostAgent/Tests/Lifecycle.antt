-- ===== src/HostAgent/Tests/Lifecycle.antt =====
-- A rental of a Metal job, from the request to the running worker.
use computation_market_poc.Prelude.{
  ℕ, ◌≡◌, refl, true, String, List, [], ◌∷◌, ◌++◌, some, none, Result, ok, err, arith,
}
use computation_market_poc.Prelude.Int.{ℤ, pos, ◌+ℤ◌, ◌-ℤ◌}
use computation_market_poc.Prelude.Key.{nat_eq, port_eq}
use computation_market_poc.Prelude.Text.{decimal, strip_prefix, trim, trim_start, trim_end}
use computation_market_poc.Prelude.Table.{fetch, select, sum_by}
use computation_market_poc.Core.Api.{Command, CreateRentalRequest, RentalResponse}
use computation_market_poc.Core.Model.{
  RentalKind, RentalStatus, as_str, occupies_machine, is_http_status_image,
}
use computation_market_poc.ControlPlane.Db.{Db}
use computation_market_poc.ControlPlane.Routes.Auth.{authenticate}
use computation_market_poc.ControlPlane.Routes.Agent.{heartbeat, report, pending, reported, touch}
use computation_market_poc.ControlPlane.Routes.Tenant.{
  create_rental, get_rental, rental_key, occupies, occupying_in_list,
}
use computation_market_poc.ControlPlane.Admission.{Admitted}
use computation_market_poc.ControlPlane.Delivery.Heartbeats.{Carries}
use computation_market_poc.ControlPlane.Invariant.{Inv}
use computation_market_poc.ControlPlane.Settling.{charged, Holds, Owes}
use computation_market_poc.ControlPlane.Settling.Reports.{settled_rental}
use computation_market_poc.ControlPlane.Tests.WireText.{wire_text}
use computation_market_poc.ControlPlane.Tests.Market.{host, tenant, ended, market, market-Inv}
use computation_market_poc.HostAgent.Runtime.{Started, HostRuntime}
use computation_market_poc.HostAgent.Ports.{pick_free_port, count_from}
use computation_market_poc.HostAgent.Parse.{parse_u32, parse_digits, digits_onto}
use computation_market_poc.HostAgent.Metal.{
  MetalRuntime, metal_runtime, start_rental, launch, parse_task, gemm_size, split_once, used_ports,
}
use computation_market_poc.HostAgent.Dispatch.{dispatch}
use computation_market_poc.HostAgent.Lifecycle.{
  alive, start_of, rented_row, Shows, rental-starts, rental-fails,
}

-- The market once its second rental is gone.
abbrev vacant : Db
vacant = record market { rentals = ended ∷ [] }

vacant-Inv : Inv vacant
unfolding sum_by
vacant-Inv = record {
  machine_keys = market-Inv.machine_keys;
  account_keys = market-Inv.account_keys;
  rental_keys = (refl, tt);
  machine_fresh = market-Inv.machine_fresh;
  rental_fresh = (omega arith, tt);
  solvent = market-Inv.solvent;
  creditors = market-Inv.creditors;
  rentals_linked = ((refl, refl), tt);
  invoices_linked = market-Inv.invoices_linked;
  balanced = market-Inv.balanced;
}

abbrev asked : CreateRentalRequest
asked = record {
  account_id = "acct_1";
  machine_id = 1;
  image = "metal:gemm:4096";
  ssh_pubkey = none;
}

asked-Admitted : Admitted asked vacant host tenant ""
unfolding fetch rental_key is_http_status_image strip_prefix trim trim_start trim_end occupies
    occupying_in_list select as_str occupies_machine
asked-Admitted = record {
  machine = refl;
  account = refl;
  ssh_key = refl;
  is_online = refl;
  is_idle = refl;
  pays_a_minute = omega arith;
}

known : authenticate (some "Bearer agt_1") vacant ≡ ok host
unfolding authenticate fetch strip_prefix
known = refl

-- A worker is known by its size.
abbrev quoted : String → String
quoted s = s

abbrev worker : ℕ → ℤ → Result String ℕ
worker n port = ok n

abbrev fresh : MetalRuntime ℕ
fresh = record { port_start = pos 40000; port_end = pos 40001; jobs = [] }

abbrev job : Started
job = record { container_id = "metal-job-3"; ssh_port = pos 40000; kind = RentalKind.http_status }

abbrev working : MetalRuntime ℕ
working = record fresh { jobs = (3, record { child = 4096; port = pos 40000 }) ∷ [] }

abbrev launcher : HostRuntime
launcher = metal_runtime ℕ quoted worker (λ _. true)

job_starts :
    launcher.start_rental
      (record { rental_id = 3; image = "metal:gemm:4096"; ssh_pubkey = "" })
      fresh
    ≡ (ok job, working)
unfolding start_rental launch parse_task pick_free_port count_from fetch ◌+ℤ◌ ◌-ℤ◌ gemm_size
    split_once used_ports parse_u32 parse_digits digits_onto strip_prefix decimal select
job_starts = refl

rental-starts_example :
    let db1 = (create_rental wire_text asked (pos 1700) vacant).1 in
    let (answer, db2) = heartbeat wire_text (some "Bearer agt_1") alive (pos 1730) db1 in
    let sent = (dispatch launcher (start_of wire_text asked vacant host tenant "") fresh).0 in
    let (accepted, db3) = report (some "Bearer agt_1") sent (pos 1731) db2 in
    ((waiting : List Command) × (answer
        ≡ ok (record { commands = waiting ++ start_of wire_text asked vacant host tenant "" ∷ [] }))
      × Carries wire_text (select (pending 1) vacant.commands) waiting)
    × (accepted ≡ ok tt)
    × ((shown : RentalResponse) × (get_rental 3 db3 ≡ ok shown)
        × Shows wire_text asked vacant host tenant "" job shown)
rental-starts_example =
    rental-starts wire_text asked vacant host tenant "" launcher (some "Bearer agt_1") (pos 1700)
      (pos 1730) (pos 1731) job fresh working vacant-Inv asked-Admitted known
      ((Command.stop_rental 2, refl), tt) job_starts

-- The same with a size that is no multiple of 8.
abbrev misasked : CreateRentalRequest
misasked = record asked { image = "metal:gemm:300" }

misasked-Admitted : Admitted misasked vacant host tenant ""
unfolding fetch rental_key is_http_status_image strip_prefix trim trim_start trim_end occupies
    occupying_in_list select as_str occupies_machine
misasked-Admitted = record {
  machine = refl;
  account = refl;
  ssh_key = refl;
  is_online = refl;
  is_idle = refl;
  pays_a_minute = omega arith;
}

abbrev complaint : String
complaint = "GEMM size must be a multiple of 8 in 256..=16384 (got 300)"

job_fails :
    launcher.start_rental
      (record { rental_id = 3; image = "metal:gemm:300"; ssh_pubkey = "" })
      fresh
    ≡ (err complaint, fresh)
unfolding start_rental parse_task gemm_size split_once parse_u32 parse_digits digits_onto
    strip_prefix decimal
job_fails = refl

rental-fails_example :
    let db2 =
      (heartbeat wire_text
        (some "Bearer agt_1")
        alive
        (pos 1730)
        (create_rental wire_text misasked (pos 1700) vacant).1).1 in
    let sent = (dispatch launcher (start_of wire_text misasked vacant host tenant "") fresh).0 in
    let (accepted, db3) = report (some "Bearer agt_1") sent (pos 1760) db2 in
    let row = rented_row wire_text misasked vacant host tenant "" (pos 1700) in
    (sent ≡ record {
      rental_id = 3;
      status = RentalStatus.failed;
      kind = none;
      ssh_port = none;
      container_id = none;
      error = some complaint;
    })
    × (accepted ≡ ok tt)
    × Holds "acct_1" (pos 460 -ℤ charged row (pos 1760) tenant) db3
    × Owes host (pos 40 +ℤ charged row (pos 1760) tenant) db3
    × (fetch (reported sent host) db3.rentals
        ≡ some (settled_rental (touch alive (pos 1730) host) sent (pos 1760) row tenant))
rental-fails_example =
    rental-fails wire_text misasked vacant host tenant "" launcher (some "Bearer agt_1") (pos 1700)
      (pos 1730) (pos 1760) complaint fresh fresh vacant-Inv misasked-Admitted known
      ((Command.stop_rental 2, refl), tt) job_fails
