-- ===== src/ControlPlane/Tests/Renting.antt =====
-- Renting, listing and stopping on the small market.
use computation_market_poc.Prelude.{
  ◌≤◌, ◌<◌, ◌≡◌, ◌↔◌, refl, String, Bool, true, false, [], ◌∷◌, none, some, ok, arith, Bool-cases,
  inl, inr,
}
use computation_market_poc.Prelude.Int.{ℤ, pos}
use computation_market_poc.Prelude.Key.{◌==◌, nat_eq}
use computation_market_poc.Prelude.Text.{trim, trim_start, trim_end, strip_prefix}
use computation_market_poc.Prelude.Table.{All, select, fetch, count}
use computation_market_poc.Core.Api.{F64, CreateRentalRequest}
use computation_market_poc.Core.Model.{RentalStatus, is_terminal, as_str, occupies_machine}
use computation_market_poc.ControlPlane.Db.{Db, RentalRow}
use computation_market_poc.ControlPlane.Routes.Auth.{authenticate}
use computation_market_poc.ControlPlane.Routes.Agent.{report, report_read, settles}
use computation_market_poc.ControlPlane.Routes.Tenant.{
  create_check, create_rental, delete_rental, delete_tx, set_status_evicting, rental_key, occupies,
  occupying_in_list, OffersQuery, is_offered, offered_machines, clamped_limit, order_by,
  insert_sorted, take,
}
use computation_market_poc.ControlPlane.Admission.{
  Admitted, create_check-Admitted_iff, create_rental-admits, accepted, let_in,
}
use computation_market_poc.ControlPlane.Exclusion.{Exclusive, occupies_lem}
use computation_market_poc.ControlPlane.Exclusion.Routes.{
  create_rental-Exclusive, delete_rental-Exclusive, report-Exclusive,
}
use computation_market_poc.ControlPlane.Races.{stop-races}
use computation_market_poc.ControlPlane.Listing.{Chain, Member, length}
use computation_market_poc.ControlPlane.Listing.Matching.{Matches}
use computation_market_poc.ControlPlane.Listing.Offers.{
  InOrder, most, offered_machines-Ordered, offered_machines-all,
}
use computation_market_poc.ControlPlane.Tests.WireText.{wire_text}
use computation_market_poc.ControlPlane.Tests.Market.{
  host, tenant, ended, running, market, market-Inv, stopped_report,
}

-- The market once its second rental is gone.
abbrev idle : Db
idle = record market { rentals = ended ∷ [] }

abbrev asked : CreateRentalRequest
asked = record {
  account_id = "acct_1";
  machine_id = 1;
  image = "nvidia/cuda";
  ssh_pubkey = some "ssh-ed25519 B";
}

asked-Admitted : Admitted asked idle host tenant "ssh-ed25519 B"
unfolding fetch rental_key trim trim_start trim_end occupies occupying_in_list select as_str
    occupies_machine
asked-Admitted = record {
  machine = refl;
  account = refl;
  ssh_key = refl;
  is_online = refl;
  is_idle = refl;
  pays_a_minute = omega arith;
}

create_check-Admitted_iff_example :
    (create_check asked idle ≡ ok (host, tenant, "ssh-ed25519 B"))
    ↔ Admitted asked idle host tenant "ssh-ed25519 B"
create_check-Admitted_iff_example = create_check-Admitted_iff asked idle host tenant "ssh-ed25519 B"

create_rental-admits_example : create_rental wire_text asked (pos 1700) idle ≡ (
  ok (accepted wire_text asked (pos 1700) idle host tenant "ssh-ed25519 B"),
  let_in wire_text asked (pos 1700) idle host tenant "ssh-ed25519 B",
)
create_rental-admits_example =
    create_rental-admits wire_text asked (pos 1700) idle host tenant "ssh-ed25519 B" asked-Admitted

market-Exclusive : Exclusive market.rentals
unfolding count is_terminal
market-Exclusive machine =
    rw (occupies_lem machine ended, occupies_lem machine running)
      (elim (Bool-cases (1 == machine)) [
        | inl here ↦ rw here (omega arith)
        | inr elsewhere ↦ rw elsewhere (omega arith)
      ])

create_rental-Exclusive_example :
    Exclusive (create_rental wire_text asked (pos 1700) market).1.rentals
create_rental-Exclusive_example =
    create_rental-Exclusive wire_text asked (pos 1700) market market-Exclusive

delete_rental-Exclusive_example : Exclusive (delete_rental wire_text 2 (pos 1700) market).1.rentals
delete_rental-Exclusive_example =
    delete_rental-Exclusive wire_text 2 (pos 1700) market market-Inv market-Exclusive

stop_is_read : report_read (some "Bearer agt_1") stopped_report market ≡ ok (host, running)
unfolding report_read authenticate fetch strip_prefix
stop_is_read = refl

report-Exclusive_example :
    Exclusive (report (some "Bearer agt_1") stopped_report (pos 1630) market).1.rentals
unfolding is_terminal
report-Exclusive_example =
    report-Exclusive (some "Bearer agt_1") stopped_report (pos 1630) host running market market-Inv
      stop_is_read (λ _. refl) market-Exclusive

-- A stand-in for LIKE that finds everything, and one for the division.
abbrev finds_all : String → String → Bool
finds_all pattern text = true

abbrev divided : ℤ → F64 → F64
divided rate perf = rate

abbrev query : OffersQuery
query = record {
  gpu_name = some "4090";
  min_vram_mb = none;
  min_gpu_count = none;
  max_rate_sats_per_min = none;
  sort = none;
  limit = some (pos 1000);
}

offered_machines-Ordered_example :
    All (Matches finds_all divided query idle) (offered_machines finds_all divided query idle)
    × Chain (InOrder finds_all divided none) (offered_machines finds_all divided query idle)
    × (length (offered_machines finds_all divided query idle) ≤ 200)
    × (200 ≤ 200)
offered_machines-Ordered_example = offered_machines-Ordered finds_all divided query idle

few_match : length (offered_machines finds_all divided query idle) < most query
unfolding select clamped_limit is_offered fetch occupies occupying_in_list as_str occupies_machine
    offered_machines order_by insert_sorted take
few_match = omega arith

offered_machines-all_example :
    Member host (offered_machines finds_all divided query idle)
    ↔ (Member host idle.machines × Matches finds_all divided query idle host)
offered_machines-all_example = offered_machines-all finds_all divided query idle few_match host

-- The rental that is over, as it was read while it ran.
abbrev stale : RentalRow
stale = record ended { status = RentalStatus.running; ended_at = none }

ended_is_found : fetch (λ s. s.id == stale.id) market.rentals ≡ some ended
unfolding fetch
ended_is_found = refl

over : is_terminal RentalStatus.stopped ≡ true
unfolding is_terminal
over = refl

stop-races_example :
    (db' : Db) × (delete_tx wire_text stale (pos 1700) market
      ≡ ok (record { rental_id = 1; status = "evicting" }, db'))
    × (fetch (λ s. s.id == 1) db'.rentals ≡ some (set_status_evicting ended))
    × (occupies 1 (set_status_evicting ended) ≡ true)
    × (settles ended (record stopped_report { rental_id = 1 }) ≡ false)
    × (settles (set_status_evicting ended) (record stopped_report { rental_id = 1 }) ≡ true)
stop-races_example =
    stop-races wire_text (pos 1700) stale ended (record stopped_report { rental_id = 1 }) market
      market-Inv ended_is_found refl over over
