-- ===== src/ControlPlane/Tests/Histories.antt =====
-- A host joins and a tenant opens an account.
use computation_market_poc.Prelude.{
  ◌≡◌, ◌↔◌, none, some, ok, String, Bool, true, false, Result, refl, [], ◌∷◌, map,
}
use computation_market_poc.Prelude.Int.{pos, ◌+ℤ◌, ◌≤ℤ◌}
use computation_market_poc.Prelude.Table.{All}
use computation_market_poc.Core.Api.{RegisterRequest, CreateRentalRequest}
use computation_market_poc.Core.Model.{DiskType}
use computation_market_poc.ControlPlane.Db.{Db, RentalRow, empty_db}
use computation_market_poc.ControlPlane.Routes.Auth.{commit}
use computation_market_poc.ControlPlane.Tests.Market.{running}
use computation_market_poc.ControlPlane.State.{default_billing}
use computation_market_poc.ControlPlane.Lightning.Mock.{mock_backend, new}
use computation_market_poc.ControlPlane.Billing.{tick}
use computation_market_poc.ControlPlane.Routes.Agent.{register}
use computation_market_poc.ControlPlane.Routes.Tenant.{
  create_account, deposit, create_rental, delete_tx,
}
use computation_market_poc.ControlPlane.Invariant.{held, owed, booked}
use computation_market_poc.ControlPlane.System.{
  Reachable, here, next, registers, create_accounts, deposits, ticks, create_rentals,
}
use computation_market_poc.ControlPlane.Queues.{Queued}
use computation_market_poc.ControlPlane.Queues.Histories.{Reachable-Queued}
use computation_market_poc.ControlPlane.Interleaving.{Committed, commits, rental_stopped}
use computation_market_poc.ControlPlane.Interleaving.Serial.{Reachable-Committed}
use computation_market_poc.ControlPlane.Interleaving.Balances.{Committed-balanced, booked-zero_iff}
use computation_market_poc.ControlPlane.Routes.Tenant.{
  create_check, deposit_check, deposit_insert, create_insert, new_rental, rental_key, occupies,
  occupying_in_list,
}
use computation_market_poc.Prelude.Table.{fetch, select, update}
use computation_market_poc.ControlPlane.Billing.{
  poll_invoices, poll_each, poll_answered, accrued_charge, enforce_budget, enforce_budgets,
  enforce_each, evict, mark_offline, settle_invoice,
}
use computation_market_poc.ControlPlane.Db.{
  insert_account, insert_machine, insert_invoice, insert_rental, move_balance, queue_command,
  record_row,
}
use computation_market_poc.ControlPlane.Routes.Agent.{new_machine, refresh_machine}
use computation_market_poc.ControlPlane.Lightning.Mock.{create_invoice}
use computation_market_poc.ControlPlane.State.{heartbeat_timeout_secs}
use computation_market_poc.Core.Model.{as_str, is_http_status_image, occupies_machine, status_eq}
use computation_market_poc.Prelude.Int.{◌-ℤ◌}
use computation_market_poc.Prelude.Text.{decimal, decimal_ℤ, pad_hex, trim, trim_end, trim_start}
use computation_market_poc.Prelude.Word.{wrap}
use computation_market_poc.ControlPlane.Tests.WireText.{wire_text}

abbrev joining : RegisterRequest
joining = record {
  host_id = "rig";
  gpu_name = "RTX 4090";
  gpu_count = pos 2;
  vram_mb = pos 24576;
  cpu_name = "EPYC";
  cpu_cores = pos 32;
  ram_mb = pos 128000;
  disk_gb = pos 1000;
  disk_type = DiskType.nvme;
  public_ip = "203.0.113.7";
  port_start = pos 40000;
  port_end = pos 40010;
  inet_down_mbps = none;
  inet_up_mbps = none;
  country = some "TW";
  dlperf = pos 5;
  rate_sats_per_min = pos 10;
  hw_fingerprint = "f";
}

abbrev opened : Db
opened = (create_account "acct_1" (pos 7) (register "agt_1" joining (pos 5) empty_db).1).1

opened_is_reached : Reachable wire_text mock_backend opened
opened_is_reached =
    next (next here (registers "agt_1" joining (pos 5))) (create_accounts "acct_1" (pos 7))

-- The backend has seen no payment.
abbrev nothing_paid : String → Result String Bool
nothing_paid _ = ok false

-- The tenant pays in, and rents the machine.
abbrev paid_in : Db
paid_in =
    (deposit mock_backend "acct_1" (record { sats = pos 500 }) (pos 8) opened (new 2 1000)).0.1

abbrev all_paid : String → Result String Bool
all_paid _ = ok true

abbrev funded : Db
funded = (tick wire_text all_paid default_billing (λ _. pos 9) (pos 9) (λ _. pos 9) paid_in).1

abbrev wanted : CreateRentalRequest
wanted = record {
  machine_id = 1;
  account_id = "acct_1";
  image = "nvidia/cuda";
  ssh_pubkey = some "ssh-ed25519 A";
}

abbrev hired : Db
hired = (create_rental wire_text wanted (pos 10) funded).1

hired_is_reached : Reachable wire_text mock_backend hired
hired_is_reached =
    next
      (next
        (next opened_is_reached
          (deposits "acct_1" (record { sats = pos 500 }) (pos 8) (new 2 1000)))
        (ticks all_paid default_billing (λ _. pos 9) (pos 9) (λ _. pos 9)))
      (create_rentals wanted (pos 10))

-- One command waits.
one_waits : map (λ c. c.machine_id) hired.commands ≡ 1 ∷ []
unfolding create_rental create_check fetch tick poll_invoices poll_each select deposit deposit_check
    create_account insert_account register insert_machine create_invoice deposit_insert
    insert_invoice poll_answered accrued_charge enforce_budget enforce_budgets enforce_each evict
    mark_offline settle_invoice insert_rental move_balance queue_command record_row new_machine
    refresh_machine create_insert new_rental rental_key occupies occupying_in_list
    heartbeat_timeout_secs as_str is_http_status_image occupies_machine status_eq ◌+ℤ◌ ◌-ℤ◌ update
    decimal decimal_ℤ pad_hex trim trim_end trim_start wrap
one_waits = refl

Reachable-Queued_example : Queued wire_text hired
Reachable-Queued_example = Reachable-Queued wire_text mock_backend hired_is_reached

-- Two requests stop the rental, and both read it before either has written.
abbrev read_by_both : RentalRow
read_by_both = record running { id = 1 }

abbrev stopped_once : Db
stopped_once = (commit hired (delete_tx wire_text read_by_both (pos 11) hired)).1

abbrev stopped_twice : Db
stopped_twice = (commit stopped_once (delete_tx wire_text read_by_both (pos 12) stopped_once)).1

stopped_twice-Committed : Committed wire_text stopped_twice
stopped_twice-Committed =
    commits
      (commits (Reachable-Committed wire_text mock_backend hired_is_reached)
        (rental_stopped read_by_both (pos 11)))
      (rental_stopped read_by_both (pos 12))

Committed-balanced_example :
    All (λ a. pos 0 ≤ℤ a.balance_sats) stopped_twice.accounts
    × All (λ m. pos 0 ≤ℤ m.payout_balance) stopped_twice.machines
    × (booked stopped_twice.ledger ≡ held stopped_twice.accounts +ℤ owed stopped_twice.machines)
Committed-balanced_example = Committed-balanced wire_text stopped_twice-Committed

booked-zero_iff_example : (booked stopped_twice.ledger ≡ pos 0) ↔ (
    All (λ a. a.balance_sats ≡ pos 0) stopped_twice.accounts
    × All (λ m. m.payout_balance ≡ pos 0) stopped_twice.machines)
booked-zero_iff_example = booked-zero_iff wire_text stopped_twice-Committed
