-- ===== src/ControlPlane/Tests/Market.antt =====
-- One small market: a host with two rentals, one over and one running, and the tenant who pays them.
use computation_market_poc.Prelude.{refl, true, false, [], ◌∷◌, none, some, arith}
use computation_market_poc.Prelude.Int.{pos, negsuc, int_laws}
use computation_market_poc.Prelude.Table.{sum_by}
use computation_market_poc.Core.Api.{Command, ReportRequest}
use computation_market_poc.Core.Model.{DiskType, LedgerKind, RentalKind, RentalStatus}
use computation_market_poc.ControlPlane.Db.{
  Db, MachineRow, AccountRow, RentalRow, LedgerRow, InvoiceRow, CommandRow,
}
use computation_market_poc.ControlPlane.Invariant.{Inv}
use computation_market_poc.ControlPlane.Tests.WireText.{wire_text}

abbrev pub host : MachineRow
host = record {
  id = 1;
  agent_token = "agt_1";
  host_id = "rig";
  gpu_name = "RTX 4090";
  gpu_count = pos 2;
  vram_mb = pos 24576;
  cpu_name = "EPYC";
  cpu_cores = pos 32;
  ram_mb = pos 128000;
  disk_gb = pos 1000;
  disk_type = DiskType.nvme;
  public_ip = "203.0.113.7";
  port_start = pos 40000;
  port_end = pos 40010;
  inet_down_mbps = none;
  inet_up_mbps = none;
  country = some "TW";
  dlperf = pos 5;
  rate_sats_per_min = pos 10;
  payout_balance = pos 40;
  online = true;
  last_heartbeat = pos 1600;
  hw_fingerprint = "f";
  created_at = pos 100;
}

abbrev pub tenant : AccountRow
tenant = record { id = "acct_1"; balance_sats = pos 460; created_at = pos 200 }

abbrev pub ended : RentalRow
ended = record {
  id = 1;
  machine_id = 1;
  account_id = "acct_1";
  image = "nvidia/cuda";
  ssh_pubkey = "ssh-ed25519 A";
  status = RentalStatus.stopped;
  kind = RentalKind.ssh;
  ssh_host = some "203.0.113.7";
  ssh_port = some (pos 40000);
  container_id = some "c1";
  error = none;
  rate_sats_per_min = pos 10;
  sats_charged = pos 40;
  minutes_billed = pos 4;
  paid_through = pos 0;
  created_at = pos 500;
  ended_at = some (pos 740);
}

abbrev pub running : RentalRow
running = record ended {
  id = 2;
  status = RentalStatus.running;
  container_id = some "c2";
  sats_charged = pos 0;
  minutes_billed = pos 0;
  created_at = pos 1000;
  ended_at = none;
}

abbrev pub invoice : InvoiceRow
invoice = record {
  payment_hash = "h2";
  account_id = "acct_1";
  sats = pos 25;
  bolt11 = "lnbcmock25n2";
  settled = false;
  created_at = pos 900;
}

abbrev pub command : CommandRow
command = record {
  id = 1;
  machine_id = 1;
  payload = wire_text.to_string (Command.stop_rental 2);
  delivered = false;
  created_at = pos 1500;
}

abbrev pub entry : LedgerRow
entry = record {
  id = 1;
  ts = pos 300;
  account_id = some "acct_1";
  machine_id = none;
  rental_id = none;
  delta_sats = pos 500;
  kind = LedgerKind.deposit;
  note = some "deposit";
}

abbrev pub market : Db
market = record {
  machines = host ∷ [];
  accounts = tenant ∷ [];
  rentals = ended ∷ running ∷ [];
  invoices = invoice ∷ [];
  ledger =
      entry
      ∷ record entry { id = 2; delta_sats = negsuc 39; kind = LedgerKind.rental_charge }
      ∷ record entry { id = 3; delta_sats = pos 40; kind = LedgerKind.host_credit }
      ∷ [];
  commands = command ∷ [];
  machine_seq = 1;
  rental_seq = 2;
  ledger_seq = 3;
  command_seq = 1;
}

pub market-Inv : Inv market
unfolding sum_by
market-Inv = record {
  machine_keys = (refl, tt);
  account_keys = (refl, tt);
  rental_keys = (refl, (refl, tt));
  machine_fresh = (omega arith, tt);
  rental_fresh = (omega arith, (omega arith, tt));
  solvent = (omega arith, tt);
  creditors = (omega arith, tt);
  rentals_linked = ((refl, refl), ((refl, refl), tt));
  invoices_linked = ((refl, omega arith), tt);
  balanced = omega int_laws;
}

-- The agent's reports, at 1630: the running rental has been used for 630 seconds.
abbrev pub stopped_report : ReportRequest
stopped_report = record {
  rental_id = 2;
  status = RentalStatus.stopped;
  kind = none;
  ssh_port = none;
  container_id = none;
  error = none;
}

abbrev pub running_report : ReportRequest
running_report = record stopped_report { rental_id = 1; status = RentalStatus.running }
