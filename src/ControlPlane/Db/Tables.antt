-- ===== src/ControlPlane/Db/Tables.antt =====
-- The row types, and the database as the six tables with their AUTOINCREMENT counters.
use computation_market_poc.Prelude.{ℕ, String, Bool, List, []}
use computation_market_poc.Prelude.{Option}
use computation_market_poc.Prelude.Int.{ℤ}
use computation_market_poc.Core.Api.{F64}
use computation_market_poc.Core.Model.{DiskType, LedgerKind, RentalKind, RentalStatus}

pub record MachineRow : Type 0 where
  pub id : ℕ
  pub agent_token : String
  pub host_id : String
  pub gpu_name : String
  pub gpu_count : ℤ
  pub vram_mb : ℤ
  pub cpu_name : String
  pub cpu_cores : ℤ
  pub ram_mb : ℤ
  pub disk_gb : ℤ
  pub disk_type : DiskType
  pub public_ip : String
  pub port_start : ℤ
  pub port_end : ℤ
  pub inet_down_mbps : Option F64
  pub inet_up_mbps : Option F64
  pub country : Option String
  pub dlperf : F64
  pub rate_sats_per_min : ℤ
  pub payout_balance : ℤ
  pub online : Bool
  pub last_heartbeat : ℤ
  pub hw_fingerprint : String
  pub created_at : ℤ

pub record RentalRow : Type 0 where
  pub id : ℕ
  pub machine_id : ℕ
  pub account_id : String
  pub image : String
  pub ssh_pubkey : String
  pub status : RentalStatus
  pub kind : RentalKind
  pub ssh_host : Option String
  pub ssh_port : Option ℤ
  pub container_id : Option String
  pub error : Option String
  pub rate_sats_per_min : ℤ
  pub sats_charged : ℤ
  pub minutes_billed : ℤ
  pub paid_through : ℤ
  pub created_at : ℤ
  pub ended_at : Option ℤ

pub record AccountRow : Type 0 where
  pub id : String
  pub balance_sats : ℤ
  pub created_at : ℤ

pub record InvoiceRow : Type 0 where
  pub payment_hash : String
  pub account_id : String
  pub sats : ℤ
  pub bolt11 : String
  pub settled : Bool
  pub created_at : ℤ

pub record LedgerRow : Type 0 where
  pub id : ℕ
  pub ts : ℤ
  pub account_id : Option String
  pub machine_id : Option ℕ
  pub rental_id : Option ℕ
  pub delta_sats : ℤ
  pub kind : LedgerKind
  pub note : Option String

pub record CommandRow : Type 0 where
  pub id : ℕ
  pub machine_id : ℕ
  pub payload : String
  pub delivered : Bool
  pub created_at : ℤ

pub record Db : Type 0 where
  pub machines : List MachineRow
  pub accounts : List AccountRow
  pub rentals : List RentalRow
  pub invoices : List InvoiceRow
  pub ledger : List LedgerRow
  pub commands : List CommandRow
  -- `sqlite_sequence`
  pub machine_seq : ℕ
  pub rental_seq : ℕ
  pub ledger_seq : ℕ
  pub command_seq : ℕ

-- The database after the migrations.
abbrev pub empty_db : Db
empty_db = record {
  machines = [];
  accounts = [];
  rentals = [];
  invoices = [];
  ledger = [];
  commands = [];
  machine_seq = 0;
  rental_seq = 0;
  ledger_seq = 0;
  command_seq = 0;
}

-- The columns that keys and foreign keys name.
abbrev pub machine_id_of : MachineRow → ℕ
machine_id_of m = m.id

abbrev pub account_id_of : AccountRow → String
account_id_of a = a.id

abbrev pub rental_id_of : RentalRow → ℕ
rental_id_of r = r.id
