-- ===== src/Core/Api.antt =====
-- crates/core/src/api.rs: the bodies of requests and responses. An `f64` is `F64`.
use computation_market_poc.Prelude.{ℕ, String, Bool, List, Option}
use computation_market_poc.Prelude.Int.{ℤ}
use computation_market_poc.Core.Model.{DiskType, RentalKind, RentalStatus}

-- A finite `f64`, as a whole number of 2 ^ -1074, the least positive one.
abbrev pub F64 : Type 0
F64 = ℤ

pub record RegisterRequest : Type 0 where
  pub host_id : String
  pub gpu_name : String
  pub gpu_count : ℤ
  pub vram_mb : ℤ
  pub cpu_name : String
  pub cpu_cores : ℤ
  pub ram_mb : ℤ
  pub disk_gb : ℤ
  pub disk_type : DiskType
  pub public_ip : String
  pub port_start : ℤ
  pub port_end : ℤ
  pub inet_down_mbps : Option F64
  pub inet_up_mbps : Option F64
  pub country : Option String
  pub dlperf : F64
  pub rate_sats_per_min : ℤ
  pub hw_fingerprint : String

pub record RegisterResponse : Type 0 where
  pub machine_id : ℕ
  pub agent_token : String

pub record HeartbeatRequest : Type 0 where
  pub online : Bool

pub data Command : Type 0 where
  -- rental_id, image, ssh_pubkey
  start_rental : ℕ → String → String → Command
  -- rental_id
  stop_rental : ℕ → Command

pub record HeartbeatResponse : Type 0 where
  pub commands : List Command

pub record ReportRequest : Type 0 where
  pub rental_id : ℕ
  pub status : RentalStatus
  pub kind : Option RentalKind
  pub ssh_port : Option ℤ
  pub container_id : Option String
  pub error : Option String

pub record RateRequest : Type 0 where
  pub rate_sats_per_min : ℤ

pub record PayoutRequest : Type 0 where
  pub bolt11 : String

pub record PayoutResponse : Type 0 where
  pub paid_sats : ℤ

pub record Offer : Type 0 where
  pub machine_id : ℕ
  pub gpu_name : String
  pub gpu_count : ℤ
  pub vram_mb : ℤ
  pub cpu_name : String
  pub cpu_cores : ℤ
  pub ram_mb : ℤ
  pub disk_gb : ℤ
  pub disk_type : DiskType
  pub public_ip : String
  pub country : Option String
  pub inet_down_mbps : Option F64
  pub inet_up_mbps : Option F64
  pub dlperf : F64
  pub rate_sats_per_min : ℤ
  pub rate_sats_per_hour : ℤ

pub record OffersResponse : Type 0 where
  pub offers : List Offer

pub record CreateAccountResponse : Type 0 where
  pub account_id : String

pub record AccountResponse : Type 0 where
  pub account_id : String
  pub balance_sats : ℤ
  pub burn_sats_per_min : ℤ
  pub runway_minutes : Option ℤ

pub record DepositRequest : Type 0 where
  pub sats : ℤ

pub record DepositResponse : Type 0 where
  pub bolt11 : String
  pub payment_hash : String
  pub sats : ℤ

pub record CreateRentalRequest : Type 0 where
  pub machine_id : ℕ
  pub account_id : String
  pub image : String
  pub ssh_pubkey : Option String

pub record CreateRentalResponse : Type 0 where
  pub rental_id : ℕ
  pub status : RentalStatus
  pub rate_sats_per_min : ℤ

pub record RentalResponse : Type 0 where
  pub id : ℕ
  pub machine_id : ℕ
  pub account_id : String
  pub image : String
  pub status : RentalStatus
  pub kind : RentalKind
  pub gpu_name : String
  pub gpu_count : ℤ
  pub ssh_host : Option String
  pub ssh_port : Option ℤ
  pub ssh_command : Option String
  pub rate_sats_per_min : ℤ
  pub sats_charged : ℤ
  pub minutes_billed : ℤ
  pub paid_through : ℤ
  pub error : Option String
  pub created_at : ℤ
  pub ended_at : Option ℤ

pub record HealthResponse : Type 0 where
  pub ok : Bool
  pub ln_backend : String
