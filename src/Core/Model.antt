-- ===== src/Core/Model.antt =====
-- crates/core/src/model.rs: the enums that mean the same on every side of the wire.
pub mod Occupancy
use text.Mathlib.Text.{starts_with}
use computation_market_poc.Prelude.{String, Bool, true, false, List, [], ◌∷◌}

pub data RentalStatus : Type 0 where
  provisioning running evicting stopped failed : RentalStatus

unfoldable pub occupies_machine : RentalStatus → Bool
occupies_machine RentalStatus.provisioning = true
occupies_machine RentalStatus.running = true
occupies_machine RentalStatus.evicting = true
occupies_machine _ = false

unfoldable pub is_terminal : RentalStatus → Bool
is_terminal RentalStatus.stopped = true
is_terminal RentalStatus.failed = true
is_terminal _ = false

unfoldable pub as_str : RentalStatus → String
as_str RentalStatus.provisioning = "provisioning"
as_str RentalStatus.running = "running"
as_str RentalStatus.evicting = "evicting"
as_str RentalStatus.stopped = "stopped"
as_str RentalStatus.failed = "failed"

-- `RentalStatus::ALL`
abbrev pub all_statuses : List RentalStatus
all_statuses =
    RentalStatus.provisioning ∷ RentalStatus.running ∷ RentalStatus.evicting ∷ RentalStatus.stopped
    ∷ RentalStatus.failed ∷ []

-- The derived `PartialEq`.
unfoldable pub status_eq : RentalStatus → RentalStatus → Bool
status_eq RentalStatus.provisioning RentalStatus.provisioning = true
status_eq RentalStatus.running RentalStatus.running = true
status_eq RentalStatus.evicting RentalStatus.evicting = true
status_eq RentalStatus.stopped RentalStatus.stopped = true
status_eq RentalStatus.failed RentalStatus.failed = true
status_eq _ _ = false

pub data DiskType : Type 0 where
  nvme ssd hdd unknown : DiskType

pub data RentalKind : Type 0 where
  ssh http_status http_openai : RentalKind

unfoldable pub is_http_status_image : String → Bool
is_http_status_image image = starts_with image "metal:"

pub data LedgerKind : Type 0 where
  deposit rental_charge host_credit payout evict : LedgerKind
