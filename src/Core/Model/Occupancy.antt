-- ===== src/Core/Model/Occupancy.antt =====
-- A status is exactly one of occupying and terminal.
use computation_market_poc.Prelude.{◌≡◌, refl, not}
use computation_market_poc.Core.Model.{RentalStatus, occupies_machine, is_terminal}

pub occupies-not-terminal : (s : RentalStatus) → occupies_machine s ≡ not (is_terminal s)
unfolding occupies_machine is_terminal
occupies-not-terminal RentalStatus.provisioning = refl
occupies-not-terminal _ = refl
