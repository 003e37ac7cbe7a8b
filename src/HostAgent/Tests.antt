-- ===== src/HostAgent/Tests.antt =====
-- The cases of the unit tests in crates/host-agent/src/runtime.rs, and one host with a job.
mod Docker
mod Agent
mod Lifecycle
use computation_market_poc.Prelude.{
  ℕ, ◌≡◌, refl, true, false, ◌||◌, is_some, String, List, [], ◌∷◌, some, none, Result, ok, arith,
}
use computation_market_poc.Prelude.Int.{ℤ, pos, ◌+ℤ◌, ◌-ℤ◌, ◌≤ℤ◌}
use computation_market_poc.Prelude.Key.{port_eq}
use computation_market_poc.Prelude.Table.{fetch, contains}
use computation_market_poc.Core.Api.{Command}
use computation_market_poc.Core.Model.{is_terminal}
use computation_market_poc.HostAgent.Ports.{pick_free_port, count_from}
use computation_market_poc.HostAgent.Ports.Lowest.{
  UsedFrom, pick_free_port-lowest, pick_free_port-exhausted,
}
use computation_market_poc.HostAgent.Runtime.{RentalSpec, split_image_tag, rfind}
use computation_market_poc.HostAgent.Metal.{
  MetalRuntime, start_rental, stop_rental, running_rentals, metal_runtime,
}
use computation_market_poc.HostAgent.Metal.Allotment.{Allotted, metal_runtime-Allotted}
use computation_market_poc.HostAgent.Dispatch.{dispatch, dispatch-ends}

abbrev taken : List ℤ
taken = pos 40000 ∷ pos 40001 ∷ pos 40003 ∷ []

picks_lowest_free_port : pick_free_port (pos 40000) (pos 40010) taken ≡ some (pos 40002)
unfolding pick_free_port count_from fetch ◌+ℤ◌ ◌-ℤ◌
picks_lowest_free_port = refl

pick_free_port-lowest_example :
    (pos 40000 ≤ℤ pos 40002)
    × (pos 40002 ≤ℤ pos 40010)
    × (contains (pos 40002) taken ≡ false)
    × UsedFrom taken (pos 40000) (pos 40002)
pick_free_port-lowest_example =
    pick_free_port-lowest (pos 40000) (pos 40010) taken (pos 40002) picks_lowest_free_port

exhausted_range : pick_free_port (pos 40000) (pos 40001) taken ≡ none
unfolding pick_free_port count_from fetch ◌+ℤ◌ ◌-ℤ◌
exhausted_range = refl

image_tag_defaults_to_latest : split_image_tag "nvidia/cuda" ≡ ("nvidia/cuda", "latest")
unfolding split_image_tag rfind
image_tag_defaults_to_latest = refl

image_tag_is_parsed :
    split_image_tag "pytorch/pytorch:2.3.0-cuda12.1" ≡ ("pytorch/pytorch", "2.3.0-cuda12.1")
unfolding split_image_tag rfind
image_tag_is_parsed = refl

registry_port_is_not_mistaken_for_tag :
    split_image_tag "registry.local:5000/team/img" ≡ ("registry.local:5000/team/img", "latest")
unfolding split_image_tag rfind
registry_port_is_not_mistaken_for_tag = refl

-- A worker is known by its size.
abbrev started_worker : ℕ → ℤ → Result String ℕ
started_worker n port = ok n

abbrev quoted : String → String
quoted s = s

abbrev busy : MetalRuntime ℕ
busy = record {
  port_start = pos 40000;
  port_end = pos 40001;
  jobs = (7, record { child = 2048; port = pos 40000 }) ∷ [];
}

busy-Allotted : Allotted busy
busy-Allotted = record {
  in_range = ((omega arith, omega arith), tt);
  own_ports = (refl, tt);
  own_jobs = (refl, tt);
}

abbrev spec : RentalSpec
spec = record { rental_id = 8; image = "metal:gemm:4096"; ssh_pubkey = "" }

metal_runtime-Allotted_example :
    Allotted (start_rental quoted started_worker spec busy).1
    × Allotted (stop_rental 7 busy).1
    × Allotted (running_rentals (λ _. true) busy).1
metal_runtime-Allotted_example =
    metal_runtime-Allotted quoted started_worker spec 7 (λ _. true) busy busy-Allotted
