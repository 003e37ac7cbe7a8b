-- ===== src/HostAgent/Tests/Docker.antt =====
-- A Docker daemon that keeps its containers in a list, and a machine with two GPUs.
use computation_market_poc.Prelude.{
  ◌≡◌, refl, String, false, List, [], ◌∷◌, map, some, ok, arith, not,
}
use mathlib.Core.List.{Perm}
use mathlib.Core.List.Perm
use computation_market_poc.Prelude.Int.{pos, ◌+ℤ◌, ◌-ℤ◌, ◌≤ℤ◌}
use computation_market_poc.Prelude.Key.{◌==◌, string_eq, port_eq}
use computation_market_poc.Prelude.Table.{select, fetch, contains}
use computation_market_poc.Prelude.Text.{decimal, decimal_ℤ, digits_from, hex_digit}
use computation_market_poc.Core.Model.{RentalKind}
use computation_market_poc.HostAgent.Ports.{pick_free_port, count_from}
use computation_market_poc.HostAgent.Ports.Lowest.{UsedFrom}
use computation_market_poc.HostAgent.Parse.{parse_signed, parse_digits, digits_onto}
use computation_market_poc.HostAgent.Runtime.{
  RentalSpec, Started, RunningRental, container_name, split_image_tag, rfind,
}
use computation_market_poc.HostAgent.Docker.{
  Daemon, Container, stamped, pull_image, drain, running_rentals, rentals_of, rental_of_container,
  get, used_ports, force_remove, launch, start_rental, pulled,
}
use computation_market_poc.HostAgent.Docker.Recovery.{
  Launched, container_of, rental_of, rentals_of-launched,
}
use computation_market_poc.HostAgent.Docker.Launch.{start_rental-lowest}
use computation_market_poc.HostAgent.Benchmark.{GpuInfo, fingerprint}
use computation_market_poc.HostAgent.Benchmark.Fingerprint.{fingerprint-perm}

-- The containers by name; all of them run.
abbrev listed : Daemon
listed = record {
  State = List (String × Container);
  display = λ _. "refused";
  create_image = λ _ _ s. (ok tt ∷ [], s);
  list_containers = λ _ s. ok (map (λ entry. entry.1) s);
  create_container = λ name config s.
      (ok "c9", (name, record { id = some "c9"; labels = some config.labels }) ∷ s);
  start_container = λ _ s. (ok tt, s);
  stop_container = λ _ _ s. (ok tt, s);
  remove_container = λ name s. (ok tt, select (λ entry. not (entry.0 == name)) s);
}

abbrev busy : List (String × Container)
busy = ("vgpu-rental-7", record { id = some "c7"; labels = some (stamped 7 (pos 40000)) }) ∷ []

abbrev two_launched : List Launched
two_launched =
    record { rental_id = 7; container_id = "c7"; ssh_port = 40000 }
    ∷ record { rental_id = 8; container_id = "c8"; ssh_port = 40003 }
    ∷ []

rentals_of-launched_example :
    rentals_of (map container_of two_launched) ≡ map rental_of two_launched
rentals_of-launched_example = rentals_of-launched two_launched (omega arith)

abbrev spec : RentalSpec
spec = record { rental_id = 9; image = "nvidia/cuda:12"; ssh_pubkey = "ssh-ed25519 A" }

abbrev launched : Started
launched = record { container_id = "c9"; ssh_port = pos 40001; kind = RentalKind.ssh }

launches : start_rental listed (pos 40000) (pos 40010) spec busy ≡ (
  ok launched,
  ("vgpu-rental-9", record { id = some "c9"; labels = some (stamped 9 (pos 40001)) }) ∷ busy,
)
unfolding start_rental used_ports running_rentals rentals_of rental_of_container get decimal
    decimal_ℤ digits_from hex_digit parse_signed parse_digits digits_onto launch force_remove
    container_name pick_free_port count_from fetch ◌+ℤ◌ ◌-ℤ◌ select pull_image drain split_image_tag
    rfind
launches = refl

start_rental-lowest_example :
    (rentals : List RunningRental) × (s1 : List (String × Container)) × (running_rentals listed
        (pulled listed (pos 40000) (pos 40010) spec busy).1
      ≡ (ok rentals, s1))
    × (pos 40000 ≤ℤ pos 40001)
    × (pos 40001 ≤ℤ pos 40010)
    × (contains (pos 40001) (map (λ r. r.ssh_port) rentals) ≡ false)
    × UsedFrom (map (λ r. r.ssh_port) rentals) (pos 40000) (pos 40001)
start_rental-lowest_example =
    start_rental-lowest listed (pos 40000) (pos 40010) spec busy
      (("vgpu-rental-9", record { id = some "c9"; labels = some (stamped 9 (pos 40001)) }) ∷ busy)
      launched launches

abbrev gpu_a : GpuInfo
gpu_a = record {
  name = "RTX 4090";
  uuid = "GPU-aaa";
  pci_bus_id = "00000000:01:00.0";
  vram_mb = pos 24564;
}

abbrev gpu_b : GpuInfo
gpu_b = record gpu_a { uuid = "GPU-bbb"; pci_bus_id = "00000000:02:00.0" }

swapped : Perm (gpu_a ∷ gpu_b ∷ []) (gpu_b ∷ gpu_a ∷ [])
swapped = Perm.swap gpu_b gpu_a []

fingerprint-perm_example :
    fingerprint (λ s. s) (gpu_a ∷ gpu_b ∷ []) ≡ fingerprint (λ s. s) (gpu_b ∷ gpu_a ∷ [])
fingerprint-perm_example =
    fingerprint-perm (λ s. s) (gpu_a ∷ gpu_b ∷ []) (gpu_b ∷ gpu_a ∷ []) swapped
