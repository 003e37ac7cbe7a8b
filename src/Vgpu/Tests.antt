-- ===== src/Vgpu/Tests.antt =====
-- One rental that is asked for and read, on the small market.
use mathlib.Core.Option
use computation_market_poc.Prelude.{◌≡◌, refl, String, none, some, Result, ok}
use computation_market_poc.Prelude.Int.{pos}
use computation_market_poc.Prelude.Word.{as_i32}
use computation_market_poc.Prelude.Key.{nat_eq}
use computation_market_poc.Prelude.Text.{format, trim, trim_start, trim_end, decimal_ℤ}
use computation_market_poc.Prelude.Table.{fetch}
use computation_market_poc.Core.Api.{RentalResponse}
use computation_market_poc.Core.Model.{RentalKind, RentalStatus}
use computation_market_poc.ControlPlane.Routes.Tenant.{get_rental, ssh_command}
use computation_market_poc.ControlPlane.Tests.Market.{market}
use computation_market_poc.Vgpu.Client.{new, trim_slashes}
use computation_market_poc.Vgpu.Commands.{RentArgs, rent_key, endpoint_hint, pad_right}
use computation_market_poc.Vgpu.Keys.{Taken, rent_key-Taken}
use computation_market_poc.Vgpu.Hints.{command_of, endpoint_hint-ssh_command}

slashes_are_trimmed : (new "http://cp:8080//").base ≡ "http://cp:8080"
unfolding new trim_slashes
slashes_are_trimmed = refl

label_is_padded : pad_right 8 "SSH:" ≡ "SSH:    "
unfolding pad_right format
label_is_padded = refl

abbrev key_files : String → Result String String
key_files path = ok " ssh-ed25519 A\n"

abbrev from_file : RentArgs
from_file = record {
  machine_id = 1;
  account_id = "acct_1";
  image = "nvidia/cuda";
  ssh_key = none;
  ssh_key_file = some "id.pub";
}

read_key : rent_key key_files from_file ≡ ok (some "ssh-ed25519 A")
unfolding rent_key trim trim_start trim_end
read_key = refl

rent_key-Taken_example : Taken "nvidia/cuda" (some "ssh-ed25519 A")
rent_key-Taken_example = rent_key-Taken key_files from_file (some "ssh-ed25519 A") read_key

abbrev shown : RentalResponse
shown = record {
  id = 2;
  machine_id = 1;
  account_id = "acct_1";
  image = "nvidia/cuda";
  status = RentalStatus.running;
  kind = RentalKind.ssh;
  gpu_name = "RTX 4090";
  gpu_count = pos 2;
  ssh_host = some "203.0.113.7";
  ssh_port = some (pos 40000);
  ssh_command = some "ssh -p 40000 root@203.0.113.7";
  rate_sats_per_min = pos 10;
  sats_charged = pos 0;
  minutes_billed = pos 0;
  paid_through = pos 0;
  error = none;
  created_at = pos 1000;
  ended_at = none;
}

read_rental : get_rental 2 market ≡ ok shown
unfolding get_rental fetch as_i32 ssh_command decimal_ℤ
read_rental = refl

fits : Option.map as_i32 (some (pos 40000)) ≡ some (pos 40000)
unfolding as_i32
fits = refl

endpoint_hint-ssh_command_example :
    command_of (endpoint_hint shown.kind shown.ssh_host shown.ssh_port) ≡ shown.ssh_command
endpoint_hint-ssh_command_example =
    endpoint_hint-ssh_command 2 market shown (fits, (fits, tt)) read_rental refl
