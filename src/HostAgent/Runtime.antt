-- ===== src/HostAgent/Runtime.antt =====
-- crates/host-agent/src/runtime.rs: the interface to a launcher of workloads, and the helpers that
-- the launchers share. An error of `anyhow` is the text that `{e:#}` prints.
use Prim.Native.Nat.{◌+◌}
use Prim.Native.Char.{code}
use Prim.Native.String
use computation_market_poc.Prelude.{
  ℕ, zero, suc, nat_beq, String, List, Option, none, some, Result, ok, err, if◌then◌else◌, get_or,
}
use mathlib.Core.Option
use computation_market_poc.Prelude.Int.{ℤ, leb_ℤ}
use computation_market_poc.Prelude.Text.{decimal, decimal_ℤ}
use computation_market_poc.Core.Model.{RentalKind}

pub record RentalSpec : Type 0 where
  pub rental_id : ℕ
  pub image : String
  pub ssh_pubkey : String

pub record Started : Type 0 where
  pub container_id : String
  pub ssh_port : ℤ
  pub kind : RentalKind

pub record RunningRental : Type 0 where
  pub rental_id : ℤ
  pub container_id : String
  pub ssh_port : ℤ

-- The trait, over what a launcher keeps.
pub record HostRuntime : Type 1 where
  pub State : Type 0
  pub start_rental : RentalSpec → State → Result String Started × State
  pub stop_rental : ℕ → State → Result String (Unit {0}) × State
  pub running_rentals : State → Result String (List RunningRental) × State
  pub available : State → Result String (List ℤ)

-- The check with which `connect` begins.
unfoldable pub connect_check : ℤ → ℤ → Result String (Unit {0})
connect_check port_start port_end =
    if leb_ℤ port_start port_end
    then ok tt
    else err (
        String.◌++◌ "port_start (" (
          String.◌++◌ (decimal_ℤ port_start)
            (String.◌++◌ ") must be <= port_end (" (String.◌++◌ (decimal_ℤ port_end) ")"))))

unfoldable pub container_name : ℕ → String
container_name rental_id = String.◌++◌ "vgpu-rental-" (decimal rental_id)

-- `str::rfind` of a character, as an index.
unfoldable pub rfind : ℕ → String → Option ℕ
rfind c String.[] = none
rfind c (String.◌∷◌ d s) =
    let later = rfind c s in
    elim later [ some i ↦ some (suc i) | none ↦ if nat_beq (code d) c then some zero else none ]

-- The codes of `/` and `:` are 47 and 58.
unfoldable pub split_image_tag : String → String × String
split_image_tag image =
    let last_segment_start = get_or (Option.map (λ i. i + 1) (rfind 47 image)) 0 in
    let last_segment = String.slice image last_segment_start (String.len image) in
    elim (rfind 58 last_segment) [
      | some rel ↦
          let abs = last_segment_start + rel in
          (String.slice image 0 abs, String.slice image (abs + 1) (String.len image))
      | none ↦ (image, "latest")
    ]
