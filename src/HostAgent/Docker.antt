-- ===== src/HostAgent/Docker.antt =====
-- The Docker launcher of crates/host-agent/src/runtime.rs. The daemon, which `bollard` calls, is a
-- parameter: it answers each call from its state. A warning on unreadable labels is left out.
pub mod Recovery
pub mod Launch
use Prim.Native.String
use computation_market_poc.Prelude.{
  ℕ, nat_beq, String, Bool, false, ◌||◌, List, [], ◌∷◌, map, Option, none, some, get_or, Result, ok,
  err, map_err, ok_or, if◌then◌else◌,
}
use computation_market_poc.Prelude.Int.{ℤ, pos, negsuc}
use computation_market_poc.Prelude.Key.{◌==◌, string_eq}
use computation_market_poc.Prelude.Text.{decimal, decimal_ℤ, format}
use computation_market_poc.Core.Model.{RentalKind}
use computation_market_poc.HostAgent.Ports.{pick_free_port, free_ports}
use computation_market_poc.HostAgent.Parse.{parse_i64, parse_i32}
use computation_market_poc.HostAgent.Runtime.{
  RentalSpec, Started, RunningRental, HostRuntime, container_name, split_image_tag,
}

-- `bollard::errors::Error`, as far as the launcher looks at it.
pub data DockerError : Type 0 where
  docker_response_server_error : ℕ → String → DockerError
  other_error : String → DockerError

abbrev has_status : ℕ → DockerError → Bool
has_status code (docker_response_server_error status_code _) = nat_beq status_code code
has_status code (other_error _) = false

unfoldable pub is_not_found : DockerError → Bool
is_not_found e = has_status 404 e

unfoldable pub is_not_modified : DockerError → Bool
is_not_modified e = has_status 304 e

abbrev pub Labels : Type 0
Labels = List (String × String)

pub record Container : Type 0 where
  pub id : Option String
  pub labels : Option Labels

pub record PortBinding : Type 0 where
  pub host_ip : String
  pub host_port : String

pub record DeviceRequest : Type 0 where
  pub driver : String
  pub count : ℤ
  pub capabilities : List (List String)

pub record ContainerConfig : Type 0 where
  pub image : String
  pub env : List String
  pub exposed_ports : List String
  pub labels : Labels
  pub port_bindings : List (String × PortBinding)
  pub device_requests : List DeviceRequest

-- The daemon. `create_image` answers with the items of the stream, `list_containers` with the
-- running containers that have the label; `remove_container` is forced and takes the volumes.
pub record Daemon : Type 1 where
  pub State : Type 0
  pub display : DockerError → String
  pub create_image : String → String → State → List (Result DockerError (Unit {0})) × State
  pub list_containers : String → State → Result DockerError (List Container)
  pub create_container : String → ContainerConfig → State → Result DockerError String × State
  pub start_container : String → State → Result DockerError (Unit {0}) × State
  pub stop_container : String → ℕ → State → Result DockerError (Unit {0}) × State
  pub remove_container : String → State → Result DockerError (Unit {0}) × State

abbrev pub label_rental_id : String
label_rental_id = "io.vgpu.rental_id"

abbrev pub label_ssh_port : String
label_ssh_port = "io.vgpu.ssh_port"

abbrev pub container_ssh_port : String
container_ssh_port = "22/tcp"

-- `HashMap::get`
unfoldable pub get : String → Labels → Option String
get key [] = none
get key ((k, v) ∷ labels) = if k == key then some v else get key labels

abbrev parsed_rental : Container → Option ℤ → Option ℤ → Option RunningRental
parsed_rental c (some rental_id) (some ssh_port) =
    some (record { rental_id = rental_id; container_id = get_or c.id ""; ssh_port = ssh_port })
parsed_rental c (some _) none = none
parsed_rental c none _ = none

abbrev labelled_rental : Container → Option String → Option String → Option RunningRental
labelled_rental c (some rid) (some port) = parsed_rental c (parse_i64 rid) (parse_i32 port)
labelled_rental c (some _) none = none
labelled_rental c none _ = none

-- The rental that a container runs, if its labels are there and can be read.
unfoldable pub rental_of_container : Container → Option RunningRental
rental_of_container c =
    let labels = get_or c.labels [] in
    labelled_rental c (get label_rental_id labels) (get label_ssh_port labels)

-- The loop of `running_rentals`, with its `continue`s.
unfoldable pub rentals_of : List Container → List RunningRental
rentals_of [] = []
rentals_of (c ∷ cs) = elim (rental_of_container c) [
  | some r ↦ r ∷ rentals_of cs
  | none ↦ rentals_of cs
]

-- The labels that `start_rental` stamps on a container.
abbrev pub stamped : ℕ → ℤ → Labels
stamped rental_id ssh_port =
    (label_rental_id, decimal rental_id) ∷ (label_ssh_port, decimal_ℤ ssh_port) ∷ []

abbrev pub config_for : RentalSpec → ℤ → ContainerConfig
config_for spec ssh_port = record {
  image = spec.image;
  env =
      format ("PUBLIC_KEY=" ∷ spec.ssh_pubkey ∷ [])
      ∷ format ("SSH_PUBLIC_KEY=" ∷ spec.ssh_pubkey ∷ [])
      ∷ [];
  exposed_ports = container_ssh_port ∷ [];
  labels = stamped spec.rental_id ssh_port;
  port_bindings =
      (container_ssh_port, record { host_ip = "0.0.0.0"; host_port = decimal_ℤ ssh_port }) ∷ [];
  device_requests = record { driver = ""; count = negsuc 0; capabilities = ("gpu" ∷ []) ∷ [] } ∷ [];
}

module _ (d : Daemon) where
  -- What the launcher does: an answer, and the daemon's state after it.
  abbrev pub Action {ℓ} : Type ℓ → Type ℓ
  Action A = d.State → Result String A × d.State

  abbrev pub and_then {ℓ κ} :
      {A : Type ℓ} {B : Type κ}
      → Result String A × d.State
      → (A → Action B)
      → Result String B × d.State
  and_then (ok a, s) f = f a s
  and_then (err e, s) f = (err e, s)

  infixl 5 ◌>>=◌ ◌>>◌
  abbrev pub ◌>>=◌ {ℓ κ} : {A : Type ℓ} {B : Type κ} → Action A → (A → Action B) → Action B
  ◌>>=◌ m f s = and_then (m s) f

  abbrev pub ◌>>◌ {ℓ} : {B : Type ℓ} → Action (Unit {0}) → Action B → Action B
  m >> k = m >>= λ _. k

  abbrev pub returned {ℓ} : {A : Type ℓ} → Result String A → Action A
  returned r s = (r, s)

  abbrev pub described {ℓ} : {A : Type ℓ} → String → Result DockerError A → Result String A
  described what r = map_err (λ e. format (what ∷ ": " ∷ d.display e ∷ [])) r

  -- A call of the daemon, with the context of its error.
  abbrev pub with_context {ℓ} :
      {A : Type ℓ} → String → (d.State → Result DockerError A × d.State) → Action A
  with_context what call s = (described what (call s).0, (call s).1)

  -- The loop over the items of a pull.
  unfoldable pub drain : List (Result DockerError (Unit {0})) → Result String (Unit {0})
  drain [] = ok tt
  drain (ok _ ∷ items) = drain items
  drain (err e ∷ items) = described "image pull stream" (err e)

  unfoldable pub pull_image : String → Action (Unit {0})
  pull_image image s =
      let (from_image, tag) = split_image_tag image in
      let (items, s') = d.create_image from_image tag s in (drain items, s')

  unfoldable pub running_rentals : Action (List RunningRental)
  running_rentals s =
      and_then (described "listing containers" (d.list_containers label_rental_id s), s)
        (λ containers. returned (ok (rentals_of containers)))

  unfoldable pub used_ports : Action (List ℤ)
  used_ports = running_rentals >>= λ rentals. returned (ok (map (λ r. r.ssh_port) rentals))

  -- An answer that the container is not there is as good as a removal.
  abbrev removed : Result DockerError (Unit {0}) → Result String (Unit {0})
  removed (ok _) = ok tt
  removed (err e) = if is_not_found e then ok tt else described "removing container" (err e)

  unfoldable pub force_remove : String → Action (Unit {0})
  force_remove name s = (removed (d.remove_container name s).0, (d.remove_container name s).1)

  abbrev stopped : Result DockerError (Unit {0}) → Result String (Unit {0})
  stopped (ok _) = ok tt
  stopped (err e) =
      if is_not_found e || is_not_modified e then ok tt else described "stopping container" (err e)

  abbrev pub stop_call : String → Action (Unit {0})
  stop_call name s = (stopped (d.stop_container name 10 s).0, (d.stop_container name 10 s).1)

  unfoldable pub stop_rental : ℕ → Action (Unit {0})
  stop_rental rental_id = do
    stop_call (container_name rental_id)
    force_remove (container_name rental_id)

  module _ (port_start port_end : ℤ) where
    abbrev pub port_or_error : List ℤ → Result String ℤ
    port_or_error used =
        ok_or (pick_free_port port_start port_end used)
          (format ("no free SSH port in " ∷ decimal_ℤ port_start ∷ "..=" ∷ decimal_ℤ port_end ∷ []))

    -- Create the container and start it, on a port that was picked.
    unfoldable pub launch : RentalSpec → ℤ → Action Started
    launch spec ssh_port = do
      let name = container_name spec.rental_id
      force_remove name
      id ← with_context "creating container" (d.create_container name (config_for spec ssh_port))
      with_context "starting container" (d.start_container name)
      returned (ok (record { container_id = id; ssh_port = ssh_port; kind = RentalKind.ssh }))

    abbrev pub pulled : RentalSpec → Action (Unit {0})
    pulled spec s = (
      map_err (λ e. format ("pulling image " ∷ spec.image ∷ ": " ∷ e ∷ []))
          (pull_image spec.image s).0,
      (pull_image spec.image s).1,
    )

    unfoldable pub start_rental : RentalSpec → Action Started
    start_rental spec = do
      pulled spec
      used ← used_ports
      ssh_port ← returned (port_or_error used)
      launch spec ssh_port

    unfoldable pub available : d.State → Result String (List ℤ)
    available s =
        let answer =
          (used_ports >>= λ used. returned (ok (free_ports port_start port_end used))) s in
        answer.0

    -- `impl HostRuntime for DockerRuntime`
    abbrev pub docker_runtime : HostRuntime
    docker_runtime = record {
      State = d.State;
      start_rental = start_rental;
      stop_rental = stop_rental;
      running_rentals = running_rentals;
      available = available;
    }
