-- ===== src/HostAgent/Docker/Recovery.antt =====
-- An agent that starts again finds its rentals in the labels of the running containers.
use Prim.Native.Nat.{◌<◌}
use computation_market_poc.Prelude.{ℕ, ◌≡◌, refl, ap, String, List, [], ◌∷◌, some, arith, map}
use computation_market_poc.Prelude.Int.{pos}
use computation_market_poc.Prelude.Text.{decimal_ℤ}
use computation_market_poc.HostAgent.Runtime.{RunningRental}
use computation_market_poc.HostAgent.Parse.Printed.{parse_signed-decimal}
use computation_market_poc.HostAgent.Docker.{
  Container, stamped, get, rental_of_container, rentals_of,
}

-- A rental with the container that runs it, as the launcher made it.
pub record Launched : Type 0 where
  pub rental_id : ℕ
  pub container_id : String
  pub ssh_port : ℕ

abbrev pub InWidth : Launched → Type 0
InWidth l = (l.rental_id < 9223372036854775808) × (l.ssh_port < 2147483648)

abbrev pub AllInWidth : List Launched → Type 0
AllInWidth [] = Unit
AllInWidth (l ∷ ls) = InWidth l × AllInWidth ls

abbrev pub container_of : Launched → Container
container_of l = record {
  id = some l.container_id;
  labels = some (stamped l.rental_id (pos l.ssh_port));
}

abbrev pub rental_of : Launched → RunningRental
rental_of l = record {
  rental_id = pos l.rental_id;
  container_id = l.container_id;
  ssh_port = pos l.ssh_port;
}

one_rental : (l : Launched) → InWidth l → rental_of_container (container_of l) ≡ some (rental_of l)
unfolding rental_of_container get decimal_ℤ
one_rental l h =
    rw
      (
        parse_signed-decimal 9223372036854775808 l.rental_id (omega arith) h.0,
        parse_signed-decimal 2147483648 l.ssh_port (omega arith) h.1,
      )
      refl

-- Whatever rentals were launched, with numbers that an `i64` and ports that an `i32` holds, the
-- rentals that the agent reads off their containers are those, in their order, each with its
-- number, its container and its port.
pub rentals_of-launched :
    (launched : List Launched)
    → AllInWidth launched
    → rentals_of (map container_of launched) ≡ map rental_of launched
unfolding rentals_of
rentals_of-launched [] h = refl
rentals_of-launched (l ∷ ls) h =
    rw (one_rental l h.0, rentals_of)
      (ap (λ (rentals : List RunningRental). rental_of l ∷ rentals) (rentals_of-launched ls h.1))
