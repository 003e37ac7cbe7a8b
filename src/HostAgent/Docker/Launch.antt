-- ===== src/HostAgent/Docker/Launch.antt =====
-- What a launch that succeeds has done.
use computation_market_poc.Prelude.{
  ◌≡◌, refl, ap, sym, ◌∙◌, String, false, List, map, Result, ok, err, some, ok_or-eq_ok,
  ok_injective,
}
use computation_market_poc.Prelude.Int.{ℤ, ◌≤ℤ◌}
use computation_market_poc.Prelude.Key.{port_eq}
use computation_market_poc.Prelude.Table.{contains}
use computation_market_poc.HostAgent.Ports.{pick_free_port}
use computation_market_poc.HostAgent.Ports.Lowest.{UsedFrom, pick_free_port-lowest}
use computation_market_poc.HostAgent.Runtime.{RentalSpec, Started, RunningRental, container_name}
use computation_market_poc.HostAgent.Docker.{
  Daemon, and_then, returned, pulled, used_ports, running_rentals, port_or_error, launch,
  start_rental, config_for, force_remove, with_context,
}

module _ (d : Daemon) where
  and_then-eq_ok {ℓ κ} :
      {A : Type ℓ} {B : Type κ} (r : Result String A × d.State)
      (f : A → d.State → Result String B × d.State) (b : B) (s' : d.State)
      → and_then d r f ≡ (ok b, s')
      → (a : A) × (s : d.State) × (r ≡ (ok a, s)) × (f a s ≡ (ok b, s'))
  and_then-eq_ok (ok a, s) f b s' h = (a, s, refl, h)
  and_then-eq_ok (err e, s) f b s' h = cc

  module _ (port_start port_end : ℤ) where
    launch_port :
        (spec : RentalSpec) (port : ℤ) (s s' : d.State) (started : Started)
        → launch d port_start port_end spec port s ≡ (ok started, s')
        → started.ssh_port ≡ port
    unfolding launch
    launch_port spec port s s' started h =
        let name = container_name spec.rental_id in
        let (_, s1, _, creates) = and_then-eq_ok (force_remove d name s) _ started s' h in
        let (id, s2, _, starts) =
          and_then-eq_ok
            (with_context d "creating container" (d.create_container name (config_for spec port))
              s1)
            _ started s' creates in
        let (_, s3, _, answers) =
          and_then-eq_ok (with_context d "starting container" (d.start_container name) s2) _ started
            s' starts in
        sym (
          ap (λ (x : Started). x.ssh_port)
            (ok_injective (ap (λ (r : Result String Started × d.State). r.0) answers)))

    -- A launch that succeeds used the lowest port of the range that no running rental had, as the
    -- daemon listed them after the pull of the image.
    pub start_rental-lowest :
        (spec : RentalSpec) (s s' : d.State) (started : Started)
        → start_rental d port_start port_end spec s ≡ (ok started, s')
        → (rentals : List RunningRental) × (s1 : d.State) × (running_rentals d
              (pulled d port_start port_end spec s).1
            ≡ (ok rentals, s1))
          × (port_start ≤ℤ started.ssh_port)
          × (started.ssh_port ≤ℤ port_end)
          × (contains started.ssh_port (map (λ r. r.ssh_port) rentals) ≡ false)
          × UsedFrom (map (λ r. r.ssh_port) rentals) port_start started.ssh_port
    unfolding start_rental used_ports launch
    start_rental-lowest spec s s' started h =
        let (_, s1, pull, rest) =
          and_then-eq_ok (pulled d port_start port_end spec s) _ started s' h in
        let (used, s2, listed, rest') = and_then-eq_ok (used_ports d s1) _ started s' rest in
        let (rentals, s3, ran, collected) =
          and_then-eq_ok (running_rentals d s1) (λ rs. returned d (ok (map (λ r. r.ssh_port) rs)))
            used s2 listed in
        let (port, s4, picked, launched) =
          and_then-eq_ok (returned d (port_or_error d port_start port_end used) s2) _ started s'
            rest' in
        let is_used : map (λ r. r.ssh_port) rentals ≡ used =
          ok_injective (ap (λ (r : Result String (List ℤ) × d.State). r.0) collected) in
        let free : pick_free_port port_start port_end used ≡ some port =
          ok_or-eq_ok (pick_free_port port_start port_end used) _ port
            (ap (λ (r : Result String ℤ × d.State). r.0) picked) in
        let (low, high, unused, lower) = pick_free_port-lowest port_start port_end used port free in
        let same = launch_port spec port s4 s' started launched in
        let after : (pulled d port_start port_end spec s).1 ≡ s1 =
          ap (λ (r : Result String (Unit {0}) × d.State). r.1) pull in
        (
          rentals,
          s3,
          ap (running_rentals d) after ∙ ran,
          rw same low,
          rw same high,
          rw (same, is_used) unused,
          rw (same, is_used) lower,
        )
