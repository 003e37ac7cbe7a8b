-- ===== src/HostAgent/Metal/Allotment.antt =====
-- No two workers are given one port.
use computation_market_poc.Prelude.{
  ℕ, String, ◌≡◌, refl, Bool, false, List, [], ◌∷◌, map, Bool-cases, inl, inr, arith, not, Option,
  some, none, Result, ok, Result-cases, ◌>>=◌, >>=-eq_ok, ok_or,
}
use computation_market_poc.Prelude.Int.{ℤ, ◌≤ℤ◌}
use computation_market_poc.Prelude.Key.{Comparable, ◌==◌, nat_eq, port_eq}
use computation_market_poc.Prelude.Table.{All, All-select, Distinct, contains, select}
use computation_market_poc.HostAgent.Ports.{pick_free_port}
use computation_market_poc.HostAgent.Ports.Lowest.{pick_free_port-lowest}
use computation_market_poc.HostAgent.Runtime.{RentalSpec}
use computation_market_poc.HostAgent.Metal.{
  MetalRuntime, Job, MetalTask, port_of, id_of, used_ports, with_job, launch, parse_task,
  start_rental, stop_rental, running_rentals,
}

-- A selection has no keys but those of the rows.
contains-select {ℓ κ} :
    {A : Type ℓ} {K : Type κ} ⦃e : Comparable K⦄ (key : A → K) (p : A → Bool) (k : K)
    (rows : List A)
    → contains k (map key rows) ≡ false
    → contains k (map key (select p rows)) ≡ false
unfolding select
contains-select key p k [] h = refl
contains-select key p k (r ∷ rows) h = ground (arith, contains-select key p k rows)

Distinct-select {ℓ κ} :
    {A : Type ℓ} {K : Type κ} ⦃e : Comparable K⦄ (key : A → K) (p : A → Bool) (rows : List A)
    → Distinct (map key rows)
    → Distinct (map key (select p rows))
unfolding select
Distinct-select key p [] h = tt
Distinct-select key p (r ∷ rows) h = elim (Bool-cases (p r)) [
  | inl kept ↦ rw kept (contains-select key p (key r) rows h.0, Distinct-select key p rows h.1)
  | inr left_out ↦ rw left_out (Distinct-select key p rows h.1)
]

-- A selection without a key does not hold it.
contains-without {ℓ κ} :
    {A : Type ℓ} {K : Type κ} ⦃e : Comparable K⦄ (key : A → K) (k : K) (rows : List A)
    → contains k (map key (select (λ r. not (key r == k)) rows)) ≡ false
unfolding select
contains-without key k [] = refl
contains-without key k (r ∷ rows) = ground (arith, contains-without key k rows)

launched_at :
    {Child : Type 0} (o : Option ℤ) (e : String) (f : ℤ → Result String Child) (port : ℤ)
    (child : Child)
    → ◌>>=◌ {B = ℤ × Child} (ok_or o e) (λ q. f q >>= λ c. ok (q, c)) ≡ ok (port, child)
    → o ≡ some port
launched_at none e f port child h = cc
launched_at (some p) e f port child h = elim (Result-cases (f p)) [
  | inl (c, runs) ↦ let h' = rw runs at h in cc
  | inr (x, fails) ↦ let h' = rw fails at h in cc
]

module _ {Child : Type 0} where
  -- Every job's port is in the range, no two jobs have one port, and a rental has one job.
  pub record Allotted (rt : MetalRuntime Child) : Type 0 where
    pub in_range :
        All (λ entry. (rt.port_start ≤ℤ port_of entry) × (port_of entry ≤ℤ rt.port_end)) rt.jobs
    pub own_ports : Distinct (map port_of rt.jobs)
    pub own_jobs : Distinct (map id_of rt.jobs)

  -- Taking jobs away keeps the ports apart.
  fewer-Allotted :
      (keep : ℕ × Job Child → Bool) (rt : MetalRuntime Child)
      → Allotted rt
      → Allotted (record rt { jobs = select keep rt.jobs })
  fewer-Allotted keep rt v = record {
    in_range = All-select _ keep rt.jobs v.in_range;
    own_ports = Distinct-select port_of keep rt.jobs v.own_ports;
    own_jobs = Distinct-select id_of keep rt.jobs v.own_jobs;
  }

  with_job-Allotted :
      (id : ℕ) (job : Job Child) (rt : MetalRuntime Child)
      → Allotted rt
      → pick_free_port rt.port_start rt.port_end (used_ports rt) ≡ some job.port
      → Allotted (with_job id job rt)
  unfolding used_ports
  with_job-Allotted id job rt v picked =
      let (at_least, at_most, free, lower) =
        pick_free_port-lowest rt.port_start rt.port_end (used_ports rt) job.port picked in
      let kept = fewer-Allotted (λ entry. not (entry.0 == id)) rt v in
      record {
        in_range = ((at_least, at_most), kept.in_range);
        own_ports = (
          contains-select port_of (λ entry. not (entry.0 == id)) job.port rt.jobs free,
          kept.own_ports,
        );
        own_jobs = (contains-without id_of id rt.jobs, kept.own_jobs);
      }

  module _ (debug : String → String) (spawn : ℕ → ℤ → Result String Child) where
    launch_port :
        (id : ℕ) (task : MetalTask) (rt : MetalRuntime Child) (port : ℤ) (child : Child)
        → launch debug spawn id task rt ≡ ok (port, child)
        → pick_free_port rt.port_start rt.port_end (used_ports rt) ≡ some port
    unfolding launch
    launch_port id (MetalTask.gemm n) rt port child h =
        launched_at (pick_free_port rt.port_start rt.port_end (used_ports rt)) _ (spawn n) port
          child h

    start_rental-Allotted :
        (spec : RentalSpec) (rt : MetalRuntime Child)
        → Allotted rt
        → Allotted (start_rental debug spawn spec rt).1
    unfolding start_rental
    start_rental-Allotted spec rt v =
        elim (Result-cases
          (parse_task debug spec.image >>= λ task. launch debug spawn spec.rental_id task rt)) [
            | inr (e, refused) ↦ rw refused v
            | inl ((port, child), launched) ↦
                let (task, parsed, ran) =
                  >>=-eq_ok (parse_task debug spec.image) _ (port, child) launched in
                rw launched (
                  with_job-Allotted spec.rental_id (record { child = child; port = port }) rt v
                    (launch_port spec.rental_id task rt port child ran))
          ]

    -- Where every worker has a port of its own in the host's range, and every rental one worker
    -- at most, this stays so when a rental is started, successfully or not, when one is stopped,
    -- and when the launcher looks for those that run.
    pub metal_runtime-Allotted :
        (spec : RentalSpec) (id : ℕ) (exited : Child → Bool) (rt : MetalRuntime Child)
        → Allotted rt
        → Allotted (start_rental debug spawn spec rt).1
          × Allotted (stop_rental id rt).1
          × Allotted (running_rentals exited rt).1
    unfolding stop_rental running_rentals
    metal_runtime-Allotted spec id exited rt v = (
      start_rental-Allotted spec rt v,
      fewer-Allotted (λ entry. not (entry.0 == id)) rt v,
      fewer-Allotted (λ entry. not (exited entry.1.child)) rt v,
    )
