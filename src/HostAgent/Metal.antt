-- ===== src/HostAgent/Metal.antt =====
-- The Metal launcher of crates/host-agent/src/runtime.rs. `Child` is a child process, `debug` what
-- `{:?}` makes of a text, and `spawn` the answer of the operating system for a worker's size and
-- port. A rental's job is the first entry for its number.
pub mod Allotment
use Prim.Native.Nat.{◌*◌, ◌+◌, ◌-◌, ◌%◌, ◌^◌}
use Prim.Native.Char.{Char, code}
use Prim.Native.String
use computation_market_poc.Prelude.{
  ℕ, zero, suc, nat_beq, ltb, leb, String, Bool, true, false, List, [], ◌∷◌, map, Option, none,
  some, Result, ok, err, ◌>>=◌, ◌>>◌, ok_or, fail_if, if◌then◌else◌, ◌&&◌, not,
}
use computation_market_poc.Prelude.Int.{ℤ, pos}
use computation_market_poc.Prelude.Key.{◌==◌, nat_eq, string_eq}
use computation_market_poc.Prelude.Table.{select}
use computation_market_poc.Prelude.Text.{decimal, decimal_ℤ, strip_prefix}
use computation_market_poc.Core.Model.{RentalKind}
use computation_market_poc.HostAgent.Parse.{parse_u32}
use computation_market_poc.HostAgent.Ports.{pick_free_port, free_ports}
use computation_market_poc.HostAgent.Runtime.{RentalSpec, Started, RunningRental, HostRuntime}

-- `str::split_once(':')`
unfoldable pub split_once : String → String × Option String
split_once String.[] = ("", none)
split_once (String.◌∷◌ c s) =
    let rest = split_once s in
    if nat_beq (code c) 58 then ("", some s) else (String.◌∷◌ c rest.0, rest.1)

pub data MetalTask : Type 0 where
  gemm : ℕ → MetalTask

pub record Job (Child : Type 0) : Type 0 where
  pub child : Child
  pub port : ℤ

pub record MetalRuntime (Child : Type 0) : Type 0 where
  pub port_start : ℤ
  pub port_end : ℤ
  pub jobs : List (ℕ × Job Child)

module _ (debug : String → String) where
  -- The size, 2048 if none is given.
  unfoldable pub gemm_size : String → Option String → Result String ℕ
  gemm_size image none = ok 2048
  gemm_size image (some arg) =
      ok_or (parse_u32 arg) (String.◌++◌ "invalid GEMM size in " (debug image))

  unfoldable pub parse_task : String → Result String MetalTask
  parse_task image = do
    rest ← ok_or (strip_prefix "metal:" image) (
        String.◌++◌ "this host runs native Metal jobs only — image must be 'metal:gemm[:N]' (got "
          (String.◌++◌ (debug image) ")"))
    let (task, arg) = split_once rest
    fail_if (not (task == "gemm"))
        (String.◌++◌ "unknown Metal task " (String.◌++◌ (debug task) "; supported: gemm"))
    n ← gemm_size image arg
    fail_if (not (leb 256 n && leb n 16384 && nat_beq (n % 8) 0)) (
        String.◌++◌ "GEMM size must be a multiple of 8 in 256..=16384 (got "
          (String.◌++◌ (decimal n) ")"))
    ok (MetalTask.gemm n)

abbrev pub job_name : ℕ → String
job_name id = String.◌++◌ "metal-job-" (decimal id)

module _ {Child : Type 0} where
  -- The path of the program is left out.
  unfoldable pub connect : ℤ → ℤ → MetalRuntime Child
  connect port_start port_end = record { port_start = port_start; port_end = port_end; jobs = [] }

  abbrev pub port_of : ℕ × Job Child → ℤ
  port_of entry = entry.1.port

  abbrev pub id_of : ℕ × Job Child → ℕ
  id_of entry = entry.0

  unfoldable pub used_ports : MetalRuntime Child → List ℤ
  used_ports rt = map port_of rt.jobs

  -- `HashMap::remove`
  abbrev pub without : ℕ → List (ℕ × Job Child) → List (ℕ × Job Child)
  without id jobs = select (λ entry. not (entry.0 == id)) jobs

  -- `HashMap::insert`
  abbrev pub with_job : ℕ → Job Child → MetalRuntime Child → MetalRuntime Child
  with_job id job rt = record rt { jobs = (id, job) ∷ without id rt.jobs }

  module _ (debug : String → String) (spawn : ℕ → ℤ → Result String Child) where
    -- A worker for the task, at the port that is picked.
    unfoldable pub launch : ℕ → MetalTask → MetalRuntime Child → Result String (ℤ × Child)
    launch id (MetalTask.gemm n) rt = do
      port ← ok_or (pick_free_port rt.port_start rt.port_end (used_ports rt)) (
          String.◌++◌ "no free port in "
            (String.◌++◌ (decimal_ℤ rt.port_start) (String.◌++◌ "..=" (decimal_ℤ rt.port_end))))
      child ← spawn n port
      ok (port, child)

    abbrev pub started :
        ℕ
        → MetalRuntime Child
        → Result String (ℤ × Child)
        → Result String Started × MetalRuntime Child
    started id rt (err e) = (err e, rt)
    started id rt (ok (port, child)) = (
      ok (record { container_id = job_name id; ssh_port = port; kind = RentalKind.http_status }),
      with_job id (record { child = child; port = port }) rt,
    )

    unfoldable pub start_rental :
        RentalSpec → MetalRuntime Child → Result String Started × MetalRuntime Child
    start_rental spec rt =
        started spec.rental_id rt
          (parse_task debug spec.image >>= λ task. launch spec.rental_id task rt)

  -- Killing the worker may fail, which is ignored.
  unfoldable pub stop_rental :
      ℕ → MetalRuntime Child → Result String (Unit {0}) × MetalRuntime Child
  stop_rental id rt = (ok tt, record rt { jobs = without id rt.jobs })

  abbrev pub running_of : ℕ × Job Child → RunningRental
  running_of entry = record {
    rental_id = pos entry.0;
    container_id = job_name entry.0;
    ssh_port = entry.1.port;
  }

  -- `exited` tells of which workers `try_wait` yields a status.
  unfoldable pub running_rentals :
      (Child → Bool) → MetalRuntime Child → Result String (List RunningRental) × MetalRuntime Child
  running_rentals exited rt =
      let alive = select (λ entry. not (exited entry.1.child)) rt.jobs in
      (ok (map running_of alive), record rt { jobs = alive })

  unfoldable pub available : MetalRuntime Child → Result String (List ℤ)
  available rt = ok (free_ports rt.port_start rt.port_end (used_ports rt))

-- `impl HostRuntime for MetalRuntime`
abbrev pub metal_runtime :
    (Child : Type 0)
    → (String → String)
    → (ℕ → ℤ → Result String Child)
    → (Child → Bool)
    → HostRuntime
metal_runtime Child debug spawn exited = record {
  State = MetalRuntime Child;
  start_rental = start_rental debug spawn;
  stop_rental = stop_rental;
  running_rentals = running_rentals exited;
  available = available;
}
