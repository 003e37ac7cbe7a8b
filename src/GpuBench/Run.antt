-- ===== src/GpuBench/Run.antt =====
-- The command line crates/gpu-bench/src/main.rs: the choice of a backend, and the order in which
-- `run` measures. What was built in, and what the constructors of the backends answer, are
-- parameters. The notes on standard error are left out.
pub mod Resolved
pub mod Tables
use Prim.Native.String
use Prim.Native.Nat.{◌*◌, ◌%◌, ◌^◌}
use computation_market_poc.Prelude.{
  ℕ, String, Bool, true, false, not, ◌&&◌, List, [], ◌∷◌, ◌++◌, map, Option, none, some, Result, ok,
  err, ◌>>=◌, map_err, if◌then◌else◌,
}
use computation_market_poc.GpuBench.Backend.{Floats, Backend}
use computation_market_poc.GpuBench.Network.{Peer}
use computation_market_poc.GpuBench.Suite.{SuiteConfig, Report, run_suite, phases}

pub data BackendChoice : Type 0 where
  auto : BackendChoice
  wgpu : BackendChoice
  metal : BackendChoice
  cuda : BackendChoice

pub record RunArgs : Type 0 where
  pub n : ℕ
  pub iters : ℕ
  pub warmup : ℕ
  pub bandwidth_m : ℕ
  pub backend : BackendChoice
  pub skip_fp16 : Bool
  pub json : Bool
  pub verbose : Bool

-- The target and the features of the build, and its backends.
pub record Build (F64 : Type 0) : Type 0 where
  pub macos : Bool
  pub cuda_feature : Bool
  pub new_wgpu : Result String (Backend F64)
  pub new_metal : Result String (Backend F64)
  pub new_cuda : Result String (Backend F64)

-- `anyhow`'s context, as `{:#}` prints it.
abbrev pub context {ℓ} : {A : Type ℓ} → String → Result String A → Result String A
context what r = map_err (λ e. String.◌++◌ what (String.◌++◌ ": " e)) r

abbrev pub is_auto : BackendChoice → Bool
is_auto BackendChoice.auto = true
is_auto _ = false

abbrev pub is_wgpu : BackendChoice → Bool
is_wgpu BackendChoice.wgpu = true
is_wgpu _ = false

-- The three texts for a backend. `backend_note` has an arm that is `unreachable!`.
unfoldable pub backend_label : BackendChoice → String
backend_label BackendChoice.metal = "Native (Metal)"
backend_label BackendChoice.cuda = "Native (cuBLAS)"
backend_label BackendChoice.wgpu = "Portable (wgpu)"
backend_label BackendChoice.auto = "auto"

unfoldable pub native_peak_desc : BackendChoice → String
native_peak_desc BackendChoice.metal = "peak via Apple matrix units (simdgroup_matrix)"
native_peak_desc BackendChoice.cuda = "peak via NVIDIA tensor cores (cuBLAS)"
native_peak_desc BackendChoice.wgpu = "native peak"
native_peak_desc BackendChoice.auto = "native peak"

unfoldable pub backend_note : BackendChoice → Option String
backend_note BackendChoice.wgpu =
    some "portable ALU throughput (no tensor cores) — good for ranking, below vendor peak."
backend_note BackendChoice.metal =
    some
      "native Metal simdgroup_matrix (Apple matrix units) — a basic kernel: above the portable path, below a fully-tuned library."
backend_note BackendChoice.cuda = some "cuBLAS on NVIDIA tensor cores."
backend_note BackendChoice.auto = none

module _ (fl : Floats) (build : Build fl.F64) where
  abbrev Made : Type 0
  Made = Result String (Backend fl.F64 × BackendChoice)

  abbrev pub made : BackendChoice → Result String (Backend fl.F64) → Made
  made choice r = r >>= λ be. ok (be, choice)

  -- A native backend that does not start gives way to the portable one.
  abbrev or_wgpu : Made → Made
  or_wgpu (ok m) = ok m
  or_wgpu (err e) = made BackendChoice.wgpu build.new_wgpu

  unfoldable pub make_auto_backend : Made
  make_auto_backend =
      if build.cuda_feature
      then or_wgpu (made BackendChoice.cuda build.new_cuda)
      else if build.macos
      then or_wgpu (made BackendChoice.metal build.new_metal)
      else made BackendChoice.wgpu build.new_wgpu

  unfoldable pub make_backend : BackendChoice → Made
  make_backend BackendChoice.auto = make_auto_backend
  make_backend BackendChoice.wgpu = made BackendChoice.wgpu build.new_wgpu
  make_backend BackendChoice.metal =
      if build.macos
      then made BackendChoice.metal build.new_metal
      else err "the metal backend is macOS-only"
  make_backend BackendChoice.cuda =
      if build.cuda_feature
      then made BackendChoice.cuda build.new_cuda
      else err "cuda backend not built — rebuild with `--features cuda` on an NVIDIA host"

  -- `matches!(args.backend, Auto) && !matches!(resolved_backend, Wgpu)`
  abbrev pub compare_portable : RunArgs → BackendChoice → Bool
  compare_portable args resolved = is_auto args.backend && not (is_wgpu resolved)

  -- The product of `u64` wraps.
  abbrev pub config_of : RunArgs → SuiteConfig
  config_of args = record {
    n = args.n;
    iters = args.iters;
    warmup = args.warmup;
    bandwidth_elems = args.bandwidth_m * 1000000 % 2 ^ 64;
    include_fp16 = not args.skip_fp16;
    include_network = true;
  }

  pub record Measured : Type 0 where
    pub resolved : BackendChoice
    pub report : Report fl.F64
    pub portable : Option (Report fl.F64)

  module _ (peer : Peer fl.F64) where
    -- The comparison, if there is one: it runs first.
    unfoldable pub portable_suite : RunArgs → BackendChoice → Result String (Option (Report fl.F64))
    portable_suite args resolved =
        if compare_portable args resolved
        then (make_backend BackendChoice.wgpu >>= λ m.
            context "running portable comparison suite"
              (run_suite fl peer m.0 (record (config_of args) { include_network = false }))
            >>= λ p. ok (some p))
        else ok none

    unfoldable pub run : RunArgs → Result String Measured
    run args = do
      (be, resolved) ← context "initializing backend" (make_backend args.backend)
      portable ← portable_suite args resolved
      report ← context "running benchmark suite" (run_suite fl peer be (config_of args))
      ok (record { resolved = resolved; report = report; portable = portable })
