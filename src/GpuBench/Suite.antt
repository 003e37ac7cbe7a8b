-- ===== src/GpuBench/Suite.antt =====
-- crates/gpu-bench/src/suite.rs: one pass of measurements over a backend. The notes on standard
-- error are left out; the labels of the phases are what `on_phase` is called with, in order.
use computation_market_poc.Prelude.{
  ℕ, String, Bool, true, List, [], ◌∷◌, ◌++◌, Option, none, some, Result, ok, err, ◌>>=◌,
  if◌then◌else◌,
}
use computation_market_poc.GpuBench.Backend.{
  Floats, Precision, DeviceInfo, GemmResult, BandwidthResult, NetworkResult, Backend,
}
use computation_market_poc.GpuBench.Network.{Peer, probe, default_net_config}

pub record SuiteConfig : Type 0 where
  pub n : ℕ
  pub iters : ℕ
  pub warmup : ℕ
  pub bandwidth_elems : ℕ
  pub include_fp16 : Bool
  pub include_network : Bool

abbrev pub default_config : SuiteConfig
default_config = record {
  n = 2048;
  iters = 50;
  warmup = 10;
  bandwidth_elems = 32000000;
  include_fp16 = true;
  include_network = true;
}

pub record Report (F64 : Type 0) : Type 0 where
  pub device : DeviceInfo
  pub gemm_fp32 : Option (GemmResult F64)
  pub gemm_fp16 : Option (GemmResult F64)
  pub bandwidth : Option (BandwidthResult F64)
  pub network : Option (NetworkResult F64)

-- A failure that is noted and not fatal.
abbrev pub best_effort {ℓ} : {A : Type ℓ} → Result String A → Option A
best_effort (ok a) = some a
best_effort (err e) = none

module _ (fl : Floats) (peer : Peer fl.F64) where
  -- The report on a backend whose fp32 measurement is this one.
  abbrev pub report_of : Backend fl.F64 → SuiteConfig → GemmResult fl.F64 → Report fl.F64
  report_of be cfg gemm_fp32 = record {
    device = be.device_info;
    gemm_fp32 = some gemm_fp32;
    gemm_fp16 =
        if cfg.include_fp16
        then best_effort (be.gemm cfg.n Precision.f16 cfg.warmup cfg.iters)
        else none;
    bandwidth = best_effort (be.bandwidth cfg.bandwidth_elems cfg.warmup cfg.iters);
    network = if cfg.include_network then best_effort (probe fl peer default_net_config) else none;
  }

  unfoldable pub run_suite : Backend fl.F64 → SuiteConfig → Result String (Report fl.F64)
  run_suite be cfg = be.gemm cfg.n Precision.f32 cfg.warmup cfg.iters >>= λ gemm_fp32.
      ok (report_of be cfg gemm_fp32)

  -- The phases after the first are reached if that succeeds.
  abbrev later_phases : SuiteConfig → Result String (GemmResult fl.F64) → List String
  later_phases cfg (err e) = []
  later_phases cfg (ok _) =
      (if cfg.include_fp16 then "fp16 GEMM" ∷ [] else [])
      ++ ("memory bandwidth" ∷ (if cfg.include_network then "network probe" ∷ [] else []))

  unfoldable pub phases : Backend fl.F64 → SuiteConfig → List String
  phases be cfg = "fp32 GEMM" ∷ later_phases cfg (be.gemm cfg.n Precision.f32 cfg.warmup cfg.iters)
