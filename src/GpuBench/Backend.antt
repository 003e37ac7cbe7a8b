-- ===== src/GpuBench/Backend.antt =====
-- crates/gpu-bench/src/backend.rs: the results of measurements and the interface to a backend. The
-- floating-point numbers and how they are printed are a parameter.
use computation_market_poc.Prelude.{ℕ, String, Bool, Result}

-- `f64`: `fmt d` is `{:.d}`.
pub record Floats : Type 1 where
  pub F64 : Type 0
  pub of_u64 : ℕ → F64
  pub times : F64 → F64 → F64
  pub over : F64 → F64 → F64
  pub min : F64 → F64 → F64
  pub max : F64 → F64 → F64
  pub infinity : F64
  pub fmt : ℕ → F64 → String

pub data Precision : Type 0 where
  f32 : Precision
  f16 : Precision

-- Bytes per element.
unfoldable pub size : Precision → ℕ
size Precision.f32 = 4
size Precision.f16 = 2

unfoldable pub as_str : Precision → String
as_str Precision.f32 = "fp32"
as_str Precision.f16 = "fp16"

pub record DeviceInfo : Type 0 where
  pub name : String
  pub backend : String
  pub device_type : String

pub record GemmResult (F64 : Type 0) : Type 0 where
  pub device : String
  pub backend : String
  pub precision : Precision
  pub n : ℕ
  pub iterations : ℕ
  pub seconds : F64
  pub tflops : F64
  pub verified : Bool

pub record BandwidthResult (F64 : Type 0) : Type 0 where
  pub device : String
  pub backend : String
  pub bytes_per_iter : ℕ
  pub iterations : ℕ
  pub seconds : F64
  pub gb_per_s : F64

pub record NetworkResult (F64 : Type 0) : Type 0 where
  pub down_mbps : F64
  pub up_mbps : F64
  pub latency_ms : F64

-- The trait: what a device answers.
pub record Backend (F64 : Type 0) : Type 0 where
  pub device_info : DeviceInfo
  pub gemm : ℕ → Precision → ℕ → ℕ → Result String (GemmResult F64)
  pub bandwidth : ℕ → ℕ → ℕ → Result String (BandwidthResult F64)

-- `2.0 * (n as f64).powi(3) * iterations as f64 / seconds / 1e12`
unfoldable pub tflops_of : (fl : Floats) → ℕ → ℕ → fl.F64 → fl.F64
tflops_of fl n iterations seconds =
    let side = fl.of_u64 n in
    let cube = fl.times (fl.times side side) side in
    let flop = fl.times (fl.times (fl.of_u64 2) cube) (fl.of_u64 iterations) in
    fl.over (fl.over flop seconds) (fl.of_u64 1000000000000)

-- `(bytes_per_iter as f64 * iterations as f64) / seconds / 1e9`
unfoldable pub gb_per_s_of : (fl : Floats) → ℕ → ℕ → fl.F64 → fl.F64
gb_per_s_of fl bytes_per_iter iterations seconds =
    fl.over (fl.over (fl.times (fl.of_u64 bytes_per_iter) (fl.of_u64 iterations)) seconds)
      (fl.of_u64 1000000000)
